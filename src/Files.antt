-- ===== src/Files.antt =====
-- `std::fs` as the program uses it: the contents of the files by their paths. What the system
-- allows is an argument; a write that fails changes nothing.
pub mod Laws
use sidedns.Prelude.{Bool, true, false, ◌&&◌, Option, none, some, ◌++◌, if◌then◌else◌}
use sidedns.Text.{Text, text}
use sidedns.HashMap
use sidedns.HashMap.{HashMap}

abbrev pub Disk : Type 0
Disk = HashMap Text

pub record Rights : Type 0 where
  pub may_create : Text → Bool
  pub may_write : Text → Bool
  pub may_remove : Text → Bool

-- `Path::join` with a relative path
abbrev pub join : Text → Text → Text
join dir name = dir ++ (text "/" ++ name)

-- `Path::exists` on a file
unfoldable pub exists : Text → Disk → Bool
unfolding HashMap.get
exists path disk = elim (HashMap.get path disk) [ none ↦ false | some _ ↦ true ]

module _ (rights : Rights) where
  unfoldable pub write : Text → Text → Disk → Bool × Disk
  unfolding HashMap.insert
  write path content disk =
      if rights.may_write path then (true, HashMap.insert path content disk) else (false, disk)

  unfoldable pub remove_file : Text → Disk → Bool × Disk
  unfolding exists HashMap.without
  remove_file path disk =
      if exists path disk && rights.may_remove path
      then (true, HashMap.without path disk)
      else (false, disk)
