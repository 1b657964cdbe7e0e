-- ===== src/SystemDns/Macos.antt =====
-- core/src/dns/sys/macos.rs: one file for each domain in the resolver's directory.
pub mod Contract
pub mod Tests
use sidedns.Prelude.{
  ◌≡◌, refl, ◌∙◌, Bool, true, false, ◌&&◌, ◌||◌, not, Option, none, some, List, [], ◌∷◌, ◌++◌, map,
  retain, any, arith, ◌==◌, list_beq, text_eq, text_eq_iff, nat_eq, if◌then◌else◌, Bool-cases,
  Option-cases, inl, inr,
}
use sidedns.Text.{Text, text, strip_prefix, contains}
use sidedns.HashMap
use sidedns.Files.{Disk, Rights, join, write, remove_file}
use sidedns.Files.Laws.{get-write, get-remove_file}
use sidedns.SystemDns.{SystemDnsManager}

-- `RESOLVER_DIR`
abbrev pub resolver_dir : Text
resolver_dir = text "/etc/resolver"

abbrev pub resolver_path : Text → Text
resolver_path domain = join resolver_dir domain

abbrev pub marker : Text
marker = text "Managed by SideDNS"

abbrev pub resolver_content : Text
resolver_content = text "# Managed by SideDNS — do not edit manually\nnameserver 127.0.53.53\n"

-- `domain.replace("*.", "")`
unfoldable pub without_stars : Text → Text
without_stars [] = []
without_stars (c ∷ []) = c ∷ []
without_stars (c ∷ d ∷ rest) =
    let stripped = without_stars rest in
    let kept = without_stars (d ∷ rest) in if c == b'*' && d == b'.' then stripped else c ∷ kept

-- Whether a path is a file of the directory itself, and the files that `read_dir` visits.
unfoldable pub is_entry : Text → Bool
unfolding strip_prefix any
is_entry path = elim (strip_prefix (resolver_dir ++ text "/") path) [
  | none ↦ false
  | some name ↦ not (any (λ c. c == b'/') name)
]

unfoldable pub entries : Disk → List Text
unfolding retain is_entry
entries disk = retain is_entry (map (λ e. e.0) disk)

-- `readable` is whether a file can be read, as text, and the directory listed.
module _ (rights : Rights) (readable : Text → Bool) where
  unfoldable pub is_sidedns_file : Text → Disk → Bool
  unfolding HashMap.get contains
  is_sidedns_file path disk =
      readable path && (elim (HashMap.get path disk) [ none ↦ false | some c ↦ contains marker c ])

  -- The loop of `remove_all_files`.
  unfoldable pub remove_files : List Text → Disk → Bool × Disk
  unfolding is_sidedns_file remove_file
  remove_files [] disk = (true, disk)
  remove_files (path ∷ paths) disk =
      let kept = remove_files paths disk in
      let (removed, disk') = remove_file rights path disk in
      let rest = remove_files paths disk' in
      if is_sidedns_file path disk then (if removed then rest else (false, disk')) else kept

  unfoldable pub remove_all_files : Disk → Bool × Disk
  unfolding remove_files entries
  remove_all_files disk =
      if readable resolver_dir then remove_files (entries disk) disk else (true, disk)

  -- The loop of `apply`.
  unfoldable pub write_files : List Text → Disk → Bool × Disk
  unfolding write without_stars
  write_files [] disk = (true, disk)
  write_files (domain ∷ domains) disk =
      let (written, disk') =
        write rights (resolver_path (without_stars domain)) resolver_content disk in
      let rest = write_files domains disk' in if written then rest else (false, disk')

  unfoldable pub apply : List Text → Disk → Bool × Disk
  unfolding remove_all_files write_files
  apply domains disk =
      if rights.may_create resolver_dir
      then (let (removed, disk') = remove_all_files disk in
          let rest = write_files domains disk' in if removed then rest else (false, disk'))
      else (false, disk)

  unfoldable pub revert : Disk → Bool × Disk
  unfolding remove_all_files
  revert disk = remove_all_files disk

  abbrev pub mac_os_configurator : SystemDnsManager Disk
  mac_os_configurator = record { apply = apply; revert = revert }
