-- ===== src/Files/Laws.antt =====
-- What a file holds after an operation on it or on another.
use sidedns.Prelude.{
  ◌≡◌, false, ◌||◌, [], ◌∷◌, list_beq, none, some, arith, ◌==◌, text_eq, if◌then◌else◌, ◌&&◌,
}
use sidedns.Text.{Text}
use sidedns.HashMap
use sidedns.HashMap.Laws.{get-insert, get-without}
use sidedns.Files.{Disk, Rights, join, exists, write, remove_file}

module _ (rights : Rights) (disk : Disk) (path : Text) where
  pub get-write :
      (content other : Text)
      → HashMap.get other (write rights path content disk).1
        ≡ (if rights.may_write path && path == other then some content else HashMap.get other disk)
  unfolding write
  get-write content other = ground (arith, get-insert path other content disk)

  pub get-remove_file :
      (other : Text)
      → HashMap.get other (remove_file rights path disk).1 ≡ (
          if (remove_file rights path disk).0 && path == other
          then none
          else HashMap.get other disk)
  unfolding remove_file
  get-remove_file other = ground (arith, get-without path other disk)

  pub exists-write :
      (content other : Text)
      → exists other (write rights path content disk).1
        ≡ ((rights.may_write path && path == other) || exists other disk)
  unfolding exists
  exists-write content other = ground (arith, get-write content other)

-- Joined paths differ with their names.
pub join-ne : (dir a b : Text) → (a == b) ≡ false → (join dir a == join dir b) ≡ false
unfolding list_beq
join-ne [] a b different = ground arith
join-ne (x ∷ dir) a b different = ground (arith, join-ne dir a b different)
