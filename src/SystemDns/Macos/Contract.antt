-- ===== src/SystemDns/Macos/Contract.antt =====
-- What applying and reverting leave of the files.
use sidedns.Prelude.{
  ◌≡◌, refl, sym, All, ◌∙◌, ap, Bool, true, false, ◌&&◌, ◌||◌, none, some, List, [], ◌∷◌, map,
  retain, any, arith, ◌==◌, text_eq, text_eq_iff, nat_eq, if◌then◌else◌, Bool-cases, inl, inr,
}
use sidedns.Text.{Text, strip_prefix, contains}
use sidedns.HashMap
use sidedns.Files.{Disk, Rights, write, remove_file}
use sidedns.Files.Laws.{get-write, get-remove_file}
use sidedns.SystemDns.Macos.{
  resolver_dir, resolver_path, marker, resolver_content, without_stars, is_entry, entries,
  is_sidedns_file, remove_files, remove_all_files, write_files, apply, revert,
}

-- Whether a path is one of a list.
abbrev pub among : Text → List Text → Bool
among path paths = any (λ q. q == path) paths

-- The keys of a map that pass a test are the paths that pass it and have a value.
among_keys :
    (keeps : Text → Bool) (path : Text) (disk : Disk)
    → among path (retain keeps (map (λ e. e.0) disk))
      ≡ (keeps path && (elim (HashMap.get path disk) [ none ↦ false | some _ ↦ true ]))
unfolding HashMap.get retain any
among_keys keeps path [] = ground (arith)
among_keys keeps path ((k, v) ∷ disk) = elim (Bool-cases (k == path)) [
  | inl same ↦ ground (arith, ap keeps ((text_eq_iff k path).0 same), among_keys keeps path disk)
  | inr different ↦ ground (arith, among_keys keeps path disk)
]

among-entries :
    (path : Text) (disk : Disk)
    → among path (entries disk)
      ≡ (is_entry path && (elim (HashMap.get path disk) [ none ↦ false | some _ ↦ true ]))
unfolding entries
among-entries path disk = among_keys is_entry path disk

module _ (rights : Rights) (readable : Text → Bool) where
  is_sidedns_file-remove_file :
      (p q : Text) (disk : Disk)
      → (remove_file rights q disk).0 ≡ true
      → is_sidedns_file rights readable p (remove_file rights q disk).1
        ≡ (if q == p then false else is_sidedns_file rights readable p disk)
  unfolding is_sidedns_file
  is_sidedns_file-remove_file p q disk done = ground (arith, get-remove_file rights disk q p)

  get-remove_files :
      (paths : List Text) (disk : Disk) (p : Text)
      → (remove_files rights readable paths disk).0 ≡ true
      → HashMap.get p (remove_files rights readable paths disk).1 ≡ (
          if among p paths && is_sidedns_file rights readable p disk
          then none
          else HashMap.get p disk)
  unfolding remove_files any
  get-remove_files [] disk p done = ground (arith)
  get-remove_files (q ∷ paths) disk p done =
      elim (Bool-cases (is_sidedns_file rights readable q disk)) [
        | inr kept ↦ ground (arith, text_eq_iff q p, get-remove_files paths disk p)
        | inl managed ↦ ground (
          arith,
          text_eq_iff q p,
          get-remove_file rights disk q p,
          is_sidedns_file-remove_file p q disk,
          get-remove_files paths (remove_file rights q disk).1 p,
        )
      ]

  -- If the directory can be listed, what is removed are its entries that SideDNS manages.
  get-revert :
      (disk : Disk) (p : Text)
      → readable resolver_dir ≡ true
      → (revert rights readable disk).0 ≡ true
      → HashMap.get p (revert rights readable disk).1 ≡ (
          if is_entry p && is_sidedns_file rights readable p disk then none else HashMap.get p disk)
  unfolding revert remove_all_files is_sidedns_file
  get-revert disk p listed done =
      ground (arith, among-entries p disk, get-remove_files (entries disk) disk p)

  abbrev pub written : List Text → List Text
  written domains = map (λ d. resolver_path (without_stars d)) domains

  get-write_files :
      (domains : List Text) (disk : Disk) (p : Text)
      → (write_files rights readable domains disk).0 ≡ true
      → HashMap.get p (write_files rights readable domains disk).1
        ≡ (if among p (written domains) then some resolver_content else HashMap.get p disk)
  unfolding write_files any write
  get-write_files [] disk p done = refl
  get-write_files (d ∷ domains) disk p done = ground (
    arith,
    get-write rights disk (resolver_path (without_stars d)) resolver_content p,
    get-write_files domains (write rights (resolver_path (without_stars d)) resolver_content disk).1
        p,
  )

  -- No domain has a slash, and every file can be read.
  abbrev pub IsFlat : Text → Type 0
  IsFlat domain = any (λ c. c == b'/') (without_stars domain) ≡ false

  is_entry-resolver_path : (d : Text) → IsFlat d → is_entry (resolver_path (without_stars d)) ≡ true
  unfolding is_entry strip_prefix
  is_entry-resolver_path d flat = rw flat refl

  is_entry-written :
      (domains : List Text) (p : Text)
      → All IsFlat domains
      → among p (written domains) ≡ true
      → is_entry p ≡ true
  unfolding any
  is_entry-written [] p flat found = ground (arith)
  is_entry-written (d ∷ domains) p (flat, rest) found =
      elim (Bool-cases (resolver_path (without_stars d) == p)) [
        | inl same ↦
            ap is_entry (sym ((text_eq_iff (resolver_path (without_stars d)) p).0 same))
            ∙ is_entry-resolver_path d flat
        | inr different ↦ is_entry-written domains p rest (ground (arith))
      ]

  managed_content : contains marker resolver_content ≡ true
  unfolding contains strip_prefix
  managed_content = refl

  -- Applied and reverted, both with success, where every file can be read, the directory listed,
  -- and no domain has a slash, the configuration leaves every file as it was, but for those that
  -- SideDNS managed in the directory before, and those with the name of a domain, whoever wrote
  -- them: both are gone.
  pub revert-apply :
      (domains : List Text) (disk : Disk) (p : Text)
      → ((q : Text) → readable q ≡ true)
      → All IsFlat domains
      → (apply rights readable domains disk).0 ≡ true
      → (revert rights readable (apply rights readable domains disk).1).0 ≡ true
      → HashMap.get p (revert rights readable (apply rights readable domains disk).1).1 ≡ (
          if among p (written domains) || (is_entry p && is_sidedns_file rights readable p disk)
          then none
          else HashMap.get p disk)
  unfolding apply is_sidedns_file revert
  revert-apply domains disk p reads flat applied reverted =
      let cleaned = (remove_all_files rights readable disk).1 in
      let after = (apply rights readable domains disk).1 in
      let first = get-revert disk p (reads resolver_dir) in
      let second = get-write_files domains cleaned p in
      let last = get-revert after p (reads resolver_dir) reverted in
      elim (Bool-cases (among p (written domains))) [
        | inl new ↦
            ground
              (arith, second, last, reads p, is_entry-written domains p flat new, managed_content)
        | inr old ↦ ground (arith, first, second, last, reads p)
      ]
