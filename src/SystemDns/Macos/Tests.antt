-- ===== src/SystemDns/Macos/Tests.antt =====
-- A resolver file of the user's own, with the name of a rule's domain, and another beside it.
use sidedns.Prelude.{◌≡◌, refl, true, none, [], ◌∷◌, any, retain, list_beq}
use sidedns.Text.{Text, text, strip_prefix, contains}
use sidedns.HashMap
use sidedns.Files.{Disk, Rights, write, remove_file, exists}
use sidedns.SystemDns.Macos.{
  resolver_path, is_entry, entries, is_sidedns_file, without_stars, remove_files, remove_all_files,
  write_files, apply, revert, resolver_content,
}
use sidedns.SystemDns.Macos.Contract.{revert-apply}

abbrev root : Rights
root = record { may_create = λ _. true; may_write = λ _. true; may_remove = λ _. true }

abbrev own : Text
own = text "nameserver 10.0.0.1"

abbrev before : Disk
before = (resolver_path (text "local"), own) ∷ (resolver_path (text "corp"), own) ∷ []

code : Unit {0}
unfolding apply revert is_entry entries is_sidedns_file without_stars remove_files remove_all_files
    write_files HashMap.get HashMap.insert HashMap.without contains strip_prefix any retain write
    remove_file exists list_beq
code = tt

configured : apply root (λ _. true) (text "*.local" ∷ []) before ≡ (
  true,
  (resolver_path (text "local"), resolver_content) ∷ (resolver_path (text "corp"), own) ∷ [],
)
unfolding code
configured = refl

revert-apply_example :
    HashMap.get
      (resolver_path (text "local"))
      (revert root (λ _. true) (apply root (λ _. true) (text "*.local" ∷ []) before).1).1
    ≡ none
unfolding code
revert-apply_example =
    revert-apply root (λ _. true) (text "*.local" ∷ []) before (resolver_path (text "local"))
      (λ _. refl) (refl, tt) refl refl
