-- ===== src/SystemDns/Windows.antt =====
-- core/src/dns/sys/windows.rs: the rules of the Name Resolution Policy Table.
use sidedns.Prelude.{
  ◌≡◌, refl, ap, ◌∙◌, sym, Bool, true, false, none, some, List, [], ◌∷◌, ◌++◌, map, if◌then◌else◌,
}
use mathlib.Core.List.{append_assoc, append-nil}
use sidedns.Text.{Text, text, strip_prefix}
use sidedns.Rule.{star_dot}
use sidedns.SystemDns.{SystemDnsManager}

-- The scripts that PowerShell was given, in their order.
abbrev pub Scripts : Type 0
Scripts = List Text

unfoldable pub namespace_of : Text → Text
unfolding strip_prefix
namespace_of d = elim (strip_prefix star_dot d) [ some suffix ↦ b'.' ∷ suffix | none ↦ d ]

abbrev pub remove_script : Text
remove_script =
    text
      "Get-DnsClientNrptRule | Where-Object { $_.Comment -eq 'Managed by SideDNS — do not edit manually' } | Remove-DnsClientNrptRule -Force"

abbrev pub add_script : Text → Text
add_script domain =
    text "Add-DnsClientNrptRule -Namespace '"
    ++ (domain
        ++ text "' -NameServers '127.0.53.53' -Comment 'Managed by SideDNS — do not edit manually'")

-- `succeeds` is whether PowerShell runs a script and reports success.
module _ (succeeds : Text → Bool) where
  unfoldable pub powershell : Text → Scripts → Bool × Scripts
  powershell script x = (succeeds script, x ++ script ∷ [])

  unfoldable pub add_rules : List Text → Scripts → Bool × Scripts
  unfolding powershell
  add_rules [] x = (true, x)
  add_rules (domain ∷ domains) x =
      let (added, x') = powershell (add_script domain) x in
      let rest = add_rules domains x' in if added then rest else (false, x')

  unfoldable pub apply : List Text → Scripts → Bool × Scripts
  unfolding powershell add_rules namespace_of
  apply domains x =
      let (removed, x') = powershell remove_script x in
      let rest = add_rules (map namespace_of domains) x' in if removed then rest else (false, x')

  unfoldable pub revert : Scripts → Bool × Scripts
  unfolding powershell
  revert x = powershell remove_script x

  abbrev pub windows_nrpt_configurator : SystemDnsManager Scripts
  windows_nrpt_configurator = record { apply = apply; revert = revert }

  module _ (works : (script : Text) → succeeds script ≡ true) where
    add_rules_all : (ds : List Text) (x : Scripts) → add_rules ds x ≡ (true, x ++ map add_script ds)
    unfolding add_rules powershell
    add_rules_all [] x = ap (λ y. (true, y)) (sym (append-nil x))
    add_rules_all (d ∷ ds) x =
        rw (works (add_script d), add_rules, powershell)
          (add_rules_all ds (x ++ add_script d ∷ [])
            ∙ ap (λ y. (true, y)) (append_assoc x (add_script d ∷ []) (map add_script ds)))

    -- If PowerShell works, applying removes the rules of SideDNS first and then adds one rule for
    -- each domain, in their order.
    apply_all :
        (ds : List Text) (x : Scripts)
        → apply ds x ≡ (true, x ++ remove_script ∷ map (λ d. add_script (namespace_of d)) ds)
    unfolding apply powershell
    apply_all ds x =
        rw (works remove_script, apply, powershell)
          (add_rules_all (map namespace_of ds) (x ++ remove_script ∷ [])
            ∙ ap (λ y. (true, y))
                (append_assoc x (remove_script ∷ []) (map add_script (map namespace_of ds))
                  ∙ ap (λ y. x ++ remove_script ∷ y) (map-map ds)))
      where
        map-map :
            (ds : List Text)
            → map add_script (map namespace_of ds) ≡ map (λ d. add_script (namespace_of d)) ds
        map-map [] = refl
        map-map (d ∷ ds) = ap (λ y. add_script (namespace_of d) ∷ y) (map-map ds)
