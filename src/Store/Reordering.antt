-- ===== src/Store/Reordering.antt =====
-- Removing a wildcard rule can change which of the others a name resolves to.
use sidedns.Prelude.{◌≡◌, true, false, some, [], ◌∷◌, arith, text_eq, text_eq_iff, find}
use sidedns.Text.{Text}
use sidedns.Rule.{DnsRule, matches}
use sidedns.HashMap
use sidedns.Store.{new, resolve, remove, find_wildcard, take_wildcard}

-- With three wildcard rules, of which the last two match a name and the first does not, the name
-- resolves to the second; once the first is removed, it resolves to the third.
pub remove_reorders :
    (first second third : DnsRule) (d : Text)
    → matches first d ≡ false
    → matches second d ≡ true
    → matches third d ≡ true
    → let s = record new { persistent_wildcard = first ∷ second ∷ third ∷ [] } in
      (resolve s d ≡ some second) × (resolve (remove s first.domain).1 d ≡ some third)
unfolding resolve remove find_wildcard take_wildcard find HashMap.remove
remove_reorders first second third d a b c = ground (arith, text_eq_iff first.domain first.domain)
