-- ===== src/Store/Resolve.antt =====
-- What `resolve` finds: the first rule, in the order of `all_rules`, that matches the name.
use sidedns.Prelude.{
  ◌≡◌, refl, sym, ◌∙◌, Bool, true, some, [], ◌∷◌, ◌++◌, arith, text_eq, find, find-append,
  find_sound,
}
use sidedns.Text.{Text}
use sidedns.Rule.{DnsRule, matches}
use sidedns.Rule.Matching.{matches_of_exact}
use sidedns.HashMap
use sidedns.HashMap.{HashMap}
use sidedns.Store.{InnerRuleStore, resolve, find_wildcard, all_rules}
use sidedns.Store.Layer.{AreExact}
use sidedns.Store.WellFormed.{IsWellFormed}

abbrev pub covers : Text → DnsRule → Bool
covers d r = matches r d

-- Looking a name up by its key finds what searching the rules would.
pub get-eq-find :
    (d : Text) (m : HashMap DnsRule)
    → AreExact m
    → HashMap.get d m ≡ find (covers d) (HashMap.values m)
unfolding HashMap.get HashMap.values find
get-eq-find d [] _ = refl
get-eq-find d ((k, r) ∷ m) ((own, plain), h) =
    ground (arith, matches_of_exact r d plain, get-eq-find d m h)

-- `resolve` returns the first rule that matches the name, ephemeral before persistent and exact
-- before wildcard: searching `all_rules` from the front is its specification.
pub resolve-eq-find :
    {s : InnerRuleStore} (d : Text) → IsWellFormed s → resolve s d ≡ find (covers d) (all_rules s)
unfolding resolve all_rules find_wildcard
resolve-eq-find {s} d wf = ground (
  arith,
  get-eq-find d s.ephemeral_exact wf.ephemeral.own_key,
  get-eq-find d s.persistent_exact wf.persistent.own_key,
  find-append (covers d) (HashMap.values s.ephemeral_exact)
      (s.ephemeral_wildcard ++ (HashMap.values s.persistent_exact ++ s.persistent_wildcard)),
  find-append (covers d) s.ephemeral_wildcard
      (HashMap.values s.persistent_exact ++ s.persistent_wildcard),
  find-append (covers d) (HashMap.values s.persistent_exact) s.persistent_wildcard,
)

-- A rule that `resolve` returns matches the name.
resolve_sound :
    {s : InnerRuleStore} (d : Text) (r : DnsRule)
    → IsWellFormed s
    → resolve s d ≡ some r
    → matches r d ≡ true
resolve_sound {s} d r wf h = find_sound (covers d) (all_rules s) r (sym (resolve-eq-find d wf) ∙ h)
