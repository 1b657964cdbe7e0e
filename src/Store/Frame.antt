-- ===== src/Store/Frame.antt =====
-- Updates of the store leave the names alone that their rule does not match.
use sidedns.Prelude.{
  ◌≡◌, refl, sym, ◌∙◌, find_sound, All-find, Option-cases, true, false, some, List, [], ◌∷◌, ◌++◌,
  map, arith, text_eq, text_eq_iff, inl, inr, find, AtMostOne, find-swap_remove, Bool-cases, length,
  length-append,
}
use sidedns.Text.{Text}
use sidedns.Rule.{DnsRule, is_wildcard, matches}
use sidedns.Rule.Matching.{matches_of_exact}
use sidedns.HashMap
use sidedns.HashMap.{HashMap}
use sidedns.HashMap.Laws.{get-insert, get-without}
use sidedns.Store.{
  InnerRuleStore, resolve, find_wildcard, add, add_ephemeral, remove, remove_ephemeral, count,
  all_rules,
}
use sidedns.Store.WellFormed.{IsLayer, IsWellFormed}
use sidedns.Store.Resolve.{covers, get-eq-find}
use sidedns.Store.Layer.{
  AreExact, wildcard_key_absent, find_wildcard-replace, take_wildcard_cases, has_domain,
}

-- At most one wildcard rule of each layer matches the name.
pub record HasNoOverlap (s : InnerRuleStore) (d : Text) : Type 0 where
  pub ephemeral : AtMostOne (λ r. matches r d) s.ephemeral_wildcard
  pub persistent : AtMostOne (λ r. matches r d) s.persistent_wildcard

module _ (s : InnerRuleStore) (r : DnsRule) (d : Text) (outside : matches r d ≡ false) where
  pub resolve-add_ne : resolve (add s r) d ≡ resolve s d
  unfolding resolve add
  resolve-add_ne = elim (Bool-cases (is_wildcard r)) [
    | inl w ↦ rw (w, add) (ground (arith, find_wildcard-replace d s.persistent_wildcard r outside))
    | inr w ↦
        rw (w, add)
          (ground (arith, get-insert r.domain d r s.persistent_exact, matches_of_exact r d w))
  ]

  pub resolve-add_ephemeral_ne : resolve (add_ephemeral s r) d ≡ resolve s d
  unfolding resolve add_ephemeral
  resolve-add_ephemeral_ne = elim (Bool-cases (is_wildcard r)) [
    | inl w ↦
        rw (w, add_ephemeral)
          (ground (arith, find_wildcard-replace d s.ephemeral_wildcard r outside))
    | inr w ↦
        rw (w, add_ephemeral)
          (ground (arith, get-insert r.domain d r s.ephemeral_exact, matches_of_exact r d w))
  ]

-- What stands under a name matches it.
get_matches :
    (d : Text) (m : HashMap DnsRule) (a : DnsRule)
    → AreExact m
    → HashMap.get d m ≡ some a
    → matches a d ≡ true
get_matches d m a own h = find_sound (covers d) (HashMap.values m) a (sym (get-eq-find d m own) ∙ h)

-- Removing a key changes nothing for a name that the rule under it does not match.
get-without_ne :
    (k d : Text) (exact : HashMap DnsRule)
    → AreExact exact
    → ((a : DnsRule) → HashMap.get k exact ≡ some a → matches a d ≡ false)
    → HashMap.get d (HashMap.without k exact) ≡ HashMap.get d exact
get-without_ne k d exact own outside = elim (Option-cases (HashMap.get d exact)) [
  | inl absent ↦ ground (arith, get-without k d exact)
  | inr (a, found) ↦
      ground
        (arith, get-without k d exact, text_eq_iff k d, outside a, get_matches d exact a own found)
]

-- A pattern with a wildcard rule has no exact rule.
no_exact :
    (k : Text) (wildcard : List DnsRule) (exact : HashMap DnsRule)
    → IsLayer exact wildcard
    → (a b : DnsRule) → find (has_domain k) wildcard ≡ some a
    → HashMap.get k exact ≡ some b
    → ⊥
no_exact k wildcard exact layer a b found stands =
    let starred : is_wildcard a ≡ true =
      All-find (λ r. is_wildcard r ≡ true) (has_domain k) wildcard a layer.starred found in
    let own : a.domain ≡ k =
      (text_eq_iff a.domain k).0 (find_sound (has_domain k) wildcard a found) in
    ground (arith, wildcard_key_absent a exact starred layer.own_key)

-- Removing a rule that does not match a name changes nothing for the name, if no two
-- wildcards of a layer match it: `swap_remove` may change the order of the others.
module _ {s : InnerRuleStore} (wf : IsWellFormed s) (k d : Text) (apart : HasNoOverlap s d) where
  pub resolve-remove_ne :
      ((a : DnsRule) → (remove s k).0 ≡ some a → matches a d ≡ false)
      → resolve (remove s k).1 d ≡ resolve s d
  unfolding resolve remove find_wildcard HashMap.remove
  resolve-remove_ne outside = elim (take_wildcard_cases k s.persistent_wildcard) [
    | inl (missing, absent) ↦
        let kept : HashMap.get d (HashMap.without k s.persistent_exact)
            ≡ HashMap.get d s.persistent_exact =
          get-without_ne k d s.persistent_exact wf.persistent.own_key
            (λ a e. outside a (ground (arith, e))) in
        rw (missing, remove) (ground (arith, kept))
    | inr (i, a, rest, taken, cut, found) ↦
        let kept : HashMap.get d (HashMap.without k s.persistent_exact)
            ≡ HashMap.get d s.persistent_exact =
          get-without_ne k d s.persistent_exact wf.persistent.own_key (λ b e.
            absurd
              (no_exact k s.persistent_wildcard s.persistent_exact wf.persistent a b found e)) in
        rw (taken, remove)
          (ground (
            arith,
            kept,
            outside a (ground arith),
            find-swap_remove (λ r. matches r d) s.persistent_wildcard i {a = a} {rest = rest}
                apart.persistent cut,
          ))
  ]

  pub resolve-remove_ephemeral_ne :
      ((a : DnsRule) → (remove_ephemeral s k).0 ≡ some a → matches a d ≡ false)
      → resolve (remove_ephemeral s k).1 d ≡ resolve s d
  unfolding resolve remove_ephemeral find_wildcard HashMap.remove
  resolve-remove_ephemeral_ne outside = elim (take_wildcard_cases k s.ephemeral_wildcard) [
    | inl (missing, absent) ↦
        let kept : HashMap.get d (HashMap.without k s.ephemeral_exact)
            ≡ HashMap.get d s.ephemeral_exact =
          get-without_ne k d s.ephemeral_exact wf.ephemeral.own_key
            (λ a e. outside a (ground (arith, e))) in
        rw (missing, remove_ephemeral) (ground (arith, kept))
    | inr (i, a, rest, taken, cut, found) ↦
        let kept : HashMap.get d (HashMap.without k s.ephemeral_exact)
            ≡ HashMap.get d s.ephemeral_exact =
          get-without_ne k d s.ephemeral_exact wf.ephemeral.own_key (λ b e.
            absurd (no_exact k s.ephemeral_wildcard s.ephemeral_exact wf.ephemeral a b found e)) in
        rw (taken, remove_ephemeral)
          (ground (
            arith,
            kept,
            outside a (ground arith),
            find-swap_remove (λ r. matches r d) s.ephemeral_wildcard i {a = a} {rest = rest}
                apart.ephemeral cut,
          ))
  ]

length-map {ℓ κ} :
    {A : Type ℓ} {B : Type κ} (f : A → B) (xs : List A) → length (map f xs) ≡ length xs
length-map f [] = refl
length-map f (x ∷ xs) = omega (arith, length-map f xs)

-- `len` is the number of rules that `all_rules` visits.
count-eq-length : (s : InnerRuleStore) → count s ≡ length (all_rules s)
unfolding count all_rules HashMap.values
count-eq-length s = omega (
  arith,
  length-append (HashMap.values s.ephemeral_exact)
      (s.ephemeral_wildcard ++ (HashMap.values s.persistent_exact ++ s.persistent_wildcard)),
  length-append s.ephemeral_wildcard (HashMap.values s.persistent_exact ++ s.persistent_wildcard),
  length-append (HashMap.values s.persistent_exact) s.persistent_wildcard,
  length-map (λ e. e.1) s.ephemeral_exact,
  length-map (λ e. e.1) s.persistent_exact,
)
