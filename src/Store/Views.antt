-- ===== src/Store/Views.antt =====
-- The store as its clients see it: two finite maps from patterns to rules.
use sidedns.Prelude.{
  ℕ, ◌≡◌, refl, false, Option, none, some, List, [], ◌∷◌, arith, ◌==◌, text_eq, text_eq_iff,
  if◌then◌else◌, inl, inr, find, find_sound, swap_remove, find-swap_remove, Bool-cases,
  Option-cases,
}
use sidedns.Text.{Text}
use sidedns.Rule.{DnsRule, is_wildcard}
use sidedns.HashMap
use sidedns.HashMap.{HashMap}
use sidedns.HashMap.Laws.{get-insert, get-without}
use sidedns.Store.{InnerRuleStore, add, add_ephemeral, replace_wildcard, remove, remove_ephemeral}
use sidedns.Store.Layer.{
  has_domain, AreExact, AreWildcards, distinct-AtMostOne, find-replace_wildcard,
  take_wildcard_cases,
}
use sidedns.Store.WellFormed.{IsLayer, IsWellFormed}

-- The rule that a layer holds for a pattern.
unfoldable pub rule_for : HashMap DnsRule → List DnsRule → Text → Option DnsRule
rule_for exact wildcard k = elim (find (has_domain k) wildcard) [
  | some r ↦ some r
  | none ↦ HashMap.get k exact
]

unfoldable pub persistent_for : InnerRuleStore → Text → Option DnsRule
unfolding rule_for
persistent_for s k = rule_for s.persistent_exact s.persistent_wildcard k

unfoldable pub ephemeral_for : InnerRuleStore → Text → Option DnsRule
unfolding rule_for
ephemeral_for s k = rule_for s.ephemeral_exact s.ephemeral_wildcard k

-- A map with one key given a value, and a map with one key dropped: the specification.
abbrev pub updated : (Text → Option DnsRule) → Text → Option DnsRule → Text → Option DnsRule
updated f k v j = if k == j then v else f j

exact_key_absent :
    (rule : DnsRule) (rs : List DnsRule)
    → is_wildcard rule ≡ false
    → AreWildcards rs
    → find (has_domain rule.domain) rs ≡ none
unfolding find is_wildcard
exact_key_absent rule [] w _ = refl
exact_key_absent rule (r ∷ rs) w (starred, h) =
    ground (arith, text_eq_iff r.domain rule.domain, exact_key_absent rule rs w h)

module _ {exact : HashMap DnsRule} {wildcard : List DnsRule} (layer : IsLayer exact wildcard) where
  rule_for-insert :
      (r : DnsRule) (k : Text)
      → is_wildcard r ≡ false
      → rule_for (HashMap.insert r.domain r exact) wildcard k
        ≡ updated (rule_for exact wildcard) r.domain (some r) k
  unfolding rule_for
  rule_for-insert r k plain = ground (
    arith,
    get-insert r.domain k r exact,
    text_eq_iff r.domain k,
    exact_key_absent r wildcard plain layer.starred,
  )

  rule_for-replace :
      (r : DnsRule) (k : Text)
      → rule_for exact (replace_wildcard wildcard r) k
        ≡ updated (rule_for exact wildcard) r.domain (some r) k
  unfolding rule_for
  rule_for-replace r k = ground (arith, find-replace_wildcard k wildcard r)

  -- Taking a pattern out of a layer.
  rule_for-without :
      (d k : Text)
      → find (has_domain d) wildcard ≡ none
      → rule_for (HashMap.without d exact) wildcard k ≡ updated (rule_for exact wildcard) d none k
  unfolding rule_for
  rule_for-without d k absent = ground (arith, get-without d k exact, text_eq_iff d k)

  rule_for-cut :
      (d k : Text) (i : ℕ) (a : DnsRule) (rest : List DnsRule)
      → swap_remove wildcard i ≡ some (a, rest)
      → find (has_domain d) wildcard ≡ some a
      → rule_for (HashMap.without d exact) rest k ≡ updated (rule_for exact wildcard) d none k
  unfolding rule_for
  rule_for-cut d k i a rest cut found = ground (
    arith,
    get-without d k exact,
    text_eq_iff d k,
    text_eq_iff a.domain k,
    text_eq_iff a.domain d,
    find_sound (has_domain d) wildcard a found,
    find-swap_remove (has_domain k) wildcard i {a = a} {rest = rest}
        (distinct-AtMostOne k wildcard layer.distinct) cut,
  )

-- Adding a rule sets its pattern in its own layer, and leaves the other layer alone.
pub add_view :
    {s : InnerRuleStore} (r : DnsRule) (k : Text)
    → IsWellFormed s
    → (persistent_for (add s r) k ≡ updated (persistent_for s) r.domain (some r) k)
      × (ephemeral_for (add s r) k ≡ ephemeral_for s k)
unfolding add persistent_for ephemeral_for
add_view {s} r k wf = elim (Bool-cases (is_wildcard r)) [
  | inl w ↦ rw (w, add) (rule_for-replace wf.persistent r k, refl)
  | inr w ↦ rw (w, add) (rule_for-insert wf.persistent r k w, refl)
]

pub add_ephemeral_view :
    {s : InnerRuleStore} (r : DnsRule) (k : Text)
    → IsWellFormed s
    → (ephemeral_for (add_ephemeral s r) k ≡ updated (ephemeral_for s) r.domain (some r) k)
      × (persistent_for (add_ephemeral s r) k ≡ persistent_for s k)
unfolding add_ephemeral persistent_for ephemeral_for
add_ephemeral_view {s} r k wf = elim (Bool-cases (is_wildcard r)) [
  | inl w ↦ rw (w, add_ephemeral) (rule_for-replace wf.ephemeral r k, refl)
  | inr w ↦ rw (w, add_ephemeral) (rule_for-insert wf.ephemeral r k w, refl)
]

-- Removing a pattern returns the rule that its layer held for it, and drops that rule alone.
pub remove_view :
    {s : InnerRuleStore} (d k : Text)
    → IsWellFormed s
    → ((remove s d).0 ≡ persistent_for s d)
      × (persistent_for (remove s d).1 k ≡ updated (persistent_for s) d none k)
      × (ephemeral_for (remove s d).1 k ≡ ephemeral_for s k)
unfolding remove persistent_for ephemeral_for rule_for HashMap.remove
remove_view {s} d k wf = elim (take_wildcard_cases d s.persistent_wildcard) [
  | inl (missing, absent) ↦
      rw (missing, remove)
        (ground (arith, absent), unfold rule_for in rule_for-without wf.persistent d k absent, refl)
  | inr (i, a, rest, taken, cut, found) ↦
      rw (taken, remove)
        (ground (arith, found), rule_for-cut wf.persistent d k i a rest cut found, refl)
]

pub remove_ephemeral_view :
    {s : InnerRuleStore} (d k : Text)
    → IsWellFormed s
    → ((remove_ephemeral s d).0 ≡ ephemeral_for s d)
      × (ephemeral_for (remove_ephemeral s d).1 k ≡ updated (ephemeral_for s) d none k)
      × (persistent_for (remove_ephemeral s d).1 k ≡ persistent_for s k)
unfolding remove_ephemeral persistent_for ephemeral_for rule_for HashMap.remove
remove_ephemeral_view {s} d k wf = elim (take_wildcard_cases d s.ephemeral_wildcard) [
  | inl (missing, absent) ↦
      rw (missing, remove_ephemeral)
        (ground (arith, absent), rule_for-without wf.ephemeral d k absent, refl)
  | inr (i, a, rest, taken, cut, found) ↦
      rw (taken, remove_ephemeral)
        (ground (arith, found), rule_for-cut wf.ephemeral d k i a rest cut found, refl)
]

get-domain :
    (k : Text) (m : HashMap DnsRule) (r : DnsRule)
    → AreExact m
    → HashMap.get k m ≡ some r
    → r.domain ≡ k
unfolding HashMap.get
get-domain k [] r _ h = cc
get-domain k ((j, v) ∷ m) r ((own, plain), later) h =
    ground (arith, text_eq_iff j k, get-domain k m r later)

-- The rule held for a pattern has that pattern.
pub rule_for-domain :
    {exact : HashMap DnsRule} {wildcard : List DnsRule} (k : Text) (r : DnsRule)
    → IsLayer exact wildcard
    → rule_for exact wildcard k ≡ some r
    → r.domain ≡ k
unfolding rule_for
rule_for-domain {exact} {wildcard} k r layer h =
    elim (Option-cases (find (has_domain k) wildcard)) [
      | inl absent ↦ get-domain k exact r layer.own_key (ground arith)
      | inr (a, found) ↦
          ground (arith, text_eq_iff a.domain k, find_sound (has_domain k) wildcard a found)
    ]
