-- ===== src/Store/Layer.antt =====
-- One layer of the store, ephemeral or persistent: its exact rules and its wildcard rules.
use sidedns.Prelude.{
  ℕ, ◌≡◌, refl, Bool, true, false, not, none, some, List, [], ◌∷◌, ◌++◌, arith, ◌==◌, text_eq,
  text_eq_iff, if◌then◌else◌, find, find-append, retain, swap_remove, All, All-append, All-retain,
  AtMostOne, inl, inr, ◌⊎◌, position_cases,
}
use sidedns.Text.{Text}
use sidedns.Rule.{DnsRule, is_wildcard, matches}
use sidedns.HashMap
use sidedns.HashMap.{HashMap}
use sidedns.Store.{replace_wildcard, take_wildcard, find_wildcard}

abbrev pub has_domain : Text → DnsRule → Bool
has_domain k r = r.domain == k

-- The exact rules of a layer stand under their own domains, which are no wildcards.
abbrev pub AreExact : HashMap DnsRule → Type 0
AreExact m = All (λ e. (e.0 ≡ (e.1).domain) × (is_wildcard (e.1) ≡ false)) m

-- The wildcard rules are wildcards.
abbrev pub AreWildcards : List DnsRule → Type 0
AreWildcards rs = All (λ r. is_wildcard r ≡ true) rs

-- No two rules of the list have one domain.
abbrev pub HaveDistinctDomains : List DnsRule → Type 0
HaveDistinctDomains [] = Unit
HaveDistinctDomains (r ∷ rs) = (find (has_domain r.domain) rs ≡ none) × HaveDistinctDomains rs

pub distinct-AtMostOne :
    (k : Text) (rs : List DnsRule) → HaveDistinctDomains rs → AtMostOne (has_domain k) rs
distinct-AtMostOne k [] _ = tt
distinct-AtMostOne k (r ∷ rs) (fresh, d) =
    (λ same. rw ((text_eq_iff r.domain k).0 same) at fresh, distinct-AtMostOne k rs d)

pub distinct_of_AtMostOne :
    (rs : List DnsRule) → ((k : Text) → AtMostOne (has_domain k) rs) → HaveDistinctDomains rs
distinct_of_AtMostOne [] h = tt
distinct_of_AtMostOne (r ∷ rs) h = (
  (h r.domain).0 ((text_eq_iff r.domain r.domain).1 refl),
  distinct_of_AtMostOne rs (λ k. (h k).1),
)

-- Replacing a wildcard rule.
find-retain :
    (k j : Text) (rs : List DnsRule)
    → find (has_domain j) (retain (λ r. not (r.domain == k)) rs)
      ≡ (if k == j then none else find (has_domain j) rs)
unfolding find retain
find-retain k j [] = ground arith
find-retain k j (r ∷ rs) =
    ground
      (arith, text_eq_iff r.domain k, text_eq_iff r.domain j, text_eq_iff k j, find-retain k j rs)

pub find-replace_wildcard :
    (j : Text) (rs : List DnsRule) (rule : DnsRule)
    → find (has_domain j) (replace_wildcard rs rule)
      ≡ (if rule.domain == j then some rule else find (has_domain j) rs)
unfolding replace_wildcard
find-replace_wildcard j rs rule =
    rw
      (
        find-append (has_domain j) (retain (λ r. not (r.domain == rule.domain)) rs) (rule ∷ []),
        find-retain rule.domain j rs,
      )
      (unfold find in ground arith)

retain-distinct :
    (k : Text) (rs : List DnsRule)
    → HaveDistinctDomains rs
    → HaveDistinctDomains (retain (λ r. not (r.domain == k)) rs)
unfolding retain
retain-distinct k [] _ = tt
retain-distinct k (r ∷ rs) (fresh, d) =
    ground (arith, find-retain k r.domain rs, retain-distinct k rs d)

push-distinct :
    (rs : List DnsRule) (rule : DnsRule)
    → find (has_domain rule.domain) rs ≡ none
    → HaveDistinctDomains rs
    → HaveDistinctDomains (rs ++ rule ∷ [])
unfolding find
push-distinct [] rule h d = (refl, tt)
push-distinct (r ∷ rs) rule h (fresh, d) = ground (
  arith,
  find-append (has_domain r.domain) rs (rule ∷ []),
  text_eq_iff r.domain rule.domain,
  text_eq_iff rule.domain r.domain,
  push-distinct rs rule,
)

pub replace_wildcard-distinct :
    (rs : List DnsRule) (rule : DnsRule)
    → HaveDistinctDomains rs
    → HaveDistinctDomains (replace_wildcard rs rule)
unfolding replace_wildcard
replace_wildcard-distinct rs rule d =
    push-distinct (retain (λ r. not (r.domain == rule.domain)) rs) rule
      (ground (arith, find-retain rule.domain rule.domain rs, text_eq_iff rule.domain rule.domain))
      (retain-distinct rule.domain rs d)

pub replace_wildcard-All {κ} :
    (P : DnsRule → Type κ) (rs : List DnsRule) (rule : DnsRule)
    → P rule
    → All P rs
    → All P (replace_wildcard rs rule)
unfolding replace_wildcard
replace_wildcard-All P rs rule h k =
    All-append P (retain (λ r. not (r.domain == rule.domain)) rs) (rule ∷ [])
      (All-retain P (λ r. not (r.domain == rule.domain)) rs k) (h, tt)

pub replace_wildcard-AreWildcards :
    (rs : List DnsRule) (rule : DnsRule)
    → is_wildcard rule ≡ true
    → AreWildcards rs
    → AreWildcards (replace_wildcard rs rule)
unfolding replace_wildcard
replace_wildcard-AreWildcards rs rule w k =
    replace_wildcard-All (λ r. is_wildcard r ≡ true) rs rule w k

-- Rules of one domain match the same names.
matches_congr : (r q : DnsRule) (d : Text) → r.domain ≡ q.domain → matches r d ≡ matches q d
unfolding matches
matches_congr r q d e = ground arith

find-retain_matches :
    (k d : Text) (rule : DnsRule) (rs : List DnsRule)
    → rule.domain ≡ k
    → matches rule d ≡ false
    → find (λ r. matches r d) (retain (λ r. not (r.domain == k)) rs) ≡ find (λ r. matches r d) rs
unfolding find retain
find-retain_matches k d rule [] e h = refl
find-retain_matches k d rule (r ∷ rs) e h =
    ground
      (arith, text_eq_iff r.domain k, matches_congr r rule d, find-retain_matches k d rule rs e h)

-- A replaced wildcard changes nothing for the names that it does not match.
pub find_wildcard-replace :
    (d : Text) (rs : List DnsRule) (rule : DnsRule)
    → matches rule d ≡ false
    → find_wildcard (replace_wildcard rs rule) d ≡ find_wildcard rs d
unfolding find_wildcard replace_wildcard
find_wildcard-replace d rs rule h = ground (
  arith,
  find-append (λ r. matches r d) (retain (λ r. not (r.domain == rule.domain)) rs) (rule ∷ []),
  find-retain_matches rule.domain d rule rs refl h,
)

module _ (k : Text) (rs : List DnsRule) where
  pub take_wildcard_cases :
      ((take_wildcard rs k ≡ none) × (find (has_domain k) rs ≡ none))
      ⊎ ((i : ℕ) × (a : DnsRule) × (rest : List DnsRule) × (take_wildcard rs k ≡ some (a, rest))
          × (swap_remove rs i ≡ some (a, rest))
          × (find (has_domain k) rs ≡ some a))
  unfolding take_wildcard
  take_wildcard_cases = elim (position_cases (has_domain k) rs) [
    | inl (missing, absent) ↦ inl (ground arith, absent)
    | inr (i, a, rest, at_i, cut, found) ↦ inr (i, a, rest, ground arith, cut, found)
  ]

-- No wildcard stands in the exact map, so the two parts of a layer share no pattern.
pub wildcard_key_absent :
    (rule : DnsRule) (m : HashMap DnsRule)
    → is_wildcard rule ≡ true
    → AreExact m
    → HashMap.get rule.domain m ≡ none
unfolding HashMap.get is_wildcard
wildcard_key_absent rule [] w _ = refl
wildcard_key_absent rule ((k, r) ∷ m) w ((own, plain), h) =
    ground (arith, text_eq_iff k rule.domain, wildcard_key_absent rule m w h)
