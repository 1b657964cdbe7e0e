-- ===== src/Store.antt =====
-- core/src/store.rs: the rule store, and the operations on its immutable snapshots.
pub mod Layer
pub mod WellFormed
pub mod Resolve
pub mod Views
pub mod Refinement
pub mod Every
pub mod Frame
pub mod Reordering
pub mod Shared
pub mod Tests
use sidedns.Prelude.{
  ℕ, ◌+◌, Bool, true, false, not, Option, none, some, List, [], ◌∷◌, ◌++◌, ◌==◌, nat_eq, text_eq,
  length, find, retain, position, swap_remove, if◌then◌else◌,
}
use sidedns.Text.{Text}
use sidedns.Rule.{DnsRule, is_wildcard, matches}
use sidedns.HashMap
use sidedns.HashMap.{HashMap}

pub record InnerRuleStore : Type 0 where
  pub ephemeral_exact : HashMap DnsRule
  pub persistent_exact : HashMap DnsRule
  pub ephemeral_wildcard : List DnsRule
  pub persistent_wildcard : List DnsRule

abbrev pub new : InnerRuleStore
new = record {
  ephemeral_exact = [];
  persistent_exact = [];
  ephemeral_wildcard = [];
  persistent_wildcard = [];
}

unfoldable pub find_wildcard : List DnsRule → Text → Option DnsRule
unfolding find matches
find_wildcard list domain = find (λ r. matches r domain) list

unfoldable pub resolve : InnerRuleStore → Text → Option DnsRule
unfolding find_wildcard HashMap.get
resolve s domain = elim (HashMap.get domain s.ephemeral_exact) [
  | some r ↦ some r
  | none ↦ elim (find_wildcard s.ephemeral_wildcard domain) [
    | some r ↦ some r
    | none ↦ elim (HashMap.get domain s.persistent_exact) [
      | some r ↦ some r
      | none ↦ find_wildcard s.persistent_wildcard domain
    ]
  ]
]

-- `list.retain(|r| r.domain != rule.domain); list.push(rule)`, for either list.
unfoldable pub replace_wildcard : List DnsRule → DnsRule → List DnsRule
unfolding retain
replace_wildcard list rule = retain (λ r. not (r.domain == rule.domain)) list ++ rule ∷ []

unfoldable pub add : InnerRuleStore → DnsRule → InnerRuleStore
unfolding is_wildcard replace_wildcard HashMap.insert
add s rule =
    if is_wildcard rule
    then record s { persistent_wildcard = replace_wildcard s.persistent_wildcard rule }
    else record s { persistent_exact = HashMap.insert rule.domain rule s.persistent_exact }

unfoldable pub add_all : InnerRuleStore → List DnsRule → InnerRuleStore
unfolding add
add_all s [] = s
add_all s (rule ∷ rules) = add_all (add s rule) rules

unfoldable pub add_ephemeral : InnerRuleStore → DnsRule → InnerRuleStore
unfolding is_wildcard replace_wildcard HashMap.insert
add_ephemeral s rule =
    if is_wildcard rule
    then record s { ephemeral_wildcard = replace_wildcard s.ephemeral_wildcard rule }
    else record s { ephemeral_exact = HashMap.insert rule.domain rule s.ephemeral_exact }

-- `position(|x| x.domain == domain)` and then `swap_remove(pos)`, for either list.
unfoldable pub take_wildcard : List DnsRule → Text → Option (DnsRule × List DnsRule)
unfolding position swap_remove
take_wildcard list domain = elim (position (λ x. x.domain == domain) list) [
  | none ↦ none
  | some pos ↦ swap_remove list pos
]

unfoldable pub remove : InnerRuleStore → Text → Option DnsRule × InnerRuleStore
unfolding take_wildcard HashMap.remove
remove s domain =
    let (rule, exact) = HashMap.remove domain s.persistent_exact in
    elim (take_wildcard s.persistent_wildcard domain) [
      | some (item, rest) ↦
          (some item, record s { persistent_exact = exact; persistent_wildcard = rest })
      | none ↦ (rule, record s { persistent_exact = exact })
    ]

unfoldable pub remove_ephemeral : InnerRuleStore → Text → Option DnsRule × InnerRuleStore
unfolding take_wildcard HashMap.remove
remove_ephemeral s domain =
    let (rule, exact) = HashMap.remove domain s.ephemeral_exact in
    elim (take_wildcard s.ephemeral_wildcard domain) [
      | some (item, rest) ↦
          (some item, record s { ephemeral_exact = exact; ephemeral_wildcard = rest })
      | none ↦ (rule, record s { ephemeral_exact = exact })
    ]

unfoldable pub persistent_rules : InnerRuleStore → List DnsRule
unfolding HashMap.values
persistent_rules s = HashMap.values s.persistent_exact ++ s.persistent_wildcard

unfoldable pub all_rules : InnerRuleStore → List DnsRule
unfolding HashMap.values
all_rules s =
    HashMap.values s.ephemeral_exact
    ++ (s.ephemeral_wildcard ++ (HashMap.values s.persistent_exact ++ s.persistent_wildcard))

-- `len` of the store
unfoldable pub count : InnerRuleStore → ℕ
count s =
    length s.ephemeral_exact
    + length s.ephemeral_wildcard
    + length s.persistent_exact
    + length s.persistent_wildcard

unfoldable pub is_empty : InnerRuleStore → Bool
unfolding count
is_empty s = count s == 0
