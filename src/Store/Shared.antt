-- ===== src/Store/Shared.antt =====
-- core/src/store.rs, `RuleStore`: snapshots behind an `ArcSwap`, swapped by `rcu`.
-- `ArcSwap::rcu` is arc-swap's: it calls its closure on the current snapshot, swaps the result in
-- if that snapshot is still the current one, and otherwise calls the closure again on the newer
-- one. The snapshots that the failed rounds saw are an argument of each method.
use sidedns.Prelude.{◌≡◌, refl, Option, none, List, [], ◌∷◌, ℕ, length}
use sidedns.Text.{Text}
use sidedns.Rule.{DnsRule}
use sidedns.Store
use sidedns.Store.{InnerRuleStore}

-- `b` is the variable that the closure captures and writes, in each round anew.
unfoldable pub rcu {ℓ} :
    {B : Type ℓ}
    → (B → InnerRuleStore → B × InnerRuleStore)
    → B
    → List InnerRuleStore
    → InnerRuleStore
    → B × InnerRuleStore
rcu f b [] current = f b current
rcu f b (stale ∷ rest) current = rcu f (f b stale).0 rest current

module _ (stale : List InnerRuleStore) (s : InnerRuleStore) where
  unfoldable pub resolve : Text → Option DnsRule
  resolve domain = Store.resolve s domain

  unfoldable pub add : DnsRule → DnsRule × InnerRuleStore
  unfolding rcu
  add rule = (rule, (rcu (λ _ current. (tt, Store.add current rule)) (tt {0}) stale s).1)

  unfoldable pub add_all : List DnsRule → ℕ × InnerRuleStore
  unfolding rcu
  add_all rules =
      (length rules, (rcu (λ _ current. (tt, Store.add_all current rules)) (tt {0}) stale s).1)

  unfoldable pub add_ephemeral : DnsRule → DnsRule × InnerRuleStore
  unfolding rcu
  add_ephemeral rule =
      (rule, (rcu (λ _ current. (tt, Store.add_ephemeral current rule)) (tt {0}) stale s).1)

  unfoldable pub remove : Text → Option DnsRule × InnerRuleStore
  unfolding rcu
  remove domain = rcu (λ removed current. Store.remove current domain) none stale s

  unfoldable pub remove_ephemeral : Text → Option DnsRule × InnerRuleStore
  unfolding rcu
  remove_ephemeral domain =
      rcu (λ removed current. Store.remove_ephemeral current domain) none stale s

unfoldable pub snapshot_persistent : InnerRuleStore → List DnsRule
snapshot_persistent s = Store.persistent_rules s

unfoldable pub snapshot_all : InnerRuleStore → List DnsRule
snapshot_all s = Store.all_rules s

-- A closure that writes its captured variable before it reads it is not changed by failed rounds.
rcu_atomic {ℓ} :
    {B : Type ℓ} (g : InnerRuleStore → B × InnerRuleStore) (b : B) (stale : List InnerRuleStore)
    (s : InnerRuleStore)
    → rcu (λ _ current. g current) b stale s ≡ g s
unfolding rcu
rcu_atomic g b [] s = refl
rcu_atomic g b (old ∷ stale) s = rcu_atomic g (g old).0 stale s

-- Each writer acts once, on the snapshot that it replaces: the rounds that lost a race change
-- neither the store nor the rule that is returned.
pub writes_once :
    (stale : List InnerRuleStore) (s : InnerRuleStore) (rule : DnsRule) (domain : Text)
    → (add stale s rule ≡ (rule, Store.add s rule))
      × (add_ephemeral stale s rule ≡ (rule, Store.add_ephemeral s rule))
      × (remove stale s domain ≡ Store.remove s domain)
      × (remove_ephemeral stale s domain ≡ Store.remove_ephemeral s domain)
unfolding add add_ephemeral remove remove_ephemeral
writes_once stale s rule domain = (
  rw (rcu_atomic (λ current. (tt {0}, Store.add current rule)) tt stale s),
  rw (rcu_atomic (λ current. (tt {0}, Store.add_ephemeral current rule)) tt stale s),
  rcu_atomic (λ current. Store.remove current domain) none stale s,
  rcu_atomic (λ current. Store.remove_ephemeral current domain) none stale s,
)

pub add_all-once :
    (stale : List InnerRuleStore) (s : InnerRuleStore) (rules : List DnsRule)
    → add_all stale s rules ≡ (length rules, Store.add_all s rules)
unfolding add_all
add_all-once stale s rules =
    rw (rcu_atomic (λ current. (tt {0}, Store.add_all current rules)) tt stale s)
