-- ===== src/State.antt =====
-- core/src/state.rs: the daemon's central state.
-- The broadcast channel is tokio's: a send fails, and the event is gone, if there is no receiver;
-- otherwise every receiver gets it. `sent` is what was delivered, in order. The configuration
-- file is confy's: what it holds is an argument of `load_rules`, what it is given the result of
-- `save`.
pub mod Restart
use sidedns.Prelude.{
  ℕ, ◌+◌, Bool, true, false, Option, none, some, List, [], ◌∷◌, ◌++◌, map, ltb, ◌==◌, text_eq, any,
  if◌then◌else◌,
}
use sidedns.Text.{Text}
use sidedns.Rule.{DnsRule}
use sidedns.Message.{DnsEvent}
use sidedns.Store
use sidedns.Store.{InnerRuleStore}
use sidedns.Store.Shared

pub record AppState : Type 0 where
  pub store : InnerRuleStore
  pub sent : List DnsEvent
  pub receivers : ℕ
  pub cancelled : Bool

pub record DnsConfig : Type 0 where
  pub rules : List DnsRule

abbrev pub new : AppState
new = record { store = Store.new; sent = []; receivers = 0; cancelled = false }

-- `events.subscribe()`
unfoldable pub subscribe : AppState → AppState
subscribe s = record s { receivers = s.receivers + 1 }

-- `dispatch`, and `events.send(event).ok()` with its result dropped
unfoldable pub dispatch : AppState → DnsEvent → Bool × AppState
dispatch s e =
    if ltb 0 s.receivers then (true, record s { sent = s.sent ++ e ∷ [] }) else (false, s)

unfoldable pub snapshot_permanent : AppState → List DnsRule
unfolding Shared.snapshot_persistent
snapshot_permanent s = Shared.snapshot_persistent s.store

-- `collect::<HashSet<_>>()`: each text once
unfoldable pub distinct : List Text → List Text
unfolding any
distinct [] = []
distinct (t ∷ ts) = let rest = distinct ts in if any (λ u. u == t) ts then rest else t ∷ rest

unfoldable pub snapshot_all_domains : AppState → List Text
unfolding Shared.snapshot_all distinct
snapshot_all_domains s = distinct (map (λ r. r.domain) (Shared.snapshot_all s.store))

unfoldable pub save : AppState → DnsConfig
unfolding snapshot_permanent
save s = record { rules = snapshot_permanent s }

unfoldable pub load_rules :
    Option DnsConfig → List InnerRuleStore → AppState → List DnsRule × AppState
unfolding Shared.add_all
load_rules loaded stale s =
    let rules : List DnsRule = elim loaded [ some c ↦ c.rules | none ↦ [] ] in
    (rules, record s { store = (Shared.add_all stale s.store rules).1 })
