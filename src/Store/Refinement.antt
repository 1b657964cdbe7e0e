-- ===== src/Store/Refinement.antt =====
-- The store refines a pair of finite maps from patterns to rules.
use sidedns.Prelude.{◌≡◌, refl, Option, none, some, List, [], ◌∷◌, arith, text_eq, find}
use sidedns.Text.{Text}
use sidedns.Rule.{DnsRule}
use sidedns.Store.{InnerRuleStore, new, add_all}
use sidedns.Store.WellFormed.{
  IsWellFormed, new-IsWellFormed, add-IsWellFormed, Update, adding, adding_ephemeral, loading,
  removing, removing_ephemeral, update, run, update-IsWellFormed,
}
use sidedns.Store.Views.{
  persistent_for, ephemeral_for, updated, add_view, add_ephemeral_view, remove_view,
  remove_ephemeral_view,
}
use sidedns.HashMap

-- What the store promises: a map of persistent rules and a map of ephemeral ones.
pub record RuleMaps : Type 0 where
  pub persistent : Text → Option DnsRule
  pub ephemeral : Text → Option DnsRule

abbrev pub no_rules : RuleMaps
no_rules = record { persistent = λ _. none; ephemeral = λ _. none }

abbrev load : (Text → Option DnsRule) → List DnsRule → Text → Option DnsRule
load f [] = f
load f (r ∷ rs) = load (updated f r.domain (some r)) rs

unfoldable pub update_maps : RuleMaps → Update → RuleMaps
update_maps m (adding r) = record m { persistent = updated m.persistent r.domain (some r) }
update_maps m (adding_ephemeral r) = record m { ephemeral = updated m.ephemeral r.domain (some r) }
update_maps m (loading rs) = record m { persistent = load m.persistent rs }
update_maps m (removing k) = record m { persistent = updated m.persistent k none }
update_maps m (removing_ephemeral k) = record m { ephemeral = updated m.ephemeral k none }

unfoldable pub run_maps : RuleMaps → List Update → RuleMaps
unfolding update_maps
run_maps m [] = m
run_maps m (u ∷ us) = run_maps (update_maps m u) us

record Agrees (s : InnerRuleStore) (m : RuleMaps) : Type 0 where
  persistent : (k : Text) → persistent_for s k ≡ m.persistent k
  ephemeral : (k : Text) → ephemeral_for s k ≡ m.ephemeral k

load-Agrees :
    (rs : List DnsRule) {s : InnerRuleStore} {m : RuleMaps}
    → IsWellFormed s
    → Agrees s m
    → Agrees (add_all s rs) (record m { persistent = load m.persistent rs })
unfolding add_all
load-Agrees [] wf h = record { persistent = h.persistent; ephemeral = h.ephemeral }
load-Agrees (r ∷ rs) {m} wf h =
    load-Agrees rs {m = record m { persistent = updated m.persistent r.domain (some r) }}
      (add-IsWellFormed wf r)
      (record {
        persistent = λ k. ground (arith, add_view r k wf, h.persistent k);
        ephemeral = λ k. ground (arith, add_view r k wf, h.ephemeral k);
      })

update-Agrees :
    (u : Update) {s : InnerRuleStore} {m : RuleMaps}
    → IsWellFormed s
    → Agrees s m
    → Agrees (update s u) (update_maps m u)
unfolding update update_maps
update-Agrees (adding r) wf h = record {
  persistent = λ k. ground (arith, add_view r k wf, h.persistent k);
  ephemeral = λ k. ground (arith, add_view r k wf, h.ephemeral k);
}
update-Agrees (adding_ephemeral r) wf h = record {
  persistent = λ k. ground (arith, add_ephemeral_view r k wf, h.persistent k);
  ephemeral = λ k. ground (arith, add_ephemeral_view r k wf, h.ephemeral k);
}
update-Agrees (loading rs) wf h = load-Agrees rs wf h
update-Agrees (removing d) wf h = record {
  persistent = λ k. ground (arith, remove_view d k wf, h.persistent k);
  ephemeral = λ k. ground (arith, remove_view d k wf, h.ephemeral k);
}
update-Agrees (removing_ephemeral d) wf h = record {
  persistent = λ k. ground (arith, remove_ephemeral_view d k wf, h.persistent k);
  ephemeral = λ k. ground (arith, remove_ephemeral_view d k wf, h.ephemeral k);
}

run-Agrees :
    (us : List Update) {s : InnerRuleStore} {m : RuleMaps}
    → IsWellFormed s
    → Agrees s m
    → Agrees (run s us) (run_maps m us)
unfolding run run_maps
run-Agrees [] wf h = h
run-Agrees (u ∷ us) wf h = run-Agrees us (update-IsWellFormed u wf) (update-Agrees u wf h)

new-Agrees : Agrees new no_rules
unfolding persistent_for ephemeral_for HashMap.get find
new-Agrees = record { persistent = λ k. refl; ephemeral = λ k. refl }

-- After any sequence of updates the store holds, for each pattern, the rule that two plain maps
-- under the same updates hold: adding sets a pattern and removing clears it, in its own layer.
pub run_refines :
    (us : List Update) (k : Text)
    → (persistent_for (run new us) k ≡ (run_maps no_rules us).persistent k)
      × (ephemeral_for (run new us) k ≡ (run_maps no_rules us).ephemeral k)
run_refines us k =
    let h = run-Agrees us new-IsWellFormed new-Agrees in (h.persistent k, h.ephemeral k)
