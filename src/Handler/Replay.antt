-- ===== src/Handler/Replay.antt =====
-- The events tell subscribers all that happens to the rules.
use sidedns.Prelude.{
  ◌≡◌, sym, ◌∙◌, Bool, true, false, none, some, List, [], ◌∷◌, ◌++◌, arith, ◌<◌, text_eq,
  Bool-cases, Option-cases, inl, inr, text_eq_iff,
}
use mathlib.Core.List.{foldl, foldl-append}
use sidedns.Text.{Text, to_lowercase}
use sidedns.Rule.{SocketAddr, DnsRule}
use sidedns.Domain.{RegexEngine, validate_domain}
use sidedns.Message.{
  IpcRequest, add, add_ephemeral, remove, remove_ephemeral, resolve, stop, DnsEvent, rule_added,
  rule_removed, ephemeral_added, ephemeral_removed, daemon_stopped,
}
use sidedns.Store
use sidedns.Store.{InnerRuleStore}
use sidedns.Store.Shared.{writes_once}
use sidedns.Store.WellFormed.{
  IsWellFormed, add-IsWellFormed, add_ephemeral-IsWellFormed, remove-IsWellFormed,
  remove_ephemeral-IsWellFormed,
}
use sidedns.Store.Views.{
  persistent_for, ephemeral_for, updated, add_view, add_ephemeral_view, remove_view,
  remove_ephemeral_view, rule_for-domain,
}
use sidedns.Store.Refinement.{RuleMaps}
use sidedns.State.{AppState}
use sidedns.Handler.{handle}
use sidedns.Handler.Effect.{rule_of, any_rule, handle_all}

-- What a subscriber makes of an event.
unfoldable pub learn : RuleMaps → DnsEvent → RuleMaps
learn m (rule_added r) = record m { persistent = updated m.persistent r.domain (some r) }
learn m (rule_removed r) = record m { persistent = updated m.persistent r.domain none }
learn m (ephemeral_added r) = record m { ephemeral = updated m.ephemeral r.domain (some r) }
learn m (ephemeral_removed r) = record m { ephemeral = updated m.ephemeral r.domain none }
learn m daemon_stopped = m

-- A subscriber's maps agree with the store.
pub record Knows (m : RuleMaps) (s : InnerRuleStore) : Type 0 where
  pub persistent : (k : Text) → persistent_for s k ≡ m.persistent k
  pub ephemeral : (k : Text) → ephemeral_for s k ≡ m.ephemeral k

-- The maps learned from all events delivered so far, over what was known at first.
abbrev pub learned : RuleMaps → List DnsEvent → RuleMaps
learned m events = foldl learn m events

module _ {m : RuleMaps} {s : InnerRuleStore} (wf : IsWellFormed s) (h : Knows m s) where
  Knows-added : (r : DnsRule) → Knows (learn m (rule_added r)) (Store.add s r)
  unfolding learn
  Knows-added r = record {
    persistent = λ k. ground (arith, add_view r k wf, h.persistent k);
    ephemeral = λ k. ground (arith, add_view r k wf, h.ephemeral k);
  }

  Knows-ephemeral_added :
      (r : DnsRule) → Knows (learn m (ephemeral_added r)) (Store.add_ephemeral s r)
  unfolding learn
  Knows-ephemeral_added r = record {
    persistent = λ k. ground (arith, add_ephemeral_view r k wf, h.persistent k);
    ephemeral = λ k. ground (arith, add_ephemeral_view r k wf, h.ephemeral k);
  }

  module _ (d : Text) where
    Knows-removed :
        (r : DnsRule)
        → (Store.remove s d).0 ≡ some r
        → Knows (learn m (rule_removed r)) (Store.remove s d).1
    unfolding learn persistent_for
    Knows-removed r e =
        let own : r.domain ≡ d =
          rule_for-domain d r wf.persistent (sym (remove_view d d wf).0 ∙ e) in
        record {
          persistent = λ k. rw own (ground (arith, remove_view d k wf, h.persistent k));
          ephemeral = λ k. ground (arith, remove_view d k wf, h.ephemeral k);
        }

    -- A removal that finds nothing changes no view.
    Knows-not_removed : (Store.remove s d).0 ≡ none → Knows m (Store.remove s d).1
    Knows-not_removed e = record {
      persistent = λ k. ground (arith, remove_view d k wf, h.persistent k, text_eq_iff d k);
      ephemeral = λ k. ground (arith, remove_view d k wf, h.ephemeral k);
    }

    Knows-ephemeral_removed :
        (r : DnsRule)
        → (Store.remove_ephemeral s d).0 ≡ some r
        → Knows (learn m (ephemeral_removed r)) (Store.remove_ephemeral s d).1
    unfolding learn ephemeral_for
    Knows-ephemeral_removed r e =
        let own : r.domain ≡ d =
          rule_for-domain d r wf.ephemeral (sym (remove_ephemeral_view d d wf).0 ∙ e) in
        record {
          persistent = λ k. ground (arith, remove_ephemeral_view d k wf, h.persistent k);
          ephemeral = λ k. rw own (ground (arith, remove_ephemeral_view d k wf, h.ephemeral k));
        }

    Knows-not_ephemeral_removed :
        (Store.remove_ephemeral s d).0 ≡ none → Knows m (Store.remove_ephemeral s d).1
    Knows-not_ephemeral_removed e = record {
      persistent = λ k. ground (arith, remove_ephemeral_view d k wf, h.persistent k);
      ephemeral = λ k. ground (arith, remove_ephemeral_view d k wf, h.ephemeral k, text_eq_iff d k);
    }

-- A subscriber that knew the rules at some point, and has had every event since, knows them now.
pub record IsFollowed (m : RuleMaps) (s : AppState) : Type 0 where
  pub listened : 0 < s.receivers
  pub well_formed : IsWellFormed s.store
  pub knows : Knows (learned m s.sent) s.store

module _ {m : RuleMaps} {s : AppState} (f : IsFollowed m s) where
  after_event :
      (store : InnerRuleStore) (e : DnsEvent)
      → IsWellFormed store
      → Knows (learn (learned m s.sent) e) store
      → IsFollowed m (record s { store = store; sent = s.sent ++ e ∷ [] })
  after_event store e wf k = record {
    listened = f.listened;
    well_formed = wf;
    knows = rw foldl-append k;
  }

  after_silence :
      (store : InnerRuleStore)
      → IsWellFormed store
      → Knows (learned m s.sent) store
      → IsFollowed m (record s { store = store })
  after_silence store wf k = record { listened = f.listened; well_formed = wf; knows = k }

  module _ (engine : RegexEngine) (stale : List InnerRuleStore) (domain : Text)
      (valid : validate_domain engine domain ≡ true) where
    add-IsFollowed :
        (target : SocketAddr) (https : Bool)
        → IsFollowed m (handle engine stale s (add domain target https)).1
    unfolding handle
    add-IsFollowed target https =
        let r = rule_of domain target https in
        let e : (handle engine stale s (add domain target https)).1
            ≡ record s { store = Store.add s.store r; sent = s.sent ++ rule_added r ∷ [] } =
          ground (arith, (writes_once stale s.store r domain).0, f.listened) in
        rw e (
          after_event (Store.add s.store r) (rule_added r) (add-IsWellFormed f.well_formed r)
            (Knows-added f.well_formed f.knows r))

    add_ephemeral-IsFollowed :
        (target : SocketAddr) (https : Bool)
        → IsFollowed m (handle engine stale s (add_ephemeral domain target https)).1
    unfolding handle
    add_ephemeral-IsFollowed target https =
        let r = rule_of domain target https in
        let e : (handle engine stale s (add_ephemeral domain target https)).1 ≡ record s {
          store = Store.add_ephemeral s.store r;
          sent = s.sent ++ ephemeral_added r ∷ [];
        } =
          ground (arith, (writes_once stale s.store r domain).1, f.listened) in
        rw e (
          after_event (Store.add_ephemeral s.store r) (ephemeral_added r)
            (add_ephemeral-IsWellFormed f.well_formed r)
            (Knows-ephemeral_added f.well_formed f.knows r))

    remove-IsFollowed : IsFollowed m (handle engine stale s (remove domain)).1
    unfolding handle
    remove-IsFollowed =
        let d = to_lowercase domain in
        let store = (Store.remove s.store d).1 in
        let wf : IsWellFormed store = remove-IsWellFormed f.well_formed d in
        elim (Option-cases (Store.remove s.store d).0) [
          | inl missing ↦
              let e : (handle engine stale s (remove domain)).1 ≡ record s { store = store } =
                ground (arith, (writes_once stale s.store any_rule d).2) in
              rw e (after_silence store wf (Knows-not_removed f.well_formed f.knows d missing))
          | inr (r, found) ↦
              let e : (handle engine stale s (remove domain)).1
                  ≡ record s { store = store; sent = s.sent ++ rule_removed r ∷ [] } =
                ground (arith, (writes_once stale s.store any_rule d).2, f.listened) in
              rw e (
                after_event store (rule_removed r) wf
                  (Knows-removed f.well_formed f.knows d r found))
        ]

    remove_ephemeral-IsFollowed : IsFollowed m (handle engine stale s (remove_ephemeral domain)).1
    unfolding handle
    remove_ephemeral-IsFollowed =
        let d = to_lowercase domain in
        let store = (Store.remove_ephemeral s.store d).1 in
        let wf : IsWellFormed store = remove_ephemeral-IsWellFormed f.well_formed d in
        elim (Option-cases (Store.remove_ephemeral s.store d).0) [
          | inl missing ↦
              let e : (handle engine stale s (remove_ephemeral domain)).1
                  ≡ record s { store = store } =
                ground (arith, (writes_once stale s.store any_rule d).3) in
              rw e (
                after_silence store wf
                  (Knows-not_ephemeral_removed f.well_formed f.knows d missing))
          | inr (r, found) ↦
              let e : (handle engine stale s (remove_ephemeral domain)).1
                  ≡ record s { store = store; sent = s.sent ++ ephemeral_removed r ∷ [] } =
                ground (arith, (writes_once stale s.store any_rule d).3, f.listened) in
              rw e (
                after_event store (ephemeral_removed r) wf
                  (Knows-ephemeral_removed f.well_formed f.knows d r found))
        ]

  module _ (engine : RegexEngine) (stale : List InnerRuleStore) where
    same_state :
        (q : IpcRequest)
        → (handle engine stale s q).1 ≡ s
        → IsFollowed m (handle engine stale s q).1
    same_state q e = rw e f

    stop-IsFollowed : IsFollowed m (handle engine stale s stop).1
    unfolding handle learn
    stop-IsFollowed =
        let e : (handle engine stale s stop).1
            ≡ record s { sent = s.sent ++ daemon_stopped ∷ []; cancelled = true } =
          ground (arith, f.listened) in
        rw e (record {
          listened = f.listened;
          well_formed = f.well_formed;
          knows = rw foldl-append f.knows;
        })

    by_validity :
        (domain : Text) (q : IpcRequest)
        → (validate_domain engine domain ≡ true → IsFollowed m (handle engine stale s q).1)
        → (validate_domain engine domain ≡ false → (handle engine stale s q).1 ≡ s)
        → IsFollowed m (handle engine stale s q).1
    by_validity domain q accepted refused = elim (Bool-cases (validate_domain engine domain)) [
      | inl valid ↦ accepted valid
      | inr invalid ↦ same_state q (refused invalid)
    ]

    -- While someone listens, every change of the rules reaches the subscribers as events: whoever
    -- applies the events to what it knew holds, after any request, the very rules of the store.
    handle-IsFollowed : (q : IpcRequest) → IsFollowed m (handle engine stale s q).1
    unfolding handle
    handle-IsFollowed (add domain target https) =
        by_validity domain (add domain target https)
          (λ v. add-IsFollowed engine stale domain v target https) (λ v. ground arith)
    handle-IsFollowed (add_ephemeral domain target https) =
        by_validity domain (add_ephemeral domain target https)
          (λ v. add_ephemeral-IsFollowed engine stale domain v target https) (λ v. ground arith)
    handle-IsFollowed (remove domain) =
        by_validity domain (remove domain) (λ v. remove-IsFollowed engine stale domain v)
          (λ v. ground arith)
    handle-IsFollowed (remove_ephemeral domain) =
        by_validity domain (remove_ephemeral domain)
          (λ v. remove_ephemeral-IsFollowed engine stale domain v) (λ v. ground arith)
    handle-IsFollowed (resolve domain) =
        by_validity domain (resolve domain) (λ v. same_state (resolve domain) (ground arith))
          (λ v. ground arith)
    handle-IsFollowed stop = stop-IsFollowed
    handle-IsFollowed _ = f

-- Whoever subscribes while it knows the store's rules, and applies each event it is then sent,
-- knows the store's rules after any requests in any order.
pub handle_all-IsFollowed :
    (engine : RegexEngine) (requests : List (List InnerRuleStore × IpcRequest)) {m : RuleMaps}
    {s : AppState}
    → IsFollowed m s
    → IsFollowed m (handle_all engine s requests)
unfolding handle_all
handle_all-IsFollowed engine [] f = f
handle_all-IsFollowed engine ((stale, q) ∷ rest) f =
    handle_all-IsFollowed engine rest (handle-IsFollowed f engine stale q)
