-- ===== src/Handler/Effect.antt =====
-- What a request does to the store, and what is answered.
use sidedns.Prelude.{
  ◌≡◌, refl, Bool, false, Option, none, some, List, [], ◌∷◌, arith, if◌then◌else◌, Bool-cases,
  Option-cases, inl, inr,
}
use sidedns.Text.{Text, to_lowercase}
use sidedns.Rule.{v4, SocketAddr, DnsRule}
use sidedns.Domain.{RegexEngine, validate_domain}
use sidedns.Message.{
  IpcRequest, add, add_ephemeral, remove, remove_ephemeral, list, resolve, status, stop, subscribe,
  DnsEvent, ok,
}
use sidedns.Store.{InnerRuleStore}
use sidedns.Store.Shared.{writes_once}
use sidedns.Store.WellFormed.{
  IsWellFormed, Update, adding, adding_ephemeral, removing, removing_ephemeral, update,
  update-IsWellFormed,
}
use sidedns.Store.Views.{persistent_for, ephemeral_for, remove_view, remove_ephemeral_view}
use sidedns.State.{AppState, dispatch}
use sidedns.Handler.{handle, invalid_domain, no_rule, no_ephemeral_rule}

abbrev pub rule_of : Text → SocketAddr → Bool → DnsRule
rule_of domain target https = record {
  domain = to_lowercase domain;
  target = target;
  https = https;
}

abbrev pub any_rule : DnsRule
any_rule = record { domain = []; target = record { ip = v4 0; port = 0 }; https = false }

-- The update of the store that a request asks for.
abbrev pub asks : IpcRequest → Option (Text × Update)
asks (add domain target https) = some (domain, adding (rule_of domain target https))
asks (add_ephemeral domain target https) =
    some (domain, adding_ephemeral (rule_of domain target https))
asks (remove domain) = some (domain, removing (to_lowercase domain))
asks (remove_ephemeral domain) = some (domain, removing_ephemeral (to_lowercase domain))
asks _ = none

-- The store after a request, as the store's own operations describe it.
abbrev pub store_after : RegexEngine → InnerRuleStore → IpcRequest → InnerRuleStore
store_after engine s request = elim (asks request) [
  | none ↦ s
  | some (domain, u) ↦ if validate_domain engine domain then update s u else s
]

dispatch-store : (s : AppState) (e : DnsEvent) → (dispatch s e).1.store ≡ s.store
unfolding dispatch
dispatch-store s e = ground arith

-- A request acts on the store as the one update that it asks for, once its domain is validated
-- and lower-cased, and a request with an invalid domain, or one that only reads, not at all;
-- whatever snapshots the rounds of `rcu` saw.
pub handle-store :
    (engine : RegexEngine) (stale : List InnerRuleStore) (s : AppState) (request : IpcRequest)
    → (handle engine stale s request).1.store ≡ store_after engine s.store request
unfolding handle update
handle-store engine stale s (add domain target https) =
    let r = rule_of domain target https in
    ground (arith, (writes_once stale s.store r (to_lowercase domain)).0)
handle-store engine stale s (add_ephemeral domain target https) =
    let r = rule_of domain target https in
    ground (arith, (writes_once stale s.store r (to_lowercase domain)).1)
handle-store engine stale s (remove domain) =
    let d = to_lowercase domain in ground (arith, (writes_once stale s.store any_rule d).2)
handle-store engine stale s (remove_ephemeral domain) =
    let d = to_lowercase domain in ground (arith, (writes_once stale s.store any_rule d).3)
handle-store engine stale s list = refl
handle-store engine stale s (resolve domain) = ground arith
handle-store engine stale s status = refl
handle-store engine stale s stop = dispatch-store s _
handle-store engine stale s subscribe = refl

-- What is answered to a request for a removal: the layer's rule for the lower-cased domain
-- decides between success and the error that names the domain.
pub handle-remove :
    (engine : RegexEngine) (stale : List InnerRuleStore) (s : AppState) (domain : Text)
    → IsWellFormed s.store
    → (handle engine stale s (remove domain)).0 ≡ (
        if validate_domain engine domain
        then (elim (persistent_for s.store (to_lowercase domain)) [
          | some _ ↦ ok
          | none ↦ no_rule (to_lowercase domain)
        ])
        else invalid_domain domain)
unfolding handle
handle-remove engine stale s domain wf =
    let d = to_lowercase domain in
    ground (arith, (writes_once stale s.store any_rule d).2, (remove_view d d wf).0)

handle-remove_ephemeral :
    (engine : RegexEngine) (stale : List InnerRuleStore) (s : AppState) (domain : Text)
    → IsWellFormed s.store
    → (handle engine stale s (remove_ephemeral domain)).0 ≡ (
        if validate_domain engine domain
        then (elim (ephemeral_for s.store (to_lowercase domain)) [
          | some _ ↦ ok
          | none ↦ no_ephemeral_rule (to_lowercase domain)
        ])
        else invalid_domain domain)
unfolding handle
handle-remove_ephemeral engine stale s domain wf =
    let d = to_lowercase domain in
    ground (arith, (writes_once stale s.store any_rule d).3, (remove_ephemeral_view d d wf).0)

-- Requests handled one after the other, each with the snapshots that its rounds saw.
unfoldable pub handle_all :
    RegexEngine → AppState → List (List InnerRuleStore × IpcRequest) → AppState
unfolding handle
handle_all engine s [] = s
handle_all engine s ((stale, request) ∷ rest) =
    handle_all engine (handle engine stale s request).1 rest

pub handle-IsWellFormed :
    (engine : RegexEngine) (stale : List InnerRuleStore) (s : AppState) (request : IpcRequest)
    → IsWellFormed s.store
    → IsWellFormed (handle engine stale s request).1.store
handle-IsWellFormed engine stale s request wf =
    rw (handle-store engine stale s request) (after request)
  where
    after : (q : IpcRequest) → IsWellFormed (store_after engine s.store q)
    after q = elim (Option-cases (asks q)) [
      | inl reads ↦ rw (reads, store_after) wf
      | inr ((domain, u), writes) ↦
          rw (writes, store_after)
            (elim (Bool-cases (validate_domain engine domain)) [
              | inl valid ↦ rw valid (update-IsWellFormed u wf)
              | inr invalid ↦ rw invalid wf
            ])
    ]

pub handle-receivers :
    (engine : RegexEngine) (stale : List InnerRuleStore) (s : AppState) (q : IpcRequest)
    → (handle engine stale s q).1.receivers ≡ s.receivers
unfolding handle
handle-receivers engine stale s (add domain target https) = ground arith
handle-receivers engine stale s _ = ground arith
