-- ===== src/Run/Requests.antt =====
-- What the requests that the command sends do to the rules, and its wait for the end.
use sidedns.Prelude.{
  ◌≡◌, ◌≢◌, refl, ◌∙◌, Bool, true, false, none, List, [], ◌∷◌, arith, nat_eq, text_eq, text_eq_refl,
  text_eq, ◌==◌, Bool-cases, Option-cases, ◌⊎◌, inl, inr,
}
use sidedns.Text.{Text, to_lowercase}
use sidedns.Rule.{SocketAddr}
use sidedns.Domain.{RegexEngine, validate_domain}
use sidedns.Message.{IpcRequest, add_ephemeral, remove_ephemeral}
use sidedns.Store.{InnerRuleStore}
use sidedns.Store.WellFormed.{IsWellFormed, update}
use sidedns.Store.Views.{persistent_for, ephemeral_for, add_ephemeral_view, remove_ephemeral_view}
use sidedns.State.{AppState}
use sidedns.Handler.{handle}
use sidedns.Handler.Effect.{rule_of, handle_all, handle-IsWellFormed}
use sidedns.Client.{Delivery, lost, handled, send}
use sidedns.Client.Sending.{send-store}
use sidedns.Run.{
  localhost, Machine, returned, ended, Result, interrupted, stopped, child_ended, select, kill_then,
  cleanup, watch,
}

-- The end of a run that cleans up.
abbrev pub HasCleanedUp : Result → Type 0
HasCleanedUp r = (r.exit ≡ returned) ⊎ (r.child ≡ ended)

-- Between two stores a pattern keeps its persistent rule, and unless it is the domain its ephemeral one.
abbrev pub KeepsRules : (domain k : Text) (before after : InnerRuleStore) → Type 0
KeepsRules domain k before after =
    (persistent_for after k ≡ persistent_for before k)
    × ((to_lowercase domain == k) ≡ false → ephemeral_for after k ≡ ephemeral_for before k)

module _ (engine : RegexEngine) where
  handle_all-IsWellFormed :
      (requests : List (List InnerRuleStore × IpcRequest)) (s : AppState)
      → IsWellFormed s.store
      → IsWellFormed (handle_all engine s requests).store
  unfolding handle_all
  handle_all-IsWellFormed [] s wf = wf
  handle_all-IsWellFormed ((stale, request) ∷ rest) s wf =
      handle_all-IsWellFormed rest (handle engine stale s request).1
        (handle-IsWellFormed engine stale s request wf)

  -- Neither request for an ephemeral rule touches a rule but the ephemeral one of its domain.
  pub send-KeepsRules :
      (d : Delivery) (domain : Text) (target : SocketAddr) (https : Bool) (s : AppState) (k : Text)
      → IsWellFormed s.store
      → KeepsRules domain k s.store (send engine d (add_ephemeral domain target https) s).1.store
        × KeepsRules domain k s.store (send engine d (remove_ephemeral domain) s).1.store
  unfolding send update
  send-KeepsRules lost domain target https s k wf =
      ((refl, λ different. refl), (refl, λ different. refl))
  send-KeepsRules (handled stale answered) domain target https s k wf =
      let set = send-store engine stale answered (add_ephemeral domain target https) s in
      let unset = send-store engine stale answered (remove_ephemeral domain) s in
      elim (Bool-cases (validate_domain engine domain)) [
        | inl valid ↦
            let added = add_ephemeral_view (rule_of domain target https) k wf in
            let removed = remove_ephemeral_view (to_lowercase domain) k wf in
            rw (set, unset, valid)
              (
                (added.1, λ different. added.0 ∙ rw different refl),
                (removed.2, λ different. removed.1 ∙ rw different refl),
              )
        | inr invalid ↦
            rw (set, unset, invalid) ((refl, λ different. refl), (refl, λ different. refl))
      ]

  -- A removal that the daemon handles leaves no ephemeral rule for a valid domain.
  ephemeral_for-send :
      (d : Delivery) (domain : Text) (s : AppState)
      → IsWellFormed s.store
      → validate_domain engine domain ≡ true
      → d ≢ lost
      → ephemeral_for (send engine d (remove_ephemeral domain) s).1.store (to_lowercase domain)
        ≡ none
  unfolding send update
  ephemeral_for-send lost domain s wf valid reached = absurd (reached refl)
  ephemeral_for-send (handled stale answered) domain s wf valid reached =
      let d = to_lowercase domain in
      rw (send-store engine stale answered (remove_ephemeral domain) s, valid)
        ((remove_ephemeral_view d d wf).1 ∙ rw (text_eq_refl d) refl)

module _ (engine : RegexEngine) (m : Machine) where
  pub watch-cleanup :
      (domain : Text) (s : AppState)
      → IsWellFormed s.store
      → validate_domain engine domain ≡ true
      → m.removing ≢ lost
      → HasCleanedUp (watch engine m domain s)
      → ephemeral_for (watch engine m domain s).daemon.store (to_lowercase domain) ≡ none
  unfolding watch kill_then cleanup
  watch-cleanup domain s wf valid reached over =
      let s' = handle_all engine s m.others in
      let clean =
        ephemeral_for-send engine m.removing domain s'
          (handle_all-IsWellFormed engine m.others s wf) valid reached in
      elim (Bool-cases m.subscribes) [
        | inr unheard ↦ ground arith
        | inl subscribed ↦ elim (Option-cases (select m.turns)) [
          | inl unready ↦ ground arith
          | inr (interrupted, won) ↦ elim (Bool-cases m.kills) [
            | inl works ↦ rw (subscribed, won, works, watch, kill_then) clean
            | inr fails_to ↦ ground arith
          ]
          | inr (stopped, won) ↦ ground arith
          | inr (child_ended status, won) ↦ rw (subscribed, won, watch) clean
        ]
      ]

  pub watch-KeepsRules :
      (domain : Text) (s : AppState) (k : Text)
      → IsWellFormed s.store
      → m.others ≡ []
      → KeepsRules domain k s.store (watch engine m domain s).daemon.store
  unfolding watch kill_then cleanup handle_all
  watch-KeepsRules domain s k wf alone =
      let any_target : SocketAddr = record { ip = localhost; port = 0 } in
      let removed = (send-KeepsRules engine m.removing domain any_target false s k wf).1 in
      (ground (arith, removed.0), λ different. ground (arith, removed.1 different))
