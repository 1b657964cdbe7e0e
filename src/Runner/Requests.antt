-- ===== src/Runner/Requests.antt =====
-- A request changes how a name resolves only with an event that concerns the name.
use mathlib.Core.List.{append_cancel_left}
use sidedns.Prelude.{
  ◌≡◌, refl, sym, ap, ◌∙◌, Bool, true, false, List, [], ◌∷◌, ◌++◌, arith, ◌<◌, ◌⊎◌, inl, inr, any,
  Bool-cases, Option-cases, text_eq,
}
use sidedns.Text.{Text, to_lowercase}
use sidedns.Rule.{matches, SocketAddr}
use sidedns.Domain.{RegexEngine, validate_domain}
use sidedns.Message.{
  add, add_ephemeral, remove, remove_ephemeral, resolve, stop, IpcRequest, DnsEvent, rule_added,
  rule_removed, ephemeral_added, ephemeral_removed, daemon_stopped,
}
use sidedns.Store
use sidedns.Store.{InnerRuleStore}
use sidedns.Store.WellFormed.{IsWellFormed}
use sidedns.Store.Frame.{
  HasNoOverlap, resolve-add_ne, resolve-add_ephemeral_ne, resolve-remove_ne,
  resolve-remove_ephemeral_ne,
}
use sidedns.Store.Shared.{writes_once}
use sidedns.State.{AppState}
use sidedns.Handler.{handle}
use sidedns.Handler.Effect.{rule_of, any_rule}

-- The names that an event's rule matches.
abbrev pub concerns : Text → DnsEvent → Bool
concerns d (rule_added r) = matches r d
concerns d (rule_removed r) = matches r d
concerns d (ephemeral_added r) = matches r d
concerns d (ephemeral_removed r) = matches r d
concerns d daemon_stopped = false

-- Either the name resolves as before, or one of the new events concerns it.
abbrev pub Announced : Text → InnerRuleStore → InnerRuleStore → List DnsEvent → Type 0
Announced d before after new =
    (Store.resolve after d ≡ Store.resolve before d) ⊎ (any (concerns d) new ≡ true)

module _ (d : Text) (s : AppState) (listened : 0 < s.receivers) where
  -- One event was sent, and it concerns the name unless the store resolves it as before.
  one_event :
      (e : DnsEvent) (after : AppState) (new : List DnsEvent)
      → after.sent ≡ s.sent ++ e ∷ []
      → after.sent ≡ s.sent ++ new
      → (concerns d e ≡ false → Store.resolve after.store d ≡ Store.resolve s.store d)
      → Announced d s.store after.store new
  unfolding any
  one_event e after new sent grew same = elim (Bool-cases (concerns d e)) [
    | inl concerned ↦
        inr (rw (append_cancel_left s.sent new (e ∷ []) (sym grew ∙ sent)) (ground arith))
    | inr not_concerned ↦ inl (same not_concerned)
  ]

  module _ (engine : RegexEngine) (stale : List InnerRuleStore) (new : List DnsEvent)
      (wf : IsWellFormed s.store) (apart : HasNoOverlap s.store d) where
    abbrev Answers : IpcRequest → Type 0
    Answers q =
        (handle engine stale s q).1.sent ≡ s.sent ++ new
        → Announced d s.store (handle engine stale s q).1.store new

    by_validity :
        (domain : Text) (q : IpcRequest)
        → (validate_domain engine domain ≡ true → Answers q)
        → (validate_domain engine domain ≡ false → (handle engine stale s q).1 ≡ s)
        → Answers q
    by_validity domain q accepted refused grew = elim (Bool-cases (validate_domain engine domain)) [
      | inl valid ↦ accepted valid grew
      | inr invalid ↦ inl (ap (λ (t : AppState). Store.resolve t.store d) (refused invalid))
    ]

    announced_add :
        (domain : Text) (target : SocketAddr) (https : Bool)
        → validate_domain engine domain ≡ true
        → Answers (add domain target https)
    unfolding handle
    announced_add domain target https valid grew =
        let r = rule_of domain target https in
        one_event (rule_added r) (handle engine stale s (add domain target https)).1 new
          (ground (arith, (writes_once stale s.store r domain).0)) grew
          (λ out.
            ground (arith, (writes_once stale s.store r domain).0, resolve-add_ne s.store r d out))

    announced_add_ephemeral :
        (domain : Text) (target : SocketAddr) (https : Bool)
        → validate_domain engine domain ≡ true
        → Answers (add_ephemeral domain target https)
    unfolding handle
    announced_add_ephemeral domain target https valid grew =
        let r = rule_of domain target https in
        one_event (ephemeral_added r) (handle engine stale s (add_ephemeral domain target https)).1
          new (ground (arith, (writes_once stale s.store r domain).1)) grew
          (λ out. ground (
            arith,
            (writes_once stale s.store r domain).1,
            resolve-add_ephemeral_ne s.store r d out,
          ))

    announced_remove :
        (domain : Text) → validate_domain engine domain ≡ true → Answers (remove domain)
    unfolding handle
    announced_remove domain valid grew =
        let k = to_lowercase domain in
        let once = (writes_once stale s.store any_rule k).2 in
        elim (Option-cases (Store.remove s.store k).0) [
          | inl missing ↦ inl (ground (arith, once, resolve-remove_ne wf k d apart (λ a e. cc)))
          | inr (a, found) ↦
              one_event (rule_removed a) (handle engine stale s (remove domain)).1 new
                (ground (arith, once)) grew
                (λ out. ground (arith, once, resolve-remove_ne wf k d apart (λ c e. ground arith)))
        ]

    announced_remove_ephemeral :
        (domain : Text) → validate_domain engine domain ≡ true → Answers (remove_ephemeral domain)
    unfolding handle
    announced_remove_ephemeral domain valid grew =
        let k = to_lowercase domain in
        let once = (writes_once stale s.store any_rule k).3 in
        elim (Option-cases (Store.remove_ephemeral s.store k).0) [
          | inl missing ↦
              inl (ground (arith, once, resolve-remove_ephemeral_ne wf k d apart (λ a e. cc)))
          | inr (a, found) ↦
              one_event (ephemeral_removed a) (handle engine stale s (remove_ephemeral domain)).1
                new (ground (arith, once)) grew
                (λ out.
                  ground
                    (arith, once, resolve-remove_ephemeral_ne wf k d apart (λ c e. ground arith)))
        ]

    -- While someone listens and no two wildcards overlap at the name, a request that changes how
    -- the name resolves sends an event about a rule that matches it.
    pub handle_concerns : (q : IpcRequest) → Answers q
    unfolding handle
    handle_concerns (add domain target https) =
        by_validity domain (add domain target https) (announced_add domain target https)
          (λ v. ground arith)
    handle_concerns (add_ephemeral domain target https) =
        by_validity domain (add_ephemeral domain target https)
          (announced_add_ephemeral domain target https) (λ v. ground arith)
    handle_concerns (remove domain) =
        by_validity domain (remove domain) (announced_remove domain) (λ v. ground arith)
    handle_concerns (remove_ephemeral domain) =
        by_validity domain (remove_ephemeral domain) (announced_remove_ephemeral domain)
          (λ v. ground arith)
    handle_concerns (resolve domain) =
        by_validity domain (resolve domain) (λ v grew. inl (ground arith)) (λ v. ground arith)
    handle_concerns stop = λ grew. inl (ground arith)
    handle_concerns _ = λ grew. inl refl
