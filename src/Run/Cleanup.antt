-- ===== src/Run/Cleanup.antt =====
-- What the command leaves: the rules of the daemon, and the child.
use mathlib.Core.Path.{subst, subst⁻¹}
use sidedns.Prelude.{
  ◌≡◌, ◌≢◌, refl, ◌∙◌, true, Option, none, some, [], arith, nat_eq, text_eq, Bool-cases, List-cases,
  ◌⊎◌, inl, inr,
}
use sidedns.Text.{Text, to_lowercase}
use sidedns.Rule.{SocketAddr}
use sidedns.Domain.{RegexEngine, validate_domain}
use sidedns.Message.{add_ephemeral, IpcResponse, ok, error, rules, resolved, status_of, event}
use sidedns.Store.WellFormed.{IsWellFormed}
use sidedns.Store.Views.{ephemeral_for}
use sidedns.State.{AppState}
use sidedns.Client.{lost, send}
use sidedns.Client.Sending.{send-IsWellFormed}
use sidedns.Run.Requests.{
  send-KeepsRules, HasCleanedUp, watch-cleanup, watch-KeepsRules, KeepsRules,
}
use sidedns.Run.{
  RunArgs, Machine, failed, exited, not_started, alive, killed, Result, Detection, found, gives_up,
  fails, detect, kill_then, added, watch, launched, run,
}

module _ (engine : RegexEngine) (m : Machine) where
  after_adding : RunArgs → SocketAddr → AppState → AppState
  after_adding args target s =
      (send engine m.adding (add_ephemeral args.domain target args.https) s).1

  GivesUp : Result → Type 0
  GivesUp r =
      ((r.exit ≡ failed) ⊎ (r.exit ≡ exited 1))
      × ((r.child ≡ not_started) ⊎ ((r.child ≡ alive) ⊎ (r.child ≡ killed)))

  -- Either the rule was added and is watched over, or the command gave up, with the daemon as it
  -- was or as the request to add the rule left it.
  Outcome : RunArgs → AppState → Result → Type 0
  Outcome args s r =
      ((target : SocketAddr) × (r ≡ watch engine m args.domain (after_adding args target s)))
      ⊎ (GivesUp r
          × ((r.daemon ≡ s) ⊎ ((target : SocketAddr) × (r.daemon ≡ after_adding args target s))))

  added-cases :
      (response : Option IpcResponse) (s : AppState) (rest : Result)
      → (added engine m response s rest ≡ rest)
        ⊎ (GivesUp (added engine m response s rest) × ((added engine m response s rest).daemon ≡ s))
  unfolding added GivesUp
  added-cases none s rest = inr ((inl refl, inr (inl refl)), refl)
  added-cases (some (error e)) s rest = inr ((inr refl, inr (inl refl)), refl)
  added-cases (some ok) s rest = inl refl
  added-cases (some (rules _)) s rest = inl refl
  added-cases (some (resolved _)) s rest = inl refl
  added-cases (some (status_of _ _)) s rest = inl refl
  added-cases (some (event _)) s rest = inl refl

  launched-Outcome : (args : RunArgs) (s : AppState) → Outcome args s (launched engine m args s)
  unfolding launched kill_then Outcome GivesUp after_adding
  launched-Outcome args s = go (detect m args) refl
    where
      go : (d : Detection) → detect m args ≡ d → Outcome args s (launched engine m args s)
      go gives_up e =
          rw (e, launched)
            (elim (Bool-cases m.kills) [
              | inl works ↦ rw (works, kill_then) (inr ((inr refl, inr (inr refl)), inl refl))
              | inr breaks ↦ rw (breaks, kill_then) (inr ((inl refl, inr (inl refl)), inl refl))
            ])
      go fails e = rw (e, launched) (inr ((inl refl, inr (inl refl)), inl refl))
      go (found target) e =
          let request = add_ephemeral args.domain target args.https in
          let (response, s') = send engine m.adding request s in
          rw (e, launched)
            (elim (added-cases response s' (watch engine m args.domain s')) [
              | inl goes_on ↦ inl (target, goes_on)
              | inr (gave_up, kept) ↦ inr (gave_up, inr (target, kept))
            ])

  run_cases :
      (args : RunArgs) (s : AppState)
      → (run engine m args s ≡ launched engine m args s)
        ⊎ ((((run engine m args s).exit ≡ failed) ⊎ ((run engine m args s).exit ≡ exited 1))
            × (((run engine m args s).child ≡ not_started) × ((run engine m args s).daemon ≡ s)))
  unfolding run
  run_cases args s = elim (List-cases args.command) [
    | inl nothing ↦ inr (inr (ground arith), (ground arith, ground arith))
    | inr (name, (rest, given)) ↦ elim (Bool-cases m.spawns) [
      | inl spawned ↦ inl (ground arith)
      | inr refused ↦ inr (inl (ground arith), (ground arith, ground arith))
    ]
  ]

  run-Outcome : (args : RunArgs) (s : AppState) → Outcome args s (run engine m args s)
  unfolding Outcome GivesUp
  run-Outcome args s = elim (run_cases args s) [
    | inl same ↦ subst⁻¹ (Outcome args s) same (launched-Outcome args s)
    | inr (exit, (child, kept)) ↦ inr ((exit, inl child), inl kept)
  ]

  -- If the domain is valid and the request to remove the rule reaches the daemon, then once the
  -- command has returned without an error or has seen its child end, whatever other clients asked
  -- for in between, no ephemeral rule for the domain is left.
  pub run-cleanup :
      (args : RunArgs) (s : AppState)
      → IsWellFormed s.store
      → validate_domain engine args.domain ≡ true
      → m.removing ≢ lost
      → HasCleanedUp (run engine m args s)
      → ephemeral_for (run engine m args s).daemon.store (to_lowercase args.domain) ≡ none
  unfolding Outcome GivesUp after_adding
  run-cleanup args s wf valid reached over = elim (run-Outcome args s) [
    | inl (target, watches) ↦
        let sent =
          send-IsWellFormed engine m.adding (add_ephemeral args.domain target args.https) s wf in
        rw watches (
          watch-cleanup engine m args.domain (after_adding args target s) sent valid reached
            (subst HasCleanedUp watches over))
    | inr ((exit, child), kept) ↦ absurd (ground arith)
  ]

  -- Without other clients, whatever fails or is lost, the command leaves every persistent rule as it
  -- was, and every ephemeral one but that of its domain.
  pub run-KeepsRules :
      (args : RunArgs) (s : AppState) (k : Text)
      → IsWellFormed s.store
      → m.others ≡ []
      → KeepsRules args.domain k s.store (run engine m args s).daemon.store
  unfolding Outcome after_adding
  run-KeepsRules args s k wf alone =
      let adds = λ (target : SocketAddr).
        (send-KeepsRules engine m.adding args.domain target args.https s k wf).0 in
      elim (run-Outcome args s) [
        | inl (target, watches) ↦
            let sent =
              send-IsWellFormed engine m.adding (add_ephemeral args.domain target args.https) s
                wf in
            let watched =
              watch-KeepsRules engine m args.domain (after_adding args target s) k sent alone in
            rw watches (
              watched.0 ∙ (adds target).0,
              λ different. watched.1 different ∙ (adds target).1 different,
            )
        | inr (gave_up, inl kept) ↦ rw kept (refl, λ different. refl)
        | inr (gave_up, inr (target, kept)) ↦ rw kept (adds target)
      ]
