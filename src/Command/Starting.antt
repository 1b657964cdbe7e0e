-- ===== src/Command/Starting.antt =====
-- When a command finds a daemon.
use sidedns.Prelude.{
  ℕ, zero, suc, ◌+◌, ◌<◌, ◌≡◌, ◌↔◌, ◌⊎◌, inl, inr, ap, ◌∙◌, Bool, true, none, some, arith,
  Bool-cases,
}
use sidedns.Command.{
  Machine, Command, daemon, start, stop, default_start_args, wait, run_daemon, start_daemon,
  ensure_running, needs_daemon, execute_from_command_line,
}

wait_sound :
    (up : ℕ → Bool) (tries now : ℕ)
    → wait up tries now ≡ true
    → (n : ℕ) × ((n < tries) × (up (now + 1 + n) ≡ true))
unfolding wait
wait_sound up zero now h = cc
wait_sound up (suc tries) now h = elim (Bool-cases (up (now + 1))) [
  | inl first ↦ (0, (omega arith, ap up (omega arith) ∙ first))
  | inr not_yet ↦
      let (n, (few, found)) = wait_sound up tries (now + 1) (ground arith) in
      (suc n, (omega arith, ap up (omega arith) ∙ found))
]

wait_complete :
    (up : ℕ → Bool) (tries now n : ℕ)
    → n < tries
    → up (now + 1 + n) ≡ true
    → wait up tries now ≡ true
unfolding wait
wait_complete up zero now n few found = ground (arith, few)
wait_complete up (suc tries) now zero few found =
    let first : up (now + 1) ≡ true = ap up (omega arith) ∙ found in ground arith
wait_complete up (suc tries) now (suc n) few found =
    ground (arith, wait_complete up tries (now + 1) n (omega arith) (ap up (omega arith) ∙ found))

-- Starting the daemon in the background succeeds exactly when it answers one of the ten probes,
-- a second apart.
run_daemon_iff :
    (m : Machine)
    → m.is_superuser ≡ true
    → m.spawns ≡ true
    → ((run_daemon true m).0 ≡ true) ↔ ((n : ℕ) × ((n < 10) × (m.up (1 + n) ≡ true)))
unfolding run_daemon
run_daemon_iff m root spawning =
    rw (root, spawning, run_daemon)
      (wait_sound m.up 10 0, λ found. wait_complete m.up 10 0 found.0 found.1.0 found.1.1)

-- A command that needs the daemon ends without an error only if the daemon answers: it did so when the
-- command began, or does once it was started.
execute-needs_daemon :
    (succeeds : Command → Bool) (c : Command) (m : Machine)
    → needs_daemon c ≡ true
    → (execute_from_command_line succeeds c m).0 ≡ true
    → (m.ipc_running ≡ true) ⊎ ((start_daemon default_start_args m).0 ≡ true)
unfolding execute_from_command_line needs_daemon ensure_running
execute-needs_daemon succeeds (daemon none) m needs h = cc
execute-needs_daemon succeeds (daemon (some (start args))) m needs h = cc
execute-needs_daemon succeeds (daemon (some stop)) m needs h = cc
execute-needs_daemon succeeds c m needs h = elim (Bool-cases m.ipc_running) [
  | inl answers ↦ inl answers
  | inr silent ↦ inr (ground arith)
]
