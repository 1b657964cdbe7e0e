-- ===== src/Command/Entry.antt =====
-- src/main.rs and cli/src/main.rs, with `handle_daemon_start` of cli/src/daemon.rs: what a process of
-- the program does, and that the process spawned to be the daemon spawns no other.
-- clap's reading of the arguments and the daemon_kit crate are parameters.
use sidedns.Prelude.{
  ℕ, ◌≡◌, Bool, true, false, ◌&&◌, some, List, [], ◌∷◌, arith, if◌then◌else◌, Bool-cases, inl, inr,
}
use sidedns.Command.{
  Machine, Command, DaemonStartArgs, daemon, start, Act, ran_as_daemon, start_daemon,
  execute_from_command_line,
}

-- What `Cli::try_parse_from` returns: a command, or an error that only shows help or the version, or
-- another.
pub data Reading : Type 0 where
  command : Command → Reading
  display invalid : Reading

-- The arguments, whether there is none but the program's name, and what a process finds: whether
-- `DAEMON_ENV` is set, and whether `daemon.start` with the daemon's run ends without an error.
pub record Process : Type 0 where
  pub bare : Bool
  pub reading : Reading
  pub daemon_env : Bool
  pub serves : Bool
  pub machine : Machine

-- `handle_daemon_start`: `true` and `false` as the code returns them, or an exit of the process.
pub data Handled : Type 0 where
  returned : Bool → Handled
  exited : Handled

unfoldable pub handle_daemon_start : Process → Handled
handle_daemon_start p = elim p.reading [
  | command (daemon (some (start args))) ↦
      if p.daemon_env && (args.background && args.daemon)
      then (if p.serves then returned true else exited)
      else returned false
  | _ ↦ returned false
]

-- The status that the process exits with, and what it does; `succeeds` is as for the command line.
unfoldable pub main : (Command → Bool) → Process → ℕ × List Act
unfolding handle_daemon_start execute_from_command_line
main succeeds p = elim (handle_daemon_start p) [
  | exited ↦ (1, ran_as_daemon ∷ [])
  | returned true ↦ (0, ran_as_daemon ∷ [])
  | returned false ↦ if p.bare then (0, []) else (elim p.reading [
    | display ↦ (0, [])
    | invalid ↦ (1, [])
    | command c ↦
        let (ended, acts) = execute_from_command_line succeeds c p.machine in
        (if ended then 0 else 1, acts)
  ])
]

-- A process whose arguments are read as `daemon start --daemon` in the background, with the variable
-- set, is the daemon itself: whatever it finds on the machine it spawns nothing and asks no other
-- process for anything, and its status tells whether the daemon ended without an error. Without the
-- variable or the flag, it is an ordinary start of the daemon.
main_daemon :
    (succeeds : Command → Bool) (p : Process) (args : DaemonStartArgs)
    → p.reading ≡ command (daemon (some (start args)))
    → p.bare ≡ false
    → args.background ≡ true
    → main succeeds p ≡ (
        if p.daemon_env && args.daemon
        then (if p.serves then 0 else 1, ran_as_daemon ∷ [])
        else (let (ended, acts) = start_daemon args p.machine in (if ended then 0 else 1, acts)))
unfolding main handle_daemon_start execute_from_command_line
main_daemon succeeds p args read given background =
    elim (Bool-cases (p.daemon_env && (args.background && args.daemon))) [
      | inl own ↦ rw (read, main, handle_daemon_start, own) (ground arith)
      | inr other ↦
          rw (read, main, handle_daemon_start, other, given, execute_from_command_line)
            (ground arith)
    ]
