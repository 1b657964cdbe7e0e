-- ===== src/Command.antt =====
-- cli/src/lib.rs, cli/src/daemon.rs and cli/src/commands/daemon.rs: which command needs the daemon,
-- and how the daemon is started and stopped.
-- The machine is a parameter: what the probes of the socket answer, the service and the rights.
pub mod Arguments
pub mod Starting
pub mod Entry
pub mod Tests
use sidedns.Prelude.{
  ℕ, zero, suc, ◌+◌, Bool, true, false, not, ◌&&◌, ◌||◌, Option, none, some, List, [], ◌∷◌, ◌++◌,
  if◌then◌else◌,
}

-- `ipc_running` and `daemon_running` are the answers when a command begins; `up n` is the answer to
-- the probe `n` seconds after the daemon was spawned. The others tell what succeeds.
pub record Machine : Type 0 where
  pub is_superuser : Bool
  pub ipc_running : Bool
  pub daemon_running : Bool
  pub service_installed : Bool
  pub takes_stop : Bool
  pub service_stops : Bool
  pub spawns : Bool
  pub runs : Bool
  pub up : ℕ → Bool

pub record DaemonStartArgs : Type 0 where
  pub background : Bool
  pub no_background : Bool
  pub daemon : Bool

pub data DaemonAction : Type 0 where
  start : DaemonStartArgs → DaemonAction
  stop : DaemonAction

-- `Command` of cli.rs, without the arguments that do not decide what is started.
pub data Command : Type 0 where
  cert list add remove resolve run status clean watch : Command
  daemon : Option DaemonAction → Command

-- What a command does, in order; `performed` is the command's own function of `commands`.
pub data Act : Type 0 where
  stop_request stop_service spawned ran_in_foreground ran_as_daemon : Act
  performed : Command → Act

-- `DEFAULT_DAEMON_START_ARGS` of cli.rs
abbrev pub default_start_args : DaemonStartArgs
default_start_args = record { background = true; no_background = false; daemon = false }

-- The loop of `run_daemon`: a probe after each second, `tries` times at most.
unfoldable pub wait : (ℕ → Bool) → (tries now : ℕ) → Bool
wait up zero now = false
wait up (suc tries) now =
    let later = wait up tries (now + 1) in if up (now + 1) then true else later

unfoldable pub run_daemon : Bool → Machine → Bool × List Act
unfolding wait
run_daemon background m =
    if not m.is_superuser
    then (false, [])
    else if not background
    then (m.runs, ran_in_foreground ∷ [])
    else if not m.spawns
    then (false, [])
    else (wait m.up 10 0, spawned ∷ [])

-- After `Stop` was sent the command polls for at most ten seconds and then ends all the same. A
-- daemon that is neither reachable nor a service can only be reported.
unfoldable pub stop_daemon : Machine → Bool × List Act
stop_daemon m =
    if not (m.ipc_running || m.daemon_running)
    then (true, [])
    else if m.ipc_running
    then (m.takes_stop, stop_request ∷ [])
    else if m.service_installed
    then (m.service_stops, stop_service ∷ [])
    else (true, [])

unfoldable pub start_daemon : DaemonStartArgs → Machine → Bool × List Act
unfolding stop_daemon run_daemon
start_daemon args m =
    let background = args.background && not args.no_background in
    if m.ipc_running
    then (true, [])
    else if m.daemon_running
    then (let (stopped, acts) = stop_daemon m in
        let (started, more) = run_daemon background m in
        if stopped then (started, acts ++ more) else (false, acts))
    else run_daemon background m

unfoldable pub ensure_running : Machine → Bool × List Act
unfolding start_daemon
ensure_running m = if not m.ipc_running then start_daemon default_start_args m else (true, [])

-- The arms of `execute_from_command_line` that begin with `ensure_running`.
unfoldable pub needs_daemon : Command → Bool
needs_daemon add = true
needs_daemon remove = true
needs_daemon list = true
needs_daemon resolve = true
needs_daemon run = true
needs_daemon watch = true
needs_daemon _ = false

-- `succeeds` is whether the command's own function ends without an error.
unfoldable pub execute_from_command_line : (Command → Bool) → Command → Machine → Bool × List Act
unfolding needs_daemon ensure_running start_daemon stop_daemon
execute_from_command_line succeeds (daemon none) m = start_daemon default_start_args m
execute_from_command_line succeeds (daemon (some (start args))) m = start_daemon args m
execute_from_command_line succeeds (daemon (some stop)) m = stop_daemon m
execute_from_command_line succeeds command m =
    if needs_daemon command
    then (let (running, acts) = ensure_running m in
        if running then (succeeds command, acts ++ performed command ∷ []) else (false, acts))
    else (succeeds command, performed command ∷ [])
