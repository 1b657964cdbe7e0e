-- ===== src/Run.antt =====
-- cli/src/commands/run.rs: a command is run with an ephemeral rule for as long as it lasts.
-- The machine and the turn of events are an argument; the daemon is the handler of its requests.
pub mod Requests
pub mod Cleanup
pub mod Tests
use sidedns.Prelude.{
  ℕ, Bool, true, false, not, Option, none, some, List, [], ◌∷◌, map, ◌==◌, nat_eq, if◌then◌else◌,
}
use sidedns.Text.{Text}
use sidedns.Rule.{IpAddr, v4, SocketAddr}
use sidedns.Domain.{RegexEngine}
use sidedns.Message.{
  IpcRequest, add_ephemeral, remove_ephemeral, IpcResponse, error, DnsEvent, daemon_stopped,
}
use sidedns.Store.{InnerRuleStore}
use sidedns.State.{AppState}
use sidedns.Handler.{handle}
use sidedns.Handler.Effect.{handle_all}
use sidedns.Client.{Delivery, send}
use sidedns.Processes.{System, Listener, wait_for_port, detect_network_processes}

pub record RunArgs : Type 0 where
  pub domain : Text
  pub ip : Option IpAddr
  pub port : Option ℕ
  pub https : Bool
  pub command : List Text
  pub detect_timeout : ℕ

-- `ExitStatus`: the code, unless a signal ended the process. A failing `wait` has no status.
pub data Status : Type 0 where
  exit_status : (code : Option ℕ) → Status
  wait_error : Status

-- What is ready when the program wakes up in `select!`: the events received since the last time,
-- whether the subscription is closed after them, and whether the child is found to have ended.
pub record Turn : Type 0 where
  pub ctrl_c : Bool
  pub events : List DnsEvent
  pub closed : Bool
  pub status : Option Status

-- The fields in the order in which the command meets them. `others` are the requests of other
-- clients that the daemon handles while the child runs.
pub record Machine : Type 0 where
  pub spawns : Bool
  pub pid : Option ℕ
  pub now : ℕ → ℕ
  pub taken : SocketAddr → ℕ → Bool
  pub start : ℕ
  pub processes : System
  pub listeners : Option (List Listener)
  pub prompt : List SocketAddr → Option SocketAddr
  pub adding : Delivery
  pub subscribes : Bool
  pub turns : List Turn
  pub others : List (List InnerRuleStore × IpcRequest)
  pub kills : Bool
  pub removing : Delivery

-- `Ipv4Addr::LOCALHOST`
abbrev pub localhost : IpAddr
localhost = v4 0x7F000001

pub data Exit : Type 0 where
  returned failed waiting : Exit
  exited : (code : ℕ) → Exit

pub data Child : Type 0 where
  not_started alive killed ended : Child

-- A child is `alive` as long as the command has neither killed it nor seen it end.
-- How the command ends, what its child is then, and the daemon's state.
pub record Result : Type 0 where
  pub exit : Exit
  pub child : Child
  pub daemon : AppState

-- The address of the rule; `gives_up` kills the child and exits with 1, `fails` is an error of the prompt.
pub data Detection : Type 0 where
  found : SocketAddr → Detection
  gives_up fails : Detection

unfoldable pub choose : Machine → List SocketAddr → Detection
choose m [] = gives_up
choose m (a ∷ []) = found a
choose m (a ∷ b ∷ rest) = elim (m.prompt (a ∷ b ∷ rest)) [
  | none ↦ fails
  | some selection ↦ found selection
]

-- `args.ip.unwrap_or(Ipv4Addr::LOCALHOST.into())`
unfoldable pub ip_or_localhost : Option IpAddr → IpAddr
ip_or_localhost none = localhost
ip_or_localhost (some ip) = ip

-- The outcomes of `wait_for_port` and `detect_network_processes` are never without a result, where
-- the clock advances and no pid is listed twice.
unfoldable pub detect : Machine → RunArgs → Detection
unfolding ip_or_localhost wait_for_port detect_network_processes choose
detect m args = elim args.port [
  | some p ↦
      let address : SocketAddr = record { ip = ip_or_localhost args.ip; port = p } in
      elim (wait_for_port m.now (m.taken address) m.start args.detect_timeout) [
        | some true ↦ found address
        | _ ↦ gives_up
      ]
  | none ↦ elim m.pid [
    | none ↦ gives_up
    | some pid ↦ elim (detect_network_processes m.processes m.listeners pid) [
      | none ↦ gives_up
      | some processes ↦ choose m (map (λ p. p.1) processes)
    ]
  ]
]

-- `stop_event`: it ends with the event of that name or with the subscription.
unfoldable pub stop_event : List DnsEvent → Bool → Bool
stop_event [] closed = closed
stop_event (daemon_stopped ∷ events) closed = true
stop_event (_ ∷ events) closed = stop_event events closed

pub data Ending : Type 0 where
  interrupted stopped : Ending
  child_ended : Status → Ending

-- `select!`, biased: the first of the three that is ready.
unfoldable pub select : List Turn → Option Ending
unfolding stop_event
select [] = none
select (t ∷ turns) =
    let later = select turns in
    if t.ctrl_c
    then some interrupted
    else if stop_event t.events t.closed
    then some stopped
    else elim t.status [ none ↦ later | some status ↦ some (child_ended status) ]

-- `s.code().unwrap_or(1)`, and 1 for an error
unfoldable pub exit_code : Status → ℕ
exit_code (exit_status (some code)) = code
exit_code _ = 1

module _ (engine : RegexEngine) (m : Machine) where
  -- `child.kill().await?` and what follows it: an error leaves the child as it is.
  unfoldable pub kill_then : AppState → Result → Result
  kill_then s rest = if m.kills then rest else record { exit = failed; child = alive; daemon = s }

  -- From the removal of the rule to the end.
  unfoldable pub cleanup : Text → Child → ℕ → AppState → Result
  unfolding send
  cleanup domain child code s = record {
    exit = if code == 0 then returned else exited code;
    child = child;
    daemon = (send engine m.removing (remove_ephemeral domain) s).1;
  }

  -- From the subscription on.
  unfoldable pub watch : Text → AppState → Result
  unfolding handle_all select kill_then cleanup exit_code
  watch domain s =
      if not m.subscribes
      then record { exit = failed; child = alive; daemon = s }
      else (let s' = handle_all engine s m.others in
          elim (select m.turns) [
            | none ↦ record { exit = waiting; child = alive; daemon = s' }
            | some interrupted ↦ kill_then s' (cleanup domain killed 0 s')
            | some stopped ↦ kill_then s' (record { exit = exited 0; child = killed; daemon = s' })
            | some (child_ended status) ↦ cleanup domain ended (exit_code status) s'
          ])

  -- What follows the response to the request that adds the rule.
  unfoldable pub added : Option IpcResponse → AppState → Result → Result
  added none s rest = record { exit = failed; child = alive; daemon = s }
  added (some (error e)) s rest = record { exit = exited 1; child = alive; daemon = s }
  added (some _) s rest = rest

  -- From the launched child on.
  unfoldable pub launched : RunArgs → AppState → Result
  unfolding detect send added watch kill_then
  launched args s = elim (detect m args) [
    | gives_up ↦ kill_then s (record { exit = exited 1; child = killed; daemon = s })
    | fails ↦ record { exit = failed; child = alive; daemon = s }
    | found target ↦
        let (response, s') = send engine m.adding (add_ephemeral args.domain target args.https) s in
        added response s' (watch args.domain s')
  ]

  unfoldable pub run : RunArgs → AppState → Result
  unfolding launched
  run args s = elim args.command [
    | [] ↦ record { exit = exited 1; child = not_started; daemon = s }
    | _ ∷ _ ↦
        if m.spawns
        then launched args s
        else record { exit = failed; child = not_started; daemon = s }
  ]
