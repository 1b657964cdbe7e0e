-- ===== src/Processes.antt =====
-- cli/src/run.rs: which sockets a launched command and its descendants listen on, and waiting for
-- a port to open.
-- The process table is sysinfo's and the sockets are those of the listeners crate: both are
-- arguments, as the program finds them.
pub mod Stack
pub mod Walk
pub mod Descent
pub mod Waiting
pub mod Tests
use sidedns.Prelude.{
  ℕ, zero, suc, ◌+◌, ◌*◌, Bool, true, false, not, ◌&&◌, Option, none, some, List, [], ◌∷◌, ltb,
  ◌==◌, nat_eq, length, any, map, retain, if◌then◌else◌,
}
use sidedns.Text.{Text}
use sidedns.Rule.{SocketAddr}

-- `system.processes()`: the pids that it visits, and `Process::parent` of each.
pub record System : Type 0 where
  pub pids : List ℕ
  pub parent : ℕ → Option ℕ

-- `HashSet::contains`, and whether a stack holds a pid
unfoldable pub contains : ℕ → List ℕ → Bool
unfolding any
contains p set = any (λ q. q == p) set

-- `HashSet::insert`
unfoldable pub insert : ℕ → List ℕ → List ℕ
unfolding contains
insert p set = if contains p set then set else p ∷ set

module _ (system : System) where
  -- The condition under which a process is pushed.
  unfoldable pub is_new_child : ℕ → List ℕ → ℕ → Bool
  unfolding contains
  is_new_child current targets pid = elim (system.parent pid) [
    | none ↦ false
    | some ppid ↦ ppid == current && not (contains pid targets)
  ]

  -- The `for` loop over the processes; the head of the list is the top of the stack.
  unfoldable pub push_children : ℕ → List ℕ → List ℕ → List ℕ → List ℕ
  unfolding is_new_child
  push_children current targets [] stack = stack
  push_children current targets (pid ∷ pids) stack =
      push_children current targets pids
        (if is_new_child current targets pid then pid ∷ stack else stack)

  -- The `while` loop, on fuel: `none` is that it ran out.
  unfoldable pub walk : ℕ → List ℕ → List ℕ → Option (List ℕ)
  unfolding insert push_children
  walk fuel targets [] = some targets
  walk zero targets (current ∷ stack) = none
  walk (suc fuel) targets (current ∷ stack) =
      let seen = insert current targets in
      walk fuel seen (push_children current seen system.pids stack)

  -- `target_pids` at the end: one round for each process and one for the root are enough.
  unfoldable pub target_pids : ℕ → Option (List ℕ)
  unfolding walk
  target_pids root = walk (suc (length system.pids)) [] (root ∷ [])

-- What `listeners::get_all` lists.
pub record Listener : Type 0 where
  pub pid : ℕ
  pub name : Text
  pub socket : SocketAddr
  pub is_tcp : Bool

unfoldable pub detect_network_processes :
    System → Option (List Listener) → ℕ → Option (List (Text × SocketAddr))
unfolding target_pids contains retain
detect_network_processes system all root = elim (target_pids system root) [
  | none ↦ none
  | some targets ↦ elim all [
    | none ↦ some []
    | some listeners ↦
        some (
          map (λ l. (l.name, l.socket))
            (retain (λ l. contains l.pid targets && l.is_tcp) listeners))
  ]
]

-- `RETRY_INTERVAL_MS`
abbrev pub retry_interval_ms : ℕ
retry_interval_ms = 100

-- The loop of `wait_for_port`, on fuel: `now n` is the time in milliseconds when the condition is
-- tested for the `n`th time, and `taken n` whether binding the port then fails.
unfoldable pub poll : (now : ℕ → ℕ) (taken : ℕ → Bool) (deadline : ℕ) → ℕ → ℕ → Option Bool
poll now taken deadline zero n = none
poll now taken deadline (suc fuel) n =
    let later = poll now taken deadline fuel (suc n) in
    if ltb (now n) deadline then (if taken n then some true else later) else some false

-- `timeout` is in seconds, and `start` the time of the call.
unfoldable pub wait_for_port : (now : ℕ → ℕ) (taken : ℕ → Bool) (start timeout : ℕ) → Option Bool
unfolding poll
wait_for_port now taken start timeout =
    poll now taken (start + timeout * 1000) (suc (timeout * 10)) 0
