-- ===== src/Processes/Tests.antt =====
-- A shell (1) that runs a server (2) with a worker (3), beside another process (4).
use sidedns.Prelude.{
  ℕ, ◌+◌, ◌*◌, ◌<◌, ◌≡◌, ◌↔◌, refl, arith, Bool, true, false, none, some, List, [], ◌∷◌, ◌&&◌, ◌==◌,
  nat_eq, retain, any, if◌then◌else◌,
}
use sidedns.Text.{text}
use sidedns.Rule.{v4}
use sidedns.Processes.{
  System, Listener, contains, target_pids, walk, insert, push_children, is_new_child,
  detect_network_processes, poll, wait_for_port,
}
use sidedns.Processes.Walk.{target_pids_total}
use sidedns.Processes.Descent.{Descends, target_pids_correct, detect_network_processes_lem}
use sidedns.Processes.Waiting.{wait_for_port_bounds}

abbrev system : System
system = record {
  pids = 4 ∷ 3 ∷ 2 ∷ 1 ∷ [];
  parent = λ p. if p == 2 then some 1 else if p == 3 then some 2 else none;
}

abbrev found : List ℕ
found = 3 ∷ 2 ∷ 1 ∷ []

found_at_1 : target_pids system 1 ≡ some found
unfolding target_pids walk insert push_children is_new_child contains any
found_at_1 = refl

abbrev at_port : ℕ → ℕ → Bool → Listener
at_port pid port is_tcp = record {
  pid = pid;
  name = text "node";
  socket = record { ip = v4 1; port = port };
  is_tcp = is_tcp;
}

abbrev listeners : List Listener
listeners = at_port 3 3000 true ∷ at_port 4 80 true ∷ at_port 2 53 false ∷ []

abbrev decides : Listener → Bool
decides l = contains l.pid found && l.is_tcp

target_pids_total_example : (set : List ℕ) × (target_pids system 1 ≡ some set)
unfolding contains any
target_pids_total_example = target_pids_total system 1 (refl, (refl, (refl, (refl, tt))))

decides_descent :
    (l : Listener) → (decides l ≡ true) ↔ (Descends system 1 l.pid × (l.is_tcp ≡ true))
decides_descent l = ground (arith, target_pids_correct system 1 found found_at_1 l.pid)

detect_network_processes_lem_example :
    detect_network_processes system (some listeners) 1
    ≡ some ((text "node", record { ip = v4 1; port = 3000 }) ∷ [])
unfolding contains any retain
detect_network_processes_lem_example =
    detect_network_processes_lem system 1 listeners decides (refl, (refl, (refl, (refl, tt))))
      decides_descent

-- The clock stands at 5 at first, and the port is taken from the seventh attempt on.
wait_for_port_bounds_example :
    (r : Bool) × ((wait_for_port (λ n. 5 + n * 100) (λ n. n == 7) 5 2 ≡ some r)
      × ((r ≡ true) ↔ ((k : ℕ) × ((k < 20) × ((5 + k * 100 < 2005) × ((k == 7) ≡ true))))))
wait_for_port_bounds_example =
    wait_for_port_bounds (λ n. 5 + n * 100) (λ n. n == 7) (λ n. omega arith) 5 2 (omega arith)

opens_in_time : wait_for_port (λ n. 5 + n * 100) (λ n. n == 7) 5 2 ≡ some true
unfolding wait_for_port poll
opens_in_time = refl

opens_too_late : wait_for_port (λ n. 5 + n * 100) (λ n. n == 7) 5 0 ≡ some false
unfolding wait_for_port poll
opens_too_late = refl
