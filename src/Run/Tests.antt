-- ===== src/Run/Tests.antt =====
-- A server that listens on one port and ends with code 3.
use sidedns.Prelude.{
  ◌*◌, ◌==◌, nat_eq, if◌then◌else◌, ◌≡◌, ◌≢◌, refl, true, false, none, some, [], ◌∷◌, list_beq, inr,
  arith,
}
use sidedns.Text.{text, as_bytes, to_lowercase}
use sidedns.Rule.{v6}
use sidedns.Domain.{domain_regex, validate_domain}
use sidedns.Domain.Engine.{derivatives, is_match}
use sidedns.Message.{daemon_stopped}
use sidedns.Store
use sidedns.Store.WellFormed.{new-IsWellFormed}
use sidedns.Store.Views.{ephemeral_for}
use sidedns.State
use sidedns.State.{AppState}
use sidedns.Processes.{detect_network_processes}
use sidedns.Client.{lost, handled}
use sidedns.Run.{
  RunArgs, exit_status, Machine, exited, ended, Turn, Result, run, select, interrupted, stopped,
}
use sidedns.Run.Cleanup.{run-cleanup, run-KeepsRules}
use sidedns.Run.Requests.{KeepsRules}

code : Unit {0}
unfolding run validate_domain domain_regex is_match to_lowercase list_beq as_bytes Store.remove
    Store.add Store.persistent_rules Store.resolve select detect_network_processes
code = tt

abbrev quiet : Turn
quiet = record { ctrl_c = false; events = []; closed = false; status = none }

abbrev server : Machine
server = record {
  spawns = true;
  pid = some 10;
  now = λ n. n * 100;
  taken = λ _ _. false;
  start = 0;
  processes = record { pids = 11 ∷ 10 ∷ []; parent = λ p. if p == 11 then some 10 else none };
  listeners = some (
      record {
        pid = 11;
        name = text "node";
        socket = record { ip = v6 1; port = 3000 };
        is_tcp = true;
      }
      ∷ []);
  prompt = λ _. none;
  adding = handled [] true;
  subscribes = true;
  turns = quiet ∷ record quiet { status = some (exit_status (some 3)) } ∷ [];
  others = [];
  kills = true;
  removing = handled [] false;
}

abbrev args : RunArgs
args = record {
  domain = text "API.local";
  ip = none;
  port = none;
  https = false;
  command = text "npm" ∷ [];
  detect_timeout = 5;
}

abbrev result : Machine → Result
result m = run derivatives m args State.new

ends : (result server).exit ≡ exited 3
unfolding code
ends = refl

seen_to_end : (result server).child ≡ ended
unfolding code
seen_to_end = refl

reached : server.removing ≢ lost
reached e = ground (arith)

run-cleanup_example :
    ephemeral_for (result server).daemon.store (to_lowercase (text "API.local")) ≡ none
unfolding code
run-cleanup_example =
    run-cleanup derivatives server args State.new new-IsWellFormed refl reached (inr seen_to_end)

run-KeepsRules_example :
    KeepsRules (text "API.local") (text "web.local") State.new.store (result server).daemon.store
run-KeepsRules_example =
    run-KeepsRules derivatives server args State.new (text "web.local") new-IsWellFormed refl

-- A daemon that stops is heard, also in the turn in which the child ends, unless Ctrl-C comes with it.
heard :
    select
      (quiet ∷ record quiet { events = daemon_stopped ∷ []; status = some (exit_status none) } ∷ [])
    ≡ some stopped
unfolding select
heard = refl

first_of_all :
    select
      (record { ctrl_c = true; events = []; closed = true; status = some (exit_status none) } ∷ [])
    ≡ some interrupted
unfolding select
first_of_all = refl
