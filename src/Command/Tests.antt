-- ===== src/Command/Tests.antt =====
-- Commands on a concrete machine, whose daemon answers three seconds after it is spawned.
use sidedns.Prelude.{◌≡◌, refl, true, false, ltb, [], ◌∷◌, none, some}
use sidedns.Command.{
  Machine, daemon, start, ran_as_daemon, spawned, run_daemon, start_daemon, default_start_args,
  wait,
}
use sidedns.Command.Entry.{Process, command, main}
use sidedns.Text.{text, as_bytes, to_lowercase}
use sidedns.Rule.{v4, SocketAddr}
use sidedns.Domain
use sidedns.Domain.{domain_regex}
use sidedns.Domain.Engine.{derivatives, is_match}
use sidedns.Message.{ok, add, remove}
use sidedns.Store
use sidedns.State
use sidedns.Handler.{handle}
use sidedns.Command.Arguments.{
  refused, validate_domain, validate_domain_resolve, with_example, validate_domain-handle,
}

abbrev machine : Machine
machine = record {
  is_superuser = true;
  ipc_running = false;
  daemon_running = false;
  service_installed = false;
  takes_stop = true;
  service_stops = true;
  spawns = true;
  runs = true;
  up = λ n. ltb 2 n;
}

abbrev target : SocketAddr
target = record { ip = v4 0x7F000001; port = 3000 }

validate_domain-handle_example :
    ((handle derivatives [] State.new (add (text "*.api.local") target true)).0 ≡ ok)
    × ((handle derivatives [] State.new (add (text "*.api.local") target true)).1.store
        ≡ Store.add Store.new
            (record { domain = text "*.api.local"; target = target; https = true }))
    × ((handle derivatives [] State.new (remove (text "*.api.local"))).1.store
        ≡ (Store.remove Store.new (text "*.api.local")).1)
unfolding validate_domain Domain.validate_domain domain_regex is_match as_bytes to_lowercase
validate_domain-handle_example =
    validate_domain-handle derivatives [] State.new (text "*.API.local") (text "*.api.local") target
      true refl

-- What the parser of a name to resolve says to a wildcard.
refuses_wildcard :
    validate_domain_resolve derivatives (text "*.API.local")
    ≡ refused (
        text
          "Wildcard domains are not allowed, please provide an explicit domain, Ex: example.api.local")
unfolding validate_domain_resolve validate_domain Domain.validate_domain domain_regex is_match
    as_bytes to_lowercase with_example
refuses_wildcard = refl

-- A start in the background spawns the daemon, which runs itself and spawns nothing.
abbrev by_user : Process
by_user = record {
  bare = false;
  reading = command (daemon none);
  daemon_env = false;
  serves = true;
  machine = machine;
}

abbrev child : Process
child = record by_user {
  reading = command (daemon (some (start (record default_start_args { daemon = true }))));
  daemon_env = true;
}

starts_once :
    (main (λ _. true) by_user ≡ (0, spawned ∷ []))
    × (main (λ _. true) child ≡ (0, ran_as_daemon ∷ []))
unfolding main start_daemon run_daemon wait
starts_once = (refl, refl)
