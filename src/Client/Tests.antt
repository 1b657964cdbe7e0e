-- ===== src/Client/Tests.antt =====
-- The commands against a fresh daemon.
use sidedns.Prelude.{
  ◌≡◌, refl, true, false, none, some, [], ◌∷◌, ◌==◌, nat_eq, list_beq, if◌then◌else◌,
}
use sidedns.Text.{text, as_bytes, to_lowercase}
use sidedns.Rule.{v4, v6, DnsRule}
use sidedns.Domain.{domain_regex, validate_domain}
use sidedns.Domain.Engine.{derivatives, is_match}
use sidedns.Message.{daemon_stopped}
use sidedns.Store
use sidedns.Store.WellFormed.{new-IsWellFormed}
use sidedns.Store.Views.{persistent_for}
use sidedns.State
use sidedns.State.{AppState}
use sidedns.Client.{
  Delivery, handled, Display, AddArgs, add_command, remove_command, resolve_command, status_command,
  watch_command, heard, ctrl_c, connection_closed,
}
use sidedns.Client.Stored.{rule_from, commands_tell}
use sidedns.Client.Table.{table, list_command}
use sidedns.Client.Reporting.{Reports, commands_report}

code : Unit {0}
unfolding add_command remove_command resolve_command status_command list_command table watch_command
    validate_domain domain_regex is_match to_lowercase list_beq as_bytes Store.remove Store.add
    Store.persistent_rules Store.resolve
code = tt

-- Two numbers and two addresses are all that is printed here.
abbrev display : Display
display = record {
  ip = λ ip. elim ip [ v4 _ ↦ text "127.0.0.1" | v6 _ ↦ text "::1" ];
  number = λ n. if n == 3000 then text "3000" else text "1";
  socket_addr = λ _. text "127.0.0.1:3000";
}

abbrev args : AddArgs
args = record { domain = text "API.local"; ip = v4 0x7F000001; port = 3000; https = true }

abbrev answered : Delivery
answered = handled [] true

abbrev with_rule : AppState
with_rule = (add_command derivatives display args answered State.new).1

prints :
    (add_command derivatives display args answered State.new).0
    ≡ (true, text "Added: https://API.local → 127.0.0.1:3000" ∷ [])
unfolding code
prints = refl

commands_tell_example :
    ((add_command derivatives display args answered State.new).0.0 ≡ true
      → persistent_for with_rule.store (to_lowercase (text "API.local")) ≡ some (rule_from args))
    × ((remove_command derivatives display (text "API.local") answered State.new).0.0 ≡ true
        → persistent_for
            (remove_command derivatives display (text "API.local") answered State.new).1.store
            (to_lowercase (text "API.local"))
          ≡ none)
unfolding code
commands_tell_example =
    commands_tell derivatives display args (text "API.local") answered State.new new-IsWellFormed

resolves :
    (resolve_command derivatives display (text "api.local") answered with_rule).0
    ≡ (true, text "Resolved: https://api.local → 127.0.0.1:3000" ∷ [])
unfolding code
resolves = refl

refuses_what_is_missing :
    (remove_command derivatives display (text "web.local") answered with_rule).0 ≡ (false, [])
unfolding code
refuses_what_is_missing = refl

loses_the_answer :
    (status_command derivatives display true (handled [] false) with_rule).0 ≡ (false, [])
unfolding code
loses_the_answer = refl

counts :
    (status_command derivatives display true answered with_rule).0.1
    ≡ text "Daemon:  running" ∷ text "Rules:   1" ∷ []
unfolding code
counts = refl

lists_nothing :
    (list_command derivatives display answered State.new).0
    ≡ (true, text "no rules configured" ∷ [])
unfolding code
lists_nothing = refl

watches : watch_command display true (heard daemon_stopped ∷ connection_closed ∷ ctrl_c ∷ []) ≡ (
  true,
  text "Event Listening Started"
      ∷ text "Daemon Stopped"
      ∷ text "Connection Closed, Stopping..."
      ∷ text "Event Listening Stopped"
      ∷ [],
)
unfolding code
watches = refl

abbrev wide : DnsRule
wide = record {
  domain = text "some.longer.local";
  target = record { ip = v6 1; port = 3000 };
  https = false;
}

commands_report_example :
    Reports (add_command derivatives display args answered State.new).0
    × Reports (remove_command derivatives display (text "API.local") answered State.new).0
    × Reports (resolve_command derivatives display (text "API.local") answered State.new).0
    × Reports (list_command derivatives display answered State.new).0
commands_report_example =
    commands_report derivatives display args (text "API.local") answered State.new
