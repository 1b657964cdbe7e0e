-- ===== src/SystemDns/Tests.antt =====
-- The managers at concrete inputs.
use sidedns.Prelude.{◌≡◌, refl, true, none, some, List, [], ◌∷◌, ◌++◌, list_beq}
use sidedns.Text.{text, strip_prefix}
use sidedns.Message.{daemon_stopped}
use sidedns.Resolver.Tests.{store}
use sidedns.State
use sidedns.State.{AppState, distinct}
use sidedns.Broadcast.{event, lagged, Turn, cancelled, received}
use sidedns.SystemDns.{run_system_dns_manager}
use sidedns.SystemDns.Systemd.{System, systemd_configurator, content, routed, join_spaces}
use sidedns.SystemDns.Lifecycle.{run_system_dns_manager-Ended}
use sidedns.SystemDns.Platform.{root, works, reverts}

-- What a crash left behind.
abbrev pub orphaned : System
orphaned = record { drop_in = some (text "old"); reloads = 0 }

abbrev ruled : AppState
ruled = record State.new { store = store }

abbrev turns : List (AppState × Turn)
turns = (ruled, received (event daemon_stopped)) ∷ (ruled, received (lagged 2)) ∷ []

run_system_dns_manager-Ended_example :
    ((run_system_dns_manager
        (systemd_configurator root)
        State.new
        orphaned
        (turns ++ (ruled, cancelled) ∷ [])).0
      ≡ true)
    × ((run_system_dns_manager
          (systemd_configurator root)
          State.new
          orphaned
          (turns ++ (ruled, cancelled) ∷ [])).1.drop_in
        ≡ none)
run_system_dns_manager-Ended_example =
    run_system_dns_manager-Ended (systemd_configurator root) works (λ x. x.drop_in ≡ none) reverts
      State.new turns ruled orphaned

drop_in_for_wildcard :
    content (text "*.local" ∷ text "api.test" ∷ [])
    ≡ text
        "# Managed by SideDNS — do not edit manually\n[Resolve]\nDNS=127.0.53.53\nDomains=~local ~api.test.\n"
unfolding content routed join_spaces strip_prefix list_beq
drop_in_for_wildcard = refl
