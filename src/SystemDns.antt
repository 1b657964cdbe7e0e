-- ===== src/SystemDns.antt =====
-- core/src/dns/sys: routing the rules' domains through SideDNS at the level of the system.
-- `System` is what a manager changes; file operations and commands may fail.
pub mod Systemd
pub mod Windows
pub mod Macos
pub mod Lifecycle
pub mod Platform
pub mod Tests
use sidedns.Prelude.{Bool, true, false, List, [], ◌∷◌, if◌then◌else◌}
use sidedns.Text.{Text}
use sidedns.Message.{DnsEvent, daemon_stopped}
use sidedns.State.{AppState, snapshot_all_domains}
use sidedns.Broadcast.{Received, event, lagged, closed, Turn, cancelled, received}

-- The trait `SystemDnsManager`: whether the operation succeeded, and the system after it.
pub record SystemDnsManager (System : Type 0) : Type 0 where
  pub apply : List Text → System → Bool × System
  pub revert : System → Bool × System

-- `noop.rs`
abbrev pub no_op_configurator : {System : Type 0} → SystemDnsManager System
no_op_configurator = record { apply = λ domains x. (true, x); revert = λ x. (true, x) }

-- The events on which the loop applies the configuration anew.
unfoldable pub changes_rules : DnsEvent → Bool
changes_rules daemon_stopped = false
changes_rules _ = true

module _ {System : Type 0} (manager : SystemDnsManager System) where
  -- The loop of `run_system_dns_manager`, each turn with the state as it then stands, and the
  -- clean-up that follows it. An `apply` that fails ends the function at once.
  unfoldable pub manage : System → List (AppState × Turn) → Bool × System
  unfolding snapshot_all_domains changes_rules
  manage x [] = (true, x)
  manage x ((s, cancelled) ∷ turns) = (true, (manager.revert x).1)
  manage x ((s, received closed) ∷ turns) = (true, (manager.revert x).1)
  manage x ((s, received (lagged n)) ∷ turns) = manage x turns
  manage x ((s, received (event e)) ∷ turns) =
      let (applied, x') = manager.apply (snapshot_all_domains s) x in
      let unchanged = manage x turns in
      let rest = manage x' turns in
      if changes_rules e then (if applied then rest else (false, x')) else unchanged

  unfoldable pub run_system_dns_manager : AppState → System → List (AppState × Turn) → Bool × System
  unfolding snapshot_all_domains manage
  run_system_dns_manager s x turns =
      let (applied, x') = manager.apply (snapshot_all_domains s) (manager.revert x).1 in
      if applied then manage x' turns else (false, x')
