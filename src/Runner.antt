-- ===== src/Runner.antt =====
-- core/src/runner.rs: starting the daemon, the task that watches the rules, and shutting down.
pub mod Requests
pub mod Coherence
pub mod Shutdown
pub mod Saving
pub mod Serving
pub mod Handshake
pub mod Starting
pub mod Unserved
pub mod Tests
use sidedns.Prelude.{
  ℕ, Bool, true, false, Option, none, some, List, [], ◌∷◌, ◌++◌, if◌then◌else◌, not, ◌&&◌, retain,
}
use sidedns.Rule.{DnsRule, is_wildcard}
use sidedns.Message.{
  DnsEvent, rule_added, rule_removed, ephemeral_added, ephemeral_removed, daemon_stopped,
}
use sidedns.Broadcast.{Received, event, lagged, closed, Turn, cancelled, received}
use sidedns.Resolver
use sidedns.Resolver.{Backend, DomainResolver}
use sidedns.Store.{InnerRuleStore}
use sidedns.State
use sidedns.State.{AppState, DnsConfig, save, load_rules}

module _ (b : Backend) where
  -- What the watcher does on an event: the resolver after it, and the configuration saved.
  unfoldable pub on_event :
      AppState → DomainResolver b → DnsEvent → DomainResolver b × Option DnsConfig
  unfolding Resolver.invalidate save
  on_event s r (rule_added rule) = (Resolver.invalidate b r rule, some (save s))
  on_event s r (rule_removed rule) = (Resolver.invalidate b r rule, some (save s))
  on_event s r (ephemeral_added rule) = (Resolver.invalidate b r rule, none)
  on_event s r (ephemeral_removed rule) = (Resolver.invalidate b r rule, none)
  on_event s r daemon_stopped = (r, none)

  -- The loop of the watcher over the branches that its `select!` takes, each with the state as it then
  -- stands.
  unfoldable pub watch : DomainResolver b → List (AppState × Turn) → DomainResolver b
  unfolding on_event
  watch r [] = r
  watch r ((s, cancelled) ∷ turns) = r
  watch r ((s, received (event e)) ∷ turns) = watch (on_event s r e).0 turns
  watch r ((s, received (lagged n)) ∷ turns) = watch r turns
  watch r ((s, received closed) ∷ turns) = r

  -- The certificates that a start signs anew for the rules it loaded.
  unfoldable pub restore_certs : DomainResolver b → List DnsRule → DomainResolver b
  unfolding Resolver.sign_domain is_wildcard
  restore_certs r [] = r
  restore_certs r (rule ∷ rules) =
      restore_certs
        (if rule.https && not (is_wildcard rule)
          then (Resolver.sign_domain b r rule.domain).1
          else r)
        rules

  -- What `run` begins with: the rules loaded into a new state, and the resolver. `loads` is
  -- `Ca::is_installed()`.
  unfoldable pub start :
      Option b.Ca → Bool → Option DnsConfig → List InnerRuleStore → AppState × DomainResolver b
  unfolding load_rules Resolver.is_cert_installed restore_certs
  start ca loads loaded stale =
      let r : DomainResolver b = Resolver.new b ca in
      let (rules, s) = load_rules loaded stale State.new in
      (s, if Resolver.is_cert_installed b loads r then restore_certs r rules else r)
