-- ===== src/Runner/Serving/Tests.antt =====
-- The servers and the other tasks of the daemon at concrete runs.
use sidedns.Prelude.{◌≡◌, refl, false, none, [], ◌∷◌, list_beq}
use sidedns.Text.{text, as_bytes, to_lowercase, trim_end_matches, before}
use sidedns.Rule.{is_wildcard}
use sidedns.Domain.{validate_domain, domain_regex}
use sidedns.Domain.Engine.{derivatives, is_match}
use sidedns.Message.{add_ephemeral, ephemeral_added}
use sidedns.HashMap
use sidedns.Handler.{handle}
use sidedns.Resolver
use sidedns.DnsServer.{a_data, domain_of, handle_request}
use sidedns.DnsServer.Answers.{local_reply}
use sidedns.Proxy.{
  extract_host, header_text, forwarded, proxy_to, target_of, service_handle_connection,
}
use sidedns.DnsServer.Tests as Dns
use sidedns.Proxy.Tests as Web
use sidedns.Runner.{on_event}
use sidedns.Runner.Coherence.{Daemon, Step, request, Reach, here, next, watch}
use sidedns.Runner.Serving.{after_adding, added_rule_served, quiet_servers_agree}
use sidedns.Runner.Tests.{toy, start, start-IsCoherent, api}
use sidedns.Runner
use sidedns.Runner.Starting.{started_daemon}
use sidedns.State
use sidedns.Store
use sidedns.DnsServer

abbrev asked_for : Daemon toy
asked_for = record start {
  app = after_adding derivatives [] start.app (text "api.local") api.target false;
  pending = ephemeral_added api ∷ [];
}

abbrev settled : Daemon toy
settled = record asked_for {
  resolver = (on_event toy asked_for.app asked_for.resolver (ephemeral_added api)).0;
  pending = [];
}

run : Reach toy derivatives asked_for settled
unfolding on_event
run = next here (watch (ephemeral_added api) [] refl tt)

first_request : Step toy derivatives start asked_for
unfolding handle validate_domain domain_regex is_match to_lowercase list_beq as_bytes
first_request =
    request [] (add_ephemeral (text "api.local") api.target false) (ephemeral_added api ∷ [])
      (λ d. record { ephemeral = tt; persistent = tt }) refl

whole_run : Reach toy derivatives start settled
unfolding on_event
whole_run = next (next here first_request) (watch (ephemeral_added api) [] refl tt)

code : Unit {0}
unfolding handle validate_domain domain_regex is_match to_lowercase list_beq as_bytes domain_of
    trim_end_matches extract_host header_text before is_wildcard HashMap.get
code = tt

added_rule_served_example :
    ((handle_request Dns.crate toy settled.app.store settled.resolver Dns.asked).0.1
      ≡ local_reply Dns.crate Dns.asked ((text "api.local.", 10, a_data 0x7F00002A) ∷ []) ∷ [])
    × ((service_handle_connection Web.crate toy Web.up settled.app.store settled.resolver Web.asked
          (text "10.0.0.7")
          false).0
        ≡ proxy_to Web.crate Web.up
            (target_of api)
            (forwarded Web.crate (text "10.0.0.7") false Web.asked.headers))
unfolding code
added_rule_served_example =
    added_rule_served [] (text "api.local") api.target false refl refl (ephemeral_added api ∷ [])
      refl (λ d. record { ephemeral = tt; persistent = tt }) start-IsCoherent run refl refl
      Dns.crate Dns.asked (text "api.local.") refl refl refl (λ x. (x.header, refl)) Web.crate
      Web.up Web.asked (text "10.0.0.7") false refl

quiet_servers_agree_example :
    ((handle_request Dns.crate toy settled.app.store settled.resolver Dns.asked).0
      ≡ (handle_request Dns.crate toy settled.app.store (Resolver.new toy none) Dns.asked).0)
    × ((service_handle_connection Web.crate toy Web.up settled.app.store settled.resolver Web.asked
          (text "10.0.0.7")
          false).0
        ≡ (service_handle_connection Web.crate toy Web.up settled.app.store
            (Resolver.new toy none)
            Web.asked
            (text "10.0.0.7")
            false).0)
quiet_servers_agree_example =
    quiet_servers_agree start-IsCoherent whole_run refl none Dns.crate Dns.asked Web.crate Web.up
      Web.asked (text "10.0.0.7") false

-- A daemon without rules, after a lookup.
abbrev empty : Daemon toy
empty = started_daemon toy none false none []

abbrev empty_lookup : Daemon toy
empty_lookup = record empty {
  resolver = (Resolver.resolve_domain toy empty.app.store empty.resolver (text "api.local")).1;
}
