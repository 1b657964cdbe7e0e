-- ===== src/Runner/Serving.antt =====
-- The two servers against the store, once the watcher has handled every event.
pub mod Tests
use sidedns.Prelude.{
  ◌≡◌, refl, sym, ap, ◌∙◌, Bool, true, false, not, ◌&&◌, Option, none, some, List, [], ◌∷◌, ◌++◌,
  arith, inl, inr, if◌then◌else◌, Bool-cases, Option-cases, text_eq_refl,
}
use sidedns.Text.{Text, text, to_lowercase}
use sidedns.Rule.{SocketAddr, DnsRule, is_wildcard}
use sidedns.Domain.{RegexEngine, validate_domain}
use sidedns.HashMap.Laws.{get-insert}
use sidedns.Message.{add_ephemeral, DnsEvent}
use sidedns.Store
use sidedns.Store.{InnerRuleStore}
use sidedns.Store.Frame.{HasNoOverlap}
use sidedns.Store.WellFormed.{update}
use sidedns.State.{AppState}
use sidedns.Handler.{handle}
use sidedns.Handler.Effect.{rule_of, handle-store}
use sidedns.Resolver
use sidedns.Resolver.{Backend, DomainResolver, resolve_domain}
use sidedns.Resolver.Cache.{resolve_domain_lem}
use sidedns.DnsServer
use sidedns.DnsServer.{Hickory, Header, Response, is_address, a, a_data, domain_of, handle_request}
use sidedns.DnsServer.Answers.{local_reply, handle_request_local}
use sidedns.Proxy
use sidedns.Proxy.{
  Http, Upstream, extract_host, redirect, proxy_to, target_of, forwarded, service_handle_connection,
}
use sidedns.Runner.Coherence.{
  Daemon, Step, request, Reach, here, next, IsCoherent, Step-IsCoherent, quiet_cache_agrees,
}

-- The answer to a query depends on the resolver through the rule of the name only.
handle_request-resolve_domain :
    (h : Hickory) (b : Backend) (store : InnerRuleStore) (r r' : DomainResolver b)
    (q : DnsServer.Request)
    → (resolve_domain b store r (domain_of q)).0 ≡ (resolve_domain b store r' (domain_of q)).0
    → (handle_request h b store r q).0 ≡ (handle_request h b store r' q).0
unfolding handle_request DnsServer.resolve
handle_request-resolve_domain h b store r r' q same = elim (Bool-cases (is_address q.query_type)) [
  | inr forwarding ↦ rw forwarding refl
  | inl address ↦ elim (Option-cases (resolve_domain b store r (domain_of q)).0) [
    | inl unknown ↦ rw (address, unknown, sym same ∙ unknown) refl
    | inr (rule, known) ↦ rw (address, known, sym same ∙ known) refl
  ]
]

module _ (http : Http) (b : Backend) (upstream : Upstream http) (store : InnerRuleStore)
    (q : Proxy.Request http) (ip_str : Text) (is_tls : Bool) where
  service_handle_connection-resolve_domain :
      (r r' : DomainResolver b)
      → ((d : Text) → (resolve_domain b store r d).0 ≡ (resolve_domain b store r' d).0)
      → (service_handle_connection http b upstream store r q ip_str is_tls).0
        ≡ (service_handle_connection http b upstream store r' q ip_str is_tls).0
  unfolding service_handle_connection
  service_handle_connection-resolve_domain r r' same =
      elim (Option-cases (extract_host http q.headers)) [
        | inl hostless ↦ rw (hostless, service_handle_connection) refl
        | inr (host, asked) ↦ elim (Option-cases (resolve_domain b store r host).0) [
          | inl unknown ↦
              rw (asked, service_handle_connection, unknown, sym (same host) ∙ unknown) refl
          | inr (rule, known) ↦
              rw (asked, service_handle_connection, known, sym (same host) ∙ known) (ground arith)
        ]
      ]

  -- A request for a host that has a rule.
  service_handle_connection_known :
      (r : DomainResolver b) (host : Text) (rule : DnsRule)
      → extract_host http q.headers ≡ some host
      → (resolve_domain b store r host).0 ≡ some rule
      → (service_handle_connection http b upstream store r q ip_str is_tls).0 ≡ (
          if rule.https && not is_tls
          then redirect http host q
          else proxy_to http upstream (target_of rule) (forwarded http ip_str is_tls q.headers))
  unfolding service_handle_connection
  service_handle_connection_known r host rule asked known =
      rw (asked, service_handle_connection, known) (ground arith)

module _ {b : Backend} {engine : RegexEngine} {x y : Daemon b} (c : IsCoherent x)
    (run : Reach b engine x y) (quiet : y.pending ≡ []) where
  uncached :
      (ca : Option b.Ca) (d : Text)
      → (resolve_domain b y.app.store y.resolver d).0
        ≡ (resolve_domain b y.app.store (Resolver.new b ca) d).0
  uncached ca d =
      quiet_cache_agrees b engine d c run quiet
      ∙ sym (
          ground (
            arith,
            resolve_domain_lem b y.app.store (Resolver.new b ca) d,
            (b.rule_cache).get-new d,
          ))

  -- In any run of requests, lookups and events from a coherent daemon, while no two wildcards of a
  -- layer overlap where a request is handled, no event is lost to the watcher, and it handles none
  -- while a lookup of a name that the event concerns is between reading the store and writing the
  -- cache: as soon as it has handled every event, the DNS server and the proxy do with each request
  -- what they would do with an empty cache.
  pub quiet_servers_agree :
      (ca : Option b.Ca) (h : Hickory) (query : DnsServer.Request) (http : Http)
      (upstream : Upstream http) (q : Proxy.Request http) (ip_str : Text) (is_tls : Bool)
      → ((handle_request h b y.app.store y.resolver query).0
          ≡ (handle_request h b y.app.store (Resolver.new b ca) query).0)
        × ((service_handle_connection http b upstream y.app.store y.resolver q ip_str is_tls).0
            ≡ (service_handle_connection http b upstream y.app.store
                (Resolver.new b ca)
                q
                ip_str
                is_tls).0)
  quiet_servers_agree ca h query http upstream q ip_str is_tls = (
    handle_request-resolve_domain h b y.app.store y.resolver (Resolver.new b ca) query
        (uncached ca (domain_of query)),
    service_handle_connection-resolve_domain http b upstream y.app.store q ip_str is_tls y.resolver
        (Resolver.new b ca) (uncached ca),
  )

-- A plain ephemeral rule comes first.
resolve-add_ephemeral :
    (s : InnerRuleStore) (r : DnsRule)
    → is_wildcard r ≡ false
    → Store.resolve (Store.add_ephemeral s r) r.domain ≡ some r
unfolding Store.resolve Store.add_ephemeral
resolve-add_ephemeral s r plain =
    ground (arith, get-insert r.domain r.domain r s.ephemeral_exact, text_eq_refl r.domain)

-- The state after a request for an ephemeral rule.
abbrev pub after_adding :
    RegexEngine → List InnerRuleStore → AppState → Text → SocketAddr → Bool → AppState
after_adding engine stale s domain target https =
    (handle engine stale s (add_ephemeral domain target https)).1

resolve-handle :
    (engine : RegexEngine) (stale : List InnerRuleStore) (s : AppState) (domain : Text)
    (target : SocketAddr) (https : Bool)
    → validate_domain engine domain ≡ true
    → is_wildcard (rule_of domain target https) ≡ false
    → Store.resolve (after_adding engine stale s domain target https).store (to_lowercase domain)
      ≡ some (rule_of domain target https)
unfolding update
resolve-handle engine stale s domain target https valid plain =
    rw (handle-store engine stale s (add_ephemeral domain target https), valid)
      (resolve-add_ephemeral s.store (rule_of domain target https) plain)

module _ {b : Backend} {engine : RegexEngine} {x y : Daemon b} (stale : List InnerRuleStore)
    (domain : Text) (target : SocketAddr) (https : Bool)
    (valid : validate_domain engine domain ≡ true)
    (plain : is_wildcard (rule_of domain target https) ≡ false) (new : List DnsEvent)
    (grew : (after_adding engine stale x.app domain target https).sent ≡ x.app.sent ++ new)
    (apart : (d : Text) → HasNoOverlap x.app.store d) (c : IsCoherent x)
    (run : Reach b engine
      (record x {
        app = after_adding engine stale x.app domain target https;
        pending = x.pending ++ new;
      })
      y)
    (quiet : y.pending ≡ [])
    (kept : y.app.store ≡ (after_adding engine stale x.app domain target https).store) where
  served :
      (resolve_domain b y.app.store y.resolver (to_lowercase domain)).0
      ≡ some (rule_of domain target https)
  served =
      let q = add_ephemeral domain target https in
      quiet_cache_agrees b engine (to_lowercase domain)
        (Step-IsCoherent b engine (request stale q new apart grew) c) run quiet
      ∙ (ap (λ s. Store.resolve s (to_lowercase domain)) kept
          ∙ resolve-handle engine stale x.app domain target https valid plain)

  -- A coherent daemon handles a request for an ephemeral rule with a valid domain that is no
  -- wildcard; then, in any run of requests, lookups and events, while no two wildcards of a layer
  -- overlap where a request is handled, the first one included, no event is lost to the watcher,
  -- and it handles none while a lookup of a name that the event concerns is between reading the
  -- store and writing the cache: as soon as it has handled every event and with the store as the
  -- request left it, an address query of version 4 for the domain gets the proxy's address, if
  -- responses can be sent and the name parses, and a request for the domain is routed to the
  -- rule's target, or redirected if it comes in the clear for a rule with HTTPS.
  pub added_rule_served :
      (h : Hickory) (query : DnsServer.Request) (name : h.Name)
      → domain_of query ≡ to_lowercase domain
      → query.query_type ≡ a
      → h.from_ascii (domain_of query ++ text ".") ≡ some name
      → ((r : Response h.Record) → (info : Header) × (h.send [] r ≡ some info))
      → (http : Http) (upstream : Upstream http) (q : Proxy.Request http) (ip_str : Text)
        (is_tls : Bool)
      → extract_host http q.headers ≡ some (to_lowercase domain)
      → ((handle_request h b y.app.store y.resolver query).0.1
          ≡ local_reply h query (h.from_rdata name 10 (a_data 0x7F00002A) ∷ []) ∷ [])
        × ((service_handle_connection http b upstream y.app.store y.resolver q ip_str is_tls).0 ≡ (
            if https && not is_tls
            then redirect http (to_lowercase domain) q
            else proxy_to http upstream
                (target_of (rule_of domain target https))
                (forwarded http ip_str is_tls q.headers)))
  unfolding is_address
  added_rule_served h query name asked is_a parsed delivered http upstream q ip_str is_tls host =
      let rule = rule_of domain target https in
      let known : (resolve_domain b y.app.store y.resolver (domain_of query)).0 ≡ some rule =
        rw asked served in
      let answer =
        handle_request_local h b y.app.store y.resolver query rule (ap is_address is_a) known name
          parsed delivered in
      (
        answer
            ∙ ap
                (λ t.
                  local_reply h query
                    (elim t [ a ↦ h.from_rdata name 10 (a_data 0x7F00002A) ∷ [] | _ ↦ [] ])
                  ∷ [])
                is_a,
        service_handle_connection_known http b upstream y.app.store q ip_str is_tls y.resolver
            (to_lowercase domain) rule host served,
      )
