-- ===== src/Proxy/Routing.antt =====
-- Where a request goes.
use sidedns.Prelude.{
  ℕ, ◌≡◌, ◌≢◌, refl, Bool, true, false, Option, none, some, ◌++◌, arith, ◌==◌, nat_eq, Option-cases,
  Bool-cases, inl, inr,
}
use sidedns.Text.{Text, text}
use sidedns.Rule.{IpAddr, v4, v6, DnsRule}
use sidedns.Store.{InnerRuleStore}
use sidedns.Resolver
use sidedns.Resolver.{Backend, DomainResolver}
use sidedns.Proxy.{
  Http, is_websocket, extract_host, Request, moved_permanently, proxied, Upstream, forwarded,
  redirect, proxy_to, target_of, service_handle_connection,
}
use sidedns.Proxy.Headers.{is_websocket-forwarded}

-- The proxy keeps the port, and connects to no unspecified address.
target_of_specified :
    (rule : DnsRule)
    → ((target_of rule).port ≡ rule.target.port)
      × ((target_of rule).ip ≢ v4 0)
      × ((target_of rule).ip ≢ v6 0)
unfolding target_of
target_of_specified rule = by_version rule.target.ip refl
  where
    by_version :
        (ip : IpAddr)
        → rule.target.ip ≡ ip
        → ((target_of rule).port ≡ rule.target.port)
          × ((target_of rule).ip ≢ v4 0)
          × ((target_of rule).ip ≢ v6 0)
    by_version (v4 n) e = elim (Bool-cases (n == 0)) [
      | inl zero_ip ↦ rw (e, zero_ip, target_of) (refl, λ x. cc, λ x. cc)
      | inr other ↦ rw (e, other, target_of) (refl, λ x. ground (arith, e), λ x. ground (arith, e))
    ]
    by_version (v6 n) e = elim (Bool-cases (n == 0)) [
      | inl zero_ip ↦ rw (e, zero_ip, target_of) (refl, λ x. cc, λ x. cc)
      | inr other ↦ rw (e, other, target_of) (refl, λ x. ground (arith, e), λ x. ground (arith, e))
    ]

module _ (h : Http) (b : Backend) (upstream : Upstream h) (store : InnerRuleStore)
    (r : DomainResolver b) (request : Request h) (ip_str : Text) where
  -- What must hold when a response of the target is passed on.
  pub record IsRouted (is_tls : Bool) (status : ℕ) (tunnel : Bool) : Type 0 where
    pub host : Text
    pub rule : DnsRule
    pub asked : extract_host h request.headers ≡ some host
    pub found : (Resolver.resolve_domain b store r host).0 ≡ some rule
    pub secure : rule.https ≡ true → is_tls ≡ true
    pub sender : h.HeaderMap → Option ℕ
    pub connected : upstream (target_of rule) ≡ some (some sender)
    pub answered : sender (forwarded h ip_str is_tls request.headers) ≡ some status
    pub tunnelled : tunnel ≡ true → (status ≡ 101) × (is_websocket h request.headers ≡ true)

  -- A response is passed on only from the target of the rule that the request's host has, never
  -- in the clear for a rule with HTTPS, and a tunnel is opened only when a WebSocket upgrade was
  -- asked for and the target switched protocols.
  pub service_handle_connection-IsRouted :
      (is_tls : Bool) (status : ℕ) (tunnel : Bool)
      → (service_handle_connection h b upstream store r request ip_str is_tls).0
        ≡ proxied status tunnel
      → IsRouted is_tls status tunnel
  unfolding service_handle_connection redirect proxy_to
  service_handle_connection-IsRouted is_tls status tunnel e =
      elim (Option-cases (extract_host h request.headers)) [
        | inl hostless ↦ ground arith
        | inr (host, asked) ↦ elim (Option-cases (Resolver.resolve_domain b store r host).0) [
          | inl unknown ↦ ground arith
          | inr (rule, found) ↦ elim (Option-cases (upstream (target_of rule))) [
            | inl down ↦ ground arith
            | inr (shaken, up) ↦ elim (Option-cases shaken) [
              | inl broken ↦ ground arith
              | inr (sender, good) ↦ record {
                host = host;
                rule = rule;
                asked = asked;
                found = found;
                secure = λ https. ground arith;
                sender = sender;
                connected = ground arith;
                answered = ground arith;
                tunnelled =
                    λ t. ground (arith, is_websocket-forwarded h ip_str is_tls request.headers);
              }
            ]
          ]
        ]
      ]

  -- A request in the clear for a rule with HTTPS is sent to the same host and path under HTTPS,
  -- whatever the target would answer.
  service_handle_connection-redirect :
      (host : Text) (rule : DnsRule)
      → extract_host h request.headers ≡ some host
      → (Resolver.resolve_domain b store r host).0 ≡ some rule
      → rule.https ≡ true
      → (v : h.HeaderValue)
      → h.from_str (
          text "https://"
          ++ (host ++ elim request.path_and_query [ some pq ↦ pq | none ↦ text "/" ]))
        ≡ some v
      → (service_handle_connection h b upstream store r request ip_str false).0
        ≡ moved_permanently (
            text "https://"
            ++ (host ++ elim request.path_and_query [ some pq ↦ pq | none ↦ text "/" ]))
  unfolding service_handle_connection redirect
  service_handle_connection-redirect host rule asked found https v good =
      rw (asked, service_handle_connection, found, https, redirect, good) refl
