-- ===== src/Proxy.antt =====
-- core/src/proxy/server.rs: routing a request to a rule's target.
-- The http crate's header map, and everything beyond the socket to the target, are parameters.
pub mod Headers
pub mod Routing
pub mod Serve
pub mod Connection
pub mod Tests
use sidedns.Prelude.{
  ℕ, ◌+◌, ◌≡◌, Bool, true, false, not, ◌&&◌, Option, none, some, List, [], ◌∷◌, ◌++◌, map, leb,
  ◌==◌, nat_eq, text_eq, if◌then◌else◌,
}
use sidedns.Text.{Text, text, to_lowercase, before, contains}
use sidedns.Rule.{IpAddr, v4, v6, SocketAddr, DnsRule}
use sidedns.Store.{InnerRuleStore}
use sidedns.Resolver
use sidedns.Resolver.{Backend, DomainResolver}

-- `http::HeaderMap` by lower-case names, and `HeaderValue`: the operations used, and what their
-- documentation says of them.
pub record Http : Type 1 where
  pub HeaderMap : Type 0
  pub HeaderValue : Type 0
  pub from_str : Text → Option HeaderValue
  pub to_str : HeaderValue → Option Text
  pub get : Text → HeaderMap → Option HeaderValue
  pub insert : Text → HeaderValue → HeaderMap → HeaderMap
  pub remove : Text → HeaderMap → HeaderMap
  pub get-insert :
      (k j : Text) (v : HeaderValue) (m : HeaderMap)
      → get j (insert k v m) ≡ (if k == j then some v else get j m)
  pub get-remove :
      (k j : Text) (m : HeaderMap) → get j (remove k m) ≡ (if k == j then none else get j m)

-- `str::to_ascii_lowercase`
unfoldable pub to_ascii_lowercase : Text → Text
to_ascii_lowercase s = map (λ c. if leb b'A' c && leb c b'Z' then c + 32 else c) s

-- `HOP_BY_HOP_HEADERS`
abbrev pub hop_by_hop_headers : List Text
hop_by_hop_headers =
    text "proxy-authorization"
    ∷ text "proxy-authenticate"
    ∷ text "te"
    ∷ text "transfer-encoding"
    ∷ text "trailer"
    ∷ text "proxy-connection"
    ∷ []

-- The target to connect to: a rule's unspecified address stands for this host.
unfoldable pub target_of : DnsRule → SocketAddr
target_of rule = elim rule.target.ip [
  | v4 ip ↦ if ip == 0 then record { ip = v4 0x7F000001; port = rule.target.port } else rule.target
  | v6 ip ↦ if ip == 0 then record { ip = v6 1; port = rule.target.port } else rule.target
]

module _ (h : Http) where
  -- `headers.get(name).and_then(|v| v.to_str().ok())`
  unfoldable pub header_text : Text → h.HeaderMap → Option Text
  header_text name headers = elim (h.get name headers) [ none ↦ none | some v ↦ h.to_str v ]

  unfoldable pub is_websocket : h.HeaderMap → Bool
  unfolding header_text contains
  is_websocket headers =
      let has_upgrade : Bool = elim (header_text (text "upgrade") headers) [
        | some v ↦ to_ascii_lowercase v == text "websocket"
        | none ↦ false
      ] in
      let connection : Text = elim (header_text (text "connection") headers) [
        | some v ↦ v
        | none ↦ []
      ] in
      has_upgrade && contains (text "upgrade") (to_ascii_lowercase connection)

  -- The name of the host, without its port, in lower case.
  unfoldable pub extract_host : h.HeaderMap → Option Text
  unfolding header_text to_lowercase before
  extract_host headers = elim (header_text (text "host") headers) [
    | some host ↦ some (to_lowercase (before b':' host))
    | none ↦ none
  ]

  unfoldable pub insert_text : Text → Text → h.HeaderMap → h.HeaderMap
  insert_text name value headers = elim (h.from_str value) [
    | some v ↦ h.insert name v headers
    | none ↦ headers
  ]

  -- `ip_str` is the client's address as text.
  unfoldable pub add_proxy_headers : Text → Bool → h.HeaderMap → h.HeaderMap
  unfolding insert_text
  add_proxy_headers ip_str is_tls headers =
      insert_text (text "x-forwarded-proto") (if is_tls then text "https" else text "http") (
        insert_text (text "x-forwarded-for") ip_str (insert_text (text "x-real-ip") ip_str headers))

  unfoldable pub remove_all : List Text → h.HeaderMap → h.HeaderMap
  remove_all [] headers = headers
  remove_all (name ∷ names) headers = remove_all names (h.remove name headers)

  unfoldable pub strip_hop_by_hop : h.HeaderMap → h.HeaderMap
  unfolding remove_all is_websocket
  strip_hop_by_hop headers =
      let stripped = remove_all hop_by_hop_headers headers in
      if is_websocket stripped then stripped else h.remove (text "connection") stripped

  pub record Request : Type 0 where
    pub headers : h.HeaderMap
    pub path_and_query : Option Text

  -- How a request ends: the errors that `?` returns, the proxy's own responses, and the target's,
  -- by its status and whether a tunnel is opened for a WebSocket. A redirect whose URL is no
  -- header value panics.
  pub data Outcome : Type 0 where
    missing_host upstream_error panicked : Outcome
    bad_gateway unreachable : Outcome
    moved_permanently : Text → Outcome
    proxied : (status : ℕ) (tunnel : Bool) → Outcome

  -- Connecting to a target, the handshake, and what it answers to the headers it gets.
  abbrev pub Upstream : Type 0
  Upstream = SocketAddr → Option (Option (h.HeaderMap → Option ℕ))

  -- The headers that the target gets.
  unfoldable pub forwarded : Text → Bool → h.HeaderMap → h.HeaderMap
  unfolding add_proxy_headers strip_hop_by_hop
  forwarded ip_str is_tls headers = add_proxy_headers ip_str is_tls (strip_hop_by_hop headers)

  unfoldable pub redirect : Text → Request → Outcome
  redirect host request =
      let path : Text = elim request.path_and_query [ some pq ↦ pq | none ↦ text "/" ] in
      let url : Text = text "https://" ++ (host ++ path) in
      elim (h.from_str url) [ some _ ↦ moved_permanently url | none ↦ panicked ]

  unfoldable pub proxy_to : Upstream → SocketAddr → h.HeaderMap → Outcome
  unfolding is_websocket
  proxy_to upstream target headers = elim (upstream target) [
    | none ↦ unreachable
    | some none ↦ upstream_error
    | some (some sender) ↦ elim (sender headers) [
      | none ↦ upstream_error
      | some status ↦ proxied status (status == 101 && is_websocket headers)
    ]
  ]

  unfoldable pub service_handle_connection :
      (b : Backend)
      → Upstream
      → InnerRuleStore
      → DomainResolver b
      → Request
      → Text
      → Bool
      → Outcome × DomainResolver b
  unfolding extract_host Resolver.resolve_domain redirect proxy_to target_of forwarded
  service_handle_connection b upstream store r request ip_str is_tls =
      elim (extract_host request.headers) [
        | none ↦ (missing_host, r)
        | some host ↦
            let (rule, r') = Resolver.resolve_domain b store r host in
            elim rule [
              | none ↦ (bad_gateway, r')
              | some found ↦ if found.https && not is_tls then (redirect host request, r') else (
                proxy_to upstream (target_of found) (forwarded ip_str is_tls request.headers),
                r',
              )
            ]
      ]
