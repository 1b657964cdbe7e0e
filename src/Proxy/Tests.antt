-- ===== src/Proxy/Tests.antt =====
-- Requests through the proxy at concrete inputs: header values are texts.
use sidedns.Prelude.{ℕ, ◌≡◌, refl, true, false, none, some, List, [], ◌∷◌, list_beq}
use sidedns.Text.{Text, text, as_bytes, to_lowercase, before, contains, starts_with, strip_prefix}
use sidedns.Rule.{matches}
use sidedns.HashMap
use sidedns.DashMap.Instance.{assoc_map}
use sidedns.Store
use sidedns.Resolver
use sidedns.Resolver.{resolve_domain}
use sidedns.Resolver.Tests.{toy, store}
use sidedns.Proxy.{
  Http, header_text, is_websocket, extract_host, Request, Upstream, forwarded, redirect, proxy_to,
  target_of, service_handle_connection, strip_hop_by_hop, remove_all, add_proxy_headers,
  insert_text, to_ascii_lowercase,
}
use sidedns.Proxy.Serve.{Incoming, accepted, failed}
use sidedns.Proxy.Headers.{get-forwarded_others, get-forwarded}
use sidedns.Proxy.Routing.{IsRouted, service_handle_connection-IsRouted}

abbrev pub crate : Http
crate = record {
  HeaderMap = (assoc_map Text).Map;
  HeaderValue = Text;
  from_str = λ t. some t;
  to_str = λ v. some v;
  get = (assoc_map Text).get;
  insert = (assoc_map Text).insert;
  remove = (assoc_map Text).remove;
  get-insert = (assoc_map Text).get-insert;
  get-remove = (assoc_map Text).get-remove;
}

abbrev pub asked : Request crate
asked = record {
  headers = (text "host", text "Api.local:443") ∷ (text "te", text "trailers") ∷ [];
  path_and_query = some (text "/v1?x=1");
}

-- Every target is up and answers 200.
abbrev pub up : Upstream crate
up = λ target. some (some (λ headers. some 200))

code : Unit {0}
unfolding service_handle_connection extract_host header_text before to_lowercase resolve_domain
    Store.resolve HashMap.get list_beq as_bytes matches redirect proxy_to target_of is_websocket
code = tt

-- A client's own headers, with a hop-by-hop one among them.
abbrev chunked : crate.HeaderMap
chunked =
    (text "connection", text "Upgrade")
    ∷ (text "transfer-encoding", text "chunked")
    ∷ (text "upgrade", text "WebSocket")
    ∷ []

get-forwarded_others_example :
    crate.get (text "transfer-encoding") (forwarded crate (text "10.0.0.7") true chunked) ≡ none
unfolding code
get-forwarded_others_example =
    get-forwarded_others crate (text "10.0.0.7") true chunked (text "transfer-encoding") refl

-- The two headers of a WebSocket's handshake pass.
upgrade_passes :
    crate.get (text "connection") (forwarded crate (text "10.0.0.7") true chunked)
    ≡ some (text "Upgrade")
unfolding code forwarded contains starts_with strip_prefix strip_hop_by_hop remove_all
    add_proxy_headers insert_text HashMap.insert HashMap.without to_ascii_lowercase
upgrade_passes = refl

get-forwarded_example :
    (crate.get (text "x-real-ip") (forwarded crate (text "10.0.0.7") true asked.headers)
      ≡ some (text "10.0.0.7"))
    × (crate.get (text "x-forwarded-for") (forwarded crate (text "10.0.0.7") true asked.headers)
        ≡ some (text "10.0.0.7"))
    × (crate.get (text "x-forwarded-proto") (forwarded crate (text "10.0.0.7") true asked.headers)
        ≡ some (text "https"))
get-forwarded_example =
    get-forwarded crate (text "10.0.0.7") true asked.headers (text "10.0.0.7") (text "https") refl
      refl

service_handle_connection-IsRouted_example :
    IsRouted crate toy up store (Resolver.new toy none) asked (text "10.0.0.7") true 200 false
unfolding code
service_handle_connection-IsRouted_example =
    service_handle_connection-IsRouted crate toy up store (Resolver.new toy none) asked
      (text "10.0.0.7") true 200 false refl

abbrev turns : List (Incoming ℕ)
turns = accepted 1 ∷ failed ∷ accepted 2 ∷ []
