-- ===== src/DnsServer/Life.antt =====
-- core/src/dns/mod.rs: the DNS server from its start to its end.
-- Reading the system's configuration, binding the sockets and ending gracefully are parameters; so is
-- what the server takes in, and when.
use sidedns.Prelude.{Bool, true, false, ◌&&◌, List, [], ◌∷◌, if◌then◌else◌}
use sidedns.Store.{InnerRuleStore}
use sidedns.Resolver.{Backend, DomainResolver}
use sidedns.DnsServer.{Request, Header, Response, Hickory, handle_request}

-- What the run meets next: a query, with the store as it then stands; its cancellation; or the end of
-- the server's own work, with an error or not.
pub data Activity : Type 0 where
  query : InnerRuleStore → Request → Activity
  cancelled : Activity
  ended : Bool → Activity

-- What succeeds: `build_upstream_resolver`, the two bindings, and `shutdown_gracefully`.
pub record Startup : Type 0 where
  pub upstream : Bool
  pub udp : Bool
  pub tcp : Bool
  pub shuts_down : Bool

module _ (h : Hickory) (b : Backend) where
  -- A query, and how it was answered.
  abbrev pub Answer : Type 0
  Answer = Request × (Header × List (Response h.Record))

  -- The server at work: whether it ends without an error, and its answers. An error of its own is
  -- logged only.
  unfoldable pub work : Bool → DomainResolver b → List Activity → Bool × List Answer
  unfolding handle_request
  work shuts_down r [] = (true, [])
  work shuts_down r (cancelled ∷ turns) = (shuts_down, [])
  work shuts_down r (ended well ∷ turns) = (true, [])
  work shuts_down r (query store request ∷ turns) =
      let (answer, r') = handle_request h b store r request in
      let (well, answers) = work shuts_down r' turns in (well, (request, answer) ∷ answers)

  unfoldable pub run_dns_server : Startup → DomainResolver b → List Activity → Bool × List Answer
  unfolding work
  run_dns_server s r turns =
      if s.upstream && (s.udp && s.tcp) then work s.shuts_down r turns else (false, [])

  -- The queries taken in before the end.
  abbrev pub taken : List Activity → List Request
  taken (query store request ∷ turns) = request ∷ taken turns
  taken _ = []
