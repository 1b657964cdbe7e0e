-- ===== src/Proxy/Serve.antt =====
-- core/src/proxy/server.rs: the loops that accept connections, and the start of the two servers.
use sidedns.Prelude.{
  ◌≡◌, refl, ap, ◌++◌, any, Bool, true, false, List, [], ◌∷◌, map, retain, if◌then◌else◌,
}

-- One turn of an accept loop; the peer stands for its stream and address.
pub data Incoming (Peer : Type 0) : Type 0 where
  cancelled failed : Incoming Peer
  accepted : Peer → Incoming Peer

-- A connection handed to `ProxyServer::handle_connection`.
pub record Handled (Peer : Type 0) : Type 0 where
  pub peer : Peer
  pub is_tls : Bool

module _ {Peer : Type 0} where
  -- Each accepted connection gets a task of its own; an error is logged and the loop goes on.
  unfoldable pub accept_loop : List (Incoming Peer) → List Peer
  accept_loop [] = []
  accept_loop (cancelled ∷ turns) = []
  accept_loop (failed ∷ turns) = accept_loop turns
  accept_loop (accepted peer ∷ turns) = peer ∷ accept_loop turns

  -- `bound` is whether the port could be bound: if not, the server ends with an error.
  unfoldable pub serve_http : Bool → List (Incoming Peer) → List (Handled Peer)
  unfolding accept_loop
  serve_http bound turns =
      if bound then map (λ p. record { peer = p; is_tls = false }) (accept_loop turns) else []

  -- `tls` is whether the handshake with the peer succeeds.
  unfoldable pub serve_https : Bool → (Peer → Bool) → List (Incoming Peer) → List (Handled Peer)
  unfolding accept_loop retain
  serve_https bound tls turns =
      if bound
      then map (λ p. record { peer = p; is_tls = true }) (retain tls (accept_loop turns))
      else []

  -- The HTTPS server is not started without an installed certificate authority.
  unfoldable pub run_proxy_server :
      Bool
      → (http_bound : Bool) (http : List (Incoming Peer))
      → (https_bound : Bool) (tls : Peer → Bool) (https : List (Incoming Peer))
      → List (Handled Peer) × List (Handled Peer)
  unfolding serve_http serve_https
  run_proxy_server is_installed http_bound http https_bound tls https =
      (serve_http http_bound http, if is_installed then serve_https https_bound tls https else [])

  abbrev pub is_cancelled : Incoming Peer → Bool
  is_cancelled cancelled = true
  is_cancelled _ = false

  -- All the peers that were accepted.
  abbrev pub peers : List (Incoming Peer) → List Peer
  peers [] = []
  peers (accepted peer ∷ turns) = peer ∷ peers turns
  peers (_ ∷ turns) = peers turns

  -- A loop hands over every connection that is accepted before it is cancelled, in their order and
  -- whatever errors come between, and none after.
  accept_loop-append :
      (before after : List (Incoming Peer))
      → any is_cancelled before ≡ false
      → accept_loop (before ++ cancelled ∷ after) ≡ peers before
  unfolding accept_loop any
  accept_loop-append [] after _ = refl
  accept_loop-append (cancelled ∷ before) after running = cc
  accept_loop-append (failed ∷ before) after running = accept_loop-append before after running
  accept_loop-append (accepted peer ∷ before) after running =
      ap (λ ps. peer ∷ ps) (accept_loop-append before after running)
