-- ===== src/Proxy/Connection.antt =====
-- core/src/proxy/server.rs, `ProxyServer::handle_connection`: the requests that come over a connection.
-- hyper's reading and writing of the connection is a parameter: what it meets, in order.
use sidedns.Prelude.{
  ◌≡◌, refl, Bool, true, false, List, [], ◌∷◌, All, if◌then◌else◌, Bool-cases, inl, inr, any,
}
use sidedns.Text.{Text}
use sidedns.Store.{InnerRuleStore}
use sidedns.Resolver.{Backend, DomainResolver}
use sidedns.Proxy.{Http, Request, Upstream, Outcome, proxied, panicked, service_handle_connection}
use sidedns.Proxy.Routing.{IsRouted, service_handle_connection-IsRouted}

module _ (h : Http) where
  -- A request, with the store as it then stands; the end of the connection, proper or with an error; or
  -- the cancellation of the proxy.
  pub data Activity : Type 0 where
    request : InnerRuleStore → Request h → Activity
    closed failed cancelled : Activity

  -- How the task of a connection ends, if it does: a pattern of its `select!` that does not match the
  -- proper end of a connection leaves it waiting for the cancellation.
  pub data Ending : Type 0 where
    shut_down broken unwound waiting : Ending

  unfoldable pub after_close : List Activity → Ending
  after_close [] = waiting
  after_close (cancelled ∷ turns) = shut_down
  after_close (_ ∷ turns) = after_close turns

  unfoldable pub unwinds : Outcome h → Bool
  unwinds panicked = true
  unwinds _ = false

  module _ (b : Backend) (upstream : Upstream h) (ip_str : Text) (is_tls : Bool) where
    -- A request as it was served.
    pub record Exchange : Type 0 where
      pub store : InnerRuleStore
      pub resolver : DomainResolver b
      pub asked : Request h
      pub outcome : Outcome h

    unfoldable pub handle_connection : DomainResolver b → List Activity → Ending × List Exchange
    unfolding after_close unwinds service_handle_connection
    handle_connection r [] = (waiting, [])
    handle_connection r (cancelled ∷ turns) = (shut_down, [])
    handle_connection r (failed ∷ turns) = (broken, [])
    handle_connection r (closed ∷ turns) = (after_close turns, [])
    handle_connection r (request store q ∷ turns) =
        let (o, r') = service_handle_connection h b upstream store r q ip_str is_tls in
        let x : Exchange = record { store = store; resolver = r; asked = q; outcome = o } in
        let (ending, later) = handle_connection r' turns in
        if unwinds o then (unwound, x ∷ []) else (ending, x ∷ later)

    -- What must hold of an exchange whose response is the target's.
    abbrev pub IsRoutedExchange : Exchange → Type 0
    IsRoutedExchange x =
        (status : _) (tunnel : Bool)
        → x.outcome ≡ proxied status tunnel
        → IsRouted h b upstream x.store x.resolver x.asked ip_str is_tls status tunnel

    -- Over a connection of any length, with rules that change between its requests, a response is passed
    -- on only from the target of the rule that the host of its own request then has.
    handle_connection-IsRouted :
        (r : DomainResolver b) (turns : List Activity)
        → All IsRoutedExchange (handle_connection r turns).1
    unfolding handle_connection
    handle_connection-IsRouted r [] = tt
    handle_connection-IsRouted r (cancelled ∷ turns) = tt
    handle_connection-IsRouted r (failed ∷ turns) = tt
    handle_connection-IsRouted r (closed ∷ turns) = tt
    handle_connection-IsRouted r (request store q ∷ turns) =
        let first = service_handle_connection-IsRouted h b upstream store r q ip_str is_tls in
        let (o, r') = service_handle_connection h b upstream store r q ip_str is_tls in
        elim (Bool-cases (unwinds o)) [
          | inl over ↦ rw (over, handle_connection) (first, tt)
          | inr on ↦ rw (on, handle_connection) (first, handle_connection-IsRouted r' turns)
        ]

    abbrev pub is_cancelled : Activity → Bool
    is_cancelled cancelled = true
    is_cancelled _ = false

    -- Once the connection was closed properly, the task waits for as long as the proxy is not cancelled.
    after_close_waits :
        (turns : List Activity) → any is_cancelled turns ≡ false → after_close turns ≡ waiting
    unfolding after_close any
    after_close_waits [] quiet = refl
    after_close_waits (cancelled ∷ turns) quiet = cc
    after_close_waits (request store q ∷ turns) quiet = after_close_waits turns quiet
    after_close_waits (closed ∷ turns) quiet = after_close_waits turns quiet
    after_close_waits (failed ∷ turns) quiet = after_close_waits turns quiet
