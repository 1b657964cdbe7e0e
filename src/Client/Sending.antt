-- ===== src/Client/Sending.antt =====
-- What a request that a client sends does to the store.
use sidedns.Prelude.{◌≡◌, refl, Bool, true, false, some, List, [], ◌∷◌, ◌++◌}
use sidedns.Text.{Text}
use sidedns.Domain.{RegexEngine}
use sidedns.Message.{IpcRequest, IpcResponse}
use sidedns.Store.{InnerRuleStore}
use sidedns.Store.WellFormed.{IsWellFormed}
use sidedns.State.{AppState}
use sidedns.Handler.Effect.{store_after, handle-store, handle-IsWellFormed}
use sidedns.Broadcast.{Turn}
use sidedns.Handler.{handle}
use sidedns.Ipc
use sidedns.Ipc.{Format, is_subscribe, handle_connection, reply}
use sidedns.Ipc.RoundTrip.{IsHealthy, send-handle_connection}
use sidedns.Client.{Delivery, lost, handled, send}

module _ (engine : RegexEngine) where
  pub send-IsWellFormed :
      (d : Delivery) (request : IpcRequest) (s : AppState)
      → IsWellFormed s.store
      → IsWellFormed (send engine d request s).1.store
  unfolding send
  send-IsWellFormed lost request s wf = wf
  send-IsWellFormed (handled stale answered) request s wf =
      handle-IsWellFormed engine stale s request wf

  pub send-store :
      (stale : List InnerRuleStore) (answered : Bool) (request : IpcRequest) (s : AppState)
      → (send engine (handled stale answered) request s).1.store
        ≡ store_after engine s.store request
  unfolding send
  send-store stale answered request s = handle-store engine stale s request

-- A request that is delivered and answered is one that is sent over a wire and a serializer that do not
-- fail: the client gets the same response, and the daemon comes to the same state.
send-over_wire :
    (f : Format) (healthy : IsHealthy f) (engine : RegexEngine) (stale : List InnerRuleStore)
    (s : AppState) (turns : List Turn) (q : IpcRequest)
    → is_subscribe q ≡ false
    → (r : IpcResponse) × ((send engine (handled stale true) q s).0 ≡ some r)
      × (Ipc.send f (some (λ input. (handle_connection f engine stale s input turns).0.1)) q
          ≡ reply r)
      × ((t : Text)
          → f.requests.to_string q ≡ some t
          → (handle_connection f engine stale s (t ++ b'\n' ∷ []) turns).1
            ≡ (send engine (handled stale true) q s).1)
unfolding send
send-over_wire f healthy engine stale s turns q other =
    let (same, after) = send-handle_connection f healthy engine stale s turns q other in
    ((handle engine stale s q).0, refl, same, after)
