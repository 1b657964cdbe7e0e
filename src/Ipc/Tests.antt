-- ===== src/Ipc/Tests.antt =====
-- A request and a subscription over a wire of numbers.
use sidedns.Prelude.{◌≡◌, refl, List, [], ◌∷◌, ◌++◌, true, some}
use sidedns.Text.{Text}
use sidedns.Message.{status, subscribe, rule_added, daemon_stopped}
use sidedns.Domain.Engine.{derivatives}
use sidedns.State
use sidedns.Handler
use sidedns.Broadcast.{event, lagged, Turn, cancelled, received}
use sidedns.Ipc.{is_subscribe, reply, send, handle_connection, delivered, subscribe_events}
use sidedns.Ipc.RoundTrip.{heard, subscribe_events-handle_connection, send-handle_connection}
use sidedns.Ipc.Serial.{format, format-IsHealthy}
use sidedns.Resolver.Tests.{wild}

abbrev turns : List Turn
turns =
    received (event (rule_added wild))
    ∷ received (lagged 3)
    ∷ received (event daemon_stopped)
    ∷ cancelled
    ∷ []

subscribe_events-handle_connection_example :
    (subscribe_events format
        (some (λ input. (handle_connection format derivatives [] State.new input turns).0.1))
        (λ _. true)
      ≡ delivered (heard turns))
    × ((t : Text)
        → (format.requests).to_string subscribe ≡ some t
        → (handle_connection format derivatives [] State.new (t ++ 10 ∷ []) turns).1
          ≡ State.subscribe State.new)
subscribe_events-handle_connection_example =
    subscribe_events-handle_connection format format-IsHealthy derivatives [] State.new turns

send-handle_connection_example :
    (send format
        (some (λ input. (handle_connection format derivatives [] State.new input []).0.1))
        status
      ≡ reply (Handler.handle derivatives [] State.new status).0)
    × ((t : Text)
        → (format.requests).to_string status ≡ some t
        → (handle_connection format derivatives [] State.new (t ++ 10 ∷ []) []).1
          ≡ (Handler.handle derivatives [] State.new status).1)
unfolding is_subscribe
send-handle_connection_example =
    send-handle_connection format format-IsHealthy derivatives [] State.new [] status refl
