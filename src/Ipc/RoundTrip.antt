-- ===== src/Ipc/RoundTrip.antt =====
-- What the two ends of the socket make of each other's lines.
use sidedns.Prelude.{◌≡◌, refl, ap, sym, ◌∙◌, Bool, true, false, some, List, [], ◌∷◌, ◌++◌, arith}
use mathlib.Core.List.{append_assoc, append-nil}
use sidedns.Text.{Text}
use sidedns.Domain.{RegexEngine}
use sidedns.Message
use sidedns.Message.{IpcRequest, subscribe, DnsEvent, IpcResponse}
use sidedns.Store.{InnerRuleStore}
use sidedns.State
use sidedns.State.{AppState}
use sidedns.Handler
use sidedns.Broadcast.{event, lagged, closed, Turn, cancelled, received}
use sidedns.Ipc.{
  Format, is_subscribe, write_response, subscription, handle_connection, handle_subscribe, reply,
  send, listen, delivered, subscribe_events,
}

-- A socket and a serializer that do not fail.
pub record IsHealthy (f : Format) : Type 0 where
  pub writes : (out payload : Text) → (f.wire).write out payload ≡ (true, out ++ payload)
  pub encodes_request : (q : IpcRequest) → (t : Text) × (f.requests.to_string q ≡ some t)
  pub encodes_response : (r : IpcResponse) → (t : Text) × (f.responses.to_string r ≡ some t)

-- The events that a subscription hears of: those before it is cancelled or the channel closed.
abbrev pub heard : List Turn → List DnsEvent
heard [] = []
heard (cancelled ∷ turns) = []
heard (received (event e) ∷ turns) = e ∷ heard turns
heard (received (lagged n) ∷ turns) = heard turns
heard (received closed ∷ turns) = []

module _ (f : Format) (h : IsHealthy f) where
  write_response_healthy :
      (out : Text) (r : IpcResponse) (t : Text)
      → f.responses.to_string r ≡ some t
      → write_response f out r ≡ (true, out ++ (t ++ b'\n' ∷ []))
  unfolding write_response
  write_response_healthy out r t e = rw (e, write_response) (h.writes out (t ++ b'\n' ∷ []))

  -- The stream of a subscription: what was written before, then a line for each event heard.
  data IsStream : Text → List DnsEvent → Type 0 where
    ended : IsStream [] []
    more :
        (e : DnsEvent) (t rest : Text) (es : List DnsEvent)
        → f.responses.to_string (Message.event e) ≡ some t
        → IsStream rest es
        → IsStream (t ++ b'\n' ∷ rest) (e ∷ es)

  nothing : (out : Text) → ◌≡◌ {A = Bool × Text} (true, out) (true, out ++ [])
  nothing out = ap (λ t. (true, t)) (sym (append-nil out))

  subscription-IsStream :
      (turns : List Turn) (out : Text)
      → (s : Text) × ((subscription f out turns ≡ (true, out ++ s)) × IsStream s (heard turns))
  unfolding subscription
  subscription-IsStream [] out = ([], (nothing out, ended))
  subscription-IsStream (cancelled ∷ turns) out = ([], (nothing out, ended))
  subscription-IsStream (received closed ∷ turns) out = ([], (nothing out, ended))
  subscription-IsStream (received (lagged n) ∷ turns) out = subscription-IsStream turns out
  subscription-IsStream (received (event e) ∷ turns) out =
      let (t, to) = h.encodes_response (Message.event e) in
      let (s, (same, streamed)) = subscription-IsStream turns (out ++ (t ++ b'\n' ∷ [])) in
      (
        t ++ b'\n' ∷ s,
        (
          ground (
            arith,
            write_response_healthy out (Message.event e) t to,
            same,
            append_assoc out (t ++ b'\n' ∷ []) s,
            append_assoc t (b'\n' ∷ []) s,
          ),
          more e t s (heard turns) to streamed,
        ),
      )

  listen-IsStream :
      (s : Text) (es before : List DnsEvent)
      → IsStream s es
      → listen f (λ _. true) before ((f.wire).lines s) ≡ before ++ es
  unfolding listen
  listen-IsStream _ _ before ended = rw ((f.wire).lines_end, append-nil before, listen) refl
  listen-IsStream _ _ before (more e t rest es to streamed) =
      rw
        (
          (f.wire).lines_next t rest (f.responses.to_string-IsOneLine (Message.event e) t to),
          listen,
          f.responses.from_str-to_string (Message.event e) t to,
        )
        (listen-IsStream rest es (before ++ e ∷ []) streamed ∙ append_assoc before (e ∷ []) es)

  listen-subscription :
      (turns : List Turn)
      → listen f (λ _. true) [] ((f.wire).lines (subscription f [] turns).1) ≡ heard turns
  listen-subscription turns =
      let (s, (same, streamed)) = subscription-IsStream turns [] in
      ap (λ p. listen f (λ _. true) [] ((f.wire).lines p.1)) same
      ∙ listen-IsStream s (heard turns) [] streamed

  handle_connection-subscribe :
      (engine : RegexEngine) (stale : List InnerRuleStore) (s : AppState) (turns : List Turn)
      (t : Text)
      → f.requests.to_string subscribe ≡ some t
      → handle_connection f engine stale s (t ++ b'\n' ∷ []) turns
        ≡ (subscription f [] turns, State.subscribe s)
  unfolding handle_connection is_subscribe handle_subscribe
  handle_connection-subscribe engine stale s turns t to =
      rw
        (
          (f.wire).lines_next t [] (f.requests.to_string-IsOneLine subscribe t to),
          handle_connection,
          f.requests.from_str-to_string subscribe t to,
        )
        refl

  -- A client that subscribes is counted as a receiver, and while it takes what it is handed it hears
  -- exactly the events that the server's subscription receives until it ends, in their order.
  pub subscribe_events-handle_connection :
      (engine : RegexEngine) (stale : List InnerRuleStore) (s : AppState) (turns : List Turn)
      → (subscribe_events f
            (some (λ input. (handle_connection f engine stale s input turns).0.1))
            (λ _. true)
          ≡ delivered (heard turns))
        × ((t : Text)
            → f.requests.to_string subscribe ≡ some t
            → (handle_connection f engine stale s (t ++ b'\n' ∷ []) turns).1 ≡ State.subscribe s)
  unfolding subscribe_events
  subscribe_events-handle_connection engine stale s turns =
      let (t, to) = h.encodes_request subscribe in
      (
        rw
            (
              to,
              subscribe_events,
              h.writes [] (t ++ b'\n' ∷ []),
              handle_connection-subscribe engine stale s turns t to,
            )
            (ap delivered (listen-subscription turns)),
        λ t to. ap (λ x. x.1) (handle_connection-subscribe engine stale s turns t to),
      )

  module _ (engine : RegexEngine) (stale : List InnerRuleStore) (s : AppState) (turns : List Turn)
      (q : IpcRequest) (other : is_subscribe q ≡ false) where
    handle_connection_line :
        (t : Text)
        → f.requests.to_string q ≡ some t
        → handle_connection f engine stale s (t ++ b'\n' ∷ []) turns ≡ (
          write_response f [] (Handler.handle engine stale s q).0,
          (Handler.handle engine stale s q).1,
        )
    unfolding handle_connection
    handle_connection_line t to =
        rw
          (
            (f.wire).lines_next t [] (f.requests.to_string-IsOneLine q t to),
            handle_connection,
            f.requests.from_str-to_string q t to,
            other,
          )
          refl

    -- A request that is sent is handled once, and its sender gets the handler's response: the
    -- JSON, the lines and the two ends change nothing of either.
    pub send-handle_connection :
        (send f (some (λ input. (handle_connection f engine stale s input turns).0.1)) q
          ≡ reply (Handler.handle engine stale s q).0)
        × ((t : Text)
            → f.requests.to_string q ≡ some t
            → (handle_connection f engine stale s (t ++ b'\n' ∷ []) turns).1
              ≡ (Handler.handle engine stale s q).1)
    unfolding send
    send-handle_connection =
        let response = (Handler.handle engine stale s q).0 in
        let (t, to) = h.encodes_request q in
        let (u, uo) = h.encodes_response response in
        (
          rw
              (
                to,
                send,
                h.writes [] (t ++ b'\n' ∷ []),
                handle_connection_line t to,
                write_response_healthy [] response u uo,
                (f.wire).lines_next u [] (f.responses.to_string-IsOneLine response u uo),
                f.responses.from_str-to_string response u uo,
              )
              refl,
          λ t to. ap (λ x. x.1) (handle_connection_line t to),
        )
