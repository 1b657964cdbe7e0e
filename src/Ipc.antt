-- ===== src/Ipc.antt =====
-- core/src/ipc/server.rs and core/src/ipc/client.rs: requests and responses as lines of JSON.
-- serde_json, the splitting of a stream into lines, and the writing end of a socket are parameters.
pub mod RoundTrip
pub mod Serial
pub mod Server
pub mod Tests
use sidedns.Prelude.{
  ℕ, ◌≡◌, ◌≢◌, Bool, true, false, ◌&&◌, Option, none, some, List, [], ◌∷◌, ◌++◌, if◌then◌else◌, All,
}
use sidedns.Text.{Text}
use sidedns.Domain.{RegexEngine}
use sidedns.Message.{IpcRequest, subscribe, DnsEvent, IpcResponse}
use sidedns.Message
use sidedns.Store.{InnerRuleStore}
use sidedns.State
use sidedns.State.{AppState}
use sidedns.Handler
use sidedns.Broadcast.{Received, event, lagged, closed, Turn, cancelled, received}

-- A text without a line break, as serde_json writes it: it escapes control characters.
abbrev pub IsOneLine : Text → Type 0
IsOneLine t = All (λ c. (c ≢ b'\n') × (c ≢ b'\r')) t

-- serde_json on a type: what it writes on one line it reads back.
pub record Codec (A : Type 0) : Type 0 where
  pub to_string : A → Option Text
  pub from_str : Text → Option A
  pub to_string-IsOneLine : (x : A) (t : Text) → to_string x ≡ some t → IsOneLine t
  pub from_str-to_string : (x : A) (t : Text) → to_string x ≡ some t → from_str t ≡ some x

-- tokio's side of a connection: `lines` is what `next_line` returns until the end of the stream;
-- `write` is `write_all` and then `flush`, with what has been written before and after.
pub record Wire : Type 0 where
  pub lines : Text → List Text
  pub lines_end : lines [] ≡ []
  pub lines_next :
      (line rest : Text) → IsOneLine line → lines (line ++ b'\n' ∷ rest) ≡ line ∷ lines rest
  pub write : Text → Text → Bool × Text

pub record Format : Type 0 where
  pub requests : Codec IpcRequest
  pub responses : Codec IpcResponse
  pub wire : Wire

-- `matches!(request, IpcRequest::Subscribe)`
unfoldable pub is_subscribe : IpcRequest → Bool
is_subscribe subscribe = true
is_subscribe _ = false

module _ (f : Format) where
  unfoldable pub write_response : Text → IpcResponse → Bool × Text
  write_response out response = elim (f.responses.to_string response) [
    | none ↦ (false, out)
    | some payload ↦ f.wire.write out (payload ++ b'\n' ∷ [])
  ]

  -- The loop of `handle_subscribe` over its turns; a failed write ends it with an error.
  unfoldable pub subscription : Text → List Turn → Bool × Text
  unfolding write_response
  subscription out [] = (true, out)
  subscription out (cancelled ∷ turns) = (true, out)
  subscription out (received (event e) ∷ turns) =
      let (written, after) = write_response out (Message.event e) in
      let rest = subscription after turns in if written then rest else (false, after)
  subscription out (received (lagged n) ∷ turns) = subscription out turns
  subscription out (received closed ∷ turns) = (true, out)

  unfoldable pub handle_subscribe : AppState → List Turn → (Bool × Text) × AppState
  unfolding subscription
  handle_subscribe s turns = (subscription [] turns, State.subscribe s)

  -- Whether the connection ended without an error, what was written, and the state: only the
  -- first line of `input` is read.
  unfoldable pub handle_connection :
      RegexEngine → List InnerRuleStore → AppState → Text → List Turn → (Bool × Text) × AppState
  unfolding is_subscribe handle_subscribe write_response Handler.handle
  handle_connection engine stale s input turns = elim (f.wire.lines input) [
    | [] ↦ ((true, []), s)
    | line ∷ _ ↦ elim (f.requests.from_str line) [
      | none ↦ ((false, []), s)
      | some request ↦
          if is_subscribe request
          then handle_subscribe s turns
          else (let (response, s') = Handler.handle engine stale s request in
              (write_response [] response, s'))
    ]
  ]

  -- `IpcClient::send`, and how it fails.
  pub data Reply : Type 0 where
    reply : IpcResponse → Reply
    not_running not_encoded not_written connection_closed not_decoded : Reply

  -- The connection, if there is one, takes what is written to what comes back.
  unfoldable pub send : Option (Text → Text) → IpcRequest → Reply
  send none request = not_running
  send (some server) request = elim (f.requests.to_string request) [
    | none ↦ not_encoded
    | some payload ↦
        let (written, out) = f.wire.write [] (payload ++ b'\n' ∷ []) in
        if written
        then (elim (f.wire.lines (server out)) [
          | [] ↦ connection_closed
          | line ∷ _ ↦ elim (f.responses.from_str line) [
            | none ↦ not_decoded
            | some response ↦ reply response
          ]
        ])
        else not_written
  ]

  -- The task of `IpcClient::subscribe` on the lines that come: what it hands to the channel until
  -- the receiver is gone. `accepts` tells whether it takes an event after those before it.
  unfoldable pub listen : (List DnsEvent → Bool) → List DnsEvent → List Text → List DnsEvent
  listen accepts heard [] = heard
  listen accepts heard (line ∷ rest) =
      let skip = listen accepts heard rest in
      elim (f.responses.from_str line) [
        | some (Message.event e) ↦
            let more = listen accepts (heard ++ e ∷ []) rest in
            if accepts heard then more else heard
        | _ ↦ skip
      ]

  -- `IpcClient::subscribe` and its task: how it fails, or what the channel was handed in the end.
  pub data Subscription : Type 0 where
    unsubscribed : Reply → Subscription
    delivered : List DnsEvent → Subscription

  unfoldable pub subscribe_events : Option (Text → Text) → (List DnsEvent → Bool) → Subscription
  unfolding listen
  subscribe_events none accepts = unsubscribed not_running
  subscribe_events (some server) accepts = elim (f.requests.to_string subscribe) [
    | none ↦ unsubscribed not_encoded
    | some payload ↦
        let (written, out) = f.wire.write [] (payload ++ b'\n' ∷ []) in
        if written
        then delivered (listen accepts [] (f.wire.lines (server out)))
        else unsubscribed not_written
  ]

  -- `IpcClient::is_running`: the connection is made, and nothing is sent.
  unfoldable pub is_running : Option (Text → Text) → Bool
  is_running none = false
  is_running (some server) = true
