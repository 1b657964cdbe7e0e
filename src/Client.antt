-- ===== src/Client.antt =====
-- cli/src/commands: the commands that send the daemon one request, or listen to it, and print what
-- comes back.
-- The daemon is the handler of its requests; how numbers and addresses are printed is a parameter.
pub mod Sending
pub mod Stored
pub mod Table
pub mod Reporting
pub mod Tests
use sidedns.Prelude.{ℕ, Bool, true, false, Option, none, some, List, [], ◌∷◌, ◌++◌, if◌then◌else◌}
use sidedns.Text.{Text, text}
use sidedns.Rule.{IpAddr, SocketAddr, DnsRule}
use sidedns.Domain.{RegexEngine}
use sidedns.Message.{
  IpcRequest, add, remove, resolve, status, IpcResponse, ok, error, resolved, status_of, DnsEvent,
  rule_added, rule_removed, ephemeral_added, ephemeral_removed, daemon_stopped,
}
use sidedns.Store.{InnerRuleStore}
use sidedns.State.{AppState}
use sidedns.Handler.{handle}
use sidedns.SystemDns.{SystemDnsManager}

-- What becomes of a request: it does not reach the daemon, or it is handled, with the snapshots
-- that the handler's rounds see, and its response is read or not.
pub data Delivery : Type 0 where
  lost : Delivery
  handled : (stale : List InnerRuleStore) (answered : Bool) → Delivery

module _ (engine : RegexEngine) where
  -- `IpcClient::send`: the response, if there is one.
  unfoldable pub send : Delivery → IpcRequest → AppState → Option IpcResponse × AppState
  unfolding handle
  send lost request s = (none, s)
  send (handled stale answered) request s =
      let (response, s') = handle engine stale s request in
      (if answered then some response else none, s')

-- `Display` of the library's types.
pub record Display : Type 0 where
  pub ip : IpAddr → Text
  pub number : ℕ → Text
  pub socket_addr : SocketAddr → Text

abbrev pub scheme : Bool → Text
scheme https = if https then text "https" else text "http"

pub record AddArgs : Type 0 where
  pub domain : Text
  pub ip : IpAddr
  pub port : ℕ
  pub https : Bool

-- What a command comes to: whether it ends without an error, and the lines that it prints.
abbrev pub Output : Type 0
Output = Bool × List Text

module _ (engine : RegexEngine) (display : Display) where
  -- add.rs, from the response on.
  unfoldable pub added : AddArgs → Option IpcResponse → Output
  added args (some ok) = (
    true,
    (text "Added: "
          ++ (scheme args.https
              ++ (text "://"
                  ++ (args.domain
                      ++ (text " → "
                          ++ (display.ip args.ip ++ (text ":" ++ display.number args.port)))))))
        ∷ [],
  )
  added args (some (error e)) = (false, [])
  added args (some _) = (true, [])
  added args none = (false, [])

  unfoldable pub add_command : AddArgs → Delivery → AppState → Output × AppState
  unfolding send added
  add_command args d s =
      let target : SocketAddr = record { ip = args.ip; port = args.port } in
      let (response, s') = send engine d (add args.domain target args.https) s in
      (added args response, s')

  -- remove.rs
  unfoldable pub removed : Text → Option IpcResponse → Output
  removed domain (some ok) = (true, (text "Dns rule removed for: " ++ domain) ∷ [])
  removed domain (some (error e)) = (false, [])
  removed domain (some _) = (true, [])
  removed domain none = (false, [])

  unfoldable pub remove_command : Text → Delivery → AppState → Output × AppState
  unfolding send removed
  remove_command domain d s =
      let (response, s') = send engine d (remove domain) s in (removed domain response, s')

  -- resolve.rs
  unfoldable pub shown : Text → Option IpcResponse → Output
  shown domain (some (resolved (some r))) = (
    true,
    (text "Resolved: "
          ++ (scheme r.https
              ++ (text "://"
                  ++ (r.domain
                      ++ (text " → "
                          ++ (display.ip r.target.ip
                              ++ (text ":" ++ display.number r.target.port)))))))
        ∷ [],
  )
  shown domain (some (resolved none)) =
      (true, (text "No DNS rule for '" ++ (domain ++ text "'")) ∷ [])
  shown domain (some (error e)) = (false, [])
  shown domain (some _) = (true, [])
  shown domain none = (false, [])

  unfoldable pub resolve_command : Text → Delivery → AppState → Output × AppState
  unfolding send shown
  resolve_command domain d s =
      let (response, s') = send engine d (resolve domain) s in (shown domain response, s')

  -- status.rs; an error goes to the error stream.
  unfoldable pub reported : Option IpcResponse → Output
  reported (some (status_of running rule_count)) = (
    true,
    (text "Daemon:  " ++ (if running then text "running" else text "stopped"))
        ∷ (text "Rules:   " ++ display.number rule_count)
        ∷ [],
  )
  reported (some _) = (true, [])
  reported none = (false, [])

  unfoldable pub status_command : Bool → Delivery → AppState → Output × AppState
  unfolding send reported
  status_command is_running d s =
      let (response, s') = send engine d status s in
      if is_running then (reported response, s') else ((true, text "daemon: stopped" ∷ []), s)

-- `Display` of `DnsRule`
unfoldable pub rule_text : Display → DnsRule → Text
rule_text display r =
    scheme r.https ++ (text "://" ++ (r.domain ++ (text " → " ++ display.socket_addr r.target)))

-- watch.rs: a turn of its `select!`, and the lines of its log until it stops.
pub data Watched : Type 0 where
  ctrl_c connection_closed : Watched
  heard : DnsEvent → Watched

unfoldable pub event_text : Display → DnsEvent → Text
unfolding rule_text
event_text display (rule_added r) = text "Rule Added: " ++ rule_text display r
event_text display (rule_removed r) = text "Rule Removed: " ++ rule_text display r
event_text display (ephemeral_added r) = text "Ephemeral Rule Added: " ++ rule_text display r
event_text display (ephemeral_removed r) = text "Ephemeral Rule Removed: " ++ rule_text display r
event_text display daemon_stopped = text "Daemon Stopped"

unfoldable pub watch_lines : Display → List Watched → List Text
unfolding event_text
watch_lines display [] = []
watch_lines display (ctrl_c ∷ turns) =
    text "Ctrl-C Received, Stopping..." ∷ text "Event Listening Stopped" ∷ []
watch_lines display (connection_closed ∷ turns) =
    text "Connection Closed, Stopping..." ∷ text "Event Listening Stopped" ∷ []
watch_lines display (heard e ∷ turns) = event_text display e ∷ watch_lines display turns

-- The command: an error if it cannot subscribe.
unfoldable pub watch_command : Display → Bool → List Watched → Output
unfolding watch_lines
watch_command display subscribed turns =
    if subscribed
    then (true, text "Event Listening Started" ∷ watch_lines display turns)
    else (false, [])

-- clean.rs
unfoldable pub clean_command :
    {System : Type 0} → SystemDnsManager System → System → Output × System
clean_command manager x =
    let (reverted, x') = manager.revert x in
    let first = text "Reverting DNS configuration..." in
    (
      if reverted
          then (true, first ∷ text "Cleaned up DNS configuration" ∷ [])
          else (false, first ∷ []),
      x',
    )
