-- ===== src/Message.antt =====
-- core/src/ipc/message.rs: requests, responses and events.
use sidedns.Prelude.{ℕ, Bool, Option, List}
use sidedns.Text.{Text}
use sidedns.Rule.{SocketAddr, DnsRule}

pub data IpcRequest : Type 0 where
  add add_ephemeral : (domain : Text) (target : SocketAddr) (https : Bool) → IpcRequest
  remove remove_ephemeral : (domain : Text) → IpcRequest
  list : IpcRequest
  resolve : (domain : Text) → IpcRequest
  status stop subscribe : IpcRequest

pub data DnsEvent : Type 0 where
  rule_added rule_removed ephemeral_added ephemeral_removed : DnsRule → DnsEvent
  daemon_stopped : DnsEvent

pub data IpcResponse : Type 0 where
  ok : IpcResponse
  error : Text → IpcResponse
  rules : List DnsRule → IpcResponse
  resolved : Option DnsRule → IpcResponse
  status_of : (running : Bool) (rule_count : ℕ) → IpcResponse
  event : DnsEvent → IpcResponse
