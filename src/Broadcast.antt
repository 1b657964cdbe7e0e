-- ===== src/Broadcast.antt =====
-- What a task sees that waits at once for its cancellation and for an event: the `select!` of
-- the rules watcher (core/src/runner.rs), of a subscription (core/src/ipc/server.rs) and of the
-- system's DNS manager (core/src/dns/sys/mod.rs).
use sidedns.Prelude.{ℕ}
use sidedns.Message.{DnsEvent}

-- What `recv` of tokio's broadcast channel returns.
pub data Received : Type 0 where
  event : DnsEvent → Received
  lagged : ℕ → Received
  closed : Received

-- One turn of the loop, by the branch that is taken: that of the cancellation, or that of the
-- channel. Where the `select!` is not biased, events may still be taken after the token is cancelled.
pub data Turn : Type 0 where
  cancelled : Turn
  received : Received → Turn
