-- ===== src/Runner/Unserved.antt =====
-- What the servers do with a name that has no rule, or no longer.
use sidedns.Text.{Text}
use sidedns.Store
use sidedns.DnsServer
use sidedns.Proxy
