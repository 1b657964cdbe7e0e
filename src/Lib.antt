-- ===== src/Lib.antt =====
-- SideDNS: a local DNS server and reverse proxy that routes development domains.
--
-- The daemon holds a store of rules, each from a domain or a wildcard "*.suffix" to a socket
-- address. Commands reach it as requests over a socket; it changes the store, broadcasts an event,
-- and a watcher drops from the resolver's caches what the event's rule matches and saves the
-- configuration. The DNS server and the TLS side of the proxy ask the resolver.
--
-- - Text: Rust's strings, as lists of code points, with their UTF-8 bytes where the code counts
--   bytes.
-- - Rule: core/src/rule.rs, `DnsRule::is_wildcard` and `matches`. Rule/Matching relates them to the
--   patterns.
-- - HashMap: std's map, as the store uses it: a list of its entries in the order in which it visits
--   them, which is another in each process.
-- - Store: core/src/store.rs, `InnerRuleStore`; Store/Shared is `RuleStore`, its snapshots swapped
--   by arc-swap's `rcu`, whose lost rounds are an argument of each writer. Store/WellFormed has the
--   invariant and the type of updates, Store/Views and Store/Refinement the two plain maps that the
--   store stands for, Store/Resolve the search that `resolve` performs, Store/Frame what an update
--   leaves alone, Store/Reordering what a removal does to the order of the wildcards.
-- - Domain: `DOMAIN_REGEX` of core/src/config.rs and `validate_domain` of core/src/lib.rs. The
--   regex crate is a parameter, `RegexEngine`; Domain/Engine is a matcher by derivatives that has
--   its law. Domain/Shape and Domain/Lower have what a validated domain is spelled with, and its
--   lower case.
-- - Message, State, Handler: core/src/ipc/message.rs, core/src/state.rs and
--   core/src/ipc/handler.rs. A request is a function from the state to a response and the state
--   after it; the delivered events are the state's `sent`. Handler/Reply has the kinds of response.
-- - DashMap: the dashmap crate's map, an interface with its documented laws.
-- - Resolver: core/src/dns/resolver.rs, over a `Backend` of two such maps and a signer.
-- - Runner: core/src/runner.rs, the start, the watcher of the rules and, in Runner/Shutdown, the
--   end. Runner/Coherence interleaves requests, lookups and the watcher's turns as steps on one
--   daemon, Runner/Saving does so with the configuration file, Runner/Starting has both from the
--   daemon's start, and Runner/Serving, Runner/Unserved and Runner/Handshake have what the DNS
--   server, the proxy and its TLS side then do. A lookup that misses the cache is two steps there,
--   reading the store and writing the cache. State/Restart is a start with a file that another daemon
--   saved, its maps visited in any order.
-- - Broadcast: what a task sees that waits for an event or for its cancellation.
-- - DnsServer: core/src/dns/server.rs, the handler of a query; the hickory crates are the parameter
--   `Hickory`, and what was sent is the list of responses. DnsServer/Life is core/src/dns/mod.rs,
--   the server from its start to its end.
-- - Ipc: core/src/ipc/server.rs and core/src/ipc/client.rs, over a `Format` of serializers and a
--   wire; Ipc/Serial is one that has its laws. Ipc/Server is the server itself, with its socket
--   file.
-- - Proxy: core/src/proxy/server.rs, the service of a request over the parameter `Http`, the http
--   crate's header map; Proxy/Connection has the requests of a connection, Proxy/Serve the accept
--   loops.
-- - SystemDns: core/src/dns/sys/mod.rs, the loop that keeps the system's DNS configuration;
--   SystemDns/Systemd, SystemDns/Windows and SystemDns/Macos are its managers, the last over the
--   disk of Files, and SystemDns/Platform is the choice between the first and none on Linux.
-- - Cert: cli/src/commands/cert.rs, the guards of the certificate commands.
-- - Command: cli/src/lib.rs, cli/src/daemon.rs and cli/src/commands/daemon.rs: which command needs
--   the daemon, and its start and stop. Command/Arguments is the parsers of domains in
--   cli/src/cli.rs, and Command/Entry the program's `main`, src/main.rs and cli/src/main.rs.
-- - Processes: cli/src/run.rs, the process tree under a launched command and its listeners, and the
--   wait for a port.
-- - Client: the commands of cli/src/commands that send one request and print what comes back, and
--   the watch command; Client/Table is the table of the list command, Client/Sending relates a
--   delivery to the wire of Ipc, and Client/Reporting has what a command prints.
-- - Run: cli/src/commands/run.rs, a command with its ephemeral rule, against the daemon's handler.
--   Run/Requests has what its requests do to the rules.
-- - Files: the part of std's `fs` that the program uses, over a disk that is a map from paths to
--   contents, with the rights that the system gives.
-- - Ca: core/src/certs/ca.rs, the authority over such a disk; rcgen and rustls are the parameter
--   `Crypto`.
-- - Trust: core/src/certs/trust, the trait of the stores; Trust/Linux, Trust/Nss and Trust/Java are
--   the stores on Linux, with the programs that they call, and what these make of the files, as
--   parameters, and Trust/Platforms the system's store elsewhere.
--
-- Every function is total. Two loops run on fuel: the walk of `Processes.target_pids`, with a round
-- for each process and one for the root, and `Processes.wait_for_port`, with ten attempts for each
-- second of the timeout and one test more; Processes/Walk and Processes/Waiting show that it is
-- enough. All others are structural, and the ten probes of `Command.wait` are the code's own bound.
--
-- Not modelled: sockets and the contents of certificates, but for the parameters named above;
-- logging; and the tasks that tokio schedules, but for the interleavings of Runner. There no event
-- is lost, to a watcher that is not yet subscribed, lags or is cancelled; none is handled by the
-- watcher while a lookup of a name that the event concerns is between reading the store and writing
-- the cache, which the program does not prevent (Runner/Tests shows what comes of it); and what is
-- saved is written. Numbers are natural numbers; the only subtraction of the code modelled here is
-- on byte lengths, behind a comparison that keeps it from underflowing.
pub mod Prelude
pub mod Text
pub mod Rule
pub mod HashMap
pub mod Store
pub mod Domain
pub mod Message
pub mod State
pub mod Handler
pub mod Broadcast
pub mod Ipc
pub mod DashMap
pub mod Resolver
pub mod Client
pub mod Run
pub mod Runner
pub mod DnsServer
pub mod Proxy
pub mod SystemDns
pub mod Cert
pub mod Command
pub mod Processes
pub mod Files
pub mod Ca
pub mod Trust
