-- ===== src/DnsServer/Tests.antt =====
-- DNS queries at concrete inputs.
use sidedns.Prelude.{true, List, ℕ, ◌≡◌, refl, false, none, some, [], ◌∷◌, list_beq}
use sidedns.Text.{Text, text, as_bytes, to_lowercase, trim_end_matches}
use sidedns.Rule.{matches}
use sidedns.Resolver
use sidedns.Resolver.{resolve_domain}
use sidedns.Resolver.Tests.{toy, wild, store}
use sidedns.Store
use sidedns.HashMap
use sidedns.DnsServer.{
  a, query, no_error, Request, found, no_records_found, RData, Hickory, is_address, handle_request,
  domain_of,
}
use sidedns.DnsServer.Answers.{handle_request-lookup}
use sidedns.DnsServer.Life.{Activity, cancelled, Startup}
use sidedns.DnsServer.Life

-- Names are texts, records are name, lifetime and data, and everything that is sent arrives.
abbrev pub crate : Hickory
crate = record {
  Name = Text;
  Record = Text × ℕ × RData;
  from_ascii = λ t. some t;
  from_rdata = λ name ttl d. (name, ttl, d);
  new_header = record {
    id = 0;
    message_type = query;
    authoritative = false;
    response_code = no_error;
  };
  response_from_request = λ h. h;
  lookup = λ d t. no_records_found;
  send = λ sent r. some r.header;
  id-response_from_request = λ h. refl;
}

abbrev pub asked : Request
asked = record {
  header = record { id = 7; message_type = query; authoritative = false; response_code = no_error };
  name = text "API.local.";
  query_type = a;
}

code : Unit {0}
unfolding resolve_domain Store.resolve HashMap.get list_beq as_bytes domain_of to_lowercase
    trim_end_matches matches
code = tt

asks_for_api : domain_of asked ≡ text "api.local"
unfolding code
asks_for_api = refl

has_rule : (resolve_domain toy store (Resolver.new toy none) (domain_of asked)).0 ≡ some wild
unfolding code
has_rule = refl

handle_request-lookup_example :
    handle_request
      (record crate { lookup = λ d t. found [] })
      toy
      store
      (Resolver.new toy none)
      asked
    ≡ handle_request crate toy store (Resolver.new toy none) asked
unfolding is_address
handle_request-lookup_example =
    handle_request-lookup crate toy store (Resolver.new toy none) asked wild refl has_rule
      (λ d t. found [])

abbrev startup : Startup
startup = record { upstream = true; udp = true; tcp = true; shuts_down = true }

abbrev activities : List Activity
activities =
    Life.query store asked ∷ Life.query store asked ∷ cancelled ∷ Life.query store asked ∷ []
