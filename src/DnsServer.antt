-- ===== src/DnsServer.antt =====
-- core/src/dns/server.rs: the answer to each DNS query.
-- The hickory crates are parameters: parsing a name, building a header and a record, the upstream
-- lookup, and the responder, whose sending may fail.
pub mod Answers
pub mod Life
pub mod Tests
use sidedns.Prelude.{
  ◌≡◌, ℕ, Bool, true, false, Option, none, some, List, [], ◌∷◌, ◌++◌, if◌then◌else◌,
}
use sidedns.Text.{Text, text, to_lowercase, trim_end_matches}
use sidedns.Rule.{IpAddr, v4, v6}
use sidedns.Store.{InnerRuleStore}
use sidedns.Resolver
use sidedns.Resolver.{Backend, DomainResolver}

-- `hickory_proto`'s record types, by their numbers but for the two that the program names.
pub data RecordType : Type 0 where
  a aaaa : RecordType
  other : ℕ → RecordType

pub data ResponseCode : Type 0 where
  no_error serv_fail nx_domain : ResponseCode

pub data MessageType : Type 0 where
  query response : MessageType

pub data RData : Type 0 where
  a_data aaaa_data : ℕ → RData

-- The header's fields that the program sets, and its identifier.
pub record Header : Type 0 where
  pub id : ℕ
  pub message_type : MessageType
  pub authoritative : Bool
  pub response_code : ResponseCode

-- What a lookup comes to: records, `ResolveErrorKind::NoRecordsFound`, or another error.
pub data Lookup (Record : Type 0) : Type 0 where
  found : List Record → Lookup Record
  no_records_found failed : Lookup Record

pub record Response (Record : Type 0) : Type 0 where
  pub header : Header
  pub answers : List Record

-- The crates' functions. `send` is `ResponseHandler::send_response`, given what was sent before. A
-- header made for a response has the identifier of the request's, as `hickory_proto` documents.
pub record Hickory : Type 1 where
  pub Name : Type 0
  pub Record : Type 0
  pub from_ascii : Text → Option Name
  pub from_rdata : Name → ℕ → RData → Record
  pub new_header : Header
  pub response_from_request : Header → Header
  pub lookup : Text → RecordType → Lookup Record
  pub send : List (Response Record) → Response Record → Option Header
  pub id-response_from_request : (x : Header) → (response_from_request x).id ≡ x.id

-- A request: its header, and the name and the type of its query.
pub record Request : Type 0 where
  pub header : Header
  pub name : Text
  pub query_type : RecordType

-- config.rs: `DNS_RECORD_TTL_SECONDS` and the address of `PROXY_LISTEN_ADDR`.
abbrev pub ttl_seconds : ℕ
ttl_seconds = 10

abbrev pub proxy_ip : IpAddr
proxy_ip = v4 0x7F00002A

-- `matches!(qtype, RecordType::A | RecordType::AAAA)`
unfoldable pub is_address : RecordType → Bool
is_address a = true
is_address aaaa = true
is_address (other n) = false

-- The name asked for: `name.trim_end_matches('.').to_lowercase()`.
unfoldable pub domain_of : Request → Text
unfolding trim_end_matches to_lowercase
domain_of request = to_lowercase (trim_end_matches b'.' request.name)

module _ (h : Hickory) where
  -- What was sent so far, and the result of the last attempt.
  abbrev pub Outcome : Type 0
  Outcome = Option Header × List (Response h.Record)

  unfoldable pub send_response : List (Response h.Record) → Response h.Record → Outcome
  send_response sent r = (h.send sent r, sent ++ r ∷ [])

  -- The header that both ways of answering begin with.
  abbrev pub reply_header : Request → Header
  reply_header request = record (h.response_from_request request.header) {
    message_type = response;
    response_code = no_error;
  }

  -- `rdata`: there is none if the type asked for is of the other version of IP.
  unfoldable pub rdata : IpAddr → RecordType → Option RData
  rdata (v4 ip) a = some (a_data ip)
  rdata (v6 ip) aaaa = some (aaaa_data ip)
  rdata (v4 ip) aaaa = none
  rdata (v4 ip) (other n) = none
  rdata (v6 ip) a = none
  rdata (v6 ip) (other n) = none

  unfoldable pub respond_local : IpAddr → Text → Request → Outcome
  unfolding rdata send_response
  respond_local ip domain request =
      let header = record (reply_header request) { authoritative = true } in
      elim (h.from_ascii (domain ++ text ".")) [
        | none ↦ (none, [])
        | some name ↦ elim (rdata ip request.query_type) [
          | none ↦ send_response [] (record { header = header; answers = [] })
          | some data_of ↦
              send_response []
                (record { header = header; answers = h.from_rdata name ttl_seconds data_of ∷ [] })
        ]
      ]

  -- The response to each result of the upstream lookup.
  unfoldable pub forwarded : Header → Lookup h.Record → Response h.Record
  forwarded header (found records) = record { header = header; answers = records }
  forwarded header no_records_found = record {
    header = record header { response_code = nx_domain };
    answers = [];
  }
  forwarded header failed = record {
    header = record header { response_code = serv_fail };
    answers = [];
  }

  unfoldable pub forward : Text → Request → Outcome
  unfolding send_response forwarded
  forward domain request =
      send_response []
        (forwarded (reply_header request) (h.lookup (domain ++ text ".") request.query_type))

  -- An error is answered with SERVFAIL; if that cannot be sent either, a header of its own is
  -- what the server gets to see.
  abbrev pub servfail : Request → Response h.Record
  servfail request = record {
    header = record (h.response_from_request request.header) { response_code = serv_fail };
    answers = [];
  }

  unfoldable pub finish : Request → Outcome → Header × List (Response h.Record)
  unfolding send_response
  finish request (some info, sent) = (info, sent)
  finish request (none, sent) =
      let (again, all) = send_response sent (servfail request) in
      (elim again [ some info ↦ info | none ↦ h.new_header ], all)

  module _ (b : Backend) (store : InnerRuleStore) where
    -- `DnsHandler::resolve`: other types are forwarded without a look at the rules.
    unfoldable pub resolve : DomainResolver b → Text → Request → Outcome × DomainResolver b
    unfolding is_address Resolver.resolve_domain respond_local forward
    resolve r domain request =
        if is_address request.query_type
        then (let (rule, r') = Resolver.resolve_domain b store r domain in
            elim rule [
              | some _ ↦ (respond_local proxy_ip domain request, r')
              | none ↦ (forward domain request, r')
            ])
        else (forward domain request, r)

    -- The header that the server gets to see, and what was sent.
    unfoldable pub handle_request :
        DomainResolver b → Request → (Header × List (Response h.Record)) × DomainResolver b
    unfolding resolve domain_of finish
    handle_request r request =
        let (outcome, r') = resolve r (domain_of request) request in (finish request outcome, r')
