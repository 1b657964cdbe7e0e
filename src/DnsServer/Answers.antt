-- ===== src/DnsServer/Answers.antt =====
-- What the DNS server answers, and how often.
use sidedns.Prelude.{
  ◌≡◌, refl, ap, true, none, some, List, [], ◌∷◌, ◌++◌, inl, inr, arith, sym, ◌∙◌, Option-cases,
  Bool-cases,
}
use sidedns.Text.{Text, text}
use sidedns.Rule.{DnsRule}
use sidedns.Store.{InnerRuleStore}
use sidedns.Resolver
use sidedns.Resolver.{Backend, DomainResolver}
use sidedns.DnsServer.{
  RecordType, a, is_address, Header, Response, Request, Lookup, found, no_records_found, failed,
  Hickory, Outcome, send_response, respond_local, forward, forwarded, finish, servfail, resolve,
  handle_request, domain_of, proxy_ip, a_data, rdata, reply_header,
}

module _ (h : Hickory) (request : Request) where
  -- A response under the identifier of the request.
  abbrev pub Replies : Response h.Record → Type 0
  Replies r = r.header.id ≡ request.header.id

  -- One attempt to send a response, or an error before any because the name does not parse.
  data IsFirstAttempt (domain : Text) (o : Outcome h) : Type 0 where
    attempted :
        (first : Response h.Record)
        → Replies first
        → o.0 ≡ h.send [] first
        → o.1 ≡ first ∷ []
        → IsFirstAttempt domain o
    unnamed :
        h.from_ascii (domain ++ text ".") ≡ none → o.0 ≡ none → o.1 ≡ [] → IsFirstAttempt domain o

  attempt :
      (domain : Text) (r : Response h.Record)
      → Replies r
      → IsFirstAttempt domain (send_response h [] r)
  unfolding send_response
  attempt domain r same = attempted r same refl refl

  own_id : (h.response_from_request request.header).id ≡ request.header.id
  own_id = h.id-response_from_request request.header

  forwarded-Replies : (l : Lookup h.Record) → Replies (forwarded h (reply_header h request) l)
  unfolding forwarded
  forwarded-Replies (found records) = own_id
  forwarded-Replies no_records_found = own_id
  forwarded-Replies failed = own_id

  forward-IsFirstAttempt : (domain : Text) → IsFirstAttempt domain (forward h domain request)
  unfolding forward
  forward-IsFirstAttempt domain = attempt domain _ (forwarded-Replies _)

  respond_local-IsFirstAttempt :
      (domain : Text) → IsFirstAttempt domain (respond_local h proxy_ip domain request)
  unfolding respond_local
  respond_local-IsFirstAttempt domain = elim (Option-cases (h.from_ascii (domain ++ text "."))) [
    | inl bad ↦ rw (bad, respond_local) (unnamed bad refl refl)
    | inr (name, good) ↦ elim (Option-cases (rdata h proxy_ip request.query_type)) [
      | inl without ↦ rw (good, without, respond_local) (attempt domain _ own_id)
      | inr (d, with_data) ↦ rw (good, with_data, respond_local) (attempt domain _ own_id)
    ]
  ]

  module _ (b : Backend) (store : InnerRuleStore) (r : DomainResolver b) where
    resolve-IsFirstAttempt :
        (domain : Text) → IsFirstAttempt domain (resolve h b store r domain request).0
    unfolding resolve
    resolve-IsFirstAttempt domain = elim (Bool-cases (is_address request.query_type)) [
      | inr forwarding ↦ rw (forwarding, resolve) (forward-IsFirstAttempt domain)
      | inl address ↦ elim (Option-cases (Resolver.resolve_domain b store r domain).0) [
        | inl unknown ↦ rw (address, unknown, resolve) (forward-IsFirstAttempt domain)
        | inr (rule, known) ↦ rw (address, known, resolve) (respond_local-IsFirstAttempt domain)
      ]
    ]

  -- What the server gets to see of a SERVFAIL that is sent after other responses.
  abbrev pub seen_last : List (Response h.Record) → Header
  seen_last sent = elim (h.send sent (servfail h request)) [
    | some info ↦ info
    | none ↦ h.new_header
  ]

  -- How a query ends. Its one response was delivered, and nothing else was sent; or its first response
  -- could not be delivered, and one SERVFAIL without records was sent after it; or the name asked for
  -- does not parse, and one such SERVFAIL was sent alone.
  pub data IsAnswered (x : Header × List (Response h.Record)) : Type 0 where
    answered :
        (first : Response h.Record)
        → Replies first
        → h.send [] first ≡ some x.0
        → x.1 ≡ first ∷ []
        → IsAnswered x
    undelivered :
        (first : Response h.Record)
        → Replies first
        → Replies (servfail h request)
        → h.send [] first ≡ none
        → x.1 ≡ first ∷ servfail h request ∷ []
        → x.0 ≡ seen_last (first ∷ [])
        → IsAnswered x
    nameless :
        h.from_ascii (domain_of request ++ text ".") ≡ none
        → Replies (servfail h request)
        → x.1 ≡ servfail h request ∷ []
        → x.0 ≡ seen_last []
        → IsAnswered x

  finish-IsAnswered :
      (o : Outcome h) → IsFirstAttempt (domain_of request) o → IsAnswered (finish h request o)
  unfolding finish send_response
  finish-IsAnswered (none, sent) (attempted first same result only) =
      undelivered first same own_id (sym result) (ap (λ l. l ++ servfail h request ∷ []) only)
        (ap seen_last only)
  finish-IsAnswered (none, sent) (unnamed bad result only) =
      nameless bad own_id (ap (λ l. l ++ servfail h request ∷ []) only) (ap seen_last only)
  finish-IsAnswered (some info, sent) (attempted first same result only) =
      answered first same (sym result) only
  finish-IsAnswered (some info, sent) (unnamed bad result only) = absurd (ground arith)

  -- Every query ends with one response delivered under its identifier and no other sent, or, after a
  -- first one that could not be delivered or for a name that does not parse, with one SERVFAIL.
  pub handle_request-IsAnswered :
      (b : Backend) (store : InnerRuleStore) (r : DomainResolver b)
      → IsAnswered (handle_request h b store r request).0
  unfolding handle_request
  handle_request-IsAnswered b store r =
      finish-IsAnswered _ (resolve-IsFirstAttempt b store r (domain_of request))

module _ (h : Hickory) (request : Request) where
  abbrev pub local_reply : List h.Record → Response h.Record
  local_reply records = record {
    header = record (reply_header h request) { authoritative = true };
    answers = records;
  }

resolve_local :
    (h : Hickory) (b : Backend) (store : InnerRuleStore) (r : DomainResolver b) (request : Request)
    (rule : DnsRule) (d : Text)
    → is_address request.query_type ≡ true
    → (Resolver.resolve_domain b store r d).0 ≡ some rule
    → resolve h b store r d request
      ≡ (respond_local h proxy_ip d request, (Resolver.resolve_domain b store r d).1)
unfolding resolve
resolve_local h b store r request rule d address known = ground arith

module _ (h : Hickory) (b : Backend) (store : InnerRuleStore) (r : DomainResolver b)
    (request : Request) (rule : DnsRule) (address : is_address request.query_type ≡ true)
    (known : (Resolver.resolve_domain b store r (domain_of request)).0 ≡ some rule) where
  -- An address query for a name that has a rule is answered without the upstream resolver:
  -- whatever that one would say, nothing changes.
  pub handle_request-lookup :
      (lookup : Text → RecordType → Lookup h.Record)
      → handle_request (record h { lookup = lookup }) b store r request
        ≡ handle_request h b store r request
  unfolding handle_request respond_local send_response finish
  handle_request-lookup lookup =
      ap (λ o. (finish h request o.0, o.1))
        (resolve_local (record h { lookup = lookup }) b store r request rule (domain_of request)
            address known
          ∙ sym (resolve_local h b store r request rule (domain_of request) address known))

  -- Such a query gets the proxy's address, for ten seconds and with authority, if it asks for
  -- version 4; asking for version 6, it gets an answer without records.
  pub handle_request_local :
      (name : h.Name)
      → h.from_ascii (domain_of request ++ text ".") ≡ some name
      → ((x : Response h.Record) → (info : Header) × (h.send [] x ≡ some info))
      → (handle_request h b store r request).0.1
        ≡ local_reply h request
            (elim request.query_type [ a ↦ h.from_rdata name 10 (a_data 0x7F00002A) ∷ [] | _ ↦ [] ])
          ∷ []
  unfolding handle_request respond_local send_response rdata finish
  handle_request_local name parsed delivered =
      ap (λ o. (finish h request o.0).1)
        (resolve_local h b store r request rule (domain_of request) address known)
      ∙ local request.query_type refl
    where
      address_record : List h.Record
      address_record = h.from_rdata name 10 (a_data 0x7F00002A) ∷ []

      local :
          (t : RecordType)
          → request.query_type ≡ t
          → (finish h request (respond_local h proxy_ip (domain_of request) request)).1
            ≡ local_reply h request (elim request.query_type [ a ↦ address_record | _ ↦ [] ]) ∷ []
      local a e =
          rw (parsed, e, respond_local)
            (ground (arith, (delivered (local_reply h request address_record)).1))
      local _ e =
          rw (parsed, e, respond_local) (ground (arith, (delivered (local_reply h request [])).1))
