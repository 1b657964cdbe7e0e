-- ===== src/Ipc/Serial.antt =====
-- A serializer and a wire that have the laws assumed of serde_json and tokio: each value as a
-- sequence of numbers, shifted past the line breaks.
use sidedns.Prelude.{
  ℕ, zero, suc, ◌+◌, ◌-◌, ◌≡◌, refl, ap, ◌∙◌, sym, Bool, true, false, Option, none, some, List, [],
  ◌∷◌, ◌++◌, map, arith, ◌==◌, nat_eq, length, if◌then◌else◌,
}
use mathlib.Core.Path.{subst}
use sidedns.Text.{Text}
use sidedns.Rule.{IpAddr, v4, v6, SocketAddr, DnsRule}
use sidedns.Message
use sidedns.Message.{IpcRequest, DnsEvent, IpcResponse}
use sidedns.Ipc.{Codec, Format, IsOneLine}
use sidedns.Ipc.RoundTrip.{IsHealthy}

-- `put` writes a value before the rest, and `get` reads it back and leaves the rest.
record Serial (A : Type 0) : Type 0 where
  put : A → Text → Text
  get : Text → Option (A × Text)
  get-put : (x : A) (rest : Text) → get (put x rest) ≡ some (x, rest)

abbrev number : Serial ℕ
number = record {
  put = λ n rest. n ∷ rest;
  get = λ t. elim t [ [] ↦ none | n ∷ rest ↦ some (n, rest) ];
  get-put = λ n rest. refl;
}

-- A value by way of another that it is made from.
abbrev by_way :
    {A B : Type 0} (s : Serial B) (to : A → B) (from : B → A)
    → ((x : A) → from (to x) ≡ x)
    → Serial A
by_way s to from back = record {
  put = λ x rest. s.put (to x) rest;
  get = λ t. elim (s.get t) [ none ↦ none | some (y, rest) ↦ some (from y, rest) ];
  get-put = λ x rest. rw (s.get-put (to x) rest, back x) refl;
}

abbrev both : {A B : Type 0} → Serial A → Serial B → Serial (A × B)
both a b = record {
  put = λ p rest. a.put p.0 (b.put p.1 rest);
  get = λ t. elim (a.get t) [
    | none ↦ none
    | some (x, u) ↦ elim (b.get u) [ none ↦ none | some (y, rest) ↦ some ((x, y), rest) ]
  ];
  get-put = λ p rest. rw (a.get-put p.0 (b.put p.1 rest), b.get-put p.1 rest) refl;
}

module _ {A : Type 0} (a : Serial A) where
  put_items : List A → Text → Text
  put_items [] rest = rest
  put_items (x ∷ xs) rest = a.put x (put_items xs rest)

  get_items : ℕ → Text → Option (List A × Text)
  get_items zero t = some ([], t)
  get_items (suc n) t = elim (a.get t) [
    | none ↦ none
    | some (x, u) ↦ elim (get_items n u) [ none ↦ none | some (xs, rest) ↦ some (x ∷ xs, rest) ]
  ]

  get-put_items :
      (xs : List A) (rest : Text) → get_items (length xs) (put_items xs rest) ≡ some (xs, rest)
  unfolding put_items get_items
  get-put_items [] rest = refl
  get-put_items (x ∷ xs) rest = rw (a.get-put x (put_items xs rest), get-put_items xs rest) refl

  abbrev items : Serial (List A)
  items = record {
    put = λ xs rest. length xs ∷ put_items xs rest;
    get = λ t. elim t [ [] ↦ none | n ∷ rest ↦ get_items n rest ];
    get-put = λ xs rest. get-put_items xs rest;
  }

-- A rule's fields, with numbers for the version of IP and for the flag.
abbrev Fields : Type 0
Fields = Text × (ℕ × (ℕ × (ℕ × ℕ)))

abbrev fields : Serial Fields
fields = both (items number) (both number (both number (both number number)))

abbrev bit : Bool → ℕ
bit true = 1
bit false = 0

abbrev flag : ℕ → Bool
flag zero = false
flag (suc n) = true

abbrev of_rule : DnsRule → Fields
of_rule r = (
  r.domain,
  (
    elim r.target.ip [ v4 _ ↦ 0 | v6 _ ↦ 1 ],
    (elim r.target.ip [ v4 n ↦ n | v6 n ↦ n ], (r.target.port, bit r.https)),
  ),
)

abbrev to_rule : Fields → DnsRule
to_rule (domain, (version, (ip, (port, https)))) = record {
  domain = domain;
  target = record { ip = elim version [ zero ↦ v4 ip | suc _ ↦ v6 ip ]; port = port };
  https = flag https;
}

to_rule-parts :
    (d : Text) (ip : IpAddr) (port : ℕ) (https : Bool)
    → let r : DnsRule = record {
      domain = d;
      target = record { ip = ip; port = port };
      https = https;
    } in
      to_rule (of_rule r) ≡ r
to_rule-parts d (v4 n) port true = refl
to_rule-parts d (v4 n) port false = refl
to_rule-parts d (v6 n) port true = refl
to_rule-parts d (v6 n) port false = refl

to_rule-of_rule : (r : DnsRule) → to_rule (of_rule r) ≡ r
to_rule-of_rule r = to_rule-parts r.domain r.target.ip r.target.port r.https

abbrev rule : Serial DnsRule
rule = by_way fields of_rule to_rule to_rule-of_rule

-- A rule made of a domain and what a request says of its target.
abbrev made : Text → SocketAddr → Bool → DnsRule
made domain target https = record { domain = domain; target = target; https = https }

abbrev bare : Text → DnsRule
bare domain = made domain (record { ip = v4 0; port = 0 }) false

abbrev of_request : IpcRequest → ℕ × DnsRule
of_request (Message.add d t h) = (0, made d t h)
of_request (Message.add_ephemeral d t h) = (1, made d t h)
of_request (Message.remove d) = (2, bare d)
of_request (Message.remove_ephemeral d) = (3, bare d)
of_request Message.list = (4, bare [])
of_request (Message.resolve d) = (5, bare d)
of_request Message.status = (6, bare [])
of_request Message.stop = (7, bare [])
of_request Message.subscribe = (8, bare [])

abbrev to_request : ℕ × DnsRule → IpcRequest
to_request p =
    if p.0 == 0
    then Message.add p.1.domain p.1.target p.1.https
    else if p.0 == 1
    then Message.add_ephemeral p.1.domain p.1.target p.1.https
    else if p.0 == 2
    then Message.remove p.1.domain
    else if p.0 == 3
    then Message.remove_ephemeral p.1.domain
    else if p.0 == 4
    then Message.list
    else if p.0 == 5
    then Message.resolve p.1.domain
    else if p.0 == 6
    then Message.status
    else if p.0 == 7
    then Message.stop
    else Message.subscribe

to_request-of_request : (q : IpcRequest) → to_request (of_request q) ≡ q
to_request-of_request (Message.add d t h) = refl
to_request-of_request (Message.resolve d) = refl
to_request-of_request _ = refl

abbrev of_event : DnsEvent → ℕ × DnsRule
of_event (Message.rule_added r) = (0, r)
of_event (Message.rule_removed r) = (1, r)
of_event (Message.ephemeral_added r) = (2, r)
of_event (Message.ephemeral_removed r) = (3, r)
of_event Message.daemon_stopped = (4, bare [])

abbrev to_event : ℕ × DnsRule → DnsEvent
to_event p =
    if p.0 == 0
    then Message.rule_added p.1
    else if p.0 == 1
    then Message.rule_removed p.1
    else if p.0 == 2
    then Message.ephemeral_added p.1
    else if p.0 == 3
    then Message.ephemeral_removed p.1
    else Message.daemon_stopped

to_event-of_event : (e : DnsEvent) → to_event (of_event e) ≡ e
to_event-of_event (Message.rule_added r) = refl
to_event-of_event _ = refl

-- A tag, a text, rules, and a number.
abbrev Parts : Type 0
Parts = ℕ × (Text × (List DnsRule × ℕ))

abbrev of_response : IpcResponse → Parts
of_response Message.ok = (0, ([], ([], 0)))
of_response (Message.error t) = (1, (t, ([], 0)))
of_response (Message.rules rs) = (2, ([], (rs, 0)))
of_response (Message.resolved none) = (3, ([], ([], 0)))
of_response (Message.resolved (some r)) = (4, ([], (r ∷ [], 0)))
of_response (Message.status_of true n) = (5, ([], ([], n)))
of_response (Message.status_of false n) = (6, ([], ([], n)))
of_response (Message.event e) = (7, ([], ((of_event e).1 ∷ [], (of_event e).0)))

abbrev first : List DnsRule → DnsRule
first [] = bare []
first (r ∷ rs) = r

abbrev to_response : Parts → IpcResponse
to_response p =
    if p.0 == 0
    then Message.ok
    else if p.0 == 1
    then Message.error p.1.0
    else if p.0 == 2
    then Message.rules p.1.1.0
    else if p.0 == 3
    then Message.resolved none
    else if p.0 == 4
    then Message.resolved (some (first p.1.1.0))
    else if p.0 == 5
    then Message.status_of true p.1.1.1
    else if p.0 == 6
    then Message.status_of false p.1.1.1
    else Message.event (to_event (p.1.1.1, first p.1.1.0))

to_response-of_response : (r : IpcResponse) → to_response (of_response r) ≡ r
to_response-of_response (Message.resolved none) = refl
to_response-of_response (Message.resolved (some r)) = refl
to_response-of_response (Message.status_of true n) = refl
to_response-of_response (Message.status_of false n) = refl
to_response-of_response (Message.event e) = ap Message.event (to_event-of_event e)
to_response-of_response (Message.error t) = refl
to_response-of_response _ = refl

abbrev request : Serial IpcRequest
request = by_way (both number rule) of_request to_request to_request-of_request

abbrev response : Serial IpcResponse
response =
    by_way (both number (both (items number) (both (items rule) number))) of_response to_response
      to_response-of_response

-- Past the line breaks, and back.
shift-back : (t : Text) → map (λ c. c - 14) (map (λ c. c + 14) t) ≡ t
shift-back [] = refl
shift-back (c ∷ t) = ground (arith, shift-back t)

shift-IsOneLine : (t : Text) → IsOneLine (map (λ c. c + 14) t)
shift-IsOneLine [] = tt
shift-IsOneLine (c ∷ t) = ((λ e. omega arith, λ e. omega arith), shift-IsOneLine t)

module _ {A : Type 0} (s : Serial A) where
  abbrev write : A → Option Text
  write x = some (map (λ c. c + 14) (s.put x []))

  abbrev read : Text → Option A
  read t = elim (s.get (map (λ c. c - 14) t)) [ none ↦ none | some (x, _) ↦ some x ]

  injected : (x : A) (t : Text) → write x ≡ some t → map (λ c. c + 14) (s.put x []) ≡ t
  injected x t e = cc

  read-write : (x : A) (t : Text) → write x ≡ some t → read t ≡ some x
  read-write x t e =
      let known : map (λ c. c - 14) t ≡ s.put x [] =
        ap (map (λ c. c - 14)) (sym (injected x t e)) ∙ shift-back (s.put x []) in
      rw (known, read, s.get-put x []) refl

  write-IsOneLine : (x : A) (t : Text) → write x ≡ some t → IsOneLine t
  write-IsOneLine x t e = subst IsOneLine (injected x t e) (shift-IsOneLine (s.put x []))

  abbrev codec : Codec A
  codec = record {
    to_string = write;
    from_str = read;
    to_string-IsOneLine = write-IsOneLine;
    from_str-to_string = read-write;
  }

-- The lines of a text; a last one without its break counts too.
abbrev grow : ℕ → List Text → List Text
grow c [] = (c ∷ []) ∷ []
grow c (line ∷ lines) = (c ∷ line) ∷ lines

unfoldable lines : Text → List Text
lines [] = []
lines (c ∷ t) = let rest = lines t in if c == b'\n' then [] ∷ rest else grow c rest

lines_next : (line rest : Text) → IsOneLine line → lines (line ++ b'\n' ∷ rest) ≡ line ∷ lines rest
unfolding lines
lines_next [] rest _ = refl
lines_next (c ∷ line) rest ((not_end, _), later) = ground (arith, lines_next line rest later)

lines_end : lines [] ≡ []
unfolding lines
lines_end = refl

-- JSON and socket of the tests.
pub format : Format
format = record {
  requests = codec request;
  responses = codec response;
  wire = record {
    lines = lines;
    lines_end = lines_end;
    lines_next = lines_next;
    write = λ out payload. (true, out ++ payload);
  };
}

pub format-IsHealthy : IsHealthy format
unfolding format
format-IsHealthy = record {
  writes = λ out payload. refl;
  encodes_request = λ q. (map (λ c. c + 14) (request.put q []), refl);
  encodes_response = λ r. (map (λ c. c + 14) (response.put r []), refl);
}
