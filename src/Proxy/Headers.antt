-- ===== src/Proxy/Headers.antt =====
-- Which headers reach the target.
use sidedns.Prelude.{
  ◌≡◌, refl, sym, ◌∙◌, Bool, true, false, not, Option, ◌&&◌, none, some, List, [], ◌∷◌, ◌||◌, arith,
  ◌==◌, text_eq, text_eq_iff, list_beq, if◌then◌else◌, any, Option-cases, Bool-cases, inl, inr,
}
use sidedns.Text.{Text, text, contains, starts_with, strip_prefix}
use sidedns.Proxy.{
  Http, to_ascii_lowercase, header_text, is_websocket, insert_text, add_proxy_headers, remove_all,
  strip_hop_by_hop, hop_by_hop_headers, forwarded,
}

either_none :
    {A : Type 0} (p q : Bool) (v : Option A)
    → (if p then none else (if q then none else v)) ≡ (if p || q then none else v)
either_none true q v = refl
either_none false q v = refl

-- `q` is asked last, and only if the flag is off.
passing_last : (p q : Bool) → (p || (q && not false)) ≡ (q || (p || (q && not true)))
passing_last p q = ground arith

module _ (h : Http) where
  get-insert_text_ne :
      (name value j : Text) (m : h.HeaderMap)
      → (name == j) ≡ false
      → h.get j (insert_text h name value m) ≡ h.get j m
  unfolding insert_text
  get-insert_text_ne name value j m other = elim (Option-cases (h.from_str value)) [
    | inl bad ↦ rw (bad, insert_text) refl
    | inr (v, good) ↦ rw (good, insert_text) (rw (h.get-insert name j v m, other) refl)
  ]

  get-insert_text :
      (name value : Text) (m : h.HeaderMap) (v : h.HeaderValue)
      → h.from_str value ≡ some v
      → h.get name (insert_text h name value m) ≡ some v
  unfolding insert_text
  get-insert_text name value m v good =
      rw (good, insert_text) (rw (h.get-insert name name v m, (text_eq_iff name name).1 refl) refl)

  get-remove_all :
      (names : List Text) (j : Text) (m : h.HeaderMap)
      → h.get j (remove_all h names m) ≡ (if any (λ n. n == j) names then none else h.get j m)
  unfolding remove_all any
  get-remove_all [] j m = refl
  get-remove_all (n ∷ names) j m =
      ground (arith, get-remove_all names j (h.remove n m), h.get-remove n j m)

  -- A header whose value the proxy sets itself.
  abbrev pub is_set : Text → Bool
  is_set j = text "x-forwarded-proto" == j || text "x-forwarded-for" == j || text "x-real-ip" == j

  get-add_proxy_headers_ne :
      (ip_str : Text) (is_tls : Bool) (j : Text) (m : h.HeaderMap)
      → is_set j ≡ false
      → h.get j (add_proxy_headers h ip_str is_tls m) ≡ h.get j m
  unfolding add_proxy_headers
  get-add_proxy_headers_ne ip_str is_tls j m other =
      get-insert_text_ne (text "x-forwarded-proto") _ j _ (ground arith)
      ∙ get-insert_text_ne (text "x-forwarded-for") ip_str j _ (ground arith)
      ∙ get-insert_text_ne (text "x-real-ip") ip_str j m (ground arith)

  is_websocket_by :
      (m n : h.HeaderMap)
      → h.get (text "upgrade") m ≡ h.get (text "upgrade") n
      → h.get (text "connection") m ≡ h.get (text "connection") n
      → is_websocket h m ≡ is_websocket h n
  unfolding is_websocket header_text
  is_websocket_by m n upgrade connection = rw (upgrade, connection) refl

  is_websocket_without :
      (m : h.HeaderMap) → h.get (text "connection") m ≡ none → is_websocket h m ≡ false
  unfolding is_websocket header_text contains to_ascii_lowercase starts_with strip_prefix
  is_websocket_without m missing = rw (missing, is_websocket, header_text) (ground arith)

  -- The names of the headers of a client that no target gets, by whether they ask for a WebSocket.
  abbrev pub withheld : Bool → Text → Bool
  withheld websocket j =
      (text "proxy-authorization" == j
        || text "proxy-authenticate" == j
        || text "te" == j
        || text "transfer-encoding" == j
        || text "trailer" == j
        || text "proxy-connection" == j)
      || (text "connection" == j && not websocket)

  is_websocket-remove_all :
      (m : h.HeaderMap) → is_websocket h (remove_all h hop_by_hop_headers m) ≡ is_websocket h m
  unfolding any list_beq
  is_websocket-remove_all m =
      is_websocket_by (remove_all h hop_by_hop_headers m) m
        (get-remove_all hop_by_hop_headers (text "upgrade") m)
        (get-remove_all hop_by_hop_headers (text "connection") m)

  is_websocket-strip : (m : h.HeaderMap) → is_websocket h (strip_hop_by_hop h m) ≡ is_websocket h m
  unfolding strip_hop_by_hop list_beq any
  is_websocket-strip m =
      let stripped = remove_all h hop_by_hop_headers m in
      let same = is_websocket-remove_all m in
      elim (Bool-cases (is_websocket h stripped)) [
        | inl upgrade ↦ rw (upgrade, strip_hop_by_hop) same
        | inr plain ↦
            rw (plain, strip_hop_by_hop)
              (is_websocket_without (h.remove (text "connection") stripped)
                  (h.get-remove (text "connection") (text "connection") stripped)
                ∙ sym plain
                ∙ same)
      ]

  withheld-websocket : (j : Text) → withheld true j ≡ any (λ n. n == j) hop_by_hop_headers
  unfolding any
  withheld-websocket j = ground (arith, Bool-cases (text "connection" == j))

  withheld-plain : (j : Text) → withheld false j ≡ (text "connection" == j || withheld true j)
  withheld-plain j = passing_last _ (text "connection" == j)

  get-strip :
      (j : Text) (m : h.HeaderMap)
      → h.get j (strip_hop_by_hop h m) ≡ (if withheld (is_websocket h m) j then none else h.get j m)
  unfolding strip_hop_by_hop
  get-strip j m =
      let stripped = remove_all h hop_by_hop_headers m in
      let same = is_websocket-remove_all m in
      let gone : h.get j stripped ≡ (if withheld true j then none else h.get j m) =
        get-remove_all hop_by_hop_headers j m ∙ rw (withheld-websocket j) refl in
      elim (Bool-cases (is_websocket h stripped)) [
        | inl upgrade ↦ rw (sym same, upgrade, strip_hop_by_hop) gone
        | inr plain ↦
            rw
              (
                sym same,
                plain,
                strip_hop_by_hop,
                h.get-remove (text "connection") j stripped,
                gone,
                withheld-plain j,
              )
              (either_none (text "connection" == j) (withheld true j) (h.get j m))
      ]

  -- Of the headers of a client, but for the three that the proxy sets itself, the target gets each
  -- with its value, except Proxy-Authorization, Proxy-Authenticate, TE, Transfer-Encoding, Trailer,
  -- Proxy-Connection and, unless the request asks for a WebSocket, Connection: these it does not
  -- get.
  pub get-forwarded_others :
      (ip_str : Text) (is_tls : Bool) (m : h.HeaderMap) (j : Text)
      → is_set j ≡ false
      → h.get j (forwarded h ip_str is_tls m)
        ≡ (if withheld (is_websocket h m) j then none else h.get j m)
  unfolding forwarded
  get-forwarded_others ip_str is_tls m j other =
      get-add_proxy_headers_ne ip_str is_tls j (strip_hop_by_hop h m) other ∙ get-strip j m

  -- The target learns the client's address and the scheme from the proxy alone: what a client
  -- claims in these headers is replaced.
  pub get-forwarded :
      (ip_str : Text) (is_tls : Bool) (m : h.HeaderMap) (ip scheme : h.HeaderValue)
      → h.from_str ip_str ≡ some ip
      → h.from_str (if is_tls then text "https" else text "http") ≡ some scheme
      → (h.get (text "x-real-ip") (forwarded h ip_str is_tls m) ≡ some ip)
        × (h.get (text "x-forwarded-for") (forwarded h ip_str is_tls m) ≡ some ip)
        × (h.get (text "x-forwarded-proto") (forwarded h ip_str is_tls m) ≡ some scheme)
  unfolding forwarded add_proxy_headers list_beq
  get-forwarded ip_str is_tls m ip scheme good known = (
    get-insert_text_ne (text "x-forwarded-proto") _ (text "x-real-ip") _ refl
        ∙ get-insert_text_ne (text "x-forwarded-for") ip_str (text "x-real-ip") _ refl
        ∙ get-insert_text (text "x-real-ip") ip_str _ ip good,
    get-insert_text_ne (text "x-forwarded-proto") _ (text "x-forwarded-for") _ refl
        ∙ get-insert_text (text "x-forwarded-for") ip_str _ ip good,
    get-insert_text (text "x-forwarded-proto") _ _ scheme known,
  )

  -- A request is a WebSocket upgrade for the target exactly when it is one for the proxy.
  pub is_websocket-forwarded :
      (ip_str : Text) (is_tls : Bool) (m : h.HeaderMap)
      → is_websocket h (forwarded h ip_str is_tls m) ≡ is_websocket h m
  unfolding forwarded list_beq
  is_websocket-forwarded ip_str is_tls m =
      is_websocket_by _ _ (get-add_proxy_headers_ne ip_str is_tls (text "upgrade") _ refl)
        (get-add_proxy_headers_ne ip_str is_tls (text "connection") _ refl)
      ∙ is_websocket-strip m
