-- ===== src/Client/Table.antt =====
-- cli/src/commands/list.rs: the table of the rules.
use sidedns.Prelude.{
  ℕ, zero, suc, ◌+◌, ◌≤◌, ltb, ◌≡◌, refl, true, false, Option, none, some, List, [], ◌∷◌, ◌++◌, map,
  length, length-append, All, arith, if◌then◌else◌,
}
use sidedns.Text.{Text, text, len, as_bytes, utf8}
use sidedns.Rule.{DnsRule}
use sidedns.Domain.{RegexEngine}
use sidedns.Message.{IpcResponse, list, rules}
use sidedns.State.{AppState}
use sidedns.Client.{Delivery, send, Display, Output}

-- `{:<width$}`: filled with spaces on the right, counted in characters.
unfoldable pub pad : ℕ → Text → Text
pad zero t = t
pad (suc width) [] = b' ' ∷ pad width []
pad (suc width) (c ∷ t) = c ∷ pad width t

-- `{:═^width$}` of nothing
unfoldable pub fill : ℕ → Text
fill zero = []
fill (suc width) = 0x2550 ∷ fill width

unfoldable pub max : ℕ → ℕ → ℕ
max m n = if ltb m n then n else m

-- The width of the first column: the longest domain in bytes, and six at least.
unfoldable pub longest : List DnsRule → ℕ
unfolding max
longest [] = 6
longest (r ∷ rs) = max (len r.domain) (longest rs)

unfoldable pub border : (left cross right : Text) → ℕ → Text
unfolding fill
border left cross right width =
    left
    ++ (fill width ++ (cross ++ (fill 23 ++ (cross ++ (fill 5 ++ (cross ++ (fill 6 ++ right)))))))

unfoldable pub row : ℕ → (domain ip port secure : Text) → Text
unfolding pad
row width domain ip port secure =
    text "║ "
    ++ (pad width domain
        ++ (text " ║ "
            ++ (pad 23 ip
                ++ (text " ║ " ++ (pad 5 port ++ (text " ║ " ++ (pad 6 secure ++ text " ║")))))))

unfoldable pub rule_row : Display → ℕ → DnsRule → Text
unfolding row
rule_row display width r =
    row width r.domain (display.ip r.target.ip) (display.number r.target.port)
      (if r.https then text "yes" else text "no")

unfoldable pub table : Display → List DnsRule → List Text
unfolding longest border row rule_row
table display rs =
    let width = longest rs in
    border (text "╔═") (text "═╦═") (text "═╗") width
      ∷ row width (text "DOMAIN") (text "IP") (text "PORT") (text "SECURE")
      ∷ border (text "╠═") (text "═╬═") (text "═╣") width
      ∷ map (rule_row display width) rs
    ++ border (text "╚═") (text "═╩═") (text "═╝") width ∷ []

unfoldable pub listed : Display → Option IpcResponse → Output
unfolding table
listed display (some (rules [])) = (true, text "no rules configured" ∷ [])
listed display (some (rules (r ∷ rs))) = (true, table display (r ∷ rs))
listed display (some _) = (true, [])
listed display none = (false, [])

unfoldable pub list_command : RegexEngine → Display → Delivery → AppState → Output × AppState
unfolding send listed
list_command engine display d s =
    let (response, s') = send engine d list s in (listed display response, s')

length-pad : (width : ℕ) (t : Text) → length t ≤ width → length (pad width t) ≡ width
unfolding pad
length-pad zero [] fits = refl
length-pad zero (c ∷ t) fits = ground (arith)
length-pad (suc width) [] fits = ground (arith, length-pad width [])
length-pad (suc width) (c ∷ t) fits = ground (arith, length-pad width t)

length-fill : (width : ℕ) → length (fill width) ≡ width
unfolding fill
length-fill zero = refl
length-fill (suc width) = ground (arith, length-fill width)

-- A character takes a byte at least.
length-le-len : (t : Text) → length t ≤ len t
unfolding as_bytes utf8
length-le-len [] = ground (arith)
length-le-len (c ∷ t) = ground (arith, length-le-len t, length-append (utf8 c) (as_bytes t))

length-border :
    (left cross right : Text) (width : ℕ)
    → length left ≡ 2
    → length cross ≡ 3
    → length right ≡ 2
    → length (border left cross right width) ≡ width + 47
unfolding border
length-border left cross right width two three two' =
    simp (length-append, length-fill, two, three, two') (omega (arith))

length-row :
    (width : ℕ) (domain ip port secure : Text)
    → length domain ≤ width
    → length ip ≤ 23
    → length port ≤ 5
    → length secure ≤ 6
    → length (row width domain ip port secure) ≡ width + 47
unfolding row
length-row width domain ip port secure d i p s =
    simp
      (
        length-append,
        length-pad width domain d,
        length-pad 23 ip i,
        length-pad 5 port p,
        length-pad 6 secure s,
      )
      (omega (arith))

-- The addresses of the rules take no more room than their column has.
abbrev pub Fits : Display → DnsRule → Type 0
Fits display r =
    (length (display.ip r.target.ip) ≤ 23) × (length (display.number r.target.port) ≤ 5)

rows_width :
    (display : Display) (width : ℕ) (rs : List DnsRule)
    → All (Fits display) rs
    → longest rs ≤ width
    → (tail : List Text) → All (λ l. length l ≡ width + 47) tail
    → All (λ l. length l ≡ width + 47) (map (rule_row display width) rs ++ tail)
unfolding longest max rule_row
rows_width display width [] fits room tail even = even
rows_width display width (r ∷ rs) ((ip, port), fits) room tail even = (
  length-row width r.domain (display.ip r.target.ip) (display.number r.target.port) _
      (ground (arith, length-le-len r.domain)) ip port (ground (arith)),
  rows_width display width rs fits (ground (arith)) tail even,
)

longest_six : (rs : List DnsRule) → 6 ≤ longest rs
unfolding longest max
longest_six [] = omega (arith)
longest_six (r ∷ rs) = ground (arith, longest_six rs)

-- If no address is wider than its column, then all lines of the table have the same number of
-- characters: 47 more than the bytes of the longest domain, or than six.
length-table :
    (display : Display) (rs : List DnsRule)
    → All (Fits display) rs
    → All (λ l. length l ≡ longest rs + 47) (table display rs)
unfolding table
length-table display rs fits =
    let width = longest rs in
    (
      length-border (text "╔═") (text "═╦═") (text "═╗") width refl refl refl,
      (
        length-row width (text "DOMAIN") (text "IP") (text "PORT") (text "SECURE") (longest_six rs)
            (omega (arith)) (omega (arith)) (omega (arith)),
        (
          length-border (text "╠═") (text "═╬═") (text "═╣") width refl refl refl,
          rows_width display width rs fits (omega (arith)) (last ∷ []) (even, tt),
        ),
      ),
    )
  where
    last : Text
    last = border (text "╚═") (text "═╩═") (text "═╝") (longest rs)

    even : length last ≡ longest rs + 47
    even = length-border (text "╚═") (text "═╩═") (text "═╝") (longest rs) refl refl refl
