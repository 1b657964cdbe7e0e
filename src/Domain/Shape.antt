-- ===== src/Domain/Shape.antt =====
-- What a validated domain can hold.
use mathlib.Core.Bool.{and-eq-true_iff}
use sidedns.Prelude.{
  ℕ, ◌≡◌, refl, Bool, true, ◌&&◌, ◌||◌, [], ◌∷◌, arith, All, All-append, ltb, ◌<◌, zero, suc, leb,
  ◌==◌, nat_eq,
}
use sidedns.Text.{Text, text, len, lower_char, to_lowercase}
use sidedns.Domain.{
  Regex, void, empty, class, seq, alt, star, Matches, at_empty, at_class, at_seq, at_left, at_right,
  at_end, at_more, RegexEngine, up_to, domain_regex, validate_domain, alphanumeric, letter,
  fold_case, label_dot, literal, alphanumeric_or_hyphen,
}

-- Every class of the expression lies in `P`.
abbrev Within : (ℕ → Type 0) → Regex → Type 0
Within P void = Unit
Within P empty = Unit
Within P (class p) = (c : ℕ) → p c ≡ true → P c
Within P (seq r q) = Within P r × Within P q
Within P (alt r q) = Within P r × Within P q
Within P (star r) = Within P r

Matches-All : (P : ℕ → Type 0) {r : Regex} {t : Text} → Matches r t → Within P r → All P t
Matches-All P at_empty w = tt
Matches-All P (at_class {c} h) w = (w c h, tt)
Matches-All P (at_seq u v e m n) w =
    rw e (All-append P u v (Matches-All P m w.0) (Matches-All P n w.1))
Matches-All P (at_left m) w = Matches-All P m w.0
Matches-All P (at_right m) w = Matches-All P m w.1
Matches-All P at_end w = tt
Matches-All P (at_more {r} u v e m n) w =
    rw e (All-append P u v (Matches-All P m w) (Matches-All P {r = star r} n w))

-- What a domain is spelled with: letters, digits, hyphens, dots, a star, and the two characters
-- outside ASCII that fold into it.
abbrev pub is_domain_char : ℕ → Bool
is_domain_char c =
    (leb b'a' c && leb c b'z')
    || (leb b'A' c && leb c b'Z')
    || (leb b'0' c && leb c b'9')
    || c == b'-'
    || c == b'.'
    || c == b'*'
    || c == 0x17F
    || c == 0x212A

Within-up_to : (P : ℕ → Type 0) (n : ℕ) (r : Regex) → Within P r → Within P (up_to n r)
Within-up_to P zero r w = tt
Within-up_to P (suc n) r w = (tt, (w, Within-up_to P n r w))

alphanumeric-is_domain_char : (c : ℕ) → alphanumeric c ≡ true → is_domain_char c ≡ true
alphanumeric-is_domain_char c h = ground arith

folded_is_domain_char :
    (a c : ℕ) → (fold_case c == a) ≡ true → is_domain_char a ≡ true → is_domain_char c ≡ true
folded_is_domain_char a c h k = ground arith

abbrev all_domain_chars : Text → Bool
all_domain_chars [] = true
all_domain_chars (c ∷ s) = is_domain_char c && all_domain_chars s

literal-Within :
    (s : Text) → all_domain_chars s ≡ true → Within (λ c. is_domain_char c ≡ true) (literal s)
literal-Within [] h = tt
literal-Within (a ∷ s) h =
    let (here, later) = (and-eq-true_iff _ _).0 h in
    (λ c k. folded_is_domain_char a c k here, literal-Within s later)

alphanumeric_or_hyphen-is_domain_char :
    (c : ℕ) → alphanumeric_or_hyphen c ≡ true → is_domain_char c ≡ true
alphanumeric_or_hyphen-is_domain_char c h = ground arith

letter-is_domain_char : (c : ℕ) → letter c ≡ true → is_domain_char c ≡ true
letter-is_domain_char c h = ground arith

abbrev InDomain : Regex → Type 0
InDomain r = Within (λ c. is_domain_char c ≡ true) r

label_dot-Within : InDomain label_dot
label_dot-Within = (
  alphanumeric-is_domain_char,
  (
    (
      tt,
      (
        Within-up_to (λ c. is_domain_char c ≡ true) 61 (class alphanumeric_or_hyphen)
            alphanumeric_or_hyphen-is_domain_char,
        alphanumeric-is_domain_char,
      ),
    ),
    literal-Within (text ".") refl,
  ),
)

domain_regex-Within : InDomain domain_regex
unfolding domain_regex
domain_regex-Within = (
  literal-Within (text "localhost") refl,
  (
    (tt, literal-Within (text "*.") refl),
    (
      (label_dot-Within, label_dot-Within),
      (
        (letter-is_domain_char, (letter-is_domain_char, tt)),
        Within-up_to (λ c. is_domain_char c ≡ true) 61 (class letter) letter-is_domain_char,
      ),
    ),
  ),
)

-- Lower-casing keeps a text within the characters of domains.
lower_char-domain : (c : ℕ) → is_domain_char c ≡ true → is_domain_char (lower_char c) ≡ true
unfolding lower_char
lower_char-domain c h = ground arith

abbrev pub IsDomainText : Text → Type 0
IsDomainText t = All (λ c. is_domain_char c ≡ true) t

to_lowercase-IsDomainText : (t : Text) → IsDomainText t → IsDomainText (to_lowercase t)
unfolding to_lowercase
to_lowercase-IsDomainText [] h = tt
to_lowercase-IsDomainText (c ∷ t) (h, k) = (lower_char-domain c h, to_lowercase-IsDomainText t k)

-- A validated domain, as it is and lower-cased, has fewer than 253 bytes of letters, digits,
-- hyphens, dots and stars (and the two letters that case folding adds): no space, line break,
-- quote, slash or semicolon.
pub validate_domain_sound :
    (engine : RegexEngine) (d : Text)
    → validate_domain engine d ≡ true
    → (len d < 253) × IsDomainText d × IsDomainText (to_lowercase d)
unfolding validate_domain
validate_domain_sound engine d h =
    let (short, found) = (and-eq-true_iff (ltb (len d) 253) (engine.is_match domain_regex d)).0 h in
    let spelled : IsDomainText d =
      Matches-All (λ c. is_domain_char c ≡ true) ((engine.is_match_iff domain_regex d).0 found)
        domain_regex-Within in
    (ground arith, spelled, to_lowercase-IsDomainText d spelled)
