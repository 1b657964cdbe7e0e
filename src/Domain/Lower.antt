-- ===== src/Domain/Lower.antt =====
-- A validated domain in lower case.
use mathlib.Core.Bool.{and-eq-true_iff}
use sidedns.Prelude.{
  ℕ, zero, suc, ◌≤◌, ◌≡◌, refl, ap, ◌∙◌, true, [], ◌∷◌, ◌++◌, arith, ltb, length, length-append,
}
use sidedns.Text.{Text, text, len, utf8, as_bytes, lower_char, to_lowercase}
use sidedns.Domain.{
  Regex, void, empty, class, seq, alt, star, Matches, at_empty, at_class, at_seq, at_left, at_right,
  at_end, at_more, RegexEngine, up_to, literal, fold_case, letter, alphanumeric,
  alphanumeric_or_hyphen, label_dot, domain_regex, validate_domain,
}

-- Every class of the expression keeps a character that is lower-cased.
abbrev KeepsLower : Regex → Type 0
KeepsLower void = Unit
KeepsLower empty = Unit
KeepsLower (class p) = (c : ℕ) → p c ≡ true → p (lower_char c) ≡ true
KeepsLower (seq r q) = KeepsLower r × KeepsLower q
KeepsLower (alt r q) = KeepsLower r × KeepsLower q
KeepsLower (star r) = KeepsLower r

to_lowercase-append : (u v : Text) → to_lowercase (u ++ v) ≡ to_lowercase u ++ to_lowercase v
unfolding to_lowercase
to_lowercase-append [] v = refl
to_lowercase-append (c ∷ u) v = ap (λ t. lower_char c ∷ t) (to_lowercase-append u v)

split_lower :
    {t : Text} (u v : Text) → t ≡ u ++ v → to_lowercase t ≡ to_lowercase u ++ to_lowercase v
split_lower u v e = ap to_lowercase e ∙ to_lowercase-append u v

Matches-to_lowercase :
    {r : Regex} {t : Text} → Matches r t → KeepsLower r → Matches r (to_lowercase t)
unfolding to_lowercase
Matches-to_lowercase at_empty k = at_empty
Matches-to_lowercase (at_class {c} h) k = at_class (k c h)
Matches-to_lowercase (at_seq u v e m n) k =
    at_seq (to_lowercase u) (to_lowercase v) (split_lower u v e) (Matches-to_lowercase m k.0)
      (Matches-to_lowercase n k.1)
Matches-to_lowercase (at_left m) k = at_left (Matches-to_lowercase m k.0)
Matches-to_lowercase (at_right m) k = at_right (Matches-to_lowercase m k.1)
Matches-to_lowercase at_end k = at_end
Matches-to_lowercase (at_more {r} u v e m n) k =
    at_more (to_lowercase u) (to_lowercase v) (split_lower u v e) (Matches-to_lowercase m k)
      (Matches-to_lowercase {r = star r} n k)

fold_case-lower_char : (c : ℕ) → fold_case (lower_char c) ≡ fold_case c
unfolding lower_char
fold_case-lower_char c = ground arith

letter-KeepsLower : KeepsLower (class letter)
letter-KeepsLower c h = ground (arith, fold_case-lower_char c)

alphanumeric-KeepsLower : KeepsLower (class alphanumeric)
unfolding lower_char
alphanumeric-KeepsLower c h = ground arith

alphanumeric_or_hyphen-KeepsLower : KeepsLower (class alphanumeric_or_hyphen)
unfolding lower_char
alphanumeric_or_hyphen-KeepsLower c h = ground arith

literal-KeepsLower : (s : Text) → KeepsLower (literal s)
literal-KeepsLower [] = tt
literal-KeepsLower (a ∷ s) = (λ c h. ground (arith, fold_case-lower_char c), literal-KeepsLower s)

up_to-KeepsLower : (n : ℕ) (r : Regex) → KeepsLower r → KeepsLower (up_to n r)
up_to-KeepsLower zero r k = tt
up_to-KeepsLower (suc n) r k = (tt, (k, up_to-KeepsLower n r k))

label_dot-KeepsLower : KeepsLower label_dot
label_dot-KeepsLower = (
  alphanumeric-KeepsLower,
  (
    (
      tt,
      (
        up_to-KeepsLower 61 (class alphanumeric_or_hyphen) alphanumeric_or_hyphen-KeepsLower,
        alphanumeric-KeepsLower,
      ),
    ),
    literal-KeepsLower (text "."),
  ),
)

domain_regex-KeepsLower : KeepsLower domain_regex
unfolding domain_regex
domain_regex-KeepsLower = (
  literal-KeepsLower (text "localhost"),
  (
    (tt, literal-KeepsLower (text "*.")),
    (
      (label_dot-KeepsLower, label_dot-KeepsLower),
      (
        (letter-KeepsLower, (letter-KeepsLower, tt)),
        up_to-KeepsLower 61 (class letter) letter-KeepsLower,
      ),
    ),
  ),
)

lower_char-utf8 : (c : ℕ) → length (utf8 (lower_char c)) ≤ length (utf8 c)
unfolding lower_char utf8
lower_char-utf8 c = ground arith

len-to_lowercase : (t : Text) → len (to_lowercase t) ≤ len t
unfolding to_lowercase as_bytes
len-to_lowercase [] = omega arith
len-to_lowercase (c ∷ t) = omega (
  arith,
  length-append (utf8 c) (as_bytes t),
  length-append (utf8 (lower_char c)) (as_bytes (to_lowercase t)),
  lower_char-utf8 c,
  len-to_lowercase t,
)

-- A validated domain is valid in lower case as well.
pub validate_domain-to_lowercase :
    (engine : RegexEngine) (d : Text)
    → validate_domain engine d ≡ true
    → validate_domain engine (to_lowercase d) ≡ true
unfolding validate_domain
validate_domain-to_lowercase engine d valid =
    let (short, found) =
      (and-eq-true_iff (ltb (len d) 253) (engine.is_match domain_regex d)).0 valid in
    let matched : Matches domain_regex (to_lowercase d) =
      Matches-to_lowercase ((engine.is_match_iff domain_regex d).0 found) domain_regex-KeepsLower in
    ground
      (arith, len-to_lowercase d, (engine.is_match_iff domain_regex (to_lowercase d)).1 matched)
