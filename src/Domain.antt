-- ===== src/Domain.antt =====
-- `DOMAIN_REGEX` of core/src/config.rs and `validate_domain` of core/src/lib.rs.
-- Matching an expression is the regex crate's work: an engine is a parameter, of which its
-- documented meaning is assumed.
pub mod Engine
pub mod Shape
pub mod Lower
pub mod Tests
use sidedns.Prelude.{
  ℕ, zero, suc, ◌+◌, ◌≡◌, ◌↔◌, Bool, true, ◌&&◌, ◌||◌, List, [], ◌∷◌, ◌++◌, ltb, leb, ◌==◌, nat_eq,
  if◌then◌else◌,
}
use sidedns.Text.{Text, text, len, as_bytes}

-- The expressions that the pattern is made of.
pub data Regex : Type 0 where
  void empty : Regex
  class : (ℕ → Bool) → Regex
  seq alt : Regex → Regex → Regex
  star : Regex → Regex

-- The texts that an expression matches from end to end.
pub data Matches : Regex → Text → Type 0 where
  at_empty : Matches empty []
  at_class : {p : ℕ → Bool} {c : ℕ} → p c ≡ true → Matches (class p) (c ∷ [])
  at_seq :
      {r q : Regex} {t : Text} (u v : Text)
      → t ≡ u ++ v
      → Matches r u
      → Matches q v
      → Matches (seq r q) t
  at_left : {r q : Regex} {t : Text} → Matches r t → Matches (alt r q) t
  at_right : {r q : Regex} {t : Text} → Matches q t → Matches (alt r q) t
  at_end : {r : Regex} → Matches (star r) []
  at_more :
      {r : Regex} {t : Text} (u v : Text)
      → t ≡ u ++ v
      → Matches r u
      → Matches (star r) v
      → Matches (star r) t

-- The regex crate: `is_match` of an expression anchored by `^` and `$`.
pub record RegexEngine : Type 0 where
  pub is_match : Regex → Text → Bool
  pub is_match_iff : (r : Regex) (t : Text) → (is_match r t ≡ true) ↔ Matches r t

abbrev pub optional : Regex → Regex
optional r = alt empty r

-- `r{n}` and `r{0,n}`
abbrev pub times : ℕ → Regex → Regex
times zero r = empty
times (suc n) r = seq r (times n r)

abbrev pub up_to : ℕ → Regex → Regex
up_to zero r = empty
up_to (suc n) r = optional (seq r (up_to n r))

-- `(?i)`: simple case folding. U+017F folds to "s" and U+212A, the Kelvin sign, to "k"; no other
-- character outside ASCII folds into it.
abbrev pub fold_case : ℕ → ℕ
fold_case c =
    if leb b'A' c && leb c b'Z'
    then c + 32
    else if c == 0x17F
    then b's'
    else if c == 0x212A
    then b'k'
    else c

abbrev pub letter : ℕ → Bool
letter c = leb b'a' (fold_case c) && leb (fold_case c) b'z'

abbrev pub alphanumeric : ℕ → Bool
alphanumeric c = letter c || (leb b'0' c && leb c b'9')

abbrev pub alphanumeric_or_hyphen : ℕ → Bool
alphanumeric_or_hyphen c = alphanumeric c || c == b'-'

abbrev pub literal : Text → Regex
literal [] = empty
literal (c ∷ s) = seq (class (λ d. fold_case d == c)) (literal s)

-- `[a-z0-9](?:[a-z0-9-]{0,61}[a-z0-9])?\.`
abbrev pub label_dot : Regex
label_dot = seq (class alphanumeric) (
    seq (optional (seq (up_to 61 (class alphanumeric_or_hyphen)) (class alphanumeric)))
      (literal (text ".")))

-- `localhost|(?:\*\.)?(?:label\.)+[a-z]{2,63}`
unfoldable pub domain_regex : Regex
domain_regex = alt (literal (text "localhost")) (
    seq (optional (literal (text "*."))) (
      seq (seq label_dot (star label_dot))
        (seq (times 2 (class letter)) (up_to 61 (class letter)))))

unfoldable pub validate_domain : RegexEngine → Text → Bool
unfolding as_bytes
validate_domain engine domain = ltb (len domain) 253 && engine.is_match domain_regex domain
