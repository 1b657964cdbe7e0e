-- ===== src/Text.antt =====
-- Rust's `str` and `String` as the program uses them: a text is the list of its `char`s.
pub mod Suffix
pub mod Lower
use Prim.Native.Char.{code}
use Prim.Native.String
use sidedns.Prelude.{
  ℕ, ◌+◌, ◌-◌, ◌/◌, ◌%◌, Bool, true, false, ◌&&◌, ◌||◌, Option, none, some, List, [], ◌∷◌, ◌++◌,
  String, map, ltb, leb, ◌==◌, if◌then◌else◌, length, get_elem?, nat_eq, text_eq,
}

abbrev pub Text : Type 0
Text = List ℕ

-- A string literal.
abbrev pub text : String → Text
text String.[] = []
text (String.◌∷◌ c s) = code c ∷ text s

-- The UTF-8 bytes of a `char`.
unfoldable pub utf8 : ℕ → List ℕ
utf8 c =
    if ltb c 0x80
    then c ∷ []
    else if ltb c 0x800
    then (0xC0 + c / 64) ∷ (0x80 + c % 64) ∷ []
    else if ltb c 0x10000
    then (0xE0 + c / 4096) ∷ (0x80 + c / 64 % 64) ∷ (0x80 + c % 64) ∷ []
    else (0xF0 + c / 262144) ∷ (0x80 + c / 4096 % 64) ∷ (0x80 + c / 64 % 64) ∷ (0x80 + c % 64) ∷ []

-- `str::as_bytes`
unfoldable pub as_bytes : Text → List ℕ
unfolding utf8
as_bytes [] = []
as_bytes (c ∷ s) = utf8 c ++ as_bytes s

-- `str::len`, in bytes
abbrev pub len : Text → ℕ
len s = length (as_bytes s)

-- `str::strip_prefix`
unfoldable pub strip_prefix : Text → Text → Option Text
strip_prefix [] s = some s
strip_prefix (c ∷ p) [] = none
strip_prefix (c ∷ p) (d ∷ s) = if c == d then strip_prefix p s else none

-- `str::starts_with`
unfoldable pub starts_with : Text → Text → Bool
unfolding strip_prefix
starts_with p s = elim (strip_prefix p s) [ none ↦ false | some _ ↦ true ]

-- `str::ends_with`
unfoldable pub ends_with : Text → Text → Bool
ends_with suffix [] = suffix == []
ends_with suffix (c ∷ s) = suffix == c ∷ s || ends_with suffix s

-- `s.as_bytes()[i] == b`; an index out of bounds is a panic, here `false`: the program asks only
-- behind a test that makes the index smaller than the length.
unfoldable pub byte_is : Text → ℕ → ℕ → Bool
byte_is s i b = elim (get_elem? (as_bytes s) i) [ none ↦ false | some a ↦ a == b ]

-- One `char` of `str::to_lowercase`: exact on ASCII and on U+017F and U+212A, the two characters
-- outside ASCII that the domain expression lets through. Unicode's other letters are left alone.
unfoldable pub lower_char : ℕ → ℕ
lower_char c = if leb b'A' c && leb c b'Z' then c + 32 else if c == 0x212A then b'k' else c

-- `str::to_lowercase`
unfoldable pub to_lowercase : Text → Text
unfolding lower_char
to_lowercase s = map lower_char s

-- `split(c).next()`: the part before the first `c`
unfoldable pub before : ℕ → Text → Text
before c [] = []
before c (d ∷ s) = if d == c then [] else d ∷ before c s

-- `str::trim_end_matches(c)`
unfoldable pub trim_end_matches : ℕ → Text → Text
trim_end_matches c [] = []
trim_end_matches c (d ∷ s) = elim (trim_end_matches c s) [
  | [] ↦ if d == c then [] else d ∷ []
  | e ∷ r ↦ d ∷ e ∷ r
]

-- `str::contains`
unfoldable pub contains : Text → Text → Bool
unfolding starts_with
contains p [] = starts_with p []
contains p (c ∷ s) = starts_with p (c ∷ s) || contains p s
