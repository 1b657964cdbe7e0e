-- ===== src/Text/Lower.antt =====
-- Lower-casing.
use sidedns.Prelude.{ℕ, ◌≡◌, refl, [], ◌∷◌, arith}
use sidedns.Text.{Text, lower_char, to_lowercase}

lower_char_idem : (c : ℕ) → lower_char (lower_char c) ≡ lower_char c
unfolding lower_char
lower_char_idem c = ground arith

-- Lower-casing a second time changes nothing.
pub to_lowercase_idem : (s : Text) → to_lowercase (to_lowercase s) ≡ to_lowercase s
unfolding to_lowercase
to_lowercase_idem [] = refl
to_lowercase_idem (c ∷ s) = cc (lower_char_idem c, to_lowercase_idem s)
