-- ===== src/Domain/Engine.antt =====
-- An engine that meets the assumption: matching by derivatives.
use sidedns.Prelude.{
  ℕ, ◌≡◌, refl, sym, ap, ◌∙◌, ◌↔◌, Bool, true, false, ◌&&◌, ◌||◌, [], ◌∷◌, ◌++◌, arith,
  if◌then◌else◌, Bool-cases, inl, inr, ◌⊎◌,
}
use mathlib.Core.Path.{subst}
use sidedns.Text.{Text}
use sidedns.Domain.{
  Regex, void, empty, class, seq, alt, star, Matches, at_empty, at_class, at_seq, at_left, at_right,
  at_end, at_more, RegexEngine,
}

unfoldable pub nullable : Regex → Bool
nullable void = false
nullable empty = true
nullable (class p) = false
nullable (seq r q) = nullable r && nullable q
nullable (alt r q) = nullable r || nullable q
nullable (star r) = true

nullable_sound : (r : Regex) → nullable r ≡ true → Matches r []
unfolding nullable
nullable_sound void h = cc
nullable_sound empty h = at_empty
nullable_sound (class p) h = cc
nullable_sound (seq r q) h =
    at_seq [] [] refl (nullable_sound r (ground arith)) (nullable_sound q (ground arith))
nullable_sound (alt r q) h = elim (Bool-cases (nullable r)) [
  | inl left ↦ at_left (nullable_sound r left)
  | inr right ↦ at_right (nullable_sound q (ground arith))
]
nullable_sound (star r) h = at_end

nullable_complete : {r : Regex} {t : Text} → Matches r t → t ≡ [] → nullable r ≡ true
unfolding nullable
nullable_complete at_empty e = refl
nullable_complete (at_class h) e = cc
nullable_complete (at_seq [] [] s m n) e =
    ground (arith, nullable_complete m refl, nullable_complete n refl)
nullable_complete (at_seq [] (c ∷ v) s m n) e = cc
nullable_complete (at_seq (c ∷ u) v s m n) e = cc
nullable_complete (at_left m) e = ground (arith, nullable_complete m e)
nullable_complete (at_right m) e = ground (arith, nullable_complete m e)
nullable_complete at_end e = refl
nullable_complete (at_more u v s m n) e = refl

-- Sequences and alternatives, without the parts that match nothing or only the empty text.
unfoldable pub followed : Regex → Regex → Regex
followed void q = void
followed empty q = q
followed r q = seq r q

unfoldable pub either : Regex → Regex → Regex
either void q = q
either r void = r
either r q = alt r q

void_absurd : {t : Text} → Matches void t → ⊥
void_absurd m = elim m [ ]

-- What `followed` matches, and what `either` matches.
followed_sound : (r q : Regex) (t : Text) → Matches (followed r q) t → Matches (seq r q) t
unfolding followed
followed_sound void q t m = absurd (void_absurd m)
followed_sound empty q t m = at_seq [] t refl at_empty m
followed_sound _ q t m = m

empty_only : {t : Text} → Matches empty t → t ≡ []
empty_only at_empty = refl

seq_of_empty : (q : Regex) {t : Text} → Matches (seq empty q) t → Matches q t
seq_of_empty q (at_seq u v e m n) = subst (Matches q) (sym (e ∙ ap (λ w. w ++ v) (empty_only m))) n

seq_of_void : (q : Regex) {t : Text} → Matches (seq void q) t → Matches void t
seq_of_void q (at_seq u v e m n) = absurd (void_absurd m)

followed_complete : (r q : Regex) (t : Text) → Matches (seq r q) t → Matches (followed r q) t
unfolding followed
followed_complete void q t m = seq_of_void q m
followed_complete empty q t m = seq_of_empty q m
followed_complete _ q t m = m

void_left : (q : Regex) {t : Text} → Matches (alt void q) t → Matches q t
void_left q (at_left m) = absurd (void_absurd m)
void_left q (at_right m) = m

void_right : (r : Regex) {t : Text} → Matches (alt r void) t → Matches r t
void_right r (at_left m) = m
void_right r (at_right m) = absurd (void_absurd m)

either_sound : (r q : Regex) (t : Text) → Matches (either r q) t → Matches (alt r q) t
unfolding either
either_sound void q t m = at_right m
either_sound empty void t m = at_left m
either_sound (class p) void t m = at_left m
either_sound (seq _ _) void t m = at_left m
either_sound (alt _ _) void t m = at_left m
either_sound (star _) void t m = at_left m
either_sound _ _ t m = m

either_complete : (r q : Regex) (t : Text) → Matches (alt r q) t → Matches (either r q) t
unfolding either
either_complete void q t m = void_left q m
either_complete empty void t m = void_right empty m
either_complete (class p) void t m = void_right (class p) m
either_complete (seq r₁ r₂) void t m = void_right (seq r₁ r₂) m
either_complete (alt r₁ r₂) void t m = void_right (alt r₁ r₂) m
either_complete (star r₁) void t m = void_right (star r₁) m
either_complete _ _ t m = m

unfoldable pub deriv : ℕ → Regex → Regex
unfolding nullable followed either
deriv c void = void
deriv c empty = void
deriv c (class p) = if p c then empty else void
deriv c (seq r q) =
    let rest = deriv c q in
    let first = followed (deriv c r) q in if nullable r then either first rest else first
deriv c (alt r q) = either (deriv c r) (deriv c q)
deriv c (star r) = followed (deriv c r) (star r)

alt_cases : {r q : Regex} {t : Text} → Matches (alt r q) t → Matches r t ⊎ Matches q t
alt_cases (at_left m) = inl m
alt_cases (at_right m) = inr m

seq_parts :
    {r q : Regex} {t : Text}
    → Matches (seq r q) t
    → (u : Text) × (v : Text) × (t ≡ u ++ v) × Matches r u × Matches q v
seq_parts (at_seq u v e m n) = (u, v, e, m, n)

class_cases : (b : Bool) {t : Text} → Matches (if b then empty else void) t → (b ≡ true) × (t ≡ [])
class_cases true m = (refl, empty_only m)
class_cases false m = absurd (void_absurd m)

pick_sound :
    (b : Bool) (x y : Regex) {t : Text}
    → Matches (if b then either x y else x) t
    → Matches x t ⊎ ((b ≡ true) × Matches y t)
pick_sound true x y {t} m = elim (alt_cases (either_sound x y t m)) [
  | inl n ↦ inl n
  | inr n ↦ inr (refl, n)
]
pick_sound false x y m = inl m

pick_complete :
    (b : Bool) (x y : Regex) {t : Text}
    → Matches x t ⊎ ((b ≡ true) × Matches y t)
    → Matches (if b then either x y else x) t
pick_complete true x y {t} (inl m) = either_complete x y t (at_left m)
pick_complete true x y {t} (inr (_, m)) = either_complete x y t (at_right m)
pick_complete false x y (inl m) = m
pick_complete false x y (inr (e, _)) = cc

deriv_sound : (c : ℕ) (r : Regex) (t : Text) → Matches (deriv c r) t → Matches r (c ∷ t)
unfolding deriv
deriv_sound c void t m = absurd (void_absurd m)
deriv_sound c empty t m = absurd (void_absurd m)
deriv_sound c (class p) t m = let (pass, nil) = class_cases (p c) m in rw nil (at_class pass)
deriv_sound c (seq r q) t m =
    elim (pick_sound (nullable r) (followed (deriv c r) q) (deriv c q) m) [
      | inl first ↦
          let (u, v, e, a, b) = seq_parts (followed_sound (deriv c r) q t first) in
          at_seq (c ∷ u) v (ap (λ w. c ∷ w) e) (deriv_sound c r u a) b
      | inr (none_needed, rest) ↦
          at_seq [] (c ∷ t) refl (nullable_sound r none_needed) (deriv_sound c q t rest)
    ]
deriv_sound c (alt r q) t m = elim (alt_cases (either_sound (deriv c r) (deriv c q) t m)) [
  | inl left ↦ at_left (deriv_sound c r t left)
  | inr right ↦ at_right (deriv_sound c q t right)
]
deriv_sound c (star r) t m =
    let (u, v, e, a, b) = seq_parts (followed_sound (deriv c r) (star r) t m) in
    at_more (c ∷ u) v (ap (λ w. c ∷ w) e) (deriv_sound c r u a) b

head_eq : {c d : ℕ} {s t : Text} → c ∷ s ≡ d ∷ t → (c ≡ d) × (s ≡ t)
head_eq e = (cc, cc)

class_complete :
    (p : ℕ → Bool) (c d : ℕ) (t : Text)
    → p d ≡ true
    → d ∷ [] ≡ c ∷ t
    → Matches (if p c then empty else void) t
class_complete p c d t pass e =
    let (same, nil) = head_eq e in rw (ap p (sym same) ∙ pass, sym nil) at_empty

deriv_complete :
    (c : ℕ) (t : Text) {r : Regex} {s : Text} → Matches r s → s ≡ c ∷ t → Matches (deriv c r) t
unfolding deriv
deriv_complete c t at_empty e = cc
deriv_complete c t (at_class {p} {c = d} pass) e = class_complete p c d t pass e
deriv_complete c t (at_seq {r} {q} [] v s m n) e =
    pick_complete (nullable r) (followed (deriv c r) q) (deriv c q)
      (inr (nullable_complete m refl, deriv_complete c t n (sym s ∙ e)))
deriv_complete c t (at_seq {r} {q} (d ∷ u) v s m n) e =
    let (same, rest) = head_eq (sym s ∙ e) in
    pick_complete (nullable r) (followed (deriv c r) q) (deriv c q) (
      inl (
        followed_complete (deriv c r) q t
          (at_seq u v (sym rest) (deriv_complete c u m (ap (λ a. a ∷ u) same)) n)))
deriv_complete c t (at_left {r} {q} m) e =
    either_complete (deriv c r) (deriv c q) t (at_left (deriv_complete c t m e))
deriv_complete c t (at_right {r} {q} m) e =
    either_complete (deriv c r) (deriv c q) t (at_right (deriv_complete c t m e))
deriv_complete c t at_end e = cc
deriv_complete c t (at_more [] v s m n) e = deriv_complete c t n (sym s ∙ e)
deriv_complete c t (at_more {r} (d ∷ u) v s m n) e =
    let (same, rest) = head_eq (sym s ∙ e) in
    followed_complete (deriv c r) (star r) t
      (at_seq u v (sym rest) (deriv_complete c u m (ap (λ a. a ∷ u) same)) n)

unfoldable pub is_match : Regex → Text → Bool
unfolding nullable deriv
is_match r [] = nullable r
is_match r (c ∷ t) = is_match (deriv c r) t

is_match_sound : (r : Regex) (t : Text) → is_match r t ≡ true → Matches r t
unfolding is_match
is_match_sound r [] h = nullable_sound r h
is_match_sound r (c ∷ t) h = deriv_sound c r t (is_match_sound (deriv c r) t h)

is_match_complete : (r : Regex) (t : Text) → Matches r t → is_match r t ≡ true
unfolding is_match
is_match_complete r [] m = nullable_complete m refl
is_match_complete r (c ∷ t) m = is_match_complete (deriv c r) t (deriv_complete c t m refl)

pub is_match_iff : (r : Regex) (t : Text) → (is_match r t ≡ true) ↔ Matches r t
is_match_iff r t = (is_match_sound r t, is_match_complete r t)

abbrev pub derivatives : RegexEngine
derivatives = record { is_match = is_match; is_match_iff = is_match_iff }
