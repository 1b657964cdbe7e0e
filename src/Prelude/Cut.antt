-- ===== src/Prelude/Cut.antt =====
-- `position` and `Vec::swap_remove`, and what a search finds after them.
use Prim.Native.Nat.{ℕ, zero, suc}
use mathlib.Core.Path.{◌≡◌, refl}
use mathlib.Core.Logic.{◌⊎◌, inl, inr}
use mathlib.Core.Bool.{Bool, true, false}
use mathlib.Core.Option.{Option, none, some}
use mathlib.Core.List.{List, [], ◌∷◌}
use native.Mathlib.Omega.{arith}
use sidedns.Prelude.Tests.{if◌then◌else◌, Bool-cases, Option-cases}
use sidedns.Prelude.Lists.{find, All}

module _ {ℓ} {A : Type ℓ} where
  -- `iter().position(p)`
  unfoldable pub position : (A → Bool) → List A → Option ℕ
  position p [] = none
  position p (x ∷ xs) =
      let later = position p xs in
      if p x then some 0 else elim later [ none ↦ none | some i ↦ some (suc i) ]

  -- A list with its last element moved to the front.
  unfoldable pub last_first : List A → List A
  last_first [] = []
  last_first (x ∷ xs) = elim (last_first xs) [ [] ↦ x ∷ [] | l ∷ front ↦ l ∷ x ∷ front ]

  -- `Vec::swap_remove`: the last element takes the place of the one removed. `none` is a panic.
  unfoldable pub swap_remove : List A → ℕ → Option (A × List A)
  unfolding last_first
  swap_remove [] i = none
  swap_remove (x ∷ xs) zero = some (x, last_first xs)
  swap_remove (x ∷ xs) (suc i) = elim (swap_remove xs i) [
    | none ↦ none
    | some (a, rest) ↦ some (a, x ∷ rest)
  ]

  -- At most one element of the list passes the test.
  abbrev pub AtMostOne : (A → Bool) → List A → Type ℓ
  AtMostOne p [] = Unit
  AtMostOne p (x ∷ xs) = (p x ≡ true → find p xs ≡ none) × AtMostOne p xs

-- A test that at most one element passes finds the same in any order.
module _ {ℓ} {A : Type ℓ} (p : A → Bool) where
  find-last_first : (xs : List A) → AtMostOne p xs → find p (last_first xs) ≡ find p xs
  unfolding find last_first
  find-last_first [] _ = refl
  find-last_first (x ∷ xs) (h, u) = ground (arith, find-last_first xs u)

  AtMostOne-last_first : (xs : List A) → AtMostOne p xs → AtMostOne p (last_first xs)
  unfolding find last_first
  AtMostOne-last_first [] _ = tt
  AtMostOne-last_first (x ∷ xs) (h, u) =
      ground (arith, find-last_first xs u, AtMostOne-last_first xs u)

  removed_fails :
      (xs : List A) (i : ℕ) {a : A} {rest : List A}
      → swap_remove xs i ≡ some (a, rest)
      → find p xs ≡ none
      → p a ≡ false
  unfolding find swap_remove
  removed_fails [] i e none_found = cc
  removed_fails (x ∷ xs) zero e none_found = ground arith
  removed_fails (x ∷ xs) (suc i) {a} {rest} e none_found = elim (Option-cases (swap_remove xs i)) [
    | inl out ↦ ground arith
    | inr ((b, left), found) ↦ ground (arith, removed_fails xs i {a = b} {rest = left} found)
  ]

  -- What is left after a removal finds what was there, but for the element removed.
  pub find-swap_remove :
      (xs : List A) (i : ℕ) {a : A} {rest : List A}
      → AtMostOne p xs
      → swap_remove xs i ≡ some (a, rest)
      → find p rest ≡ (if p a then none else find p xs)
  unfolding find swap_remove
  find-swap_remove [] i u e = cc
  find-swap_remove (x ∷ xs) zero (h, u) e = ground (arith, find-last_first xs u)
  find-swap_remove (x ∷ xs) (suc i) {a} {rest} (h, u) e = elim (Option-cases (swap_remove xs i)) [
    | inl out ↦ ground arith
    | inr ((b, left), found) ↦ ground (
      arith,
      removed_fails xs i {a = b} {rest = left} found,
      find-swap_remove xs i {a = b} {rest = left} u found,
    )
  ]

  pub AtMostOne-swap_remove :
      (xs : List A) (i : ℕ) {a : A} {rest : List A}
      → AtMostOne p xs
      → swap_remove xs i ≡ some (a, rest)
      → AtMostOne p rest
  unfolding find swap_remove
  AtMostOne-swap_remove [] i u e = cc
  AtMostOne-swap_remove (x ∷ xs) zero (h, u) e = ground (arith, AtMostOne-last_first xs u)
  AtMostOne-swap_remove (x ∷ xs) (suc i) {a} {rest} (h, u) e =
      elim (Option-cases (swap_remove xs i)) [
        | inl out ↦ ground arith
        | inr ((b, left), found) ↦ ground (
          arith,
          find-swap_remove xs i {a = b} {rest = left} u found,
          AtMostOne-swap_remove xs i {a = b} {rest = left} u found,
        )
      ]

  -- `swap_remove` at a position that a search found does not panic, and takes what it found.
  pub position_cases :
      (xs : List A)
      → ((position p xs ≡ none) × (find p xs ≡ none))
        ⊎ ((i : ℕ) × (a : A) × (rest : List A) × (position p xs ≡ some i)
            × (swap_remove xs i ≡ some (a, rest))
            × (find p xs ≡ some a))
  unfolding find position swap_remove
  position_cases [] = inl (refl, refl)
  position_cases (x ∷ xs) = elim (Bool-cases (p x)) [
    | inl pass ↦ inr (0, x, last_first xs, ground arith, refl, ground arith)
    | inr fail ↦ elim (position_cases xs) [
      | inl (missing, absent) ↦ inl (ground arith, ground arith)
      | inr (i, a, rest, at_i, cut, found) ↦
          inr (suc i, a, x ∷ rest, ground arith, ground arith, ground arith)
    ]
  ]

module _ {ℓ κ} {A : Type ℓ} (P : A → Type κ) where
  All-last_first : (xs : List A) → All P xs → All P (last_first xs)
  unfolding last_first
  All-last_first [] _ = tt
  All-last_first (x ∷ xs) (h, k) = ground (arith, All-last_first xs k)

  pub All-swap_remove :
      (xs : List A) (i : ℕ) {a : A} {rest : List A}
      → All P xs
      → swap_remove xs i ≡ some (a, rest)
      → All P rest
  unfolding swap_remove
  All-swap_remove [] i k e = cc
  All-swap_remove (x ∷ xs) zero (h, k) e = ground (arith, All-last_first xs k)
  All-swap_remove (x ∷ xs) (suc i) {a} {rest} (h, k) e = elim (Option-cases (swap_remove xs i)) [
    | inl out ↦ ground arith
    | inr ((b, left), found) ↦ ground (arith, All-swap_remove xs i {a = b} {rest = left} k found)
  ]
