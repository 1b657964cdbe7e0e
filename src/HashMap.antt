-- ===== src/HashMap.antt =====
-- `std::collections::HashMap` with text keys, as an association list: the order of the entries
-- stands for the order, unspecified in Rust and another in each process, in which `values` visits
-- them. What is said of a restart therefore holds for the entries in any order.
pub mod Laws
use sidedns.Prelude.{
  ℕ, Bool, Option, none, some, List, [], ◌∷◌, map, ◌==◌, text_eq, if◌then◌else◌, length, retain,
  ◌≡◌,
}
use sidedns.Text.{Text}

abbrev pub HashMap {ℓ} : Type ℓ → Type ℓ
HashMap V = List (Text × V)

module _ {ℓ} {V : Type ℓ} where
  unfoldable pub get : Text → HashMap V → Option V
  get key [] = none
  get key ((k, value) ∷ rest) = if k == key then some value else get key rest

  unfoldable pub insert : Text → V → HashMap V → HashMap V
  insert key value [] = (key, value) ∷ []
  insert key value ((k, old) ∷ rest) =
      if k == key then (key, value) ∷ rest else (k, old) ∷ insert key value rest

  unfoldable pub without : Text → HashMap V → HashMap V
  without k [] = []
  without k ((j, v) ∷ m) = let rest = without k m in if j == k then rest else (j, v) ∷ rest

  -- `remove` returns the value that stood under the key.
  unfoldable pub remove : Text → HashMap V → Option V × HashMap V
  unfolding get without
  remove k m = (get k m, without k m)

  unfoldable pub values : HashMap V → List V
  values m = map (λ e. e.1) m

  -- The `bool` of the closure sees the key alone, as in the program's calls.
  unfoldable pub retain_keys : (Text → Bool) → HashMap V → HashMap V
  unfolding retain
  retain_keys p m = retain (λ e. p e.0) m

  -- No key stands twice.
  abbrev pub HasUniqueKeys : HashMap V → Type ℓ
  HasUniqueKeys [] = Unit
  HasUniqueKeys ((k, v) ∷ m) = (get k m ≡ none) × HasUniqueKeys m
