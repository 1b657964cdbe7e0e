-- ===== src/HashMap/Laws.antt =====
-- The laws of the map operations.
use mathlib.Core.List.{Permᴰ}
use sidedns.Prelude.{
  ap, ◌∙◌, false, ◌≡◌, refl, Bool, none, some, [], ◌∷◌, arith, ◌==◌, text_eq, text_eq_iff,
  if◌then◌else◌,
}
use sidedns.Text.{Text}
use sidedns.HashMap.{HashMap, get, insert, without, retain_keys, HasUniqueKeys}

module _ {ℓ} {V : Type ℓ} where
  pub get-insert :
      (k j : Text) (v : V) (m : HashMap V)
      → get j (insert k v m) ≡ (if k == j then some v else get j m)
  unfolding get insert
  get-insert k j v [] = refl
  get-insert k j v ((i, w) ∷ m) =
      ground (arith, text_eq_iff k j, text_eq_iff i k, text_eq_iff i j, get-insert k j v m)

  pub get-without :
      (k j : Text) (m : HashMap V) → get j (without k m) ≡ (if k == j then none else get j m)
  unfolding get without
  get-without k j [] = ground arith
  get-without k j ((i, w) ∷ m) =
      ground (arith, text_eq_iff k j, text_eq_iff i k, text_eq_iff i j, get-without k j m)

  pub get-retain_keys :
      (p : Text → Bool) (j : Text) (m : HashMap V)
      → get j (retain_keys p m) ≡ (if p j then get j m else none)
  unfolding get retain_keys
  get-retain_keys p j [] = ground arith
  get-retain_keys p j ((i, w) ∷ m) = ground (arith, text_eq_iff i j, get-retain_keys p j m)

  pub insert-HasUniqueKeys :
      (k : Text) (v : V) (m : HashMap V) → HasUniqueKeys m → HasUniqueKeys (insert k v m)
  unfolding insert get
  insert-HasUniqueKeys k v [] _ = (refl, tt)
  insert-HasUniqueKeys k v ((j, w) ∷ m) (fresh, u) =
      ground
        (arith, text_eq_iff j k, get-insert k j v m, text_eq_iff k j, insert-HasUniqueKeys k v m u)

  pub without-HasUniqueKeys :
      (k : Text) (m : HashMap V) → HasUniqueKeys m → HasUniqueKeys (without k m)
  unfolding without
  without-HasUniqueKeys k [] _ = tt
  without-HasUniqueKeys k ((j, w) ∷ m) (fresh, u) =
      ground (arith, get-without k j m, without-HasUniqueKeys k m u)

  -- The entries in another order are the same map.
  pub get-perm :
      {m n : HashMap V}
      → Permᴰ m n
      → HasUniqueKeys n
      → HasUniqueKeys m × ((k : Text) → get k m ≡ get k n)
  unfolding get
  get-perm Permᴰ.nil unique = (tt, λ k. refl)
  get-perm (Permᴰ.cons {a} {b} {l₁} {l₂} e rest) (absent, unique) =
      let (others, same) = get-perm rest unique in
      let key : a.0 ≡ b.0 = ap (λ x. x.0) e in
      let value : a.1 ≡ b.1 = ap (λ x. x.1) e in
      ((same a.0 ∙ (ap (λ k. get k l₂) key ∙ absent), others), λ k. ground (arith, same k))
  get-perm (Permᴰ.swap {a} {b} {a'} {b'} {l} e f) (absent, (absent', unique)) =
      let key : a.0 ≡ b'.0 = ap (λ x. x.0) e in
      let key' : b.0 ≡ a'.0 = ap (λ x. x.0) f in
      let value : a.1 ≡ b'.1 = ap (λ x. x.1) e in
      let value' : b.1 ≡ a'.1 = ap (λ x. x.1) f in
      let apart : (b'.0 == a'.0) ≡ false = ground arith in
      (
        (
          ground (arith, text_eq_iff b'.0 a'.0, text_eq_iff b.0 a.0),
          (ground (arith, text_eq_iff b'.0 a'.0), unique),
        ),
        λ k. ground (arith, text_eq_iff a.0 k, text_eq_iff b.0 k, text_eq_iff b'.0 a'.0),
      )
  get-perm (Permᴰ.trans d e) unique =
      let (middle, after) = get-perm e unique in
      let (own, before) = get-perm d middle in (own, λ k. before k ∙ after k)
