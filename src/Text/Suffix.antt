-- ===== src/Text/Suffix.antt =====
-- What the suffix tests of the program decide: being a name below a domain.
use mathlib.Core.List.{append_assoc, append-nil}
use Prim.Native.Nat.add
use sidedns.Prelude.{
  ℕ, suc, ◌+◌, ◌-◌, ◌<◌, ◌≡◌, refl, sym, ap, ◌∙◌, ◌↔◌, inl, inr, true, ◌&&◌, some, List, [], ◌∷◌,
  ◌++◌, arith, ltb, text_eq, text_eq_iff, Bool-cases, list_beq, length, length-append, get_elem?,
}
use sidedns.Text.{Text, utf8, as_bytes, len, ends_with, byte_is}

-- A suffix test passes exactly for the texts that end so.
ends_with_sound : (suffix s : Text) → ends_with suffix s ≡ true → (p : Text) × (s ≡ p ++ suffix)
unfolding ends_with
ends_with_sound suffix [] h = ([], sym ((text_eq_iff suffix []).0 h))
ends_with_sound suffix (c ∷ s) h = elim (Bool-cases (list_beq suffix (c ∷ s))) [
  | inl same ↦ ([], sym ((text_eq_iff suffix (c ∷ s)).0 same))
  | inr other ↦ let (p, e) = ends_with_sound suffix s (ground arith) in (c ∷ p, ap (λ t. c ∷ t) e)
]

ends_with_self : (s : Text) → ends_with s s ≡ true
unfolding ends_with
ends_with_self [] = (text_eq_iff [] []).1 refl
ends_with_self (c ∷ s) = rw ((text_eq_iff (c ∷ s) (c ∷ s)).1 refl)

ends_with-append : (suffix p : Text) → ends_with suffix (p ++ suffix) ≡ true
unfolding ends_with
ends_with-append suffix [] = ends_with_self suffix
ends_with-append suffix (c ∷ p) = ground (arith, ends_with-append suffix p)

ends_with_iff : (suffix s : Text) → (ends_with suffix s ≡ true) ↔ ((p : Text) × (s ≡ p ++ suffix))
ends_with_iff suffix s = (ends_with_sound suffix s, λ (p, e). rw e (ends_with-append suffix p))

as_bytes-append : (s t : Text) → as_bytes (s ++ t) ≡ as_bytes s ++ as_bytes t
unfolding as_bytes
as_bytes-append [] t = refl
as_bytes-append (c ∷ s) t = rw (as_bytes-append s t, append_assoc)

len-append : (s t : Text) → len (s ++ t) ≡ len s + len t
len-append s t = rw as_bytes-append (length-append (as_bytes s) (as_bytes t))

utf8_nonempty : (c : ℕ) → 0 < length (utf8 c)
unfolding utf8
utf8_nonempty c = ground arith

len_pos : (c : ℕ) (s : Text) → 0 < len (c ∷ s)
unfolding as_bytes
len_pos c s = omega (arith, length-append (utf8 c) (as_bytes s), utf8_nonempty c)

get_elem?-append {ℓ} :
    {A : Type ℓ} (xs ys : List A) (i : ℕ) → get_elem? (xs ++ ys) (length xs + i) ≡ get_elem? ys i
get_elem?-append [] ys i = rw add.zero
get_elem?-append (x ∷ xs) ys i = rw add.suc (get_elem?-append xs ys i)

-- Only an ASCII `char` ends in the byte of a dot.
last_byte_one :
    (c : ℕ) (r : List ℕ) → get_elem? (utf8 c ++ r) (length (utf8 c) - 1) ≡ some b'.' → c ≡ b'.'
unfolding utf8
last_byte_one c r h = ground arith

last_byte_step :
    (c : ℕ) (t : Text) (r : List ℕ)
    → 0 < len t
    → get_elem? (as_bytes (c ∷ t) ++ r) (len (c ∷ t) - 1) ≡ get_elem? (as_bytes t ++ r) (len t - 1)
unfolding as_bytes
last_byte_step c t r pos =
    let shift : len (c ∷ t) - 1 ≡ length (utf8 c) + (len t - 1) =
      omega (arith, length-append (utf8 c) (as_bytes t)) in
    rw (shift, append_assoc) (get_elem?-append (utf8 c) (as_bytes t ++ r) (len t - 1))

last_byte :
    (p : Text) (r : List ℕ)
    → 0 < len p
    → get_elem? (as_bytes p ++ r) (len p - 1) ≡ some b'.'
    → (q : Text) × (p ≡ q ++ b'.' ∷ [])
unfolding as_bytes
last_byte [] r pos h = elim pos [ ]
last_byte (c ∷ []) r pos h = ([], ap (λ a. a ∷ []) (last_byte_one c r (rw append-nil at h)))
last_byte (c ∷ d ∷ p) r pos h =
    let (q, e) =
      last_byte (d ∷ p) r (len_pos d p) (rw (← last_byte_step c (d ∷ p) r (len_pos d p)) h) in
    (c ∷ q, ap (λ t. c ∷ t) e)

-- `s` is a name below `suffix`: labels, a dot, and the suffix.
abbrev pub Subdomain : Text → Text → Type 0
Subdomain suffix s = (q : Text) × (s ≡ q ++ b'.' ∷ suffix)

module _ (suffix p : Text) where
  before_suffix : len (p ++ suffix) - len suffix - 1 ≡ len p - 1
  before_suffix = omega (arith, len-append p suffix)

  dot_before_sound :
      ltb (len suffix) (len (p ++ suffix)) ≡ true
      → byte_is (p ++ suffix) (len (p ++ suffix) - len suffix - 1) b'.' ≡ true
      → Subdomain suffix (p ++ suffix)
  unfolding byte_is
  dot_before_sound longer dot =
      let pos : 0 < len p = ground (arith, len-append p suffix) in
      let (q, e) =
        last_byte p (as_bytes suffix) pos
          (rw (← as_bytes-append p suffix) (ground (arith, before_suffix))) in
      (q, ap (λ t. t ++ suffix) e ∙ append_assoc q (b'.' ∷ []) suffix)

dot_before_complete :
    (suffix q : Text)
    → (ltb (len suffix) (len (q ++ b'.' ∷ suffix)) ≡ true)
      × (byte_is (q ++ b'.' ∷ suffix) (len (q ++ b'.' ∷ suffix) - len suffix - 1) b'.' ≡ true)
unfolding byte_is as_bytes
dot_before_complete suffix q =
    let total : len (q ++ b'.' ∷ suffix) ≡ len q + suc (len suffix) =
      len-append q (b'.' ∷ suffix) in
    let index : len (q ++ b'.' ∷ suffix) - len suffix - 1 ≡ len q + 0 = omega (arith, total) in
    let found : get_elem? (as_bytes q ++ b'.' ∷ as_bytes suffix) (len q + 0) ≡ some b'.' =
      get_elem?-append (as_bytes q) (b'.' ∷ as_bytes suffix) 0 in
    (ground (arith, total), rw (index, byte_is, as_bytes-append q (b'.' ∷ suffix), found))

-- The byte-level test that the program writes out twice decides being below a domain.
pub Subdomain-iff :
    (suffix s : Text)
    → ((ends_with suffix s && ltb (len suffix) (len s) && byte_is s (len s - len suffix - 1) b'.')
        ≡ true)
      ↔ Subdomain suffix s
Subdomain-iff suffix s = (to, from)
  where
    cut :
        (p : Text)
        → s ≡ p ++ suffix
        → ltb (len suffix) (len s) ≡ true
        → byte_is s (len s - len suffix - 1) b'.' ≡ true
        → Subdomain suffix s
    cut p e longer dot = rw e (dot_before_sound suffix p (rw e at longer) (rw e at dot))

    to :
        (ends_with suffix s && ltb (len suffix) (len s) && byte_is s (len s - len suffix - 1) b'.')
          ≡ true
        → Subdomain suffix s
    to h =
        let (p, e) = ends_with_sound suffix s (ground arith) in
        cut p e (ground arith) (ground arith)

    from :
        Subdomain suffix s
        → (ends_with suffix s
            && ltb (len suffix) (len s)
            && byte_is s (len s - len suffix - 1) b'.')
          ≡ true
    from (q, e) =
        let (longer, dot) = dot_before_complete suffix q in
        let ends : ends_with suffix (q ++ b'.' ∷ suffix) ≡ true =
          rw append_assoc at (ends_with-append suffix (q ++ b'.' ∷ [])) in
        rw e (ground (arith, longer, dot, ends))
