-- ===== src/Rule/Matching.antt =====
-- Which names a rule matches, described without the byte tests of the code.
use sidedns.Prelude.{
  ◌≡◌, ◌≢◌, refl, ◌↔◌, inl, inr, true, false, some, [], ◌∷◌, ◌++◌, arith, ◌==◌, text_eq,
  text_eq_iff, Option-cases,
}
use sidedns.Text.{Text, strip_prefix}
use sidedns.Text.Suffix.{Subdomain, Subdomain-iff}
use sidedns.Rule.{DnsRule, star_dot, is_wildcard, matches}

-- A name matches a pattern: the pattern itself, unless it begins with "*.", and then every name
-- that ends in a dot and what follows the star and its dot.
pub data Covers (pattern name : Text) : Type 0 where
  exact : ((suffix : Text) → pattern ≢ star_dot ++ suffix) → pattern ≡ name → Covers pattern name
  below :
      (suffix : Text) → pattern ≡ star_dot ++ suffix → Subdomain suffix name → Covers pattern name

strip_prefix_sound : (p s t : Text) → strip_prefix p s ≡ some t → s ≡ p ++ t
unfolding strip_prefix
strip_prefix_sound [] s t h = ground arith
strip_prefix_sound (c ∷ p) [] t h = cc
strip_prefix_sound (c ∷ p) (d ∷ s) t h = ground (arith, strip_prefix_sound p s t)

strip_prefix-append : (p t : Text) → strip_prefix p (p ++ t) ≡ some t
unfolding strip_prefix
strip_prefix-append [] t = refl
strip_prefix-append (c ∷ p) t = ground (arith, strip_prefix-append p t)

is_wildcard-append :
    (r : DnsRule) (suffix : Text) → r.domain ≡ star_dot ++ suffix → is_wildcard r ≡ true
unfolding is_wildcard
is_wildcard-append r suffix e = ground (arith, strip_prefix-append star_dot suffix)

-- A rule that is no wildcard matches its own domain alone.
pub matches_of_exact :
    (r : DnsRule) (d : Text) → is_wildcard r ≡ false → matches r d ≡ (r.domain == d)
unfolding is_wildcard matches
matches_of_exact r d h = ground arith

matches_sound : (r : DnsRule) (d : Text) → matches r d ≡ true → Covers r.domain d
unfolding matches
matches_sound r d h = elim (Option-cases (strip_prefix star_dot r.domain)) [
  | inl plain ↦
      exact (λ suffix e. ground (arith, strip_prefix-append star_dot suffix))
        ((text_eq_iff r.domain d).0 (ground arith))
  | inr (suffix, found) ↦
      below suffix (strip_prefix_sound star_dot r.domain suffix found)
        ((Subdomain-iff suffix d).0 (ground arith))
]

matches_complete : (r : DnsRule) (d : Text) → Covers r.domain d → matches r d ≡ true
unfolding matches
matches_complete r d (exact plain same) = elim (Option-cases (strip_prefix star_dot r.domain)) [
  | inl none_found ↦ ground (arith, text_eq_iff r.domain d)
  | inr (suffix, found) ↦ absurd (plain suffix (strip_prefix_sound star_dot r.domain suffix found))
]
matches_complete r d (below suffix e sub) =
    ground (arith, strip_prefix-append star_dot suffix, (Subdomain-iff suffix d).1 sub)

-- A rule matches a name exactly when its pattern covers it: the byte arithmetic of the code is
-- right for every text, ASCII or not.
pub matches_iff : (r : DnsRule) (d : Text) → (matches r d ≡ true) ↔ Covers r.domain d
matches_iff r d = (matches_sound r d, matches_complete r d)
