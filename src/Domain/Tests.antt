-- ===== src/Domain/Tests.antt =====
-- The cases of core/tests/domain_test.rs, and the theorems at concrete inputs.
use sidedns.Prelude.{◌≡◌, refl, Bool, true, false, ◌∷◌}
use sidedns.Text.{Text, text, to_lowercase}
use sidedns.Domain.{domain_regex, validate_domain}
use sidedns.Domain.Engine.{derivatives, is_match}

abbrev valid : Text → Bool
valid d = validate_domain derivatives d

accepted :
    (valid (text "localhost") ≡ true)
    × (valid (text "api.local") ≡ true)
    × (valid (text "my-api.local") ≡ true)
    × (valid (text "Api.Local") ≡ true)
    × (valid (text "*.api.local") ≡ true)
unfolding validate_domain domain_regex is_match
accepted = (refl, refl, refl, refl, refl)

refused :
    (valid (text "api") ≡ false)
    × (valid (text "*.local") ≡ false)
    × (valid (text "") ≡ false)
    × (valid (text ".api.local") ≡ false)
    × (valid (text "api.local.") ≡ false)
    × (valid (text "api..local") ≡ false)
    × (valid (text "-api.local") ≡ false)
    × (valid (text "api-.local") ≡ false)
    × (valid (text "api/local") ≡ false)
    × (valid (text "*.*.local") ≡ false)
    × (valid (text "my_api.local") ≡ false)
unfolding validate_domain domain_regex is_match
refused = (refl, refl, refl, refl, refl, refl, refl, refl, refl, refl, refl)

-- Case folding lets a letter in that is no ASCII letter, and lower-casing leaves it.
abbrev long_s : Text
long_s = 0x17F ∷ text ".example.com"

accepts_long_s : (valid long_s ≡ true) × (to_lowercase long_s ≡ long_s)
unfolding validate_domain domain_regex is_match to_lowercase
accepts_long_s = (refl, refl)
