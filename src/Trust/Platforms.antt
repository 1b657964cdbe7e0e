-- ===== src/Trust/Platforms.antt =====
-- core/src/certs/trust/system.rs on macOS, on Windows and elsewhere: one program for each operation.
pub mod Tests
use sidedns.Prelude.{
  ℕ, ◌+◌, ◌/◌, ◌%◌, ltb, ◌≡◌, refl, Bool, true, false, Option, none, some, List, [], ◌∷◌, ◌++◌,
  list_beq, ◌==◌, text_eq, if◌then◌else◌,
}
use sidedns.Text.{Text, text, contains, strip_prefix}
use sidedns.Trust.{Ran, ended, succeeded}

-- `{:02X}` of a byte
abbrev digit : ℕ → ℕ
digit n = if ltb n 10 then b'0' + n else 55 + n

unfoldable pub hex : List ℕ → Text
hex [] = []
hex (b ∷ bytes) = digit (b / 16) ∷ digit (b % 16) ∷ hex bytes

-- The certificate's DER by the path of its file, the sha1 crate, and the system's program: what it
-- prints of the certificates, if it can be run, and adding and removing one.
pub record Programs (Certificates : Type 0) : Type 0 where
  pub from_pem_file : Text → Option (List ℕ)
  pub sha1 : List ℕ → List ℕ
  pub print : Certificates → Option Text
  pub add : Text → Certificates → Ran × Certificates
  pub remove : Text → Certificates → Ran × Certificates

module _ {Certificates : Type 0} (p : Programs Certificates) where
  unfoldable pub sha1_fingerprint : Text → Option Text
  unfolding hex
  sha1_fingerprint cert_path = elim (p.from_pem_file cert_path) [
    | none ↦ none
    | some data_of_cert ↦ some (hex (p.sha1 data_of_cert))
  ]

  unfoldable pub is_installed_macos : Text → Certificates → Bool
  unfolding sha1_fingerprint contains
  is_installed_macos cert_path x = elim (sha1_fingerprint cert_path) [
    | none ↦ false
    | some fingerprint ↦ elim (p.print x) [
      | none ↦ false
      | some stdout ↦ contains fingerprint stdout
    ]
  ]

  -- Of macOS and of Windows.
  unfoldable pub install : Text → Certificates → Bool × Certificates
  unfolding succeeded
  install cert_path x = let (ran, x') = p.add cert_path x in (succeeded ran, x')

  unfoldable pub uninstall_macos : Text → Certificates → Bool × Certificates
  unfolding succeeded
  uninstall_macos cert_path x = let (ran, x') = p.remove cert_path x in (succeeded ran, x')

  unfoldable pub is_installed_windows : Text → Certificates → Bool
  unfolding contains
  is_installed_windows cert_path x = elim (p.print x) [
    | none ↦ false
    | some stdout ↦ contains (text "SideDNS") stdout
  ]

  unfoldable pub uninstall_windows : Text → Certificates → Bool × Certificates
  unfolding sha1_fingerprint succeeded
  uninstall_windows cert_path x = elim (sha1_fingerprint cert_path) [
    | none ↦ (false, x)
    | some fingerprint ↦ let (ran, x') = p.remove fingerprint x in (succeeded ran, x')
  ]
