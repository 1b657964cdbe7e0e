-- ===== src/Trust/Nss.antt =====
-- core/src/certs/trust/nss.rs: the databases of Firefox and Chrome profiles.
pub mod Contract
use sidedns.Prelude.{
  Bool, true, false, not, ◌&&◌, ◌||◌, Option, none, some, List, [], ◌∷◌, ◌++◌, any, retain, map,
  if◌then◌else◌,
}
use sidedns.Text.{Text, text}
use sidedns.Files.{join}
use sidedns.Trust.{TrustStore, which}

-- The machine as the store sees it: PATH and the files, the user's home, the directories that a
-- pattern of the glob crate matches, and the program certutil on the databases. An operation of
-- certutil returns nothing if it cannot be run, and otherwise whether it succeeded.
pub record Browsers (Databases : Type 0) : Type 0 where
  pub path : List Text
  pub is_file : Text → Bool
  pub exists : Text → Bool
  pub is_dir : Text → Bool
  pub home : Text
  pub glob : Text → List Text
  pub validate : Text → Databases → Option Bool
  pub add : Text → Text → Databases → Option (Bool × Databases)
  pub delete : Text → Databases → Option (Bool × Databases)

module _ {Databases : Type 0} (b : Browsers Databases) where
  unfoldable pub certutil_path : Option Text
  unfolding which
  certutil_path = which b.is_file b.path (text "certutil")

  unfoldable pub has_nss_db : Text → Bool
  has_nss_db dir = b.exists (join dir (text "cert9.db")) || b.exists (join dir (text "cert8.db"))

  -- On Linux.
  unfoldable pub nss_profile_patterns : List Text
  nss_profile_patterns =
      (b.home ++ text "/.mozilla/firefox/*.default*")
      ∷ (b.home ++ text "/.mozilla/firefox/*.dev-edition-default*")
      ∷ (b.home ++ text "/snap/firefox/common/.mozilla/firefox/*.default*")
      ∷ text "/var/snap/firefox/common/.mozilla/firefox/*.default*"
      ∷ []

  unfoldable pub nss_extra_dirs : List Text
  nss_extra_dirs = map (join b.home) (
      text ".pki/nssdb"
      ∷ text "snap/chromium/current/.pki/nssdb"
      ∷ text ".config/google-chrome/NSSCertificateDatabase"
      ∷ text ".config/chromium/NSSCertificateDatabase"
      ∷ text "*/.zen"
      ∷ text "*/.waterfox"
      ∷ text "*/.librewolf"
      ∷ text "*/.var/app"
      ∷ text "*/snap"
      ∷ [])

  unfoldable pub profiles_of : List Text → List Text
  unfolding has_nss_db retain
  profiles_of [] = []
  profiles_of (pattern ∷ patterns) =
      retain (λ entry. b.is_dir entry && has_nss_db entry) (b.glob pattern) ++ profiles_of patterns

  unfoldable pub nss_profiles : List Text
  unfolding profiles_of nss_profile_patterns nss_extra_dirs
  nss_profiles = profiles_of (nss_profile_patterns ++ nss_extra_dirs)

  -- Whether a profile's database has the certificate; a program that cannot be run counts as no.
  unfoldable pub holds : Databases → Text → Bool
  holds x profile = elim (b.validate profile x) [ none ↦ false | some success ↦ success ]

  unfoldable pub is_installed : Text → Databases → Bool
  unfolding certutil_path nss_profiles holds any
  is_installed cert_path x = elim certutil_path [
    | none ↦ false
    | some _ ↦ any (holds x) nss_profiles
  ]

  -- The loop of `install`: `any_ok` so far; `none` is the error of a program that cannot be run.
  unfoldable pub add_all : Text → List Text → Bool → Databases → Option Bool × Databases
  add_all cert_path [] any_ok x = (some any_ok, x)
  add_all cert_path (profile ∷ profiles) any_ok x = elim (b.add profile cert_path x) [
    | none ↦ (none, x)
    | some (success, x') ↦ add_all cert_path profiles (success || any_ok) x'
  ]

  unfoldable pub install : Text → Databases → Bool × Databases
  unfolding certutil_path nss_profiles add_all
  install cert_path x = elim certutil_path [
    | none ↦ (false, x)
    | some _ ↦ elim nss_profiles [
      | [] ↦ (true, x)
      | profile ∷ profiles ↦
          let (any_ok, x') = add_all cert_path (profile ∷ profiles) false x in
          (elim any_ok [ none ↦ false | some b ↦ b ], x')
    ]
  ]

  -- The loop of `uninstall`.
  unfoldable pub delete_all : List Text → Databases → Bool × Databases
  delete_all [] x = (true, x)
  delete_all (profile ∷ profiles) x = elim (b.validate profile x) [
    | none ↦ (false, x)
    | some false ↦ delete_all profiles x
    | some true ↦ elim (b.delete profile x) [
      | none ↦ (false, x)
      | some (success, x') ↦ delete_all profiles x'
    ]
  ]

  unfoldable pub uninstall : Text → Databases → Bool × Databases
  unfolding certutil_path nss_profiles delete_all
  uninstall cert_path x = elim certutil_path [
    | none ↦ (true, x)
    | some _ ↦ delete_all nss_profiles x
  ]

  abbrev pub nss_store : TrustStore Databases
  nss_store = record {
    name = text "nss";
    is_available = λ x. elim certutil_path [ none ↦ false | some _ ↦ true ];
    is_installed = is_installed;
    install = install;
    uninstall = uninstall;
  }
