-- ===== src/Trust/Tests.antt =====
-- A machine with Arch's directory alone, and a browser whose databases are the profiles that
-- have the certificate.
use sidedns.Prelude.{
  ◌≡◌, ◌∙◌, refl, Bool, true, false, not, ◌||◌, some, List, [], ◌∷◌, list_beq, any, retain, ◌==◌,
  text_eq, text_eq_refl, arith, if◌then◌else◌,
}
use sidedns.Text.{Text, text}
use sidedns.HashMap
use sidedns.Files.{Disk, exists, write, remove_file}
use sidedns.Trust.{not_started, ended, succeeded, started, which}
use sidedns.Trust.Linux
use sidedns.Trust.Linux.{Distribution, debian, fedora, arch, Commands, destination, copy}
use sidedns.Trust.Linux.Contract.{KeepTo, uninstall-install}
use sidedns.HashMap.Laws.{get-insert}
use sidedns.Trust.Nss
use sidedns.Trust.Nss.{Browsers, nss_profiles}
use sidedns.Trust.Java
use sidedns.Trust.Java.{Jdk, keytool_path, cacerts_path}

-- Where `trust anchor --store` puts the certificate.
abbrev stored : Text
stored = text "/etc/ca-certificates/trust-source/SideDNS.p11-kit"

abbrev machine : Commands
machine = record {
  has = λ d. elim d [ debian ↦ false | fedora ↦ false | arch ↦ true ];
  rights = record { may_create = λ _. true; may_write = λ _. true; may_remove = λ _. true };
  verifies = λ _ _. false;
  update = λ _ cert_path disk. (ended true, HashMap.insert stored cert_path disk);
  remove = λ _ disk. (not_started, disk);
}

-- The command that removes is started and finds nothing to remove: its own file stays.
abbrev removing : Commands
removing = record machine { remove = λ _ disk. (ended false, disk) }

abbrev cert : Text
cert = text "/d/SideDNS-CA.crt"

abbrev before : Disk
before = (cert, 7 ∷ []) ∷ []

code : Unit {0}
unfolding Linux.install Linux.install_for Linux.uninstall Linux.uninstall_for Linux.is_installed
    copy write remove_file exists succeeded started HashMap.get HashMap.insert HashMap.without
    list_beq
code = tt

removing-KeepTo : KeepTo removing (λ path. stored == path)
unfolding list_beq
removing-KeepTo = record {
  destinations = λ d. elim d as (λ k. (stored == destination k) ≡ false) [
    | debian ↦ refl
    | fedora ↦ refl
    | arch ↦ refl
  ];
  get-update = λ d cert_path disk path apart. get-insert stored path cert_path disk ∙ rw apart refl;
  get-remove = λ d disk path apart. refl;
}

uninstall-install_example :
    HashMap.get
      (destination arch)
      (Linux.uninstall removing cert (Linux.install removing cert before).1).1
    ≡ HashMap.get (destination arch) before
unfolding code
uninstall-install_example =
    uninstall-install removing (λ path. stored == path) removing-KeepTo cert before refl refl refl
      refl refl (destination arch) refl

-- What the command stored is still there.
stored_stays :
    HashMap.get stored (Linux.uninstall removing cert (Linux.install removing cert before).1).1
    ≡ some cert
unfolding code
stored_stays = refl

-- The command of the system cannot be started: the file is gone, and the answer is an error.
removed_with_error :
    Linux.uninstall machine cert (Linux.install machine cert before).1
    ≡ (false, (cert, 7 ∷ []) ∷ (stored, cert) ∷ [])
unfolding code
removed_with_error = refl

abbrev browsers : Browsers (List Text)
browsers = record {
  path = text "/bin" ∷ [];
  is_file = λ path. path == text "/bin/certutil";
  exists = λ path. path == text "/p/cert9.db";
  is_dir = λ _. true;
  home = text "/h";
  glob = λ pattern.
      if pattern == text "/h/.mozilla/firefox/*.default*" then text "/p" ∷ text "/q" ∷ [] else [];
  validate = λ profile x. some (any (λ p. p == profile) x);
  add = λ profile cert_path x. some (true, profile ∷ x);
  delete = λ profile x. some (true, retain (λ p. not (p == profile)) x);
}

profile_found : nss_profiles browsers ≡ text "/p" ∷ []
unfolding Nss.nss_profiles Nss.profiles_of Nss.nss_profile_patterns Nss.nss_extra_dirs
    Nss.has_nss_db retain list_beq
profile_found = refl

added :
    (profile : Text) (x x' : List Text)
    → browsers.add profile cert x ≡ some (true, x')
    → browsers.validate profile x' ≡ some true
unfolding any
added profile x x' ran = ground (arith, text_eq_refl profile)

-- A JDK beside PATH, with its certificates where older versions have them.
abbrev jdk : Jdk Bool
jdk = record {
  java_home = some (text "/jdk");
  path = text "/bin" ∷ [];
  exists = λ path. path == text "/bin/keytool" || path == text "/jdk/jre/lib/security/cacerts";
  list = λ k. some k;
  importcert = λ cert_path k. some (not k, true);
  delete = λ k. some (k, false);
}

keytool_in_path : keytool_path jdk ≡ some (text "/bin/keytool")
unfolding keytool_path which list_beq
keytool_in_path = refl

older_cacerts : cacerts_path jdk ≡ some (text "/jdk/jre/lib/security/cacerts")
unfolding cacerts_path list_beq
older_cacerts = refl

-- A second import fails, and a second removal does not.
imports_once :
    (Java.install jdk cert false ≡ (true, true))
    × (Java.install jdk cert true ≡ (false, true))
    × (Java.uninstall jdk cert true ≡ (true, false))
    × (Java.uninstall jdk cert false ≡ (true, false))
unfolding Java.install Java.uninstall Java.is_available Java.is_installed keytool_in_path
    older_cacerts
imports_once = (refl, refl, refl, refl)
