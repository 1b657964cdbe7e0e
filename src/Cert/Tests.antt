-- ===== src/Cert/Tests.antt =====
-- The certificate commands on concrete machines.
use sidedns.Prelude.{true, false, [], ◌∷◌}
use sidedns.Text.{text}
use sidedns.Cert.{Machine, CertInstallArgs}

abbrev machine : Machine
machine = record {
  is_superuser = true;
  is_installed = true;
  generates = true;
  installed_then = true;
  uninstalls = true;
  stores = text "system" ∷ text "nss" ∷ [];
}

abbrev forced : CertInstallArgs
forced = record { force = true; trust = false }
