-- ===== src/Cert/Guards.antt =====
-- What the guards of the certificate commands let through.
use sidedns.Prelude.{◌≡◌, refl, ap, true, false, List, [], ◌∷◌, ◌++◌, map, retain, arith}
use sidedns.Text.{Text}
use sidedns.Cert.{
  Machine, uninstall_ca, store_uninstall, CertInstallArgs, CertTrustArgs, default_args, selects,
  trust, untrust, install, uninstall,
}

-- Without the rights of the superuser no command changes anything.
unprivileged :
    (m : Machine) (a : CertInstallArgs) (t : CertTrustArgs)
    → m.is_superuser ≡ false
    → ((install a m).1 ≡ [])
      × ((uninstall m).1 ≡ [])
      × ((trust t m).1 ≡ [])
      × ((untrust t m).1 ≡ [])
unfolding install uninstall trust untrust
unprivileged m a t plain = (ground arith, ground arith, ground arith, ground arith)

retain-all : (names : List Text) → retain (selects default_args) names ≡ names
unfolding retain selects
retain-all [] = refl
retain-all (n ∷ names) = ap (λ ns. n ∷ ns) (retain-all names)

-- The superuser's uninstalling of an installed authority takes it out of every trust store that
-- is available, and only then deletes it.
uninstall_everywhere :
    (m : Machine)
    → m.is_superuser ≡ true
    → m.is_installed ≡ true
    → uninstall m ≡ (m.uninstalls, map store_uninstall m.stores ++ uninstall_ca ∷ [])
unfolding uninstall untrust
uninstall_everywhere m root present =
    rw (root, present, retain-all m.stores, uninstall, untrust) refl

-- Installing the authority without `--trust` fails and does nothing, whoever asks and whatever
-- is installed.
install_untrusted :
    (m : Machine) (a : CertInstallArgs) → a.trust ≡ false → install a m ≡ (false, [])
unfolding install
install_untrusted m a without = ground arith
