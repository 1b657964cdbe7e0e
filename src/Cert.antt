-- ===== src/Cert.antt =====
-- cli/src/commands/cert.rs: the commands on the certificate authority.
-- The machine is a parameter: the user's rights, the authority and the trust stores.
pub mod Guards
pub mod Tests
use sidedns.Prelude.{
  Bool, true, false, not, ◌&&◌, ◌||◌, List, [], ◌∷◌, ◌++◌, map, ◌==◌, text_eq, retain,
  if◌then◌else◌,
}
use sidedns.Text.{Text, text}

-- What the commands find. `installed_then` is what `Ca::is_installed()` says once the authority
-- was loaded or generated; the other two whether that, and uninstalling it, succeed.
pub record Machine : Type 0 where
  pub is_superuser : Bool
  pub is_installed : Bool
  pub generates : Bool
  pub installed_then : Bool
  pub uninstalls : Bool
  pub stores : List Text

-- What they do, in order; a trust store that fails is reported and not waited for.
pub data Call : Type 0 where
  load_or_generate uninstall_ca : Call
  store_install store_uninstall : Text → Call

pub record CertInstallArgs : Type 0 where
  pub force : Bool
  pub trust : Bool

pub record CertTrustArgs : Type 0 where
  pub all : Bool
  pub system : Bool
  pub java : Bool
  pub nss : Bool

-- `CERT_TRUST_DEFAULT_ARGS` of cli.rs
abbrev pub default_args : CertTrustArgs
default_args = record { all = true; system = false; java = false; nss = false }

unfoldable pub selects : CertTrustArgs → Text → Bool
selects args name =
    args.all
    || (args.system && name == text "system")
    || (args.java && name == text "java")
    || (args.nss && name == text "nss")

-- Each command returns whether it ends without an error, and its calls.
unfoldable pub trust : CertTrustArgs → Machine → Bool × List Call
unfolding retain selects
trust args m =
    if not m.is_installed
    then (true, [])
    else if not m.is_superuser
    then (false, [])
    else (true, map store_install (retain (selects args) m.stores))

unfoldable pub untrust : CertTrustArgs → Machine → Bool × List Call
unfolding retain selects
untrust args m =
    if not m.is_installed
    then (true, [])
    else if not m.is_superuser
    then (false, [])
    else (true, map store_uninstall (retain (selects args) m.stores))

unfoldable pub install : CertInstallArgs → Machine → Bool × List Call
unfolding trust
install args m =
    if not (m.is_superuser && args.trust)
    then (false, [])
    else if m.is_installed && not args.force
    then (true, [])
    else if not m.generates
    then (false, load_or_generate ∷ [])
    else if not args.trust
    then (true, load_or_generate ∷ [])
    else (let (trusted, calls) =
          trust default_args (record m { is_installed = m.installed_then }) in
        (trusted, load_or_generate ∷ calls))

unfoldable pub uninstall : Machine → Bool × List Call
unfolding untrust
uninstall m =
    if not m.is_installed
    then (true, [])
    else if not m.is_superuser
    then (false, [])
    else (let (untrusted, calls) = untrust default_args m in
        if untrusted then (m.uninstalls, calls ++ uninstall_ca ∷ []) else (false, calls))
