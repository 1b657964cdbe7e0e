-- ===== src/Trust/Linux.antt =====
-- core/src/certs/trust/system.rs on Linux: the directories of three distributions.
pub mod Contract
use sidedns.Prelude.{Bool, true, false, ◌||◌, Option, none, some, if◌then◌else◌}
use sidedns.Text.{Text, text}
use sidedns.HashMap
use sidedns.Files.{Disk, Rights, exists, write, remove_file}
use sidedns.Trust.{TrustStore, Ran, succeeded, started}

pub data Distribution : Type 0 where
  debian fedora arch : Distribution

-- The machine: which of the three directories it has, what it allows, and how its commands end and
-- what they make of the files: `update` follows the copy of the certificate's file, `remove` the
-- removal. `verifies` is whether openssl verifies the certificate by the system's.
pub record Commands : Type 0 where
  pub has : Distribution → Bool
  pub rights : Rights
  pub verifies : Text → Disk → Bool
  pub update : Distribution → Text → Disk → Ran × Disk
  pub remove : Distribution → Disk → Ran × Disk

-- Where the certificate is copied to.
abbrev pub destination : Distribution → Text
destination debian = text "/usr/local/share/ca-certificates/sidedns.crt"
destination fedora = text "/etc/pki/ca-trust/source/anchors/sidedns.crt"
destination arch = text "/etc/ca-certificates/trust-source/anchors/sidedns.pem"

module _ (c : Commands) where
  -- `fs::copy`
  unfoldable pub copy : Text → Text → Disk → Bool × Disk
  unfolding HashMap.get write
  copy src dst disk = elim (HashMap.get src disk) [
    | none ↦ (false, disk)
    | some content ↦ write c.rights dst content disk
  ]

  unfoldable pub is_installed : Text → Disk → Bool
  unfolding exists
  is_installed cert_path disk =
      c.verifies cert_path disk
      || exists (text "/usr/local/share/ca-certificates/sidedns.crt") disk
      || exists (text "/etc/pki/ca-trust/source/anchors/sidedns.crt") disk
      || exists (text "/etc/ca-certificates/trust-source/sidedns.pem") disk

  unfoldable pub install_for : Distribution → Text → Disk → Bool × Disk
  unfolding copy succeeded
  install_for d cert_path disk =
      let (copied, disk') = copy cert_path (destination d) disk in
      let (ran, updated) = c.update d cert_path disk' in
      if copied then (succeeded ran, updated) else (false, disk')

  unfoldable pub install : Text → Disk → Bool × Disk
  unfolding install_for
  install cert_path disk =
      if c.has debian
      then install_for debian cert_path disk
      else if c.has fedora
      then install_for fedora cert_path disk
      else if c.has arch
      then install_for arch cert_path disk
      else (false, disk)

  -- The command's status is not looked at.
  unfoldable pub uninstall_for : Distribution → Disk → Bool × Disk
  unfolding remove_file started
  uninstall_for d disk =
      let (removed, disk') = remove_file c.rights (destination d) disk in
      let (ran, updated) = c.remove d disk' in
      if removed then (started ran, updated) else (false, disk')

  unfoldable pub uninstall : Text → Disk → Bool × Disk
  unfolding uninstall_for exists
  uninstall cert_path disk =
      if exists (destination debian) disk
      then uninstall_for debian disk
      else if exists (destination fedora) disk
      then uninstall_for fedora disk
      else if exists (destination arch) disk
      then uninstall_for arch disk
      else (true, disk)

  abbrev pub system_store : TrustStore Disk
  system_store = record {
    name = text "system";
    is_available = λ _. true;
    is_installed = is_installed;
    install = install;
    uninstall = uninstall;
  }
