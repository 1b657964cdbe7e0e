-- ===== src/Trust/Linux/Contract.antt =====
-- What installing the certificate and uninstalling it again leave on the disk.
use sidedns.Prelude.{
  Bool, ◌≡◌, true, false, ◌||◌, none, arith, ◌==◌, text_eq, text_eq_iff, list_beq, if◌then◌else◌,
  Bool-cases, Option-cases, inl, inr,
}
use sidedns.Text.{Text}
use sidedns.HashMap
use sidedns.Files.{Disk, exists, write, remove_file}
use sidedns.Files.Laws.{get-write, get-remove_file}
use sidedns.Trust.Linux.{
  Distribution, debian, fedora, arch, Commands, destination, copy, install_for, install,
  uninstall_for, uninstall,
}

-- The system's commands keep to files of their own, such as the bundles of Debian and Fedora and
-- what p11-kit stores, which are none of the three copies of the certificate.
pub record KeepTo (c : Commands) (own : Text → Bool) : Type 0 where
  pub destinations : (d : Distribution) → own (destination d) ≡ false
  pub get-update :
      (d : Distribution) (cert_path : Text) (disk : Disk) (path : Text)
      → own path ≡ false
      → HashMap.get path (c.update d cert_path disk).1 ≡ HashMap.get path disk
  pub get-remove :
      (d : Distribution) (disk : Disk) (path : Text)
      → own path ≡ false
      → HashMap.get path (c.remove d disk).1 ≡ HashMap.get path disk

module _ (c : Commands) (own : Text → Bool) (keep : KeepTo c own) where
  get-install_for :
      (d : Distribution) (cert_path : Text) (disk : Disk) (other : Text)
      → (install_for c d cert_path disk).0 ≡ true
      → own other ≡ false
      → (destination d == other) ≡ false
      → HashMap.get other (install_for c d cert_path disk).1 ≡ HashMap.get other disk
  unfolding install_for copy
  get-install_for d cert_path disk other done apart different =
      elim (Option-cases (HashMap.get cert_path disk)) [
        | inl missing ↦ ground arith
        | inr (content, found) ↦ ground (
          arith,
          get-write c.rights disk (destination d) content other,
          keep.get-update d cert_path (write c.rights (destination d) content disk).1 other apart,
        )
      ]

  exists-install_for :
      (d : Distribution) (cert_path : Text) (disk : Disk) (other : Text)
      → (install_for c d cert_path disk).0 ≡ true
      → own other ≡ false
      → exists other (install_for c d cert_path disk).1
        ≡ ((destination d == other) || exists other disk)
  unfolding install_for copy write exists
  exists-install_for d cert_path disk other done apart =
      elim (Option-cases (HashMap.get cert_path disk)) [
        | inl missing ↦ ground arith
        | inr (content, found) ↦ ground (
          arith,
          get-write c.rights disk (destination d) content other,
          keep.get-update d cert_path (write c.rights (destination d) content disk).1 other apart,
        )
      ]

  get-uninstall_for :
      (d : Distribution) (disk : Disk) (other : Text)
      → (uninstall_for c d disk).0 ≡ true
      → own other ≡ false
      → HashMap.get other (uninstall_for c d disk).1
        ≡ (if destination d == other then none else HashMap.get other disk)
  unfolding uninstall_for
  get-uninstall_for d disk other done apart = ground (
    arith,
    get-remove_file c.rights disk (destination d) other,
    keep.get-remove d (remove_file c.rights (destination d) disk).1 other apart,
  )

  missing : (path : Text) (disk : Disk) → exists path disk ≡ false → HashMap.get path disk ≡ none
  unfolding exists
  missing path disk absent = ground (arith, Option-cases (HashMap.get path disk))

  -- What one distribution's installing wrote, uninstalling removes.
  undone :
      (d : Distribution) (cert_path : Text) (disk : Disk) (path : Text)
      → own path ≡ false
      → exists (destination d) disk ≡ false
      → (install_for c d cert_path disk).0 ≡ true
      → (uninstall_for c d (install_for c d cert_path disk).1).0 ≡ true
      → HashMap.get path (uninstall_for c d (install_for c d cert_path disk).1).1
        ≡ HashMap.get path disk
  undone d cert_path disk path apart fresh done removed =
      elim (Bool-cases (destination d == path)) [
        | inl same ↦ ground (
          arith,
          text_eq_iff (destination d) path,
          missing (destination d) disk fresh,
          get-uninstall_for d (install_for c d cert_path disk).1 path removed apart,
        )
        | inr different ↦ ground (
          arith,
          get-uninstall_for d (install_for c d cert_path disk).1 path removed apart,
          get-install_for d cert_path disk path done apart different,
        )
      ]

  -- On Linux, if the system's commands keep to files of their own, which are none of the three
  -- copies of the certificate, then installing it where there was none of these copies and
  -- uninstalling it again, both with success, leaves every file but the commands' with the content
  -- that it had; what the commands leave in their own files is not said.
  pub uninstall-install :
      (cert_path : Text) (disk : Disk)
      → exists (destination debian) disk ≡ false
      → exists (destination fedora) disk ≡ false
      → exists (destination arch) disk ≡ false
      → (install c cert_path disk).0 ≡ true
      → (uninstall c cert_path (install c cert_path disk).1).0 ≡ true
      → (path : Text) → own path ≡ false
      → HashMap.get path (uninstall c cert_path (install c cert_path disk).1).1
        ≡ HashMap.get path disk
  unfolding install uninstall list_beq
  uninstall-install cert_path disk no_debian no_fedora no_arch done removed path apart =
      elim (Bool-cases (c.has debian)) [
        | inl on_debian ↦ ground (
          arith,
          exists-install_for debian cert_path disk (destination debian),
          keep.destinations debian,
          undone debian cert_path disk path apart no_debian,
        )
        | inr not_debian ↦ elim (Bool-cases (c.has fedora)) [
          | inl on_fedora ↦ ground (
            arith,
            exists-install_for fedora cert_path disk (destination debian),
            exists-install_for fedora cert_path disk (destination fedora),
            keep.destinations debian,
            keep.destinations fedora,
            undone fedora cert_path disk path apart no_fedora,
          )
          | inr not_fedora ↦ ground (
            arith,
            Bool-cases (c.has arch),
            exists-install_for arch cert_path disk (destination debian),
            exists-install_for arch cert_path disk (destination fedora),
            exists-install_for arch cert_path disk (destination arch),
            keep.destinations debian,
            keep.destinations fedora,
            keep.destinations arch,
            undone arch cert_path disk path apart no_arch,
          )
        ]
      ]
