-- ===== src/Trust/Platforms/Tests.antt =====
-- The programs of macOS and Windows on a toy key chain.
use sidedns.Prelude.{
  ◌≡◌, refl, true, false, none, some, [], ◌∷◌, ◌++◌, list_beq, ◌==◌, text_eq, if◌then◌else◌,
}
use sidedns.Text.{Text, text, contains, strip_prefix}
use sidedns.Trust.{ended}
use sidedns.Trust.Platforms.{
  Programs, install, is_installed_macos, is_installed_windows, uninstall_windows,
}

-- A key chain that lists fingerprints, and a hash of two bytes.
abbrev toy : Programs Text
toy = record {
  from_pem_file = λ path. if path == text "/ca" then some (0xAB ∷ 0x0F ∷ []) else none;
  sha1 = λ bytes. bytes;
  print = λ x. some x;
  add = λ path x. (ended true, x ++ text "AB0F SideDNS");
  remove = λ fingerprint x. (ended (contains fingerprint x), []);
}

installs :
    (install toy (text "/ca") (text "00FF ") ≡ (true, text "00FF AB0F SideDNS"))
    × (is_installed_macos toy (text "/ca") (text "00FF AB0F SideDNS") ≡ true)
    × (is_installed_macos toy (text "/other") (text "00FF AB0F SideDNS") ≡ false)
    × (is_installed_windows toy (text "/other") (text "00FF AB0F SideDNS") ≡ true)
    × (uninstall_windows toy (text "/ca") (text "00FF AB0F SideDNS") ≡ (true, []))
    × (uninstall_windows toy (text "/other") (text "00FF") ≡ (false, text "00FF"))
unfolding install is_installed_macos is_installed_windows uninstall_windows contains strip_prefix
    list_beq
installs = (refl, refl, refl, refl, refl, refl)
