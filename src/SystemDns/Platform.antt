-- ===== src/SystemDns/Platform.antt =====
-- core/src/dns/sys/mod.rs, `platform_dns_manager` on Linux, and what its choice comes to.
-- The other branches of the function are the build's choice, of the manager of the platform.
use sidedns.Prelude.{◌≡◌, refl, Bool, true, ◌||◌, none, List, [], ◌∷◌, ◌++◌, if◌then◌else◌, arith}
use sidedns.Text.{Text}
use sidedns.State.{AppState}
use sidedns.Broadcast.{Turn}
use sidedns.SystemDns.{SystemDnsManager, no_op_configurator, run_system_dns_manager}
use sidedns.SystemDns.Systemd.{System, Rights, apply, revert, reload, systemd_configurator}

-- `SystemdConfigurator::is_available`, by whether each of its two files exists.
unfoldable pub is_available : (resolv_conf resolved_conf : Bool) → Bool
is_available resolv_conf resolved_conf = resolv_conf || resolved_conf

unfoldable pub platform_dns_manager : Rights → Bool → SystemDnsManager System
platform_dns_manager r available = if available then systemd_configurator r else no_op_configurator

-- Everything that applying and reverting needs succeeds.
abbrev pub root : Rights
root = record { create_dir_all = true; write = true; remove_file = true; reload = true }

pub works : (ds : List Text) (x : System) → (apply root ds x).0 ≡ true
unfolding apply reload
works ds x = refl

pub reverts : (x : System) → (revert root x).1.drop_in ≡ none
unfolding revert reload
reverts x = ground arith

module _ (available : Bool) (start : AppState) (turns : List (AppState × Turn)) (s : AppState)
    (x : System) where
  abbrev pub run_linux : Turn → Bool × System
  run_linux last =
      run_system_dns_manager (platform_dns_manager root available) start x (turns ++ (s, last) ∷ [])
