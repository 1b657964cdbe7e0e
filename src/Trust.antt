-- ===== src/Trust.antt =====
-- core/src/certs/trust: the stores of certificates that a machine trusts.
-- `Machine` is what a store changes; commands are parameters of each store.
pub mod Linux
pub mod Nss
pub mod Java
pub mod Platforms
pub mod Tests
use sidedns.Prelude.{ℕ, Bool, true, false, Option, none, some, List, [], ◌∷◌, find, if◌then◌else◌}
use sidedns.Text.{Text, text}
use sidedns.Files.{join}

-- The trait `TrustStore`: an operation tells whether it succeeded, and returns the machine after it.
pub record TrustStore (Machine : Type 0) : Type 0 where
  pub name : Text
  pub is_available : Machine → Bool
  pub is_installed : Text → Machine → Bool
  pub install : Text → Machine → Bool × Machine
  pub uninstall : Text → Machine → Bool × Machine

-- What a command comes to: it cannot be started, or it ends with a status that is a success or not.
pub data Ran : Type 0 where
  not_started : Ran
  ended : (success : Bool) → Ran

-- `.status()?` and the test of its success
unfoldable pub succeeded : Ran → Bool
succeeded not_started = false
succeeded (ended success) = success

unfoldable pub started : Ran → Bool
started not_started = false
started (ended success) = true

-- `find_map` over the directories of PATH: the first that has the file.
unfoldable pub which : (Text → Bool) → List Text → Text → Option Text
which is_file [] name = none
which is_file (dir ∷ dirs) name =
    let later = which is_file dirs name in
    if is_file (join dir name) then some (join dir name) else later
