-- ===== src/DashMap.antt =====
-- The `DashMap` of the dashmap crate as the program uses it, keyed by texts: its operations, and
-- what its documentation says of them. `Instance` shows that the laws can be met.
pub mod Instance
use sidedns.Prelude.{◌≡◌, Bool, Option, none, some, ◌==◌, text_eq, if◌then◌else◌}
use sidedns.Text.{Text}

pub record DashMap (V : Type 0) : Type 1 where
  pub Map : Type 0
  pub new : Map
  pub get : Text → Map → Option V
  pub insert : Text → V → Map → Map
  pub remove : Text → Map → Map
  pub retain : (Text → Bool) → Map → Map
  pub get-new : (k : Text) → get k new ≡ none
  pub get-insert :
      (k j : Text) (v : V) (m : Map) → get j (insert k v m) ≡ (if k == j then some v else get j m)
  pub get-remove : (k j : Text) (m : Map) → get j (remove k m) ≡ (if k == j then none else get j m)
  pub get-retain :
      (p : Text → Bool) (j : Text) (m : Map) → get j (retain p m) ≡ (if p j then get j m else none)
