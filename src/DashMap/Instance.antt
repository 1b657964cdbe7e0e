-- ===== src/DashMap/Instance.antt =====
-- Association lists meet the laws of the concurrent maps.
use sidedns.Prelude.{[], refl, ◌≡◌, none}
use sidedns.Text.{Text}
use sidedns.HashMap
use sidedns.HashMap.{HashMap}
use sidedns.HashMap.Laws.{get-insert, get-without, get-retain_keys}
use sidedns.DashMap.{DashMap}

pub get-nil : {V : Type 0} (k : Text) → HashMap.get {V = V} k [] ≡ none
unfolding HashMap.get
get-nil k = refl

abbrev pub assoc_map : (V : Type 0) → DashMap V
assoc_map V = record {
  Map = HashMap V;
  new = [];
  get = HashMap.get;
  insert = HashMap.insert;
  remove = HashMap.without;
  retain = HashMap.retain_keys;
  get-new = get-nil;
  get-insert = get-insert;
  get-remove = get-without;
  get-retain = get-retain_keys;
}
