-- ===== src/Store/Tests.antt =====
-- Cases of core/tests/store_test.rs, and the theorems at concrete inputs.
use sidedns.Prelude.{
  ℕ, ◌≡◌, refl, ◌↔◌, true, false, none, some, List, [], ◌∷◌, find, text_eq, list_beq,
}
use sidedns.Text.{Text, text, as_bytes}
use sidedns.Rule.{v4, DnsRule, matches}
use sidedns.Rule.Matching.{Covers, matches_iff}
use sidedns.Store.{new, resolve, add, add_ephemeral, remove, remove_ephemeral, all_rules}
use sidedns.Store.Resolve.{resolve-eq-find, covers}
use sidedns.Store.WellFormed.{Update, adding, adding_ephemeral, removing, run, run-IsWellFormed}
use sidedns.Store.Views.{persistent_for, ephemeral_for}
use sidedns.Store.Refinement.{run_refines, run_maps, no_rules}
use sidedns.Store.Reordering.{remove_reorders}
use sidedns.Store.Shared
use sidedns.Store.Shared.{writes_once}

-- What the tests compute with.
code : Unit {0}
unfolding resolve add run remove_ephemeral matches list_beq as_bytes
code = tt

abbrev rule : Text → ℕ → DnsRule
rule domain port = record {
  domain = domain;
  target = record { ip = v4 0x7F000001; port = port };
  https = false;
}

abbrev api : DnsRule
api = rule (text "api.local") 3000

abbrev wild : DnsRule
wild = rule (text "*.local") 4000

abbrev temporary : DnsRule
temporary = rule (text "api.local") 9000

abbrev updates : List Update
updates = adding wild ∷ adding api ∷ adding_ephemeral temporary ∷ removing (text "other.local") ∷ []

priorities :
    (resolve (add (add new wild) api) (text "api.local") ≡ some api)
    × (resolve (add (add new wild) api) (text "auth.local") ≡ some wild)
    × (resolve (add (add new wild) api) (text "local") ≡ none)
    × (resolve (run new updates) (text "api.local") ≡ some temporary)
    × (resolve (remove_ephemeral (run new updates) (text "api.local")).1 (text "api.local")
        ≡ some api)
unfolding code
priorities = (refl, refl, refl, refl, refl)

matches_iff_example :
    (matches wild (text "api.local") ≡ true) ↔ Covers (text "*.local") (text "api.local")
matches_iff_example = matches_iff wild (text "api.local")

resolve-eq-find_example :
    resolve (run new updates) (text "api.local")
    ≡ find (covers (text "api.local")) (all_rules (run new updates))
resolve-eq-find_example = resolve-eq-find (text "api.local") (run-IsWellFormed updates)

run_refines_example :
    (persistent_for (run new updates) (text "api.local")
      ≡ (run_maps no_rules updates).persistent (text "api.local"))
    × (ephemeral_for (run new updates) (text "api.local")
        ≡ (run_maps no_rules updates).ephemeral (text "api.local"))
run_refines_example = run_refines updates (text "api.local")

writes_once_example :
    (Shared.add (new ∷ []) (run new updates) api ≡ (api, add (run new updates) api))
    × (Shared.add_ephemeral (new ∷ []) (run new updates) api
        ≡ (api, add_ephemeral (run new updates) api))
    × (Shared.remove (new ∷ []) (run new updates) (text "api.local")
        ≡ remove (run new updates) (text "api.local"))
    × (Shared.remove_ephemeral (new ∷ []) (run new updates) (text "api.local")
        ≡ remove_ephemeral (run new updates) (text "api.local"))
writes_once_example = writes_once (new ∷ []) (run new updates) api (text "api.local")

abbrev unrelated : DnsRule
unrelated = rule (text "*.other.org") 1

abbrev narrow : DnsRule
narrow = rule (text "*.dev.local") 2

remove_reorders_example :
    let s = record new { persistent_wildcard = unrelated ∷ narrow ∷ wild ∷ [] } in
    (resolve s (text "a.dev.local") ≡ some narrow)
    × (resolve (remove s (text "*.other.org")).1 (text "a.dev.local") ≡ some wild)
unfolding code
remove_reorders_example = remove_reorders unrelated narrow wild (text "a.dev.local") refl refl refl
