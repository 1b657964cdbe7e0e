-- ===== src/Handler/Safety.antt =====
-- What the daemon's store can hold after any requests.
use sidedns.Prelude.{◌≡◌, true, some, List, [], ◌∷◌, if◌then◌else◌, Bool-cases, inl, inr}
use sidedns.Text.{Text, to_lowercase}
use sidedns.Text.Lower.{to_lowercase_idem}
use sidedns.Rule.{DnsRule}
use sidedns.Domain.{RegexEngine, validate_domain}
use sidedns.Domain.Shape.{IsDomainText, validate_domain_sound}
use sidedns.Message.{IpcRequest, add, add_ephemeral, remove, remove_ephemeral}
use sidedns.Store
use sidedns.Store.{InnerRuleStore}
use sidedns.Store.WellFormed.{IsWellFormed, Update, update}
use sidedns.Store.Every.{Every, Brings, update-Every, resolve-Every}
use sidedns.State.{AppState}
use sidedns.Handler.{handle}
use sidedns.Handler.Effect.{store_after, handle-store, handle_all, handle-IsWellFormed}

-- A domain as the handler stores it: in lower case, and spelled with the characters of domains.
abbrev pub IsNormal : DnsRule → Type 0
IsNormal r = (to_lowercase r.domain ≡ r.domain) × IsDomainText r.domain

pub record IsSafe (s : AppState) : Type 0 where
  pub well_formed : IsWellFormed s.store
  pub normal : Every IsNormal s.store

lower_normal :
    (engine : RegexEngine) (domain : Text)
    → validate_domain engine domain ≡ true
    → (to_lowercase (to_lowercase domain) ≡ to_lowercase domain)
      × IsDomainText (to_lowercase domain)
lower_normal engine domain valid =
    (to_lowercase_idem domain, (validate_domain_sound engine domain valid).2)

module _ (engine : RegexEngine) (s : InnerRuleStore) (h : Every IsNormal s) where
  when_valid :
      (domain : Text) (u : Update)
      → (validate_domain engine domain ≡ true → Brings IsNormal u)
      → Every IsNormal (if validate_domain engine domain then update s u else s)
  when_valid domain u brings = elim (Bool-cases (validate_domain engine domain)) [
    | inl valid ↦ rw valid (update-Every IsNormal u h (brings valid))
    | inr invalid ↦ rw invalid h
  ]

  store_after-IsNormal : (q : IpcRequest) → Every IsNormal (store_after engine s q)
  store_after-IsNormal (add domain target https) =
      when_valid domain _ (λ valid. lower_normal engine domain valid)
  store_after-IsNormal (add_ephemeral domain target https) =
      when_valid domain _ (λ valid. lower_normal engine domain valid)
  store_after-IsNormal (remove domain) = when_valid domain _ (λ _. tt)
  store_after-IsNormal (remove_ephemeral domain) = when_valid domain _ (λ _. tt)
  store_after-IsNormal _ = h

-- Every request, valid or not, keeps the store well formed and its domains normal.
pub handle-IsSafe :
    (engine : RegexEngine) (stale : List InnerRuleStore) (s : AppState) (q : IpcRequest)
    → IsSafe s
    → IsSafe (handle engine stale s q).1
handle-IsSafe engine stale s q h = record {
  well_formed = handle-IsWellFormed engine stale s q h.well_formed;
  normal = rw (handle-store engine stale s q) (store_after-IsNormal engine s.store h.normal q);
}

-- From a safe state, any requests in any order leave a store that is well formed and in which
-- every rule's domain is in lower case and free of spaces, line breaks, quotes, slashes and
-- semicolons.
handle_all-IsSafe :
    (engine : RegexEngine) (requests : List (List InnerRuleStore × IpcRequest)) (s : AppState)
    → IsSafe s
    → IsSafe (handle_all engine s requests)
unfolding handle_all
handle_all-IsSafe engine [] s h = h
handle_all-IsSafe engine ((stale, q) ∷ rest) s h =
    handle_all-IsSafe engine rest (handle engine stale s q).1 (handle-IsSafe engine stale s q h)

resolve-IsNormal :
    (s : AppState) (d : Text) (r : DnsRule)
    → IsSafe s
    → Store.resolve s.store d ≡ some r
    → IsNormal r
resolve-IsNormal s d r h e = resolve-Every IsNormal d r h.normal e
