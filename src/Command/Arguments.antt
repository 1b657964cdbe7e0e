-- ===== src/Command/Arguments.antt =====
-- cli/src/cli.rs, the parsers of a domain: what they accept, the daemon accepts.
use sidedns.Prelude.{
  ◌≡◌, refl, sym, Bool, true, false, ◌&&◌, List, [], ◌∷◌, ◌++◌, arith, ◌==◌, nat_eq, if◌then◌else◌,
  Bool-cases, inl, inr,
}
use sidedns.Text.{Text, text, to_lowercase, starts_with}
use sidedns.Text.Lower.{to_lowercase_idem}
use sidedns.Rule.{star_dot, SocketAddr}
use sidedns.Domain
use sidedns.Domain.{RegexEngine}
use sidedns.Domain.Lower.{validate_domain-to_lowercase}
use sidedns.Message.{add, remove, resolve, ok, resolved}
use sidedns.Store
use sidedns.Store.{InnerRuleStore}
use sidedns.Store.Shared
use sidedns.Store.WellFormed.{update}
use sidedns.State.{AppState}
use sidedns.Handler.{handle}
use sidedns.Handler.Effect.{handle-store}

-- What a parser returns: the argument, or the error's message.
pub data Parsed : Type 0 where
  parsed refused : Text → Parsed

unfoldable pub validate_domain : RegexEngine → Text → Parsed
unfolding Domain.validate_domain to_lowercase
validate_domain engine s =
    if Domain.validate_domain engine s
    then parsed (to_lowercase s)
    else refused (text "Invalid domain name")

-- `domain.replace("*.", "example.")`
unfoldable pub with_example : Text → Text
with_example [] = []
with_example (c ∷ []) = c ∷ []
with_example (c ∷ d ∷ s) =
    let after = with_example s in
    let later = with_example (d ∷ s) in
    if c == b'*' && d == b'.' then text "example." ++ after else c ∷ later

unfoldable pub validate_domain_resolve : RegexEngine → Text → Parsed
unfolding validate_domain with_example starts_with
validate_domain_resolve engine s = elim (validate_domain engine s) [
  | refused e ↦ refused e
  | parsed domain ↦
      if starts_with star_dot domain
      then refused (
          text "Wildcard domains are not allowed, please provide an explicit domain, Ex: "
          ++ with_example domain)
      else parsed domain
]

-- What is accepted is valid and in lower case.
accepted :
    (engine : RegexEngine) (s d : Text)
    → validate_domain engine s ≡ parsed d
    → (Domain.validate_domain engine d ≡ true) × (to_lowercase d ≡ d)
unfolding validate_domain
accepted engine s d e = elim (Bool-cases (Domain.validate_domain engine s)) [
  | inr invalid ↦ ground arith
  | inl valid ↦
      let same : to_lowercase s ≡ d = ground arith in
      (
        rw (sym same) (validate_domain-to_lowercase engine s valid),
        rw (sym same) (to_lowercase_idem s),
      )
]

accepted_name :
    (engine : RegexEngine) (s d : Text)
    → validate_domain_resolve engine s ≡ parsed d
    → (validate_domain engine s ≡ parsed d) × (starts_with star_dot d ≡ false)
unfolding validate_domain_resolve
accepted_name engine s d e = by_result (validate_domain engine s) refl
  where
    by_result :
        (p : Parsed)
        → validate_domain engine s ≡ p
        → (validate_domain engine s ≡ parsed d) × (starts_with star_dot d ≡ false)
    by_result (refused m) same = ground arith
    by_result (parsed domain) same = elim (Bool-cases (starts_with star_dot domain)) [
      | inl wildcard ↦ ground arith
      | inr plain ↦ (ground arith, ground arith)
    ]

module _ (engine : RegexEngine) (stale : List InnerRuleStore) (state : AppState) (s d : Text) where
  -- A domain that the parser accepts for a command, the daemon accepts as it is: the rule that it adds
  -- or removes is the one for exactly this domain.
  pub validate_domain-handle :
      (target : SocketAddr) (https : Bool)
      → validate_domain engine s ≡ parsed d
      → ((handle engine stale state (add d target https)).0 ≡ ok)
        × ((handle engine stale state (add d target https)).1.store
            ≡ Store.add state.store (record { domain = d; target = target; https = https }))
        × ((handle engine stale state (remove d)).1.store ≡ (Store.remove state.store d).1)
  unfolding update handle
  validate_domain-handle target https e =
      let (valid, lower) = accepted engine s d e in
      (
        ground arith,
        ground (arith, handle-store engine stale state (add d target https)),
        ground (arith, handle-store engine stale state (remove d)),
      )

  -- A name that the parser accepts to be resolved is no wildcard, and the daemon answers what its store
  -- resolves exactly this name to.
  pub validate_domain_resolve-handle :
      validate_domain_resolve engine s ≡ parsed d
      → (starts_with star_dot d ≡ false)
        × ((handle engine stale state (resolve d)).0 ≡ resolved (Store.resolve state.store d))
  unfolding handle Shared.resolve
  validate_domain_resolve-handle e =
      let (named, plain) = accepted_name engine s d e in
      let (valid, lower) = accepted engine s d named in (plain, ground arith)
