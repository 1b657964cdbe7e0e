-- ===== src/Runner/Handshake.antt =====
-- The TLS side of the proxy against the store, once the watcher has handled every event.
use sidedns.Prelude.{◌≡◌, ◌↔◌, refl, sym, ◌∙◌, true, Option, some, [], ◌∷◌, inl, inr, Option-cases}
use sidedns.Text.{Text}
use sidedns.Rule.{DnsRule}
use sidedns.Domain.{RegexEngine}
use sidedns.Store
use sidedns.Store.{InnerRuleStore}
use sidedns.Resolver
use sidedns.Resolver.{Backend, DomainResolver, resolve_domain, sign_domain}
use sidedns.Resolver.Cache.{resolve_domain_lem}
use sidedns.Resolver.Certificates.{resolve-IsEntitled}
use sidedns.Runner.Coherence.{Daemon, Reach, IsCoherent, quiet_cache_agrees}

-- The certificate of a handshake for a name.
abbrev pub IsServed : (b : Backend) → Option b.CertifiedKey → Type 0
IsServed b key = (cert : b.CertifiedKey) × (key ≡ some cert)

module _ (b : Backend) (store : InnerRuleStore) (r : DomainResolver b) (d : Text) (ca : b.Ca)
    (has_ca : r.cert_authority ≡ some ca) where
  pub same_authority : (resolve_domain b store r d).1.cert_authority ≡ some ca
  unfolding resolve_domain
  same_authority = elim (Option-cases ((b.rule_cache).get d r.cache)) [
    | inr (rule, hit) ↦ rw (hit, resolve_domain) has_ca
    | inl miss ↦ elim (Option-cases (Store.resolve store d)) [
      | inl unknown ↦ rw (miss, resolve_domain, unknown) has_ca
      | inr (rule, known) ↦ rw (miss, resolve_domain, known) has_ca
    ]
  ]

  served :
      (rule : DnsRule) (cert : b.CertifiedKey)
      → (resolve_domain b store r d).0 ≡ some rule
      → rule.https ≡ true
      → b.sign ca (d ∷ []) ≡ some cert
      → IsServed b (Resolver.resolve b store r (some d)).0
  unfolding Resolver.resolve sign_domain
  served rule cert known https signs =
      let r' = (resolve_domain b store r d).1 in
      elim (Option-cases ((b.key_cache).get d r'.certs_cache)) [
        | inr (old, hit) ↦ rw (has_ca, Resolver.resolve, known, https, hit) (old, refl)
        | inl miss ↦
            rw (has_ca, Resolver.resolve, known, https, miss, sign_domain, same_authority, signs)
              (cert, refl)
      ]

module _ {b : Backend} {engine : RegexEngine} {x y : Daemon b} (c : IsCoherent x)
    (run : Reach b engine x y) (quiet : y.pending ≡ []) (ca : b.Ca)
    (has_ca : y.resolver.cert_authority ≡ some ca) (d : Text) (cert : b.CertifiedKey)
    (signs : b.sign ca (d ∷ []) ≡ some cert) where
  -- In any run of requests, lookups and events from a coherent daemon, while no two wildcards of a
  -- layer overlap where a request is handled, no event is lost to the watcher, and it handles none
  -- while a lookup of a name that the event concerns is between reading the store and writing the
  -- cache: as soon as it has handled every event, a TLS handshake for a name that the daemon's
  -- authority can sign gets a certificate exactly if the store resolves the name to a rule with
  -- HTTPS.
  pub resolve_iff :
      IsServed b (Resolver.resolve b y.app.store y.resolver (some d)).0
      ↔ ((rule : DnsRule) × (Store.resolve y.app.store d ≡ some rule) × (rule.https ≡ true))
  resolve_iff =
      let agrees = quiet_cache_agrees b engine d c run quiet in
      let seen = resolve_domain_lem b y.app.store y.resolver d in
      (
        λ (k, got).
            let (rule, found, secure) =
              (resolve-IsEntitled b y.app.store y.resolver d k got).https_rule in
            (rule, sym agrees ∙ (seen ∙ found), secure),
        λ (rule, found, secure).
            served b y.app.store y.resolver d ca has_ca rule cert (agrees ∙ found) secure signs,
      )
