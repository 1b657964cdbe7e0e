-- ===== src/Resolver/Cache.antt =====
-- What the caches hold after each operation.
use sidedns.Prelude.{
  ◌≡◌, ltb, ◌&&◌, ◌-◌, Option, none, some, arith, ◌==◌, text_eq, text_eq_iff, if◌then◌else◌,
  Option-cases, inl, inr,
}
use sidedns.Text.{Text, strip_prefix, ends_with, len, byte_is}
use sidedns.Rule.{DnsRule, star_dot, matches}
use sidedns.Store
use sidedns.Store.{InnerRuleStore}
use sidedns.DashMap.{DashMap}
use sidedns.Resolver.{Backend, DomainResolver, resolve_domain, invalidate, outside}

module _ (b : Backend) (r : DomainResolver b) where
  -- The cached rule and the cached certificate of a name.
  abbrev pub cached : Text → Option DnsRule
  cached d = (b.rule_cache).get d r.cache

  abbrev pub cached_key : Text → Option b.CertifiedKey
  cached_key d = (b.key_cache).get d r.certs_cache

-- What `retain` keeps are the names that the rule does not match.
retained :
    {V : Type 0} (dm : DashMap V) (m : dm.Map) (suffix d : Text)
    → dm.get d (dm.retain (outside suffix) m) ≡ (
        if (ends_with suffix d
          && ltb (len suffix) (len d)
          && byte_is d (len d - len suffix - 1) b'.')
        then none
        else dm.get d m)
unfolding outside
retained dm m suffix d = ground (arith, dm.get-retain (outside suffix) d m)

module _ (b : Backend) (r : DomainResolver b) (rule : DnsRule) (d : Text) where
  -- Invalidating a rule drops, from both caches, exactly the names that the rule matches.
  pub cached-invalidate :
      (cached b (invalidate b r rule) d ≡ (if matches rule d then none else cached b r d))
      × (cached_key b (invalidate b r rule) d ≡ (if matches rule d then none else cached_key b r d))
  unfolding invalidate matches
  cached-invalidate = elim (Option-cases (strip_prefix star_dot rule.domain)) [
    | inl plain ↦
        rw (plain, invalidate, matches)
          (
            (b.rule_cache).get-remove rule.domain d r.cache,
            (b.key_cache).get-remove rule.domain d r.certs_cache,
          )
    | inr (suffix, found) ↦
        rw (found, invalidate, matches)
          (retained (b.rule_cache) r.cache suffix d, retained (b.key_cache) r.certs_cache suffix d)
  ]

module _ (b : Backend) (store : InnerRuleStore) (r : DomainResolver b) (d : Text) where
  -- A name resolves to its cached rule, and otherwise to the rule of the store, which is then
  -- cached; no other name's entry changes, and nothing is cached for a name with no rule.
  pub cached-resolve_domain :
      (j : Text)
      → cached b (resolve_domain b store r d).1 j
        ≡ (if d == j then (resolve_domain b store r d).0 else cached b r j)
  unfolding resolve_domain
  cached-resolve_domain j = elim (Option-cases ((b.rule_cache).get d r.cache)) [
    | inr (hit, found) ↦ ground (arith, text_eq_iff d j)
    | inl miss ↦ elim (Option-cases (Store.resolve store d)) [
      | inl unknown ↦ ground (arith, text_eq_iff d j)
      | inr (rule, known) ↦
          rw (miss, known, resolve_domain) ((b.rule_cache).get-insert d j rule r.cache)
    ]
  ]

  pub resolve_domain_lem :
      (resolve_domain b store r d).0
      ≡ (elim (cached b r d) [ some rule ↦ some rule | none ↦ Store.resolve store d ])
  unfolding resolve_domain
  resolve_domain_lem = ground arith
