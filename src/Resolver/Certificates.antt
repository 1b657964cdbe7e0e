-- ===== src/Resolver/Certificates.antt =====
-- Which names get a certificate in a TLS handshake.
use sidedns.Prelude.{◌≡◌, true, Option, none, some, arith, Option-cases, inl, inr, Bool-cases}
use sidedns.Text.{Text}
use sidedns.Rule.{DnsRule}
use sidedns.Store
use sidedns.Store.{InnerRuleStore}
use sidedns.Resolver.{Backend, DomainResolver, resolve, resolve_domain}
use sidedns.Resolver.Cache.{cached, resolve_domain_lem}

-- The name's rule as the resolver answers it: the cached one, or else the store's.
abbrev pub rule_seen : (b : Backend) → InnerRuleStore → DomainResolver b → Text → Option DnsRule
rule_seen b store r d = elim (cached b r d) [ some rule ↦ some rule | none ↦ Store.resolve store d ]

-- What a certificate request is entitled to: a certificate authority, and an HTTPS rule.
pub record IsEntitled (b : Backend) (store : InnerRuleStore) (r : DomainResolver b) (d : Text)
    : Type 0 where
  pub authority : (ca : b.Ca) × (r.cert_authority ≡ some ca)
  pub https_rule : (rule : DnsRule) × (rule_seen b store r d ≡ some rule) × (rule.https ≡ true)

module _ (b : Backend) (store : InnerRuleStore) (r : DomainResolver b) (d : Text) where
  -- A handshake gets a certificate only for a name that has a rule with HTTPS, and only if there
  -- is a certificate authority.
  pub resolve-IsEntitled :
      (k : b.CertifiedKey) → (resolve b store r (some d)).0 ≡ some k → IsEntitled b store r d
  unfolding resolve
  resolve-IsEntitled k h = elim (Option-cases r.cert_authority) [
    | inl missing ↦ ground arith
    | inr (ca, present) ↦ elim (Option-cases (resolve_domain b store r d).0) [
      | inl unknown ↦ ground arith
      | inr (rule, found) ↦ elim (Bool-cases rule.https) [
        | inl secure ↦ record {
          authority = (ca, present);
          https_rule = (rule, ground (arith, resolve_domain_lem b store r d), secure);
        }
        | inr plain ↦ ground arith
      ]
    ]
  ]
