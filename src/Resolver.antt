-- ===== src/Resolver.antt =====
-- core/src/dns/resolver.rs: the store behind a cache of rules and a cache of certificates.
-- The two caches are maps of the dashmap crate; signing a certificate is a parameter.
pub mod Cache
pub mod Certificates
pub mod Tests
use sidedns.Prelude.{
  ℕ, ◌-◌, Bool, true, false, not, ◌&&◌, Option, none, some, List, [], ◌∷◌, ltb, if◌then◌else◌,
}
use sidedns.Text.{Text, len, strip_prefix, ends_with, byte_is}
use sidedns.Rule.{DnsRule, star_dot}
use sidedns.Store
use sidedns.Store.{InnerRuleStore}
use sidedns.DashMap.{DashMap}

-- What the resolver is built over: `sign` is `Ca::sign` with its error dropped by `ok()`.
pub record Backend : Type 1 where
  pub Ca : Type 0
  pub CertifiedKey : Type 0
  pub rule_cache : DashMap DnsRule
  pub key_cache : DashMap CertifiedKey
  pub sign : Ca → List Text → Option CertifiedKey

-- `state` is the shared store, which each method takes as it stands at the call.
pub record DomainResolver (b : Backend) : Type 0 where
  pub cert_authority : Option b.Ca
  pub cache : (b.rule_cache).Map
  pub certs_cache : (b.key_cache).Map

-- The closure `retain` of `invalidate`.
unfoldable pub outside : Text → Text → Bool
unfolding ends_with byte_is
outside suffix key = not (
    ends_with suffix key
    && ltb (len suffix) (len key)
    && byte_is key (len key - len suffix - 1) b'.')

module _ (b : Backend) where
  abbrev pub new : Option b.Ca → DomainResolver b
  new ca = record {
    cert_authority = ca;
    cache = (b.rule_cache).new;
    certs_cache = (b.key_cache).new;
  }

  -- `loads` is `Ca::is_installed()`.
  unfoldable pub is_cert_installed : Bool → DomainResolver b → Bool
  is_cert_installed loads r = elim r.cert_authority [ some _ ↦ loads | none ↦ false ]

  unfoldable pub resolve_domain :
      InnerRuleStore → DomainResolver b → Text → Option DnsRule × DomainResolver b
  resolve_domain store r domain = elim ((b.rule_cache).get domain r.cache) [
    | some rule ↦ (some rule, r)
    | none ↦ elim (Store.resolve store domain) [
      | none ↦ (none, r)
      | some rule ↦ (some rule, record r { cache = (b.rule_cache).insert domain rule r.cache })
    ]
  ]

  unfoldable pub sign_domain : DomainResolver b → Text → Option b.CertifiedKey × DomainResolver b
  sign_domain r domain = elim r.cert_authority [
    | none ↦ (none, r)
    | some ca ↦ elim (b.sign ca (domain ∷ [])) [
      | none ↦ (none, r)
      | some cert ↦
          (some cert, record r { certs_cache = (b.key_cache).insert domain cert r.certs_cache })
    ]
  ]

  unfoldable pub invalidate : DomainResolver b → DnsRule → DomainResolver b
  unfolding outside strip_prefix
  invalidate r rule = elim (strip_prefix star_dot rule.domain) [
    | some suffix ↦ record r {
      cache = (b.rule_cache).retain (outside suffix) r.cache;
      certs_cache = (b.key_cache).retain (outside suffix) r.certs_cache;
    }
    | none ↦ record r {
      cache = (b.rule_cache).remove rule.domain r.cache;
      certs_cache = (b.key_cache).remove rule.domain r.certs_cache;
    }
  ]

  -- `server_name` is what the TLS client hello asks for.
  unfoldable pub resolve :
      InnerRuleStore → DomainResolver b → Option Text → Option b.CertifiedKey × DomainResolver b
  unfolding resolve_domain sign_domain
  resolve store r none = (none, r)
  resolve store r (some domain) = elim r.cert_authority [
    | none ↦ (none, r)
    | some _ ↦
        let (rule, r') = resolve_domain store r domain in
        elim rule [
          | none ↦ (none, r')
          | some found ↦
              if found.https
              then (elim ((b.key_cache).get domain r'.certs_cache) [
                | some cert ↦ (some cert, r')
                | none ↦ sign_domain r' domain
              ])
              else (none, r')
        ]
  ]
