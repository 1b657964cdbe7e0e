-- ===== src/Resolver/Tests.antt =====
-- The resolver at concrete inputs: certificates are numbers, and every name can be signed.
use sidedns.Prelude.{ℕ, true, some, [], ◌∷◌}
use sidedns.Text.{text}
use sidedns.Rule.{v4, DnsRule}
use sidedns.Store
use sidedns.Store.{InnerRuleStore}
use sidedns.DashMap.Instance.{assoc_map}
use sidedns.Resolver
use sidedns.Resolver.{Backend, DomainResolver, resolve, resolve_domain, invalidate}

abbrev pub toy : Backend
toy = record {
  Ca = Unit;
  CertifiedKey = ℕ;
  rule_cache = assoc_map DnsRule;
  key_cache = assoc_map ℕ;
  sign = λ ca names. some 1;
}

abbrev pub wild : DnsRule
wild = record { domain = text "*.local"; target = record { ip = v4 1; port = 3000 }; https = true }

abbrev pub store : InnerRuleStore
store = record Store.new { persistent_wildcard = wild ∷ [] }

abbrev warm : DomainResolver toy
warm = (resolve toy store (Resolver.new toy (some tt)) (some (text "api.local"))).1
