-- ===== src/Rule.antt =====
-- core/src/rule.rs: a routing rule, and which names it matches.
pub mod Matching
use sidedns.Prelude.{ℕ, ◌-◌, Bool, true, false, ◌&&◌, none, some, ltb, ◌==◌, text_eq}
use sidedns.Text.{Text, text, len, strip_prefix, ends_with, byte_is}

-- `std::net::IpAddr`: the address as one number of 32 or 128 bits.
pub data IpAddr : Type 0 where
  v4 v6 : ℕ → IpAddr

-- `std::net::SocketAddr`, without the flow label and the scope that version 6 has.
pub record SocketAddr : Type 0 where
  pub ip : IpAddr
  pub port : ℕ

pub record DnsRule : Type 0 where
  pub domain : Text
  pub target : SocketAddr
  pub https : Bool

-- The prefix of a wildcard rule.
abbrev pub star_dot : Text
star_dot = text "*."

unfoldable pub is_wildcard : DnsRule → Bool
unfolding strip_prefix
is_wildcard r = elim (strip_prefix star_dot r.domain) [ some _ ↦ true | none ↦ false ]

unfoldable pub matches : DnsRule → Text → Bool
unfolding strip_prefix ends_with byte_is
matches r domain = elim (strip_prefix star_dot r.domain) [
  | some suffix ↦
      ends_with suffix domain
      && ltb (len suffix) (len domain)
      && byte_is domain (len domain - len suffix - 1) b'.'
  | none ↦ r.domain == domain
]

unfoldable pub with_https : DnsRule → Bool → DnsRule
with_https r https = record r { https = https }
