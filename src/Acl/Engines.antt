-- ===== src/Acl/Engines.antt =====
-- What the access control list takes from the crates `iprange`, `ipnet`, `regex` and `idna`, and from
-- the resolver: types and operations of other packages, with the laws that are relied on.
use mobile_android_obfuscati.Common.{ℕ, ◌≡◌, Bool, List, Option}
use mobile_android_obfuscati.Net.{Ipv4Addr, Ipv6Addr}

-- `IpRange<N>` of the networks `N` over addresses `A`.
pub record IpRange (A : Type 0) : Type 1 where
  pub Network : Type 0
  pub Range : Type 0
  pub empty : Range
  pub add : Range → Network → Range
  pub simplify : Range → Range
  pub contains : Range → A → Bool
  pub is_empty : Range → Bool
  -- Merging networks does not change which addresses are in the range.
  pub contains-simplify : (r : Range) (a : A) → contains (simplify r) a ≡ contains r a

-- A line that is a network or an address; an address is the network of itself alone.
pub data ParsedNet (N4 N6 : Type 0) : Type 0 where
  v4 : N4 → ParsedNet N4 N6
  v6 : N6 → ParsedNet N4 N6

pub record Engines : Type 1 where
  pub ipv4 : IpRange Ipv4Addr
  pub ipv6 : IpRange Ipv6Addr
  -- `line.parse::<IpNet>()` and `line.parse::<IpAddr>()` into a network.
  pub parse_ip_net : List ℕ → Option (ParsedNet (IpRange.Network ipv4) (IpRange.Network ipv6))
  pub parse_ip_addr : List ℕ → Option (ParsedNet (IpRange.Network ipv4) (IpRange.Network ipv6))
  -- `RegexSet`: `compile` fails on a rule that is no regular expression.
  pub RegexSet : Type 0
  pub compile : List (List ℕ) → Option RegexSet
  pub is_match : RegexSet → List ℕ → Bool
  pub regex_is_empty : RegexSet → Bool
  -- The captures 1 and 2 of `TREE_SET_RULE_EQUIV` on a rule, if it matches.
  pub tree_set_captures : List ℕ → Option (Option (List ℕ) × Option (List ℕ))
  -- `idna::domain_to_ascii`
  pub domain_to_ascii : List ℕ → Option (List ℕ)
