-- ===== src/Acl/Rules.antt =====
-- `struct Rules` of crates/shadowsocks-service/src/acl/mod.rs. A `HashSet<String>` is a list.
pub mod Mapped
use mobile_android_obfuscati.Common.{
  ℕ, Bool, true, false, ◌&&◌, ◌||◌, List, [], ◌∷◌, if◌then◌else◌, Option, none, some,
}
use mobile_android_obfuscati.Common.Strings.{str_eq, trim_end_matches}
use mobile_android_obfuscati.Net.{
  IpAddr, Ipv4Addr, Ipv6Addr, to_ipv6_mapped, to_ipv4_mapped, socket_ip,
}
use mobile_android_obfuscati.Socks5.Address.{Address}
use mobile_android_obfuscati.Acl.Engines.{Engines, IpRange}
use mobile_android_obfuscati.Acl.SubDomainsTree
use mobile_android_obfuscati.Acl.SubDomainsTree.{Children}

-- `HashSet::contains`
unfoldable pub set_contains : List (List ℕ) → List ℕ → Bool
set_contains [] s = false
set_contains (t ∷ ts) s = str_eq t s || set_contains ts s

abbrev set_is_empty : List (List ℕ) → Bool
set_is_empty [] = true
set_is_empty (t ∷ ts) = false

module _ (e : Engines) where
  pub record Rules : Type 0 where
    pub ipv4 : e.ipv4.Range
    pub ipv6 : e.ipv6.Range
    pub rule_regex : e.RegexSet
    pub rule_set : List (List ℕ)
    pub rule_tree : Children

module _ {e : Engines} where
  unfoldable pub new_rules :
      e.ipv4.Range → e.ipv6.Range → e.RegexSet → List (List ℕ) → Children → Rules e
  new_rules ipv4 ipv6 rule_regex rule_set rule_tree = record {
    ipv4 = e.ipv4.simplify ipv4;
    ipv6 = e.ipv6.simplify ipv6;
    rule_regex = rule_regex;
    rule_set = rule_set;
    rule_tree = rule_tree;
  }

  unfoldable pub check_ip_matched : Rules e → IpAddr → Bool
  check_ip_matched r (IpAddr.v4 v4) =
      if e.ipv4.contains r.ipv4 v4 then true else e.ipv6.contains r.ipv6 (to_ipv6_mapped v4)
  check_ip_matched r (IpAddr.v6 v6) =
      if e.ipv6.contains r.ipv6 v6 then true else elim (to_ipv4_mapped v6) [
        | some mapped_ipv4 ↦ e.ipv4.contains r.ipv4 mapped_ipv4
        | none ↦ false
      ]

  unfoldable pub check_host_matched : Rules e → List ℕ → Bool
  check_host_matched r host =
      let host = trim_end_matches b'.' host in
      set_contains r.rule_set host
      || (SubDomainsTree.contains r.rule_tree host || e.is_match r.rule_regex host)

  unfoldable pub check_address_matched : Rules e → Address → Bool
  check_address_matched r (Address.socket_address saddr) = check_ip_matched r (socket_ip saddr)
  check_address_matched r (Address.domain_name_address domain port) = check_host_matched r domain

  unfoldable pub is_ip_empty : Rules e → Bool
  is_ip_empty r = e.ipv4.is_empty r.ipv4 && e.ipv6.is_empty r.ipv6

  unfoldable pub is_host_empty : Rules e → Bool
  is_host_empty r =
      set_is_empty r.rule_set
      && (SubDomainsTree.is_empty r.rule_tree && e.regex_is_empty r.rule_regex)
