-- ===== src/Acl/Rules/Mapped.antt =====
-- IP rules and IPv4-mapped IPv6 addresses.
use mobile_android_obfuscati.Common.{
  Option-cases, ℕ, ◌≡◌, refl, arith, Bool, true, false, inl, inr, if◌then◌else◌, some, List,
}
use mobile_android_obfuscati.Net.{IpAddr, Ipv4Addr, IsIpv4, to_ipv6_mapped, to_ipv4_mapped}
use mobile_android_obfuscati.Acl.Engines.{Engines}
use mobile_android_obfuscati.Acl.Rules.{Rules, new_rules, check_ip_matched}
use mobile_android_obfuscati.Acl.SubDomainsTree.{Children}

to_ipv4_mapped-to_ipv6_mapped :
    (ip : Ipv4Addr) → IsIpv4 ip → to_ipv4_mapped (to_ipv6_mapped ip) ≡ some ip
unfolding to_ipv4_mapped
to_ipv4_mapped-to_ipv6_mapped ip h = ground arith

or_swap : (a b : Bool) → (if a then true else b) ≡ (if b then true else a)
or_swap true true = refl
or_swap true false = refl
or_swap false true = refl
or_swap false false = refl

module _ {e : Engines} where
  -- An IPv4 address and the IPv6 address that it is mapped to match the same rules, so neither form
  -- of an address passes where the other is caught.
  pub check_ip_matched-to_ipv6_mapped :
      (r : Rules e) (ip : Ipv4Addr)
      → IsIpv4 ip
      → check_ip_matched r (IpAddr.v6 (to_ipv6_mapped ip)) ≡ check_ip_matched r (IpAddr.v4 ip)
  unfolding check_ip_matched
  check_ip_matched-to_ipv6_mapped r ip h =
      rw (to_ipv4_mapped-to_ipv6_mapped ip h, check_ip_matched)
        (or_swap (e.ipv6.contains r.ipv6 (to_ipv6_mapped ip)) (e.ipv4.contains r.ipv4 ip))

-- Merging the networks in `Rules::new` changes no decision on an address.
pub check_ip_matched-new_rules :
    (e : Engines) (v4 : e.ipv4.Range) (v6 : e.ipv6.Range) (regex : e.RegexSet) (set : List (List ℕ))
    (tree : Children) (ip : IpAddr)
    → check_ip_matched {e = e} (new_rules {e = e} v4 v6 regex set tree) ip
      ≡ check_ip_matched {e = e}
          (record { ipv4 = v4; ipv6 = v6; rule_regex = regex; rule_set = set; rule_tree = tree })
          ip
unfolding check_ip_matched new_rules
check_ip_matched-new_rules e v4 v6 regex set tree (IpAddr.v4 ip) =
    simp (e.ipv4.contains-simplify, e.ipv6.contains-simplify)
check_ip_matched-new_rules e v4 v6 regex set tree (IpAddr.v6 ip) =
    rw e.ipv6.contains-simplify (elim (Option-cases (to_ipv4_mapped ip)) [
      | inl unmapped ↦ rw unmapped
      | inr (mapped, is) ↦ rw is (rw (e.ipv4.contains-simplify v4 mapped) refl)
    ])
