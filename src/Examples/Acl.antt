-- ===== src/Examples/Acl.antt =====
-- Theorem instances for crates/shadowsocks-service/src/acl, with networks as predicates on addresses
-- and regular expressions as literal names.
use mobile_android_obfuscati.Common.{
  ℕ, ◌≡◌, ◌↔◌, ◌==◌, refl, Bool, true, false, not, ◌||◌, List, [], ◌∷◌, none, some, All,
}
use mobile_android_obfuscati.Common.{arith}
use mobile_android_obfuscati.Net.{Ipv4Addr, Ipv6Addr, IpAddr, SocketAddr, to_ipv6_mapped, socket_ip}
use mobile_android_obfuscati.Acl.Rules.Mapped.{check_ip_matched-to_ipv6_mapped}
use mobile_android_obfuscati.Common.Strings.{str_eq, split, trim_end_matches}
use mobile_android_obfuscati.Socks5.Address.{Address}
use mobile_android_obfuscati.Acl.Engines.{Engines, IpRange}
use mobile_android_obfuscati.Acl.SubDomainsTree
use mobile_android_obfuscati.Acl.SubDomainsTree.{rsplit}
use mobile_android_obfuscati.Acl.SubDomainsTree.Contains.{
  insert_all, is_under_any, contains-insert_all,
}
use mobile_android_obfuscati.Acl.Rules.{
  Rules, new_rules, check_ip_matched, check_host_matched, set_contains,
}
use mobile_android_obfuscati.Acl.Rules
use mobile_android_obfuscati.Acl.AccessControl.{
  AccessControl, Mode, Resolver, convert_to_ascii, check_ascii_host_in_proxy_list,
  check_host_in_proxy_list, is_ip_empty, check_ip_in_proxy_list, is_default_in_proxy_list,
  check_target_bypassed, check_outbound_blocked,
}
use mobile_android_obfuscati.Acl.AccessControl.Decisions.{
  check_target_bypassed_unlisted, check_outbound_blocked_iff, check_target_bypassed_resolved_iff,
}
use mobile_android_obfuscati.Acl.Parsing.{Loading, Section, load_lines, start}
use mobile_android_obfuscati.Common.Strings.{bytes}
use mobile_android_obfuscati.Acl.Parsing.Total.{AreUtf8, Succeeds, load_lines_lem}
use mobile_android_obfuscati.Common.{err, IoErrorKind, ◌⊎◌}

abbrev any_of : {A : Type 0} → List (A → Bool) → A → Bool
any_of [] a = false
any_of (n ∷ r) a = n a || any_of r a

abbrev is_nil : {A : Type 0} → List A → Bool
is_nil [] = true
is_nil (a ∷ r) = false

abbrev predicates : (A : Type 0) → IpRange A
predicates A = record {
  Network = A → Bool;
  Range = List (A → Bool);
  empty = [];
  add = λ r n. n ∷ r;
  simplify = λ r. r;
  contains = any_of;
  is_empty = is_nil;
  contains-simplify = λ r a. refl;
}

abbrev literal : Engines
literal = record {
  ipv4 = predicates Ipv4Addr;
  ipv6 = predicates Ipv6Addr;
  parse_ip_net = λ line. none;
  parse_ip_addr = λ line. none;
  RegexSet = List (List ℕ);
  compile = some;
  is_match = set_contains;
  regex_is_empty = is_nil;
  tree_set_captures = λ rule. none;
  domain_to_ascii = some;
}

-- The network 10.0.0.0/8.
abbrev private_net : Ipv4Addr → Bool
private_net ip = ip.a == 10

abbrev nothing : Rules literal
nothing = record {
  ipv4 = [];
  ipv6 = [];
  rule_regex = [];
  rule_set = [];
  rule_tree = SubDomainsTree.Children.nil;
}

abbrev private_rules : Rules literal
private_rules = record nothing { ipv4 = private_net ∷ [] }

abbrev host_rules : Rules literal
host_rules = record nothing { rule_set = bytes "a.b" ∷ [] }

-- Private addresses and what resolves to them are bypassed, and a.b is proxied.
abbrev acl : AccessControl literal
acl = record {
  outbound_block = private_rules;
  black_list = private_rules;
  white_list = host_rules;
  mode = Mode.black_list;
}

abbrev address : ℕ → SocketAddr
address a = SocketAddr.v4 (record { ip = record { a = a; b = 1; c = 2; d = 3 }; port = 80 })

abbrev dns : Resolver
dns host port = some (address 8 ∷ address 9 ∷ [])

contains-insert_all_example :
    SubDomainsTree.contains
      (insert_all (bytes "www.b" ∷ bytes "B" ∷ []) SubDomainsTree.new)
      (bytes "a.b")
    ≡ is_under_any (bytes "www.b" ∷ bytes "B" ∷ []) (bytes "a.b")
contains-insert_all_example = contains-insert_all (bytes "www.b" ∷ bytes "B" ∷ []) (bytes "a.b")

unmatched :
    (r : Rules literal)
    → r.ipv4 ≡ []
    → r.ipv6 ≡ []
    → check_ip_matched r (socket_ip (address 8)) ≡ false
unfolding check_ip_matched
unmatched r h k = rw (h, k) refl

private_rules-unmatched : check_ip_matched private_rules (socket_ip (address 8)) ≡ false
unfolding check_ip_matched
private_rules-unmatched = refl

check_target_bypassed_unlisted_example :
    check_target_bypassed dns acl (Address.socket_address (address 8))
    ≡ not (is_default_in_proxy_list acl)
check_target_bypassed_unlisted_example =
    check_target_bypassed_unlisted dns acl (address 8) private_rules-unmatched
      (unmatched host_rules refl refl)

check_outbound_blocked_iff_example :
    (check_outbound_blocked dns acl (Address.domain_name_address (bytes "a.c") 80) ≡ false) ↔ (
      (check_host_matched private_rules (convert_to_ascii literal (bytes "a.c")) ≡ false)
      × All
          (λ a. check_ip_matched private_rules (socket_ip a) ≡ false)
          (address 8 ∷ address 9 ∷ []))
check_outbound_blocked_iff_example =
    check_outbound_blocked_iff dns acl (bytes "a.c") 80 (address 8 ∷ address 9 ∷ []) refl

a_b-white : check_host_matched host_rules (convert_to_ascii literal (bytes "a.b")) ≡ true
unfolding check_host_matched convert_to_ascii trim_end_matches set_contains str_eq
a_b-white = refl

a_c-unlisted : check_host_in_proxy_list acl (bytes "a.c") ≡ none
unfolding check_host_in_proxy_list check_ascii_host_in_proxy_list check_host_matched
    convert_to_ascii trim_end_matches set_contains str_eq SubDomainsTree.contains
    SubDomainsTree.contains_parts SubDomainsTree.get split
a_c-unlisted = refl

acl-ip_rules : is_ip_empty acl ≡ false
unfolding is_ip_empty Rules.is_ip_empty
acl-ip_rules = refl

check_target_bypassed_resolved_iff_example :
    (check_target_bypassed dns acl (Address.domain_name_address (bytes "a.c") 80) ≡ false)
    ↔ All (λ a. check_ip_in_proxy_list acl (socket_ip a) ≡ true) (address 8 ∷ address 9 ∷ [])
check_target_bypassed_resolved_iff_example =
    check_target_bypassed_resolved_iff dns acl (bytes "a.c") 80 (address 8 ∷ address 9 ∷ [])
      a_c-unlisted acl-ip_rules refl

abbrev lines : List (List ℕ)
lines =
    bytes "[proxy_all]" ∷ bytes "# private" ∷ bytes "||B.C" ∷ bytes "10.0.0.0/8" ∷ (0xff ∷ []) ∷ []

load_lines_lem_example :
    (AreUtf8 lines × Succeeds (load_lines {e = literal} start lines))
    ⊎ ((AreUtf8 lines → ⊥) × (load_lines {e = literal} start lines ≡ err IoErrorKind.other_kind))
load_lines_lem_example = load_lines_lem start lines

abbrev sectioned : Loading literal
sectioned = record start { mode = Mode.white_list; curr = Section.proxy }

check_ip_matched-to_ipv6_mapped_example :
    check_ip_matched private_rules
      (IpAddr.v6 (to_ipv6_mapped (record { a = 10; b = 1; c = 2; d = 3 })))
    ≡ check_ip_matched private_rules (IpAddr.v4 (record { a = 10; b = 1; c = 2; d = 3 }))
check_ip_matched-to_ipv6_mapped_example =
    check_ip_matched-to_ipv6_mapped private_rules (record { a = 10; b = 1; c = 2; d = 3 })
      (omega arith)
