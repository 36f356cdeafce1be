-- ===== src/Acl/AccessControl.antt =====
-- `struct AccessControl` of crates/shadowsocks-service/src/acl/mod.rs: the decisions. The resolver of
-- the context is an argument: `none` is a failed resolution.
pub mod Decisions
use mobile_android_obfuscati.Common.{
  ℕ, Bool, true, false, not, ◌&&◌, List, [], ◌∷◌, if◌then◌else◌, Option, none, some,
}
use mobile_android_obfuscati.Net.{IpAddr, SocketAddr, socket_ip}
use mobile_android_obfuscati.Socks5.Address.{Address}
use mobile_android_obfuscati.Acl.Engines.{Engines}
use mobile_android_obfuscati.Acl.Rules
use mobile_android_obfuscati.Acl.Rules.{Rules, check_ip_matched, check_host_matched}

pub data Mode : Type 0 where
  black_list white_list : Mode

module _ (e : Engines) where
  pub record AccessControl : Type 0 where
    pub outbound_block : Rules e
    pub black_list : Rules e
    pub white_list : Rules e
    pub mode : Mode

  -- The host itself where the conversion fails.
  unfoldable pub convert_to_ascii : List ℕ → List ℕ
  convert_to_ascii host = elim (e.domain_to_ascii host) [ none ↦ host | some ascii ↦ ascii ]

abbrev pub Resolver : Type 0
Resolver = List ℕ → ℕ → Option (List SocketAddr)

module _ {e : Engines} where
  unfoldable pub check_ascii_host_in_proxy_list : AccessControl e → List ℕ → Option Bool
  check_ascii_host_in_proxy_list acl host =
      if check_host_matched acl.white_list host
      then some true
      else if check_host_matched acl.black_list host
      then some false
      else none

  unfoldable pub check_host_in_proxy_list : AccessControl e → List ℕ → Option Bool
  unfolding convert_to_ascii
  check_host_in_proxy_list acl host = check_ascii_host_in_proxy_list acl (convert_to_ascii e host)

  unfoldable pub is_ip_empty : AccessControl e → Bool
  is_ip_empty acl = elim acl.mode [
    | Mode.black_list ↦ Rules.is_ip_empty acl.black_list
    | Mode.white_list ↦ Rules.is_ip_empty acl.white_list
  ]

  unfoldable pub is_host_empty : AccessControl e → Bool
  is_host_empty acl = Rules.is_host_empty acl.black_list && Rules.is_host_empty acl.white_list

  unfoldable pub check_ip_in_proxy_list : AccessControl e → IpAddr → Bool
  check_ip_in_proxy_list acl ip = elim acl.mode [
    | Mode.black_list ↦ not (check_ip_matched acl.black_list ip)
    | Mode.white_list ↦ check_ip_matched acl.white_list ip
  ]

  unfoldable pub is_default_in_proxy_list : AccessControl e → Bool
  is_default_in_proxy_list acl = elim acl.mode [ Mode.black_list ↦ true | Mode.white_list ↦ false ]

  -- The loop over the resolved addresses.
  any_bypassed : AccessControl e → List SocketAddr → Bool
  any_bypassed acl [] = false
  any_bypassed acl (addr ∷ vaddr) =
      if not (check_ip_in_proxy_list acl (socket_ip addr)) then true else any_bypassed acl vaddr

  unfoldable pub check_target_bypassed : Resolver → AccessControl e → Address → Bool
  unfolding any_bypassed
  check_target_bypassed dns acl (Address.socket_address addr) =
      not (check_ip_in_proxy_list acl (socket_ip addr))
  check_target_bypassed dns acl (Address.domain_name_address host port) =
      elim (check_host_in_proxy_list acl host) [
        | some value ↦ not value
        | none ↦
            if is_ip_empty acl
            then not (is_default_in_proxy_list acl)
            else elim (dns host port) [ some vaddr ↦ any_bypassed acl vaddr | none ↦ false ]
      ]

  unfoldable pub check_client_blocked : AccessControl e → SocketAddr → Bool
  check_client_blocked acl addr = elim acl.mode [
    | Mode.black_list ↦ check_ip_matched acl.black_list (socket_ip addr)
    | Mode.white_list ↦ not (check_ip_matched acl.white_list (socket_ip addr))
  ]

  any_matched : Rules e → List SocketAddr → Bool
  any_matched rules [] = false
  any_matched rules (addr ∷ vaddr) =
      if check_ip_matched rules (socket_ip addr) then true else any_matched rules vaddr

  unfoldable pub check_outbound_blocked : Resolver → AccessControl e → Address → Bool
  unfolding any_matched convert_to_ascii
  check_outbound_blocked dns acl (Address.socket_address saddr) =
      check_ip_matched acl.outbound_block (socket_ip saddr)
  check_outbound_blocked dns acl (Address.domain_name_address host port) =
      if check_host_matched acl.outbound_block (convert_to_ascii e host)
      then true
      else elim (dns host port) [ some vaddr ↦ any_matched acl.outbound_block vaddr | none ↦ false ]
