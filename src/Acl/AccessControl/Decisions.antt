-- ===== src/Acl/AccessControl/Decisions.antt =====
-- What the decisions of an access control list amount to.
use mobile_android_obfuscati.Common.{
  ℕ, ◌≡◌, ◌↔◌, refl, arith, true, false, not, List, [], ◌∷◌, none, some, All,
}
use mobile_android_obfuscati.Net.{SocketAddr, socket_ip}
use mobile_android_obfuscati.Socks5.Address.{Address}
use mobile_android_obfuscati.Acl.Engines.{Engines}
use mobile_android_obfuscati.Acl.Rules.{Rules, check_ip_matched, check_host_matched}
use mobile_android_obfuscati.Acl.AccessControl.{
  AccessControl, Resolver, convert_to_ascii, check_ascii_host_in_proxy_list,
  check_host_in_proxy_list, is_ip_empty, check_ip_in_proxy_list, is_default_in_proxy_list,
  any_bypassed, check_target_bypassed, check_client_blocked, any_matched, check_outbound_blocked,
}

module _ {e : Engines} where
  -- A server blocks exactly the clients that a local server with the same list would not proxy.
  pub check_client_blocked_lem :
      (acl : AccessControl e) (addr : SocketAddr)
      → check_client_blocked acl addr ≡ not (check_ip_in_proxy_list acl (socket_ip addr))
  unfolding check_client_blocked check_ip_in_proxy_list
  check_client_blocked_lem acl addr = ground arith

  -- An address that neither list matches is bypassed exactly if the mode does not proxy by default:
  -- all such addresses with the white list, none with the black list.
  pub check_target_bypassed_unlisted :
      (dns : Resolver) (acl : AccessControl e) (addr : SocketAddr)
      → check_ip_matched acl.black_list (socket_ip addr) ≡ false
      → check_ip_matched acl.white_list (socket_ip addr) ≡ false
      → check_target_bypassed dns acl (Address.socket_address addr)
        ≡ not (is_default_in_proxy_list acl)
  unfolding check_target_bypassed check_ip_in_proxy_list is_default_in_proxy_list
  check_target_bypassed_unlisted dns acl addr black white = ground arith

  any_matched_iff :
      (rules : Rules e) (vaddr : List SocketAddr)
      → (any_matched rules vaddr ≡ false)
        ↔ All (λ a. check_ip_matched rules (socket_ip a) ≡ false) vaddr
  unfolding any_matched
  any_matched_iff rules [] = (λ _. tt, λ _. refl)
  any_matched_iff rules (a ∷ vaddr) = ground (arith, any_matched_iff rules vaddr)

  any_bypassed_iff :
      (acl : AccessControl e) (vaddr : List SocketAddr)
      → (any_bypassed acl vaddr ≡ false)
        ↔ All (λ a. check_ip_in_proxy_list acl (socket_ip a) ≡ true) vaddr
  unfolding any_bypassed
  any_bypassed_iff acl [] = (λ _. tt, λ _. refl)
  any_bypassed_iff acl (a ∷ vaddr) = ground (arith, any_bypassed_iff acl vaddr)

  -- A domain name that resolves is let out exactly if neither its ASCII form nor any of the resolved
  -- addresses matches the outbound block list.
  pub check_outbound_blocked_iff :
      (dns : Resolver) (acl : AccessControl e) (host : List ℕ) (port : ℕ) (vaddr : List SocketAddr)
      → dns host port ≡ some vaddr
      → (check_outbound_blocked dns acl (Address.domain_name_address host port) ≡ false) ↔ (
          (check_host_matched acl.outbound_block (convert_to_ascii e host) ≡ false)
          × All (λ a. check_ip_matched acl.outbound_block (socket_ip a) ≡ false) vaddr)
  unfolding check_outbound_blocked
  check_outbound_blocked_iff dns acl host port vaddr resolved =
      ground (arith, any_matched_iff acl.outbound_block vaddr)

  -- A host on the white list is never bypassed, whatever the mode, the resolver and the black list.
  pub check_target_bypassed_white :
      (dns : Resolver) (acl : AccessControl e) (host : List ℕ) (port : ℕ)
      → check_host_matched acl.white_list (convert_to_ascii e host) ≡ true
      → check_target_bypassed dns acl (Address.domain_name_address host port) ≡ false
  unfolding check_target_bypassed check_host_in_proxy_list check_ascii_host_in_proxy_list
  check_target_bypassed_white dns acl host port white = ground arith

  -- A host that is on no list and resolves, where the mode's list has IP rules, goes through the proxy
  -- exactly if all the addresses that it resolves to do.
  pub check_target_bypassed_resolved_iff :
      (dns : Resolver) (acl : AccessControl e) (host : List ℕ) (port : ℕ) (vaddr : List SocketAddr)
      → check_host_in_proxy_list acl host ≡ none
      → is_ip_empty acl ≡ false
      → dns host port ≡ some vaddr
      → (check_target_bypassed dns acl (Address.domain_name_address host port) ≡ false)
        ↔ All (λ a. check_ip_in_proxy_list acl (socket_ip a) ≡ true) vaddr
  unfolding check_target_bypassed
  check_target_bypassed_resolved_iff dns acl host port vaddr unlisted rules resolved =
      ground (arith, any_bypassed_iff acl vaddr)
