-- ===== src/Net.antt =====
-- The address types of `std::net` as the code uses them: an IPv4 address is its four octets, an
-- IPv6 address its eight segments.
use mobile_android_obfuscati.Common.{ℕ, ◌+◌, ◌*◌, ◌/◌, ◌%◌, ◌^◌, ◌&&◌, ◌==◌, Bool, List, [], ◌∷◌}
use mobile_android_obfuscati.Common.{Option, none, some, if◌then◌else◌}
use mobile_android_obfuscati.Common.Bytes.{IsByte, IsU16}

pub record Ipv4Addr : Type 0 where
  pub a : ℕ
  pub b : ℕ
  pub c : ℕ
  pub d : ℕ

pub record Ipv6Addr : Type 0 where
  pub s0 : ℕ
  pub s1 : ℕ
  pub s2 : ℕ
  pub s3 : ℕ
  pub s4 : ℕ
  pub s5 : ℕ
  pub s6 : ℕ
  pub s7 : ℕ

pub data IpAddr : Type 0 where
  v4 : Ipv4Addr → IpAddr
  v6 : Ipv6Addr → IpAddr

pub record SocketAddrV4 : Type 0 where
  pub ip : Ipv4Addr
  pub port : ℕ

pub record SocketAddrV6 : Type 0 where
  pub ip : Ipv6Addr
  pub port : ℕ
  pub flowinfo : ℕ
  pub scope_id : ℕ

pub data SocketAddr : Type 0 where
  v4 : SocketAddrV4 → SocketAddr
  v6 : SocketAddrV6 → SocketAddr

-- `Ipv4Addr::from(u32)`
abbrev pub ipv4_from_u32 : ℕ → Ipv4Addr
ipv4_from_u32 n = record {
  a = n / 2 ^ 24 % 256;
  b = n / 2 ^ 16 % 256;
  c = n / 2 ^ 8 % 256;
  d = n % 256;
}

-- `Ipv6Addr::from(u128)`
abbrev pub ipv6_from_u128 : ℕ → Ipv6Addr
ipv6_from_u128 n = record {
  s0 = n / 2 ^ 112 % 65536;
  s1 = n / 2 ^ 96 % 65536;
  s2 = n / 2 ^ 80 % 65536;
  s3 = n / 2 ^ 64 % 65536;
  s4 = n / 2 ^ 48 % 65536;
  s5 = n / 2 ^ 32 % 65536;
  s6 = n / 2 ^ 16 % 65536;
  s7 = n % 65536;
}

-- `Ipv4Addr::octets`
abbrev pub octets : Ipv4Addr → List ℕ
octets ip = ip.a ∷ ip.b ∷ ip.c ∷ ip.d ∷ []

-- `Ipv6Addr::segments`
abbrev pub segments : Ipv6Addr → List ℕ
segments ip = ip.s0 ∷ ip.s1 ∷ ip.s2 ∷ ip.s3 ∷ ip.s4 ∷ ip.s5 ∷ ip.s6 ∷ ip.s7 ∷ []

-- `SocketAddr::ip`, `SocketAddr::port`
abbrev pub socket_ip : SocketAddr → IpAddr
socket_ip (SocketAddr.v4 s) = IpAddr.v4 s.ip
socket_ip (SocketAddr.v6 s) = IpAddr.v6 s.ip

abbrev pub socket_port : SocketAddr → ℕ
socket_port (SocketAddr.v4 s) = s.port
socket_port (SocketAddr.v6 s) = s.port

-- `Ipv4Addr::to_ipv6_mapped`, `Ipv6Addr::to_ipv4_mapped`
abbrev pub to_ipv6_mapped : Ipv4Addr → Ipv6Addr
to_ipv6_mapped ip = record {
  s0 = 0;
  s1 = 0;
  s2 = 0;
  s3 = 0;
  s4 = 0;
  s5 = 0xffff;
  s6 = ip.a * 256 + ip.b;
  s7 = ip.c * 256 + ip.d;
}

abbrev is_mapped : Ipv6Addr → Bool
is_mapped ip = ip.s0 == 0 && ip.s1 == 0 && ip.s2 == 0 && ip.s3 == 0 && ip.s4 == 0 && ip.s5 == 0xffff

unfoldable pub to_ipv4_mapped : Ipv6Addr → Option Ipv4Addr
to_ipv4_mapped ip =
    if is_mapped ip
    then some (record { a = ip.s6 / 256; b = ip.s6 % 256; c = ip.s7 / 256; d = ip.s7 % 256 })
    else none

-- The ranges of the machine integers.
abbrev pub IsIpv4 : Ipv4Addr → Type 0
IsIpv4 ip = IsByte ip.a × IsByte ip.b × IsByte ip.c × IsByte ip.d

abbrev pub IsIpv6 : Ipv6Addr → Type 0
IsIpv6 ip =
    IsU16 ip.s0
    × IsU16 ip.s1
    × IsU16 ip.s2
    × IsU16 ip.s3
    × IsU16 ip.s4
    × IsU16 ip.s5
    × IsU16 ip.s6
    × IsU16 ip.s7
