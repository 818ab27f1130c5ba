-- ===== src/Ssrf.antt =====
-- src/ssrf.rs: the host blocklist of the SSRF guard, checked before a page slot is taken and again
-- at each navigation in the browser. The methods of `std::net` that it calls are written out from
-- their documentation; the `url` crate and the DNS are parameters.
pub mod Blocks
pub mod Guard
use browser_headless.Base.{
  ℕ, ◌/◌, ◌%◌, Bool, true, false, ◌&&◌, ◌||◌, Option, none, some, List, [], ◌∷◌, ◌++◌, bit_and,
  Text, codes, text_eq, show_ℕ, leb, ◌==◌, if◌then◌else◌, unwrap_or, Result, ok, err, ◌>>=◌,
  map_err, ok_or,
}

pub record Ipv4Addr : Type 0 where
  pub a : ℕ
  pub b : ℕ
  pub c : ℕ
  pub d : ℕ

-- The eight 16-bit segments.
pub record Ipv6Addr : Type 0 where
  pub s0 : ℕ
  pub s1 : ℕ
  pub s2 : ℕ
  pub s3 : ℕ
  pub s4 : ℕ
  pub s5 : ℕ
  pub s6 : ℕ
  pub s7 : ℕ

pub data IpAddr : Type 0 where
  v4 : Ipv4Addr → IpAddr
  v6 : Ipv6Addr → IpAddr

pub data SsrfError : Type 0 where
  no_host : SsrfError
  dns_failed : Text → SsrfError
  blocked : Text → SsrfError

unfoldable pub ssrf_message : SsrfError → Text
ssrf_message no_host = codes "URL has no host"
ssrf_message (dns_failed m) = m
ssrf_message (blocked m) = m

-- `Ipv4Addr::is_private` and its siblings.
abbrev is_private : Ipv4Addr → Bool
is_private ip =
    ip.a == 10 || (ip.a == 172 && leb 16 ip.b && leb ip.b 31) || (ip.a == 192 && ip.b == 168)

abbrev is_link_local : Ipv4Addr → Bool
is_link_local ip = ip.a == 169 && ip.b == 254

abbrev is_broadcast : Ipv4Addr → Bool
is_broadcast ip = ip.a == 255 && ip.b == 255 && ip.c == 255 && ip.d == 255

abbrev is_unspecified : Ipv4Addr → Bool
is_unspecified ip = ip.a == 0 && ip.b == 0 && ip.c == 0 && ip.d == 0

abbrev is_documentation : Ipv4Addr → Bool
is_documentation ip =
    (ip.a == 192 && ip.b == 0 && ip.c == 2)
    || (ip.a == 198 && ip.b == 51 && ip.c == 100)
    || (ip.a == 203 && ip.b == 0 && ip.c == 113)

unfoldable pub is_blocked_ipv4 : Ipv4Addr → Bool
is_blocked_ipv4 ip =
    ip.a == 127
    || is_private ip
    || is_link_local ip
    || is_broadcast ip
    || is_unspecified ip
    || ip.a == 0
    || (ip.a == 100 && bit_and ip.b 0xc0 == 64)
    || is_documentation ip

-- `::1`, `::` and ff00::/8.
abbrev is_loopback_v6 : Ipv6Addr → Bool
is_loopback_v6 ip =
    ip.s0 == 0
    && ip.s1 == 0
    && ip.s2 == 0
    && ip.s3 == 0
    && ip.s4 == 0
    && ip.s5 == 0
    && ip.s6 == 0
    && ip.s7 == 1

abbrev is_unspecified_v6 : Ipv6Addr → Bool
is_unspecified_v6 ip =
    ip.s0 == 0
    && ip.s1 == 0
    && ip.s2 == 0
    && ip.s3 == 0
    && ip.s4 == 0
    && ip.s5 == 0
    && ip.s6 == 0
    && ip.s7 == 0

abbrev is_multicast_v6 : Ipv6Addr → Bool
is_multicast_v6 ip = bit_and ip.s0 0xff00 == 0xff00

-- `::ffff:a.b.c.d`.
unfoldable pub to_ipv4_mapped : Ipv6Addr → Option Ipv4Addr
to_ipv4_mapped ip =
    if ip.s0 == 0 && ip.s1 == 0 && ip.s2 == 0 && ip.s3 == 0 && ip.s4 == 0 && ip.s5 == 0xffff
    then some (record { a = ip.s6 / 256; b = ip.s6 % 256; c = ip.s7 / 256; d = ip.s7 % 256 })
    else none

unfoldable pub is_blocked_ipv6 : Ipv6Addr → Bool
is_blocked_ipv6 ip =
    if is_loopback_v6 ip || is_unspecified_v6 ip || is_multicast_v6 ip
    then true
    else if bit_and ip.s0 0xffc0 == 0xfe80
    then true
    else if bit_and ip.s0 0xfe00 == 0xfc00
    then true
    else if ip.s0 == 0x2001 && ip.s1 == 0xdb8
    then true
    else elim (to_ipv4_mapped ip) [ some mapped ↦ is_blocked_ipv4 mapped | none ↦ false ]

unfoldable pub is_blocked_ip : IpAddr → Bool
is_blocked_ip (v4 ip) = is_blocked_ipv4 ip
is_blocked_ip (v6 ip) = is_blocked_ipv6 ip

-- `url::Host`, as its documentation gives it.
pub data Host : Type 0 where
  ipv4 : Ipv4Addr → Host
  ipv6 : Ipv6Addr → Host
  domain : Text → Host

-- What the source uses of the `url` crate, of the system's resolver and of `Display` for addresses.
-- A resolver answers as it does at the time of the call.
pub record Net (Url : Type 0) : Type 0 where
  pub parse : Text → Result Url Text
  pub scheme : Url → Text
  pub host : Url → Option Host
  pub port_or_known_default : Url → Option ℕ
  pub lookup_host : Text → Result (List IpAddr) Text
  pub show_ip : IpAddr → Text

module _ {Url : Type 0} (net : Net Url) where
  -- The loop over the resolved addresses.
  unfoldable pub check_addrs : Text → List IpAddr → Result (Unit {0}) SsrfError
  check_addrs name [] = ok tt
  check_addrs name (addr ∷ addrs) =
      if is_blocked_ip addr
      then err
          (blocked (codes "`" ++ (name ++ (codes "` resolves to blocked IP " ++ net.show_ip addr))))
      else check_addrs name addrs

  unfoldable pub check_host : Host → ℕ → Result (Unit {0}) SsrfError
  check_host (ipv4 ip) port =
      if is_blocked_ipv4 ip
      then err (blocked (codes "blocked IPv4 host: " ++ net.show_ip (v4 ip)))
      else ok tt
  check_host (ipv6 ip) port =
      if is_blocked_ipv6 ip
      then err (blocked (codes "blocked IPv6 host: " ++ net.show_ip (v6 ip)))
      else ok tt
  check_host (domain name) port = do
    addrs ←
        map_err
          (λ e. dns_failed (codes "dns resolution failed for `" ++ (name ++ (codes "`: " ++ e))))
          (net.lookup_host (name ++ (codes ":" ++ show_ℕ port)))
    check_addrs name addrs

  unfoldable pub check_url : Url → Result (Unit {0}) SsrfError
  check_url url = do
    host ← ok_or (net.host url) no_host
    check_host host (unwrap_or (net.port_or_known_default url) 80)

  -- `.err().map(|e| e.to_string())`.
  unfoldable pub blocked_reason : Result (Unit {0}) SsrfError → Option Text
  blocked_reason (ok _) = none
  blocked_reason (err e) = some (ssrf_message e)

  unfoldable pub raw_url_blocked : Text → Option Text
  raw_url_blocked raw = elim (net.parse raw) [
    | err e ↦ none
    | ok url ↦
        if text_eq (net.scheme url) (codes "http") || text_eq (net.scheme url) (codes "https")
        then blocked_reason (check_url url)
        else none
  ]
