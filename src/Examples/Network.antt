-- ===== src/Examples/Network.antt =====
-- The address checks, the redirect guard, the knobs and the rate limiter at concrete inputs.
use browser_headless.Base.{
  ◌+◌, ◌-◌, ◌*◌, ◌≤◌, ◌≡◌, refl, ◌↔◌, ◌&&◌, ◌||◌, none, some, [], ◌∷◌, arith, Text, codes, text_eq,
  if◌then◌else◌, leb, ◌==◌, any, ok,
}
use browser_headless.Config.{Env}
use browser_headless.RateLimit.{Bucket, one_token}
use browser_headless.RateLimit.Bound.{admitted, last_time, admitted_bound}
use browser_headless.Ssrf.{
  Ipv4Addr, Ipv6Addr, v4, ipv4, domain, Net, is_blocked_ipv4, is_blocked_ipv6, check_url,
  check_host, raw_url_blocked, blocked_reason,
}
use browser_headless.Ssrf.Blocks.{
  is_blocked_ipv4-blocks, is_blocked_ipv6-ranges, lies_in, to_bits, blocked_blocks, is_low,
  is_mapped, embedded,
}
use browser_headless.Ssrf.Guard.{IsReachable, check_url_iff}
use browser_headless.Browser.Intercept.{
  blocked_types, on_request, on_paused, visited, same_type, ResourceType-discrete, patterns,
  parse_resource_type, visited-IsReachable,
}

-- No variable is set.
abbrev pub empty_env : Env
empty_env key = none

abbrev pub private_ip : Ipv4Addr
private_ip = record { a = 10; b = 0; c = 0; d = 7 }

abbrev pub public_ip : Ipv4Addr
public_ip = record { a = 93; b = 184; c = 216; d = 34 }

abbrev mapped_ip : Ipv6Addr
mapped_ip = record { s0 = 0; s1 = 0; s2 = 0; s3 = 0; s4 = 0; s5 = 0xffff; s6 = 0x0a00; s7 = 7 }

abbrev pub internal_url : Text
internal_url = codes "https://intranet/"

abbrev pub public_url : Text
public_url = codes "https://example.com/"

-- Every text is a URL of the scheme https; one name resolves to a private address.
abbrev pub small_net : Net Text
small_net = record {
  parse = λ raw. ok raw;
  scheme = λ url. codes "https";
  host =
      λ url. some (if text_eq url internal_url then domain (codes "intranet") else ipv4 public_ip);
  port_or_known_default = λ url. some 443;
  lookup_host = λ name. ok (v4 private_ip ∷ []);
  show_ip = λ ip. codes "ip";
}

abbrev small_bucket : Bucket
small_bucket = record { tokens = 2000000000; capacity = 2000000000; refill_per_sec = 1; last = 0 }

is_blocked_ipv4-blocks_example :
    is_blocked_ipv4 private_ip ≡ any (lies_in (to_bits private_ip)) blocked_blocks
is_blocked_ipv4-blocks_example =
    is_blocked_ipv4-blocks private_ip (omega arith, omega arith, omega arith, omega arith)

is_blocked_ipv6-ranges_example : is_blocked_ipv6 mapped_ip ≡ (
    is_low mapped_ip
    || (leb 0xfc00 0 && leb 0 0xfdff)
    || (leb 0xfe80 0 && leb 0 0xfebf)
    || leb 0xff00 0
    || (0 == 0x2001 && 0 == 0xdb8)
    || (is_mapped mapped_ip && is_blocked_ipv4 (embedded mapped_ip)))
is_blocked_ipv6-ranges_example = is_blocked_ipv6-ranges mapped_ip (omega arith)

check_url_iff_example :
    (check_url small_net internal_url ≡ ok tt) ↔ IsReachable small_net internal_url
check_url_iff_example = check_url_iff small_net internal_url

visited-IsReachable_example : IsReachable small_net public_url
unfolding visited on_request blocked_types same_type ResourceType-discrete on_paused patterns
    parse_resource_type raw_url_blocked blocked_reason check_url check_host is_blocked_ipv4 text_eq
    codes
visited-IsReachable_example =
    visited-IsReachable small_net [] (public_url ∷ internal_url ∷ []) 0 public_url public_url refl
      refl refl

admitted_bound_example :
    admitted (some small_bucket) (0 ∷ 1 ∷ 1000 ∷ []) * one_token
    ≤ 2000000000 + (last_time 0 (0 ∷ 1 ∷ 1000 ∷ []) - 0) * 1
admitted_bound_example =
    admitted_bound small_bucket (0 ∷ 1 ∷ 1000 ∷ []) (omega arith, (omega arith, (omega arith, tt)))
