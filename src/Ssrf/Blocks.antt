-- ===== src/Ssrf/Blocks.antt =====
-- The blocklist of src/ssrf.rs read as address blocks in CIDR notation.
use browser_headless.Base.{
  ℕ, ◌+◌, ◌*◌, ◌/◌, ◌%◌, ◌^◌, ◌≤◌, ◌<◌, ◌≡◌, refl, sym, ◌∙◌, Bool, true, false, ◌&&◌, ◌||◌, List,
  [], ◌∷◌, bit_and, any, arith, leb, ◌==◌, table, table-lt,
}
use browser_headless.Ssrf.{Ipv4Addr, Ipv6Addr, is_blocked_ipv4, is_blocked_ipv6, to_ipv4_mapped}

-- Four octets.
abbrev pub IsIpv4 : Ipv4Addr → Type 0
IsIpv4 ip = (ip.a < 256) × (ip.b < 256) × (ip.c < 256) × (ip.d < 256)

-- The address as a 32-bit number.
abbrev pub to_bits : Ipv4Addr → ℕ
to_bits ip = ip.a * 2 ^ 24 + ip.b * 2 ^ 16 + ip.c * 2 ^ 8 + ip.d

-- An address block: a first address and how many addresses it has.
abbrev pub Block : Type 0
Block = ℕ × ℕ

abbrev pub octets : ℕ → ℕ → ℕ → ℕ → ℕ
octets a b c d = a * 2 ^ 24 + b * 2 ^ 16 + c * 2 ^ 8 + d

-- `a.b.c.d/len` is `cidr a b c d (32 - len)`.
abbrev pub cidr : ℕ → ℕ → ℕ → ℕ → ℕ → Block
cidr a b c d free = (octets a b c d, 2 ^ free)

abbrev pub lies_in : ℕ → Block → Bool
lies_in n (base, size) = leb base n && leb (n + 1) (base + size)

-- 0/8, 10/8, 100.64/10, 127/8, 169.254/16, 172.16/12, 192.0.2/24, 192.168/16, 198.51.100/24,
-- 203.0.113/24 and 255.255.255.255/32.
abbrev pub blocked_blocks : List Block
blocked_blocks =
    cidr 0 0 0 0 24
    ∷ cidr 10 0 0 0 24
    ∷ cidr 100 64 0 0 22
    ∷ cidr 127 0 0 0 24
    ∷ cidr 169 254 0 0 16
    ∷ cidr 172 16 0 0 20
    ∷ cidr 192 0 2 0 8
    ∷ cidr 192 168 0 0 16
    ∷ cidr 198 51 100 0 8
    ∷ cidr 203 0 113 0 8
    ∷ cidr 255 255 255 255 0
    ∷ []

-- Both true or both false.
abbrev same : Bool → Bool → Bool
same true b = b
same false true = false
same false false = true

same_eq : (a b : Bool) → same a b ≡ true → a ≡ b
same_eq true b h = sym h
same_eq false true h = h
same_eq false false h = refl

cgnat_table : table (λ x. same (bit_and x 0xc0 == 64) (leb 64 x && leb x 127)) 256 ≡ true
unfolding table
cgnat_table = refl

cgnat_mask : (x : ℕ) → x < 256 → (bit_and x 0xc0 == 64) ≡ (leb 64 x && leb x 127)
cgnat_mask x h = same_eq _ _ (table-lt 256 x _ h cgnat_table)

module _ (ip : Ipv4Addr) (v : IsIpv4 ip) where
  in_0 : lies_in (to_bits ip) (cidr 0 0 0 0 24) ≡ (ip.a == 0)
  in_0 = ground arith

  in_10 : lies_in (to_bits ip) (cidr 10 0 0 0 24) ≡ (ip.a == 10)
  in_10 = ground arith

  in_127 : lies_in (to_bits ip) (cidr 127 0 0 0 24) ≡ (ip.a == 127)
  in_127 = ground arith

  in_cgnat : lies_in (to_bits ip) (cidr 100 64 0 0 22) ≡ (ip.a == 100 && bit_and ip.b 0xc0 == 64)
  in_cgnat = rw (cgnat_mask ip.b v.1) (ground arith)

  in_169 : lies_in (to_bits ip) (cidr 169 254 0 0 16) ≡ (ip.a == 169 && ip.b == 254)
  in_169 = ground arith

  in_172 : lies_in (to_bits ip) (cidr 172 16 0 0 20) ≡ (ip.a == 172 && leb 16 ip.b && leb ip.b 31)
  in_172 = ground arith

  in_192_0 : lies_in (to_bits ip) (cidr 192 0 2 0 8) ≡ (ip.a == 192 && ip.b == 0 && ip.c == 2)
  in_192_0 = ground arith

  in_192_168 : lies_in (to_bits ip) (cidr 192 168 0 0 16) ≡ (ip.a == 192 && ip.b == 168)
  in_192_168 = ground arith

  in_198 : lies_in (to_bits ip) (cidr 198 51 100 0 8) ≡ (ip.a == 198 && ip.b == 51 && ip.c == 100)
  in_198 = ground arith

  in_203 : lies_in (to_bits ip) (cidr 203 0 113 0 8) ≡ (ip.a == 203 && ip.b == 0 && ip.c == 113)
  in_203 = ground arith

  in_255 :
      lies_in (to_bits ip) (cidr 255 255 255 255 0)
      ≡ (ip.a == 255 && ip.b == 255 && ip.c == 255 && ip.d == 255)
  in_255 = ground arith

-- The source's tests and the blocks in table order, with `un` (0.0.0.0) inside `z` (0.0.0.0/8).
reorder :
    (lo p10 p172 p192 ll bc un z cg d0 d1 d2 : Bool)
    → (un ≡ true → z ≡ true)
    → (lo || (p10 || p172 || p192) || ll || bc || un || z || cg || (d0 || d1 || d2))
      ≡ any (λ b. b) (z ∷ p10 ∷ cg ∷ lo ∷ ll ∷ p172 ∷ d0 ∷ p192 ∷ d1 ∷ d2 ∷ bc ∷ [])
reorder lo p10 p172 p192 ll bc un z cg d0 d1 d2 h = ground arith

zero_first : (a b c d : ℕ) → (a == 0 && b == 0 && c == 0 && d == 0) ≡ true → (a == 0) ≡ true
zero_first a b c d h = ground arith

-- For an address of four octets, the guard blocks exactly the addresses in the listed blocks.
pub is_blocked_ipv4-blocks :
    (ip : Ipv4Addr) → IsIpv4 ip → is_blocked_ipv4 ip ≡ any (lies_in (to_bits ip)) blocked_blocks
unfolding is_blocked_ipv4
is_blocked_ipv4-blocks ip v =
    reorder (ip.a == 127) (ip.a == 10) (ip.a == 172 && leb 16 ip.b && leb ip.b 31)
      (ip.a == 192 && ip.b == 168) (ip.a == 169 && ip.b == 254)
      (ip.a == 255 && ip.b == 255 && ip.c == 255 && ip.d == 255)
      (ip.a == 0 && ip.b == 0 && ip.c == 0 && ip.d == 0) (ip.a == 0)
      (ip.a == 100 && bit_and ip.b 0xc0 == 64) (ip.a == 192 && ip.b == 0 && ip.c == 2)
      (ip.a == 198 && ip.b == 51 && ip.c == 100) (ip.a == 203 && ip.b == 0 && ip.c == 113)
      (zero_first ip.a ip.b ip.c ip.d)
    ∙ sym (λ i.
      any (λ b. b)
        (in_0 ip v i
          ∷ in_10 ip v i
          ∷ in_cgnat ip v i
          ∷ in_127 ip v i
          ∷ in_169 ip v i
          ∷ in_172 ip v i
          ∷ in_192_0 ip v i
          ∷ in_192_168 ip v i
          ∷ in_198 ip v i
          ∷ in_203 ip v i
          ∷ in_255 ip v i
          ∷ []))

-- No address of the multicast range 224.0.0.0/4 is blocked.
pub is_blocked_ipv4-multicast :
    (ip : Ipv4Addr) → 224 ≤ ip.a → ip.a < 240 → is_blocked_ipv4 ip ≡ false
unfolding is_blocked_ipv4
is_blocked_ipv4-multicast ip h k = ground arith

mask_table :
    (table (λ x. same (bit_and x 0xff00 == 0xff00) (leb 0xff00 x)) 65536 ≡ true)
    × (table (λ x. same (bit_and x 0xffc0 == 0xfe80) (leb 0xfe80 x && leb x 0xfebf)) 65536 ≡ true)
    × (table (λ x. same (bit_and x 0xfe00 == 0xfc00) (leb 0xfc00 x && leb x 0xfdff)) 65536 ≡ true)
unfolding table
mask_table = (refl, refl, refl)

mask_multicast : (x : ℕ) → x < 65536 → (bit_and x 0xff00 == 0xff00) ≡ leb 0xff00 x
mask_multicast x h = same_eq _ _ (table-lt 65536 x _ h mask_table.0)

mask_link_local :
    (x : ℕ) → x < 65536 → (bit_and x 0xffc0 == 0xfe80) ≡ (leb 0xfe80 x && leb x 0xfebf)
mask_link_local x h = same_eq _ _ (table-lt 65536 x _ h mask_table.1)

mask_ula : (x : ℕ) → x < 65536 → (bit_and x 0xfe00 == 0xfc00) ≡ (leb 0xfc00 x && leb x 0xfdff)
mask_ula x h = same_eq _ _ (table-lt 65536 x _ h mask_table.2)

-- The last six segments of ::, of ::1 and of ::ffff:a.b.c.d are told apart from the first.
abbrev pub is_low : Ipv6Addr → Bool
is_low ip =
    ip.s0 == 0
    && ip.s1 == 0
    && ip.s2 == 0
    && ip.s3 == 0
    && ip.s4 == 0
    && ip.s5 == 0
    && ip.s6 == 0
    && leb ip.s7 1

abbrev pub is_mapped : Ipv6Addr → Bool
is_mapped ip = ip.s0 == 0 && ip.s1 == 0 && ip.s2 == 0 && ip.s3 == 0 && ip.s4 == 0 && ip.s5 == 0xffff

-- The embedded IPv4 address.
abbrev pub embedded : Ipv6Addr → Ipv4Addr
embedded ip = record { a = ip.s6 / 256; b = ip.s6 % 256; c = ip.s7 / 256; d = ip.s7 % 256 }

-- An IPv6 address is blocked exactly if it is :: or ::1, lies in fc00::/7, fe80::/10, ff00::/8 or
-- 2001:db8::/32, or is ::ffff:a.b.c.d with a.b.c.d blocked.
pub is_blocked_ipv6-ranges :
    (ip : Ipv6Addr)
    → ip.s0 < 65536
    → is_blocked_ipv6 ip ≡ (
        is_low ip
        || (leb 0xfc00 ip.s0 && leb ip.s0 0xfdff)
        || (leb 0xfe80 ip.s0 && leb ip.s0 0xfebf)
        || leb 0xff00 ip.s0
        || (ip.s0 == 0x2001 && ip.s1 == 0xdb8)
        || (is_mapped ip && is_blocked_ipv4 (embedded ip)))
unfolding is_blocked_ipv6 to_ipv4_mapped
is_blocked_ipv6-ranges ip h =
    rw (mask_multicast ip.s0 h, mask_link_local ip.s0 h, mask_ula ip.s0 h) (ground arith)
