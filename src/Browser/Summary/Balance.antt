-- ===== src/Browser/Summary/Balance.antt =====
-- The counts of `build_resource_summary` of src/browser/mod.rs add up.
use browser_headless.Base.{
  ℕ, suc, ◌+◌, ◌≤◌, ◌≡◌, refl, sym, inl, inr, arith, Option, none, some, List, [], ◌∷◌, Text,
  length, sum, map, All, get_elem?, ◌⊎◌, Bool-cases, ltb, subst,
}
use browser_headless.Base.Dicts.{Dict}
use browser_headless.Browser.Resource.{ParsedUrl, WebPageResource}
use browser_headless.Browser.Summary.Report.{
  ResourceSummary, target_host_of, build_resource_summary,
}
use browser_headless.Browser.Summary.Rankings.{top_domains}
use browser_headless.Browser.Summary.Hosts.{
  bytes_at, count_at, is_third_party, is_third_party_script, bytes_where, count_where,
  tally-HostTally,
}
use browser_headless.Browser.Analysis.{mime_bucket}
use browser_headless.Browser.Summary.{
  add, add_bytes, TypeCounts, NetworkCounts, HostCounts, Tally, no_tally, count_image,
  count_source_map, status_bucket, count_cache_control, count_types, coding, count_compression,
  proto_of, count_connection, count_network, add_host, host_of, count_third_party, count_host,
  count_largest, tally_one, tally,
}

abbrev pub sum_values : Dict ℕ → ℕ
sum_values [] = 0
sum_values ((k, n) ∷ d) = n + sum_values d

abbrev pub sum_bytes : Dict (ℕ × ℕ) → ℕ
sum_bytes [] = 0
sum_bytes ((k, (b, c)) ∷ d) = b + sum_bytes d

sum_values-add : (k : Text) (n : ℕ) (d : Dict ℕ) → sum_values (add k n d) ≡ sum_values d + n
unfolding add
sum_values-add k n [] = omega arith
sum_values-add k n ((j, m) ∷ d) = ground (arith, sum_values-add k n d)

sum_bytes-add_bytes :
    (k : Text) (n : ℕ) (d : Dict (ℕ × ℕ)) → sum_bytes (add_bytes k n d) ≡ sum_bytes d + n
unfolding add_bytes
sum_bytes-add_bytes k n [] = omega arith
sum_bytes-add_bytes k n ((j, (b, c)) ∷ d) = ground (arith, sum_bytes-add_bytes k n d)

-- The counts by type after `n` resources with so many bytes.
pub record TypesBalance (n bytes : ℕ) (t : TypeCounts) : Type 0 where
  pub all_bytes : sum_values t.bytes_by_type ≡ bytes
  pub all_counted : sum_values t.count_by_type ≡ n
  pub all_statuses : sum_values t.status_distribution ≡ n
  pub cache_controls : t.cache_control_present + t.cache_control_missing ≡ n
  pub images : t.legacy_image_bytes + t.modern_image_bytes ≤ bytes
  pub source_maps : t.source_maps_present + t.source_maps_missing ≤ n

-- The counts of responses from the cache and from the network.
pub record NetworkBalance (n bytes : ℕ) (t : NetworkCounts) : Type 0 where
  pub hits : t.cache_hits + t.real_network_responses ≡ n
  pub connections : t.connections_reused + t.connections_new ≡ t.real_network_responses
  pub protocols : sum_values t.protocol_distribution ≡ t.real_network_responses
  pub modern : t.modern_protocol_hits ≤ t.real_network_responses
  pub sizes : t.cached_bytes + t.uncompressed_text_bytes ≤ bytes
  pub codings : t.compressed_count + t.uncompressed_text_count ≤ t.real_network_responses
  pub breakdown : t.uncompressed_text_count ≤ sum_values t.compression_breakdown
  pub broken_down :
      sum_values t.compression_breakdown ≤ t.compressed_count + t.uncompressed_text_count

-- The bytes of other hosts.
pub record HostsBalance (n bytes : ℕ) (t : HostCounts) : Type 0 where
  pub by_host : sum_bytes t.third_party_by_host ≡ t.third_party_bytes
  pub scripts_by_host : sum_bytes t.third_party_scripts_by_host ≡ t.third_party_script_bytes
  pub scripts : t.third_party_script_bytes ≤ t.third_party_bytes
  pub third_party : t.third_party_bytes ≤ bytes
  pub hosts : length t.hosts ≤ n

module _ (n bytes : ℕ) (r : WebPageResource) where
  count_types-Balance :
      (t : TypeCounts)
      → TypesBalance n bytes t
      → TypesBalance (suc n) (bytes + r.content_size) (count_types r t)
  unfolding count_types count_image count_source_map count_cache_control
  count_types-Balance t h = ground (
    arith,
    sum_values-add (mime_bucket r.mime_type) r.content_size t.bytes_by_type,
    sum_values-add (mime_bucket r.mime_type) 1 t.count_by_type,
    sum_values-add (status_bucket r.status) 1 t.status_distribution,
  )

  count_network-Balance :
      (t : NetworkCounts)
      → NetworkBalance n bytes t
      → NetworkBalance (suc n) (bytes + r.content_size) (count_network r t)
  unfolding count_network count_connection count_compression
  count_network-Balance t h = ground (
    arith,
    sum_values-add (proto_of r) 1 t.protocol_distribution,
    sum_values-add (coding r.content_encoding) 1 t.compression_breakdown,
  )

  count_host-Balance :
      (target_host : Text) (h : Option Text) (t : HostCounts)
      → HostsBalance n bytes t
      → HostsBalance (suc n) (bytes + r.content_size) (count_host target_host r h t)
  unfolding count_host count_third_party add_host
  count_host-Balance target_host none t b = ground arith
  count_host-Balance target_host (some h) t b = ground (
    arith,
    sum_bytes-add_bytes h r.content_size t.third_party_by_host,
    sum_bytes-add_bytes h r.content_size t.third_party_scripts_by_host,
  )

abbrev Balanced : ℕ → ℕ → Tally → Type 0
Balanced n bytes t =
    TypesBalance n bytes t.types × NetworkBalance n bytes t.network × HostsBalance n bytes t.by_host

-- The bytes of all resources.
abbrev pub total_bytes : List WebPageResource → ℕ
total_bytes rs = sum (map (λ r. r.content_size) rs)

Balanced-eq :
    (n m bytes total : ℕ) (t : Tally)
    → n ≡ m
    → bytes ≡ total
    → Balanced n bytes t
    → Balanced m total t
Balanced-eq n m bytes total t e f h =
    subst (λ k. Balanced k total t) e (subst (λ b. Balanced n b t) f h)

tally-Balanced :
    (target_host : Text) (rs : List WebPageResource) (t : Tally) (n bytes : ℕ)
    → Balanced n bytes t
    → Balanced (length rs + n) (total_bytes rs + bytes) (tally target_host rs t)
unfolding tally tally_one
tally-Balanced target_host [] t n bytes h =
    Balanced-eq n (0 + n) bytes (0 + bytes) t (omega arith) (omega arith) h
tally-Balanced target_host (r ∷ rs) t n bytes (a, b, c) =
    Balanced-eq (length rs + suc n) (suc (length rs) + n)
      (total_bytes rs + (bytes + r.content_size)) (total_bytes (r ∷ rs) + bytes)
      (tally target_host rs (tally_one target_host r t)) (omega arith) (omega arith)
      (tally-Balanced target_host rs (tally_one target_host r t) (suc n) (bytes + r.content_size) (
        count_types-Balance n bytes r t.types a,
        count_network-Balance n bytes r t.network b,
        count_host-Balance n bytes r target_host (host_of r) t.by_host c,
      ))

no_tally-Balanced : Balanced 0 0 no_tally
no_tally-Balanced = omega arith

tally-whole :
    (target_host : Text) (rs : List WebPageResource)
    → Balanced (length rs) (total_bytes rs) (tally target_host rs no_tally)
tally-whole target_host rs =
    Balanced-eq (length rs + 0) (length rs) (total_bytes rs + 0) (total_bytes rs)
      (tally target_host rs no_tally) (omega arith) (omega arith)
      (tally-Balanced target_host rs no_tally 0 0 no_tally-Balanced)

-- The loop's `largest` alone.
fold_largest : List WebPageResource → Option (Text × ℕ) → Option (Text × ℕ)
fold_largest [] best = best
fold_largest (r ∷ rs) best = fold_largest rs (count_largest r best)

tally-largest :
    (target_host : Text) (rs : List WebPageResource) (t : Tally)
    → (tally target_host rs t).largest ≡ fold_largest rs t.largest
unfolding tally tally_one fold_largest
tally-largest target_host [] t = refl
tally-largest target_host (r ∷ rs) t = tally-largest target_host rs (tally_one target_host r t)

-- A resource with that URL and size is among them.
abbrev pub IsAmong : List WebPageResource → Text → ℕ → Type 0
IsAmong rs url size =
    (i : ℕ) × (r : WebPageResource) × (get_elem? rs i ≡ some r)
    × (r.url ≡ url)
    × (r.content_size ≡ size)

fold_largest-some :
    (rs : List WebPageResource) (u : Text) (s : ℕ)
    → (v : Text) × (m : ℕ) × (fold_largest rs (some (u, s)) ≡ some (v, m))
      × (s ≤ m)
      × All (λ r. r.content_size ≤ m) rs
      × (((v ≡ u) × (m ≡ s)) ⊎ IsAmong rs v m)
unfolding fold_largest count_largest
fold_largest-some [] u s = (u, s, refl, omega arith, tt, inl (refl, refl))
fold_largest-some (r ∷ rs) u s = elim (Bool-cases (ltb s r.content_size)) [
  | inl larger ↦
      let (v, m, e, le, all, from) = fold_largest-some rs r.url r.content_size in
      (
        v,
        m,
        rw larger e,
        ground arith,
        (le, all),
        inr (elim from [
          | inl (a, b) ↦ (0, r, refl, sym a, sym b)
          | inr (i, x, at, a, b) ↦ (suc i, x, at, a, b)
        ]),
      )
  | inr smaller ↦
      let (v, m, e, le, all, from) = fold_largest-some rs u s in
      (
        v,
        m,
        rw smaller e,
        le,
        (ground arith, all),
        elim from [ inl same ↦ inl same | inr (i, x, at, a, b) ↦ inr (suc i, x, at, a, b) ],
      )
]

-- Nothing is larger than the largest resource, and it is one of them; without resources there is none.
abbrev pub IsLargest : List WebPageResource → Option (Text × ℕ) → Type 0
IsLargest rs none = rs ≡ []
IsLargest rs (some (url, size)) = All (λ r. r.content_size ≤ size) rs × IsAmong rs url size

fold_largest-IsLargest : (rs : List WebPageResource) → IsLargest rs (fold_largest rs none)
unfolding fold_largest count_largest
fold_largest-IsLargest [] = refl
fold_largest-IsLargest (r ∷ rs) =
    let (v, m, e, le, all, from) = fold_largest-some rs r.url r.content_size in
    rw e (
      (le, all),
      elim from [
        | inl (a, b) ↦ (0, r, refl, sym a, sym b)
        | inr (i, x, at, a, b) ↦ (suc i, x, at, a, b)
      ],
    )

-- Two maps of other hosts, all and those with scripts, as the summary shows them: they make up the totals, the
-- rankings are theirs, and what they have of a host is its resources' bytes and number.
pub record HostsShown (target_host host : Text) (rs : List WebPageResource) (t : HostCounts)
    (s : ResourceSummary) : Type 0 where
  pub by_host : sum_bytes t.third_party_by_host ≡ s.third_party_bytes
  pub scripts_by_host : sum_bytes t.third_party_scripts_by_host ≡ s.third_party_script_bytes
  pub domains : s.top_third_party_domains ≡ top_domains t.third_party_by_host
  pub origins : s.third_party_script_origins ≡ top_domains t.third_party_scripts_by_host
  pub host_bytes :
      bytes_at host t.third_party_by_host ≡ bytes_where (is_third_party target_host host) rs
  pub host_count :
      count_at host t.third_party_by_host ≡ count_where (is_third_party target_host host) rs
  pub script_bytes :
      bytes_at host t.third_party_scripts_by_host
      ≡ bytes_where (is_third_party_script target_host host) rs
  pub script_count :
      count_at host t.third_party_scripts_by_host
      ≡ count_where (is_third_party_script target_host host) rs

summary-HostsShown :
    (parse : Text → Option ParsedUrl) (resources : List WebPageResource) (target_url host : Text)
    → HostsShown
        (target_host_of (parse target_url))
        host
        resources
        (tally (target_host_of (parse target_url)) resources no_tally).by_host
        (build_resource_summary parse resources target_url)
unfolding build_resource_summary
summary-HostsShown parse resources target_url host =
    let target_host = target_host_of (parse target_url) in
    let (types, network, hosts) = tally-whole target_host resources in
    let own = tally-HostTally target_host host resources no_tally in
    record {
      by_host = hosts.by_host;
      scripts_by_host = hosts.scripts_by_host;
      domains = refl;
      origins = refl;
      host_bytes = omega (arith, own.bytes);
      host_count = omega (arith, own.counted);
      script_bytes = omega (arith, own.script_bytes);
      script_count = omega (arith, own.scripts_counted);
    }

-- The summary's counts add up: bytes, MIME types, statuses and cache headers over all resources, cache hits and
-- network responses, new and reused connections and protocols over the network responses, compressed and
-- uncompressed text within them. The maps of other hosts that the two rankings show, all and those with scripts,
-- make up the third-party bytes, those of scripts being a part, and have for every host exactly the bytes and the
-- number of its resources. And the largest resource is one of the resources, with no larger one.
pub build_resource_summary-Balance :
    (parse : Text → Option ParsedUrl) (resources : List WebPageResource) (target_url host : Text)
    → let s = build_resource_summary parse resources target_url in
      TypesBalance (length resources) (total_bytes resources) s.types
      × NetworkBalance (length resources) (total_bytes resources) s.network
      × HostsShown
          (target_host_of (parse target_url))
          host
          resources
          (tally (target_host_of (parse target_url)) resources no_tally).by_host
          s
      × (s.third_party_script_bytes ≤ s.third_party_bytes)
      × (s.third_party_bytes ≤ total_bytes resources)
      × (s.unique_hosts ≤ length resources)
      × IsLargest resources s.largest_resource
unfolding build_resource_summary
build_resource_summary-Balance parse resources target_url host =
    let target_host = target_host_of (parse target_url) in
    let (types, network, hosts) = tally-whole target_host resources in
    (
      types,
      network,
      summary-HostsShown parse resources target_url host,
      hosts.scripts,
      hosts.third_party,
      hosts.hosts,
      subst (IsLargest resources) (sym (tally-largest target_host resources no_tally))
          (fold_largest-IsLargest resources),
    )
