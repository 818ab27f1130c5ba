-- ===== src/Browser/Summary.antt =====
-- `build_resource_summary` of src/browser/mod.rs: the loop over the resources of a page, and what it counts. A map of
-- counts is a list of entries in some order; ratios are kept as their two numbers.
pub mod Rankings
pub mod Duplicates
pub mod Hints
pub mod Report
pub mod Balance
pub mod Hosts
use browser_headless.Base.{
  ℕ, ◌+◌, ◌≤◌, Bool, true, false, not, ◌&&◌, ◌||◌, Option, none, some, List, [], ◌∷◌, Text, codes,
  text_eq, starts_with, to_ascii_lowercase, split, trim, leb, ltb, if◌then◌else◌, is_empty, is_some,
  any, unwrap_or,
}
use browser_headless.Base.Dicts.{Dict, lookup, insert}
use browser_headless.Browser.Resource.{WebPageResource}
use browser_headless.Browser.Analysis.{mime_bucket, is_text_compressible, first_or}

-- `*map.entry(k).or_insert(0) += n`.
unfoldable pub add : Text → ℕ → Dict ℕ → Dict ℕ
add k n [] = (k, n) ∷ []
add k n ((j, m) ∷ rest) = if text_eq j k then (j, m + n) ∷ rest else (j, m) ∷ add k n rest

-- The entry's bytes grow by `n` and its count by 1.
unfoldable pub add_bytes : Text → ℕ → Dict (ℕ × ℕ) → Dict (ℕ × ℕ)
add_bytes k n [] = (k, (n, 1)) ∷ []
add_bytes k n ((j, (b, c)) ∷ rest) =
    if text_eq j k then (j, (b + n, c + 1)) ∷ rest else (j, (b, c)) ∷ add_bytes k n rest

pub record TypeCounts : Type 0 where
  pub bytes_by_type : Dict ℕ
  pub count_by_type : Dict ℕ
  pub cache_control_present : ℕ
  pub cache_control_missing : ℕ
  pub legacy_image_bytes : ℕ
  pub modern_image_bytes : ℕ
  pub source_maps_present : ℕ
  pub source_maps_missing : ℕ
  pub status_distribution : Dict ℕ

pub record NetworkCounts : Type 0 where
  pub cache_hits : ℕ
  pub cached_bytes : ℕ
  pub real_network_responses : ℕ
  pub connections_reused : ℕ
  pub connections_new : ℕ
  pub modern_protocol_hits : ℕ
  pub protocol_distribution : Dict ℕ
  pub compression_breakdown : Dict ℕ
  pub compressed_count : ℕ
  pub uncompressed_text_count : ℕ
  pub uncompressed_text_bytes : ℕ

pub record HostCounts : Type 0 where
  pub hosts : List Text
  pub third_party_bytes : ℕ
  pub third_party_by_host : Dict (ℕ × ℕ)
  pub third_party_script_bytes : ℕ
  pub third_party_scripts_by_host : Dict (ℕ × ℕ)

-- The variables of the loop.
pub record Tally : Type 0 where
  pub types : TypeCounts
  pub network : NetworkCounts
  pub by_host : HostCounts
  pub largest : Option (Text × ℕ)

unfoldable pub count_image : WebPageResource → TypeCounts → TypeCounts
count_image r t =
    let m = to_ascii_lowercase r.mime_type in
    if text_eq m (codes "image/jpeg")
      || text_eq m (codes "image/png")
      || text_eq m (codes "image/gif")
    then record t { legacy_image_bytes = t.legacy_image_bytes + r.content_size }
    else if text_eq m (codes "image/webp") || text_eq m (codes "image/avif")
    then record t { modern_image_bytes = t.modern_image_bytes + r.content_size }
    else t

unfoldable pub count_source_map : WebPageResource → TypeCounts → TypeCounts
count_source_map r t =
    let bucket = mime_bucket r.mime_type in
    if text_eq bucket (codes "javascript") || text_eq bucket (codes "css")
    then (if r.has_source_map
        then record t { source_maps_present = t.source_maps_present + 1 }
        else record t { source_maps_missing = t.source_maps_missing + 1 })
    else t

unfoldable pub status_bucket : ℕ → Text
status_bucket status =
    if leb 100 status && leb status 199
    then codes "1xx"
    else if leb 200 status && leb status 299
    then codes "2xx"
    else if leb 300 status && leb status 399
    then codes "3xx"
    else if leb 400 status && leb status 499
    then codes "4xx"
    else if leb 500 status && leb status 599
    then codes "5xx"
    else codes "other"

unfoldable pub count_cache_control : WebPageResource → TypeCounts → TypeCounts
count_cache_control r t =
    if is_some r.cache_control
    then record t { cache_control_present = t.cache_control_present + 1 }
    else record t { cache_control_missing = t.cache_control_missing + 1 }

unfoldable pub count_types : WebPageResource → TypeCounts → TypeCounts
unfolding add count_image count_source_map count_cache_control status_bucket
count_types r t =
    let t' = count_source_map r (count_image r (count_cache_control r t)) in
    record t' {
      bytes_by_type = add (mime_bucket r.mime_type) r.content_size t.bytes_by_type;
      count_by_type = add (mime_bucket r.mime_type) 1 t.count_by_type;
      status_distribution = add (status_bucket r.status) 1 t.status_distribution;
    }

-- The first coding in `Content-Encoding`, if it has a name.
unfoldable pub coding : Option Text → Text
coding none = codes "none"
coding (some e) =
    let algo = to_ascii_lowercase (trim (first_or e (split b',' e))) in
    if is_empty algo then codes "none" else algo

-- The compression audit of a response from the network.
unfoldable pub count_compression : WebPageResource → NetworkCounts → NetworkCounts
unfolding add coding
count_compression r n =
    let broken_down =
      if is_text_compressible r.mime_type
      then add (coding r.content_encoding) 1 n.compression_breakdown
      else n.compression_breakdown in
    if is_some r.content_encoding
    then record n { compression_breakdown = broken_down; compressed_count = n.compressed_count + 1 }
    else if is_text_compressible r.mime_type
    then record n {
      compression_breakdown = broken_down;
      uncompressed_text_count = n.uncompressed_text_count + 1;
      uncompressed_text_bytes = n.uncompressed_text_bytes + r.content_size;
    }
    else record n { compression_breakdown = broken_down }

-- `to_lowercase` of a protocol's name, which is ASCII.
unfoldable pub proto_of : WebPageResource → Text
proto_of r = if is_empty r.protocol then codes "unknown" else to_ascii_lowercase r.protocol

unfoldable pub is_modern : Text → Bool
is_modern proto = text_eq proto (codes "h2") || starts_with (codes "h3") proto

unfoldable pub count_connection : WebPageResource → NetworkCounts → NetworkCounts
unfolding add proto_of is_modern
count_connection r n = record n {
  real_network_responses = n.real_network_responses + 1;
  connections_reused =
      if r.connection_reused then n.connections_reused + 1 else n.connections_reused;
  connections_new = if r.connection_reused then n.connections_new else n.connections_new + 1;
  modern_protocol_hits =
      if is_modern (proto_of r) then n.modern_protocol_hits + 1 else n.modern_protocol_hits;
  protocol_distribution = add (proto_of r) 1 n.protocol_distribution;
}

unfoldable pub count_network : WebPageResource → NetworkCounts → NetworkCounts
unfolding count_connection count_compression
count_network r n =
    if r.from_cache
    then record n { cache_hits = n.cache_hits + 1; cached_bytes = n.cached_bytes + r.content_size }
    else count_compression r (count_connection r n)

-- `hosts.insert(h)`.
unfoldable pub add_host : Text → List Text → List Text
add_host h hosts = if any (text_eq h) hosts then hosts else h ∷ hosts

unfoldable pub host_of : WebPageResource → Option Text
host_of r = elim r.parsed_url [ none ↦ none | some u ↦ u.host_str ]

unfoldable pub count_third_party : WebPageResource → Text → HostCounts → HostCounts
unfolding add_bytes
count_third_party r h t =
    let t' = record t {
      third_party_bytes = t.third_party_bytes + r.content_size;
      third_party_by_host = add_bytes h r.content_size t.third_party_by_host;
    } in
    if text_eq (mime_bucket r.mime_type) (codes "javascript")
    then record t' {
      third_party_script_bytes = t.third_party_script_bytes + r.content_size;
      third_party_scripts_by_host = add_bytes h r.content_size t.third_party_scripts_by_host;
    }
    else t'

unfoldable pub count_host : Text → WebPageResource → Option Text → HostCounts → HostCounts
unfolding add_host count_third_party
count_host target_host r none t = t
count_host target_host r (some h) t =
    let t' = record t { hosts = add_host h t.hosts } in
    if not (is_empty target_host) && not (text_eq h target_host)
    then count_third_party r h t'
    else t'

unfoldable pub count_largest : WebPageResource → Option (Text × ℕ) → Option (Text × ℕ)
count_largest r none = some (r.url, r.content_size)
count_largest r (some (url, size)) =
    if ltb size r.content_size then some (r.url, r.content_size) else some (url, size)

abbrev pub no_tally : Tally
no_tally = record {
  types = record {
    bytes_by_type = [];
    count_by_type = [];
    cache_control_present = 0;
    cache_control_missing = 0;
    legacy_image_bytes = 0;
    modern_image_bytes = 0;
    source_maps_present = 0;
    source_maps_missing = 0;
    status_distribution = [];
  };
  network = record {
    cache_hits = 0;
    cached_bytes = 0;
    real_network_responses = 0;
    connections_reused = 0;
    connections_new = 0;
    modern_protocol_hits = 0;
    protocol_distribution = [];
    compression_breakdown = [];
    compressed_count = 0;
    uncompressed_text_count = 0;
    uncompressed_text_bytes = 0;
  };
  by_host = record {
    hosts = [];
    third_party_bytes = 0;
    third_party_by_host = [];
    third_party_script_bytes = 0;
    third_party_scripts_by_host = [];
  };
  largest = none;
}

unfoldable pub tally_one : Text → WebPageResource → Tally → Tally
unfolding count_types count_network count_host host_of count_largest
tally_one target_host r t = record {
  types = count_types r t.types;
  network = count_network r t.network;
  by_host = count_host target_host r (host_of r) t.by_host;
  largest = count_largest r t.largest;
}

-- The loop, from the variables it starts with.
unfoldable pub tally : Text → List WebPageResource → Tally → Tally
unfolding tally_one
tally target_host [] t = t
tally target_host (r ∷ rs) t = tally target_host rs (tally_one target_host r t)
