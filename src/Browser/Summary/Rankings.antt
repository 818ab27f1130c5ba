-- ===== src/Browser/Summary/Rankings.antt =====
-- The ranked lists of `build_resource_summary` of src/browser/mod.rs.
use browser_headless.Base.{
  ℕ, Bool, false, not, ◌&&◌, ◌||◌, Option, none, some, List, [], ◌∷◌, map, Text, codes, text_eq,
  contains, to_ascii_lowercase, leb, ltb, ◌==◌, if◌then◌else◌, is_empty, is_some, take, keep,
}
use browser_headless.Base.Dicts.{Dict}
use browser_headless.Base.Sorting.{sort_by, text_le}
use browser_headless.Browser.Resource.{WebPageResource}
use browser_headless.Browser.Analysis.{
  mime_bucket, is_text_compressible, is_static_asset_bucket, parse_max_age, is_hashed_url_path,
}

pub record DomainBytes : Type 0 where
  pub host : Text
  pub bytes : ℕ
  pub count : ℕ

-- By bytes, the most first, and then by host.
unfoldable pub domain_before : DomainBytes → DomainBytes → Bool
unfolding text_le
domain_before a b = if a.bytes == b.bytes then text_le a.host b.host else ltb b.bytes a.bytes

unfoldable pub top_domains : List (Text × (ℕ × ℕ)) → List DomainBytes
unfolding domain_before sort_by
top_domains by_host = take 10 (
    sort_by domain_before
      (map (λ e. record { host = e.0; bytes = (e.1).0; count = (e.1).1 }) by_host))

pub record LargestResource : Type 0 where
  pub url : Text
  pub bytes : ℕ
  pub mime_type : Text
  pub from_cache : Bool

abbrev pub larger : WebPageResource → WebPageResource → Bool
larger a b = leb b.content_size a.content_size

-- The members of a bucket, less the cache hits without a size.
unfoldable pub bucket_group : Text → List WebPageResource → List WebPageResource
bucket_group bucket resources =
    keep
      (λ r. text_eq (mime_bucket r.mime_type) bucket && not (r.from_cache && r.content_size == 0))
      resources

unfoldable pub largest_in : Text → List WebPageResource → List LargestResource
unfolding bucket_group sort_by
largest_in bucket resources =
    map
      (λ r. record {
        url = r.url;
        bytes = r.content_size;
        mime_type = r.mime_type;
        from_cache = r.from_cache;
      })
      (take 5 (sort_by larger (bucket_group bucket resources)))

-- One entry for each bucket that has members.
unfoldable pub top_largest : List Text → List WebPageResource → Dict (List LargestResource)
unfolding largest_in
top_largest [] resources = []
top_largest (bucket ∷ buckets) resources =
    let rest = top_largest buckets resources in
    if is_empty (largest_in bucket resources)
    then rest
    else (bucket, largest_in bucket resources) ∷ rest

abbrev pub static_buckets : List Text
static_buckets = codes "javascript" ∷ codes "css" ∷ codes "image" ∷ codes "font" ∷ []

pub record UncompressedResource : Type 0 where
  pub url : Text
  pub mime_type : Text
  pub bytes : ℕ

unfoldable pub is_uncompressed : WebPageResource → Bool
is_uncompressed r =
    not r.from_cache
    && not (is_some r.content_encoding)
    && is_text_compressible r.mime_type
    && leb 1024 r.content_size

unfoldable pub uncompressed_text : List WebPageResource → List UncompressedResource
unfolding is_uncompressed sort_by
uncompressed_text resources = take 20 (
    sort_by (λ a b. leb b.bytes a.bytes)
      (map (λ r. record { url = r.url; mime_type = r.mime_type; bytes = r.content_size })
        (keep is_uncompressed resources)))

pub record CachePolicyIssue : Type 0 where
  pub url : Text
  pub mime_type : Text
  pub cache_control : Text
  pub reason : Text

-- The reason for a finding on a resource with that `Cache-Control`.
unfoldable pub policy_reason : WebPageResource → Text → Option Text
policy_reason r cc =
    let cc_lower = to_ascii_lowercase cc in
    if contains (codes "no-store") cc_lower || contains (codes "no-cache") cc_lower
    then none
    else if elim (parse_max_age cc) [ none ↦ false | some max_age ↦ ltb max_age 60 ]
    then some (codes "short_max_age")
    else elim r.parsed_url [
      | none ↦ none
      | some parsed ↦
          if is_hashed_url_path parsed.path && not (contains (codes "immutable") cc_lower)
          then some (codes "missing_immutable")
          else none
    ]

unfoldable pub policy_issue : WebPageResource → Option CachePolicyIssue
unfolding policy_reason
policy_issue r =
    if not (is_static_asset_bucket (mime_bucket r.mime_type)) then none else elim r.cache_control [
      | none ↦ none
      | some cc ↦ elim (policy_reason r cc) [
        | none ↦ none
        | some reason ↦
            some
              (record { url = r.url; mime_type = r.mime_type; cache_control = cc; reason = reason })
      ]
    ]

unfoldable pub policy_findings : List WebPageResource → List (ℕ × CachePolicyIssue)
unfolding policy_issue
policy_findings [] = []
policy_findings (r ∷ rs) = elim (policy_issue r) [
  | none ↦ policy_findings rs
  | some issue ↦ (r.content_size, issue) ∷ policy_findings rs
]

unfoldable pub cache_policy_issues : List WebPageResource → List CachePolicyIssue
unfolding policy_findings sort_by
cache_policy_issues resources =
    map (λ e. e.1) (take 20 (sort_by (λ a b. leb b.0 a.0) (policy_findings resources)))
