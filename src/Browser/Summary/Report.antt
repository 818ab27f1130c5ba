-- ===== src/Browser/Summary/Report.antt =====
-- `build_resource_summary` of src/browser/mod.rs, from its counts and lists.
use browser_headless.Base.{ℕ, Option, none, List, [], Text, ltb, if◌then◌else◌, length, unwrap_or}
use browser_headless.Base.Dicts.{Dict}
use browser_headless.Browser.Resource.{ParsedUrl, WebPageResource}
use browser_headless.Browser.Analysis.{
  MixedContent, no_mixed_content, build_mixed_content, compute_initiator_chain_depth,
}
use browser_headless.Browser.Summary.{TypeCounts, NetworkCounts, no_tally, tally}
use browser_headless.Browser.Summary.Rankings.{
  DomainBytes, top_domains, LargestResource, top_largest, static_buckets, UncompressedResource,
  uncompressed_text, CachePolicyIssue, cache_policy_issues,
}
use browser_headless.Browser.Summary.Duplicates.{DuplicateResources, build_duplicate_resources}
use browser_headless.Browser.Summary.Hints.{ResourceHints, url_host}

-- An f64 quotient as its two numbers; 0.0 is 0 by 1.
pub record Ratio : Type 0 where
  pub numerator : ℕ
  pub denominator : ℕ

abbrev pub ratio : ℕ → ℕ → Ratio
ratio a b =
    if ltb 0 b
    then record { numerator = a; denominator = b }
    else record { numerator = 0; denominator = 1 }

-- The counts of the loop are kept in their groups.
pub record ResourceSummary : Type 0 where
  pub types : TypeCounts
  pub network : NetworkCounts
  pub third_party_bytes : ℕ
  pub third_party_script_bytes : ℕ
  pub cache_hit_ratio : Ratio
  pub modern_protocol_share : Ratio
  pub largest_resource : Option (Text × ℕ)
  pub unique_hosts : ℕ
  pub top_third_party_domains : List DomainBytes
  pub third_party_script_origins : List DomainBytes
  pub duplicate_resources : DuplicateResources
  pub mixed_content : MixedContent
  pub max_initiator_chain_depth : Option ℕ
  pub top_largest_by_type : Dict (List LargestResource)
  pub uncompressed_text_resources : List UncompressedResource
  pub policy_issues : List CachePolicyIssue
  pub resource_hints : Option ResourceHints

-- `ResourceSummary::default()`.
abbrev pub no_summary : ResourceSummary
no_summary = record {
  types = no_tally.types;
  network = no_tally.network;
  third_party_bytes = 0;
  third_party_script_bytes = 0;
  cache_hit_ratio = ratio 0 0;
  modern_protocol_share = ratio 0 0;
  largest_resource = none;
  unique_hosts = 0;
  top_third_party_domains = [];
  third_party_script_origins = [];
  duplicate_resources = record { exact_url = []; likely_same_file = []; wasted_bytes = 0 };
  mixed_content = no_mixed_content;
  max_initiator_chain_depth = none;
  top_largest_by_type = [];
  uncompressed_text_resources = [];
  policy_issues = [];
  resource_hints = none;
}

unfoldable pub target_host_of : Option ParsedUrl → Text
unfolding url_host
target_host_of target = unwrap_or (url_host target) []

unfoldable pub build_resource_summary :
    (Text → Option ParsedUrl) → List WebPageResource → Text → ResourceSummary
unfolding target_host_of
build_resource_summary parse resources target_url =
    let t = tally (target_host_of (parse target_url)) resources no_tally in
    record {
      types = t.types;
      network = t.network;
      third_party_bytes = t.by_host.third_party_bytes;
      third_party_script_bytes = t.by_host.third_party_script_bytes;
      cache_hit_ratio = ratio t.network.cache_hits (length resources);
      modern_protocol_share = ratio t.network.modern_protocol_hits t.network.real_network_responses;
      largest_resource = t.largest;
      unique_hosts = length t.by_host.hosts;
      top_third_party_domains = top_domains t.by_host.third_party_by_host;
      third_party_script_origins = top_domains t.by_host.third_party_scripts_by_host;
      duplicate_resources = build_duplicate_resources resources;
      mixed_content = build_mixed_content resources target_url;
      max_initiator_chain_depth = compute_initiator_chain_depth resources;
      top_largest_by_type = top_largest static_buckets resources;
      uncompressed_text_resources = uncompressed_text resources;
      policy_issues = cache_policy_issues resources;
      resource_hints = none;
    }
