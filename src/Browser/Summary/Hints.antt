-- ===== src/Browser/Summary/Hints.antt =====
-- `build_resource_hints` of src/browser/mod.rs.
use browser_headless.Base.{
  ℕ, not, ◌&&◌, Option, none, some, List, [], ◌∷◌, ◌++◌, map, Text, codes, text_eq, contains, split,
  trim, leb, ◌==◌, if◌then◌else◌, is_empty, any, keep,
}
use browser_headless.Browser.Resource.{ParsedUrl}
use browser_headless.Browser.Analysis.{first_or}
use browser_headless.Browser.Summary.Rankings.{DomainBytes}

pub record RawResourceHints : Type 0 where
  pub preconnect : List Text
  pub dns_prefetch : List Text

pub record ResourceHintGap : Type 0 where
  pub host : Text
  pub bytes : ℕ
  pub count : ℕ

pub record ResourceHints : Type 0 where
  pub declared_preconnect : List Text
  pub declared_dns_prefetch : List Text
  pub gap : List ResourceHintGap

-- `trim_start_matches("//")`: as often as it stands there.
unfoldable pub trim_slashes : Text → Text
trim_slashes [] = []
trim_slashes (c ∷ []) = c ∷ []
trim_slashes (c ∷ d ∷ t) =
    let rest = trim_slashes t in if c == b'/' && d == b'/' then rest else c ∷ d ∷ t

-- A hint without a scheme, if it looks like a host.
unfoldable pub bare_host : Text → Option Text
unfolding trim_slashes
bare_host s =
    let h = first_or [] (split b'/' (trim_slashes (trim s))) in
    if not (is_empty h) && contains (codes ".") h then some h else none

unfoldable pub url_host : Option ParsedUrl → Option Text
url_host none = none
url_host (some u) = u.host_str

abbrev pub gap_floor_bytes : ℕ
gap_floor_bytes = 4096

module _ (parse : Text → Option ParsedUrl) where
  unfoldable pub to_host : Text → Option Text
  unfolding bare_host url_host
  to_host s = elim (url_host (parse s)) [ some h ↦ some h | none ↦ bare_host s ]

  unfoldable pub declared_hosts : List Text → List Text
  unfolding to_host
  declared_hosts [] = []
  declared_hosts (s ∷ hints) = elim (to_host s) [
    | none ↦ declared_hosts hints
    | some h ↦ h ∷ declared_hosts hints
  ]

  unfoldable pub build_resource_hints : RawResourceHints → List DomainBytes → ResourceHints
  unfolding declared_hosts
  build_resource_hints raw top_third_party_domains =
      let declared = declared_hosts (raw.preconnect ++ raw.dns_prefetch) in
      record {
        declared_preconnect = raw.preconnect;
        declared_dns_prefetch = raw.dns_prefetch;
        gap =
            map (λ d. record { host = d.host; bytes = d.bytes; count = d.count })
              (keep (λ d. not (any (text_eq d.host) declared))
                (keep (λ d. leb gap_floor_bytes d.bytes) top_third_party_domains));
      }
