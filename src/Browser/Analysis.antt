-- ===== src/Browser/Analysis.antt =====
-- The reports that src/browser/mod.rs derives from the resources of a page.
pub mod Chains
use browser_headless.Base.{
  ℕ, zero, suc, ◌+◌, ◌-◌, ◌%◌, Bool, true, false, not, ◌&&◌, ◌||◌, Option, none, some, List, [],
  ◌∷◌, ◌++◌, Text, codes, text_eq, starts_with, contains, to_ascii_lowercase, split, trim,
  trim_start, strip_prefix, parse_uint, ltb, leb, if◌then◌else◌, is_empty, is_some, any, length,
  take, keep, map, min, max,
}
use browser_headless.Base.Dicts.{Dict, lookup, insert}
use browser_headless.Config.{u32_bound, u64_bound}
use browser_headless.Browser.Resource.{WebPageResource, RequestInitiator}

-- `parse_max_age`: the first token that starts with `max-age` decides.
unfoldable pub max_age_token : Text → Option ℕ
max_age_token rest = elim (strip_prefix (codes "=") (trim_start rest)) [
  | none ↦ none
  | some value ↦ elim (parse_uint u64_bound (trim_start value)) [
    | none ↦ none
    | some v ↦ some (min v (u32_bound - 1))
  ]
]

unfoldable pub first_max_age : List Text → Option ℕ
unfolding max_age_token
first_max_age [] = none
first_max_age (token ∷ tokens) =
    elim (strip_prefix (codes "max-age") (to_ascii_lowercase (trim token))) [
      | some rest ↦ max_age_token rest
      | none ↦ first_max_age tokens
    ]

unfoldable pub parse_max_age : Text → Option ℕ
unfolding first_max_age
parse_max_age cache_control = first_max_age (split b',' cache_control)

abbrev pub is_hex : ℕ → Bool
is_hex b = (leb 48 b && leb b 57) || (leb 97 b && leb b 102) || (leb 65 b && leb b 70)

-- The scan of `is_hashed_url_path` over the path's bytes, with the run of hex digits so far.
unfoldable pub hex_run : ℕ → Text → Bool
hex_run run [] = false
hex_run run (b ∷ path) = elim (is_hex b) [
  | true ↦ elim (leb 8 (suc run)) [ true ↦ true | false ↦ hex_run (suc run) path ]
  | false ↦ hex_run 0 path
]

unfoldable pub is_hashed_url_path : Text → Bool
unfolding hex_run
is_hashed_url_path path = hex_run 0 path

unfoldable pub is_text_compressible : Text → Bool
is_text_compressible mime =
    let m = to_ascii_lowercase mime in
    starts_with (codes "text/") m
    || contains (codes "javascript") m
    || contains (codes "ecmascript") m
    || contains (codes "json") m
    || contains (codes "xml") m
    || contains (codes "svg") m
    || contains (codes "html") m

unfoldable pub mime_bucket : Text → Text
mime_bucket mime =
    let m = to_ascii_lowercase mime in
    if starts_with (codes "image/") m
    then codes "image"
    else if starts_with (codes "video/") m || starts_with (codes "audio/") m
    then codes "media"
    else if starts_with (codes "font/") m
        || contains (codes "woff") m
        || contains (codes "opentype") m
        || contains (codes "truetype") m
    then codes "font"
    else if contains (codes "javascript") m || contains (codes "ecmascript") m
    then codes "javascript"
    else if contains (codes "css") m
    then codes "css"
    else if contains (codes "html") m
    then codes "html"
    else if contains (codes "xml") m
    then codes "xml"
    else if contains (codes "json") m
    then codes "json"
    else codes "other"

unfoldable pub is_static_asset_bucket : Text → Bool
is_static_asset_bucket bucket =
    text_eq bucket (codes "javascript")
    || text_eq bucket (codes "css")
    || text_eq bucket (codes "image")
    || text_eq bucket (codes "font")

pub record MixedContentResource : Type 0 where
  pub url : Text
  pub content_size : ℕ
  pub kind : Text

pub record MixedContent : Type 0 where
  pub detected : Bool
  pub total_count : ℕ
  pub resources : List MixedContentResource

abbrev pub no_mixed_content : MixedContent
no_mixed_content = record { detected = false; total_count = 0; resources = [] }

-- A stable sort by `content_size`, largest first.
unfoldable pub insert_by_size :
    MixedContentResource → List MixedContentResource → List MixedContentResource
insert_by_size x [] = x ∷ []
insert_by_size x (y ∷ ys) =
    if leb y.content_size x.content_size then x ∷ y ∷ ys else y ∷ insert_by_size x ys

unfoldable pub sort_by_size : List MixedContentResource → List MixedContentResource
unfolding insert_by_size
sort_by_size [] = []
sort_by_size (x ∷ xs) = insert_by_size x (sort_by_size xs)

unfoldable pub offenders : List WebPageResource → List MixedContentResource
unfolding mime_bucket
offenders resources =
    map (λ r. record { url = r.url; content_size = r.content_size; kind = mime_bucket r.mime_type })
      (keep (λ r. starts_with (codes "http://") r.url) resources)

unfoldable pub build_mixed_content : List WebPageResource → Text → MixedContent
unfolding offenders sort_by_size
build_mixed_content resources target_url =
    let found = offenders resources in
    let total_count = length found % u32_bound in
    if not (starts_with (codes "https://") target_url) then no_mixed_content else elim total_count [
      | zero ↦ no_mixed_content
      | suc n ↦ record {
        detected = true;
        total_count = suc n;
        resources = take 10 (sort_by_size found);
      }
    ]

-- The parent of each URL that has an initiator with a URL; a later resource replaces an earlier one's.
unfoldable pub parent_of : WebPageResource → Option Text
parent_of r = elim r.initiator [
  | none ↦ none
  | some init ↦ elim init.url [ none ↦ none | some p ↦ if is_empty p then none else some p ]
]

unfoldable pub add_parents : List WebPageResource → Dict Text → Dict Text
unfolding parent_of
add_parents [] parents = parents
add_parents (r ∷ rs) parents = elim (parent_of r) [
  | none ↦ add_parents rs parents
  | some p ↦ add_parents rs (insert r.url p parents)
]

-- The walk from one resource, with the URLs seen, the current one, and the depth so far.
unfoldable pub climb : ℕ → Dict Text → List Text → Text → ℕ → ℕ
climb zero parents seen current depth = depth
climb (suc fuel) parents seen current depth = elim (lookup current parents) [
  | none ↦ depth
  | some p ↦ elim (any (text_eq p) seen) [
    | true ↦ depth
    | false ↦ elim (ltb 100 (suc depth)) [
      | true ↦ suc depth
      | false ↦ climb fuel parents (p ∷ seen) p (suc depth)
    ]
  ]
]

-- The largest depth over the resources.
unfoldable pub deepest : ℕ → Dict Text → List WebPageResource → ℕ → ℕ
unfolding climb
deepest fuel parents [] max_depth = max_depth
deepest fuel parents (r ∷ rs) max_depth =
    deepest fuel parents rs (max max_depth (climb fuel parents (r.url ∷ []) r.url 0))

-- Each round but the last adds 1 to a depth of at most 100, so 101 rounds are enough.
abbrev pub climb_fuel : ℕ
climb_fuel = 101

unfoldable pub compute_initiator_chain_depth : List WebPageResource → Option ℕ
unfolding deepest add_parents
compute_initiator_chain_depth resources =
    if not (any (λ r. is_some r.initiator) resources)
    then none
    else some (deepest climb_fuel (add_parents resources []) resources 0)

-- The last of the pieces, which are never none.
unfoldable pub last_or : Text → List Text → Text
last_or d [] = d
last_or d (x ∷ xs) = last_or x xs

unfoldable pub first_or : Text → List Text → Text
first_or d [] = d
first_or d (x ∷ xs) = x

unfoldable pub url_basename : Text → Option Text
unfolding last_or first_or
url_basename url =
    let no_query = first_or url (split b'?' url) in
    let no_frag = first_or no_query (split b'#' no_query) in
    let name = last_or [] (split b'/' no_frag) in
    if not (is_empty name) && not (contains (codes ":") name) then some name else none
