-- ===== src/Browser/Security.antt =====
-- src/browser/security.rs: the security reports that are derived from headers, cookies and resources.
pub mod Csp
pub mod Cors
pub mod Audit
use browser_headless.Base.{
  ℕ, ◌+◌, ◌-◌, ◌%◌, Bool, true, false, not, ◌&&◌, ◌||◌, Option, none, some, List, [], ◌∷◌, ◌++◌,
  Text, codes, text_eq, eq_ignore_ascii_case, to_ascii_lowercase, split, split_whitespace, trim,
  trim_start, strip_prefix, parse_uint, ltb, leb, ◌==◌, if◌then◌else◌, is_empty, is_some, unwrap_or,
  any, length, to_ℕ,
}
use browser_headless.Base.Dicts.{Dict, lookup, insert}
use browser_headless.Config.{u32_bound, u64_bound}
use browser_headless.Browser.Resource.{WebPageResource, Cookie}

pub record CspAnalysis : Type 0 where
  pub directive_count : ℕ
  pub unsafe_inline : Bool
  pub unsafe_eval : Bool
  pub wildcard_directives : List Text
  pub missing_object_src : Bool
  pub missing_base_uri : Bool
  pub missing_frame_ancestors : Bool
  pub weaknesses : List Text

-- The order of `String`s, by code points.
unfoldable pub text_le : Text → Text → Bool
text_le [] t = true
text_le (c ∷ s) [] = false
text_le (c ∷ s) (d ∷ t) = ltb c d || (c == d && text_le s t)

-- `wildcard.sort()`, by insertion.
unfoldable pub insert_sorted : Text → List Text → List Text
unfolding text_le
insert_sorted x [] = x ∷ []
insert_sorted x (y ∷ ys) = if text_le x y then x ∷ y ∷ ys else y ∷ insert_sorted x ys

unfoldable pub sort : List Text → List Text
unfolding insert_sorted
sort [] = []
sort (x ∷ xs) = insert_sorted x (sort xs)

-- A directive's name in lower case, and its sources.
unfoldable pub directive : Text → Option (Text × List Text)
directive raw = elim (split_whitespace raw) [
  | [] ↦ none
  | name ∷ sources ↦ some (to_ascii_lowercase name, sources)
]

-- `directives.entry(name).or_default().extend(sources)`.
unfoldable pub extend : Text → List Text → Dict (List Text) → Dict (List Text)
extend name sources m = insert name (unwrap_or (lookup name m) [] ++ sources) m

unfoldable pub add_directive : Text → Dict (List Text) → Dict (List Text)
unfolding directive extend
add_directive raw m = elim (directive raw) [
  | none ↦ m
  | some (name, sources) ↦ extend name sources m
]

-- The loop over the pieces between semicolons.
unfoldable pub add_directives : List Text → Dict (List Text) → Dict (List Text)
unfolding add_directive
add_directives [] m = m
add_directives (raw ∷ pieces) m = add_directives pieces (add_directive raw m)

-- `directives.values().flatten().any(p)`.
unfoldable pub any_source : (Text → Bool) → Dict (List Text) → Bool
any_source p [] = false
any_source p ((name, sources) ∷ m) = any p sources || any_source p m

-- The names of the directives with a source `*`.
unfoldable pub wildcards : Dict (List Text) → List Text
wildcards [] = []
wildcards ((name, sources) ∷ m) =
    if any (λ s. text_eq s (codes "*")) sources then name ∷ wildcards m else wildcards m

unfoldable pub contains_key : {V : Type 0} → Text → Dict V → Bool
contains_key name m = is_some (lookup name m)

unfoldable pub push_when : Bool → Text → List Text → List Text
push_when true code w = w ++ (code ∷ [])
push_when false code w = w

unfoldable pub csp_analysis : Dict (List Text) → CspAnalysis
unfolding any_source wildcards sort push_when contains_key
csp_analysis m =
    let unsafe_inline = any_source (λ s. eq_ignore_ascii_case s (codes "'unsafe-inline'")) m in
    let unsafe_eval = any_source (λ s. eq_ignore_ascii_case s (codes "'unsafe-eval'")) m in
    let wildcard = sort (wildcards m) in
    let missing_object_src =
      not (contains_key (codes "object-src") m) && not (contains_key (codes "default-src") m) in
    let missing_base_uri = not (contains_key (codes "base-uri") m) in
    let missing_frame_ancestors = not (contains_key (codes "frame-ancestors") m) in
    record {
      directive_count = length m % u32_bound;
      unsafe_inline = unsafe_inline;
      unsafe_eval = unsafe_eval;
      wildcard_directives = wildcard;
      missing_object_src = missing_object_src;
      missing_base_uri = missing_base_uri;
      missing_frame_ancestors = missing_frame_ancestors;
      weaknesses = push_when missing_frame_ancestors (codes "missing-frame-ancestors") (
          push_when missing_base_uri (codes "missing-base-uri") (
            push_when missing_object_src (codes "missing-object-src") (
              push_when (not (is_empty wildcard)) (codes "wildcard-source") (
                push_when unsafe_eval (codes "unsafe-eval")
                  (push_when unsafe_inline (codes "unsafe-inline") [])))));
    }

unfoldable pub parse_csp : Text → Option CspAnalysis
unfolding add_directives csp_analysis
parse_csp value =
    let m = add_directives (split b';' value) [] in
    if is_empty m then none else some (csp_analysis m)

pub record HstsAnalysis : Type 0 where
  pub max_age : Option ℕ
  pub include_subdomains : Bool
  pub preload : Bool
  pub effective : Bool

-- `text.trim_matches('"')`.
unfoldable pub trim_quotes_start : Text → Text
trim_quotes_start [] = []
trim_quotes_start (c ∷ t) = if text_eq (c ∷ []) (codes "\"") then trim_quotes_start t else c ∷ t

unfoldable pub trim_quotes_end : Text → Text
trim_quotes_end [] = []
trim_quotes_end (c ∷ t) = elim (trim_quotes_end t) [
  | [] ↦ if text_eq (c ∷ []) (codes "\"") then [] else c ∷ []
  | d ∷ r ↦ c ∷ d ∷ r
]

unfoldable pub or_else : {A : Type 0} → Option A → Option A → Option A
or_else none other = other
or_else (some a) other = some a

-- What follows `max-age` and the equals sign, if the token has both.
unfoldable pub max_age_value : Text → Option Text
unfolding or_else
max_age_value tok =
    elim (or_else (strip_prefix (codes "max-age") tok) (strip_prefix (codes "Max-Age") tok)) [
      | none ↦ none
      | some rest ↦ strip_prefix (codes "=") (trim_start rest)
    ]

unfoldable pub hsts_token : Text → HstsAnalysis → HstsAnalysis
unfolding max_age_value trim_quotes_start trim_quotes_end
hsts_token tok a = elim (max_age_value tok) [
  | some rest ↦ record a {
    max_age = parse_uint u64_bound (trim_quotes_end (trim_quotes_start (trim rest)));
  }
  | none ↦
      if eq_ignore_ascii_case tok (codes "includeSubDomains")
      then record a { include_subdomains = true }
      else if eq_ignore_ascii_case tok (codes "preload")
      then record a { preload = true }
      else a
]

unfoldable pub hsts_tokens : List Text → HstsAnalysis → HstsAnalysis
unfolding hsts_token
hsts_tokens [] a = a
hsts_tokens (raw ∷ pieces) a = hsts_tokens pieces (hsts_token (trim raw) a)

unfoldable pub parse_hsts : Text → HstsAnalysis
unfolding hsts_tokens
parse_hsts value =
    let a =
      hsts_tokens (split b';' value) (record {
        max_age = none;
        include_subdomains = false;
        preload = false;
        effective = false;
      }) in
    record a { effective = elim a.max_age [ none ↦ false | some m ↦ ltb 0 m ] }

pub record CorsIssue : Type 0 where
  pub url : Text
  pub allow_origin : Text
  pub allow_credentials : Bool
  pub reason : Text

-- The origin that is reported, where the response allows every origin and credentials.
unfoldable pub open_origin : WebPageResource → Option Text
open_origin r = if not r.cors_allow_credentials then none else elim r.cors_allow_origin [
  | none ↦ none
  | some acao ↦
      if not (text_eq (trim acao) (codes "*"))
        && not (eq_ignore_ascii_case (trim acao) (codes "null"))
      then none
      else some (trim acao)
]

-- The issue of a resource, unless its URL was seen.
unfoldable pub new_issue : List Text → WebPageResource → Option CorsIssue
unfolding open_origin
new_issue seen r = elim (open_origin r) [
  | none ↦ none
  | some origin ↦
      if any (text_eq r.url) seen
      then none
      else some (record {
        url = r.url;
        allow_origin = origin;
        allow_credentials = true;
        reason = codes "wildcard-with-credentials";
      })
]

-- The loop, which stops at 20 issues.
unfoldable pub cors_loop : List WebPageResource → List Text → List CorsIssue → List CorsIssue
unfolding new_issue
cors_loop [] seen out = out
cors_loop (r ∷ rs) seen out = elim (new_issue seen r) [
  | none ↦ cors_loop rs seen out
  | some issue ↦ elim (leb 20 (length (out ++ (issue ∷ [])))) [
    | true ↦ out ++ (issue ∷ [])
    | false ↦ cors_loop rs (r.url ∷ seen) (out ++ (issue ∷ []))
  ]
]

unfoldable pub build_cors_issues : List WebPageResource → List CorsIssue
unfolding cors_loop
build_cors_issues resources = cors_loop resources [] []
