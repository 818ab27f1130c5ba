-- ===== src/Browser/Intercept.antt =====
-- `parse_resource_type` and `apply_request_interception` of src/browser/mod.rs: which requests of a
-- page the browser lets through. CDP's `Fetch` domain is taken as documented: a request is paused if
-- its type is among the patterns of `Fetch.enable`, a failed request does not leave the browser,
-- and all other requests proceed.
use browser_headless.Base.{
  ℕ, ◌≡◌, refl, ◌↔◌, ◌⊎◌, inl, inr, subst, sym, Bool, true, false, ◌&&◌, ◌||◌, not, Option, none,
  some, List, [], ◌∷◌, ◌++◌, arith, any, any-append, All, All-get_elem?, get_elem?, ok, is_empty,
  Text, codes, text_eq, to_ascii_lowercase, if◌then◌else◌,
}
use browser_headless.Ssrf.{Net, check_url, blocked_reason, raw_url_blocked}
use browser_headless.Ssrf.Guard.{IsReachable, check_url_iff}

-- CDP's `Network.ResourceType`.
pub data ResourceType : Type 0 where
  document stylesheet image media font script text_track xhr fetch prefetch : ResourceType
  event_source web_socket manifest signed_exchange ping csp_violation_report : ResourceType
  preflight other : ResourceType

unfoldable pub ResourceType-discrete : Discrete ResourceType
ResourceType-discrete = hlevel

abbrev pub decide {ℓ} : {P : Type ℓ} → Dec P → Bool
decide (yes p) = true
decide (no p) = false

unfoldable pub same_type : ResourceType → ResourceType → Bool
same_type s t = decide (ResourceType-discrete s t)

abbrev pub is_one_of : Text → List Text → Bool
is_one_of s words = any (λ w. text_eq s w) words

unfoldable pub resource_type_of : Text → Option ResourceType
resource_type_of s =
    if is_one_of s (codes "document" ∷ codes "html" ∷ [])
    then some document
    else if is_one_of s (codes "stylesheet" ∷ codes "css" ∷ [])
    then some stylesheet
    else if is_one_of s (codes "image" ∷ codes "img" ∷ [])
    then some image
    else if is_one_of s (codes "media" ∷ codes "video" ∷ codes "audio" ∷ [])
    then some media
    else if is_one_of s (codes "font" ∷ [])
    then some font
    else if is_one_of s (codes "script" ∷ codes "js" ∷ codes "javascript" ∷ [])
    then some script
    else if is_one_of s (codes "xhr" ∷ [])
    then some xhr
    else if is_one_of s (codes "fetch" ∷ [])
    then some fetch
    else if is_one_of s (codes "websocket" ∷ codes "ws" ∷ [])
    then some web_socket
    else if is_one_of s (codes "manifest" ∷ [])
    then some manifest
    else if is_one_of s (codes "ping" ∷ [])
    then some ping
    else if is_one_of s (codes "other" ∷ [])
    then some other
    else none

unfoldable pub parse_resource_type : Text → Option ResourceType
unfolding resource_type_of
parse_resource_type s = resource_type_of (to_ascii_lowercase s)

-- The types blocked by name; unknown names are skipped.
unfoldable pub blocked_types : List Text → List ResourceType
blocked_types [] = []
blocked_types (s ∷ types) = elim (parse_resource_type s) [
  | none ↦ blocked_types types
  | some t ↦ t ∷ blocked_types types
]

-- The types paused by `Fetch.enable`; `none` where interception is not enabled.
unfoldable pub patterns : List ResourceType → Bool → Option (List ResourceType)
patterns blocked ssrf_guard =
    if is_empty blocked && not ssrf_guard
    then none
    else some (
        blocked
        ++ (if ssrf_guard && not (any (λ t. same_type t document) blocked)
            then document ∷ []
            else []))

pub data Verdict : Type 0 where
  continue_request fail_request : Verdict

document-same_type : (t : ResourceType) → same_type document t ≡ same_type t document
unfolding same_type ResourceType-discrete
document-same_type document = refl
document-same_type _ = refl

document-cases : (t : ResourceType) → (t ≡ document) ⊎ (same_type t document ≡ false)
unfolding same_type ResourceType-discrete
document-cases document = inl refl
document-cases _ = inr refl

same_type_document : same_type document document ≡ true
unfolding same_type ResourceType-discrete
same_type_document = refl

module _ {Url : Type 0} (net : Net Url) where
  -- The handler of a paused request.
  unfoldable pub on_paused : List ResourceType → Bool → ResourceType → Text → Verdict
  on_paused blocked ssrf_guard type url =
      if any (λ t. same_type t type) blocked
      then fail_request
      else if ssrf_guard && same_type type document
      then elim (raw_url_blocked net url) [ some reason ↦ fail_request | none ↦ continue_request ]
      else continue_request

  -- What becomes of a request of the page.
  unfoldable pub on_request : List Text → Bool → ResourceType → Text → Verdict
  unfolding on_paused patterns
  on_request types ssrf_guard type url =
      let blocked = blocked_types types in
      elim (patterns blocked ssrf_guard) [
        | none ↦ continue_request
        | some paused ↦
            if any (λ t. same_type t type) paused
            then on_paused blocked ssrf_guard type url
            else continue_request
      ]

  -- A navigation: the first URL and the ones it is redirected to, up to the first that is failed.
  unfoldable pub visited : List Text → Bool → List Text → List Text
  visited types ssrf_guard [] = []
  visited types ssrf_guard (url ∷ hops) =
      let rest = visited types ssrf_guard hops in
      elim (on_request types ssrf_guard document url) [
        | continue_request ↦ url ∷ rest
        | fail_request ↦ []
      ]

  -- The pausing step of `on_request`, over the parsed types.
  outcome : List ResourceType → Bool → ResourceType → Text → Verdict
  outcome blocked guard type url = elim (patterns blocked guard) [
    | none ↦ continue_request
    | some paused ↦
        if any (λ t. same_type t type) paused
        then on_paused blocked guard type url
        else continue_request
  ]

  outcome-other :
      (blocked : List ResourceType) (guard : Bool) (type : ResourceType) (url : Text)
      → same_type type document ≡ false
      → outcome blocked guard type url ≡ on_paused blocked guard type url
  unfolding outcome patterns on_paused
  outcome-other [] true type url h = ground (arith, document-same_type type)
  outcome-other [] false type url h = refl
  outcome-other (b ∷ bs) true type url h = ground (
    arith,
    document-same_type type,
    any-append (λ t. same_type t type) bs
        (if not (any (λ t. same_type t document) (b ∷ bs)) then document ∷ [] else []),
  )
  outcome-other (b ∷ bs) false type url h = ground (arith, any-append (λ t. same_type t type) bs [])

  outcome-document :
      (blocked : List ResourceType) (guard : Bool) (url : Text)
      → outcome blocked guard document url ≡ on_paused blocked guard document url
  unfolding outcome patterns on_paused
  outcome-document [] true url = ground (arith, same_type_document)
  outcome-document [] false url = refl
  outcome-document (b ∷ bs) true url = ground (
    arith,
    same_type_document,
    any-append (λ t. same_type t document) bs
        (if not (any (λ t. same_type t document) (b ∷ bs)) then document ∷ [] else []),
  )
  outcome-document (b ∷ bs) false url = ground (arith, any-append (λ t. same_type t document) bs [])

  -- Which requests are paused makes no difference to what becomes of a request: one that is not
  -- paused would have been continued by the handler too.
  pub on_request-on_paused :
      (types : List Text) (ssrf_guard : Bool) (type : ResourceType) (url : Text)
      → on_request types ssrf_guard type url ≡ on_paused (blocked_types types) ssrf_guard type url
  unfolding on_request outcome
  on_request-on_paused types guard type url = elim (document-cases type) [
    | inl e ↦
        subst (λ t. outcome blocked guard t url ≡ on_paused blocked guard t url) (sym e)
          (outcome-document blocked guard url)
    | inr e ↦ outcome-other blocked guard type url e
  ]
    where
      blocked : List ResourceType
      blocked = blocked_types types

  -- With the guard on, a document request proceeds exactly if documents are not blocked by type and
  -- the URL passes the SSRF check.
  on_request-document :
      (types : List Text) (url : Text)
      → (on_request types true document url ≡ continue_request) ↔ (
          (any (λ t. same_type t document) (blocked_types types) ≡ false)
          × (raw_url_blocked net url ≡ none))
  unfolding on_paused
  on_request-document types url =
      rw (on_request-on_paused types true document url)
        (ground (arith, same_type_document), ground (arith, same_type_document))

  -- Every URL that a guarded navigation reaches, redirects included, passed the SSRF check.
  pub visited-allowed :
      (types hops : List Text)
      → All (λ url. raw_url_blocked net url ≡ none) (visited types true hops)
  unfolding visited
  visited-allowed types [] = tt
  visited-allowed types (url ∷ hops) =
      ground (arith, on_request-document types url, visited-allowed types hops)

  abbrev pub is_http : Url → Bool
  is_http url = text_eq (net.scheme url) (codes "http") || text_eq (net.scheme url) (codes "https")

  raw_url_blocked-none :
      (raw : Text) (url : Url)
      → raw_url_blocked net raw ≡ none
      → net.parse raw ≡ ok url
      → is_http url ≡ true
      → check_url net url ≡ ok tt
  unfolding raw_url_blocked blocked_reason
  raw_url_blocked-none raw url h p s = ground arith

  -- With the guard on, every http or https URL that a navigation reaches, its redirects included,
  -- has a host whose addresses are all known and not blocked, as the resolver answers at the check.
  pub visited-IsReachable :
      (types hops : List Text) (i : ℕ) (raw : Text) (url : Url)
      → get_elem? (visited types true hops) i ≡ some raw
      → net.parse raw ≡ ok url
      → is_http url ≡ true
      → IsReachable net url
  visited-IsReachable types hops i raw url g p s = (check_url_iff net url).0 (
      raw_url_blocked-none raw url
        (All-get_elem? (λ u. raw_url_blocked net u ≡ none) (visited types true hops) i raw
          (visited-allowed types hops) g)
        p s)
