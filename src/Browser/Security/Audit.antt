-- ===== src/Browser/Security/Audit.antt =====
-- `extract_security_headers` and `build_security_audit` of src/browser/security.rs. A response's headers are the
-- entries of its JSON object, in order, with the value where it is a string.
pub mod Counts
use browser_headless.Base.{
  ℕ, ◌+◌, ◌-◌, ◌%◌, Bool, true, false, not, ◌&&◌, Option, none, some, List, [], ◌∷◌, Text, codes,
  eq_ignore_ascii_case, leb, if◌then◌else◌, is_empty, is_some, length, keep,
}
use browser_headless.Base.Dicts.{Dict, lookup, insert}
use browser_headless.Config.{u32_bound, u64_bound}
use browser_headless.Browser.Resource.{Cookie}
use browser_headless.Browser.Security.{CspAnalysis, HstsAnalysis, parse_csp, parse_hsts}

abbrev pub Headers : Type 0
Headers = List (Text × Option Text)

abbrev pub security_header_names : List Text
security_header_names =
    codes "Content-Security-Policy"
    ∷ codes "Content-Security-Policy-Report-Only"
    ∷ codes "Strict-Transport-Security"
    ∷ codes "X-Frame-Options"
    ∷ codes "X-Content-Type-Options"
    ∷ codes "Referrer-Policy"
    ∷ codes "Permissions-Policy"
    ∷ codes "Cross-Origin-Embedder-Policy"
    ∷ codes "Cross-Origin-Opener-Policy"
    ∷ codes "Cross-Origin-Resource-Policy"
    ∷ []

abbrev pub core_security_headers : List Text
core_security_headers =
    codes "Strict-Transport-Security"
    ∷ codes "Content-Security-Policy"
    ∷ codes "X-Frame-Options"
    ∷ codes "X-Content-Type-Options"
    ∷ codes "Referrer-Policy"
    ∷ codes "Permissions-Policy"
    ∷ codes "Cross-Origin-Opener-Policy"
    ∷ []

-- The inner loop: the first header of that name, in any case, ends it.
unfoldable pub find_header : Text → Headers → Option Text
find_header name [] = none
find_header name ((k, v) ∷ headers) =
    if eq_ignore_ascii_case k name then v else find_header name headers

unfoldable pub collect_headers : List Text → Headers → Dict Text → Dict Text
unfolding find_header
collect_headers [] headers out = out
collect_headers (name ∷ names) headers out = elim (find_header name headers) [
  | none ↦ collect_headers names headers out
  | some v ↦ collect_headers names headers (insert name v out)
]

-- `none` as the argument stands for headers that are no JSON object.
unfoldable pub extract_security_headers : Option Headers → Option (Dict Text)
unfolding collect_headers
extract_security_headers none = none
extract_security_headers (some headers) =
    let out = collect_headers security_header_names headers [] in
    if is_empty out then none else some out

pub record SecurityHeadersCheck : Type 0 where
  pub hsts : Bool
  pub csp : Bool
  pub csp_report_only : Bool
  pub x_frame_options : Bool
  pub x_content_type_options : Bool
  pub referrer_policy : Bool
  pub permissions_policy : Bool
  pub coop : Bool
  pub coep : Bool
  pub present_count : ℕ
  pub missing : List Text
  pub csp_found : Option CspAnalysis
  pub hsts_found : Option HstsAnalysis

pub record CookieSecurityCheck : Type 0 where
  pub total : ℕ
  pub secure : ℕ
  pub http_only : ℕ
  pub same_site_set : ℕ
  pub same_site_none_without_secure : ℕ
  pub header_bytes : ℕ

pub record SecurityAudit : Type 0 where
  pub headers : SecurityHeadersCheck
  pub cookies : CookieSecurityCheck

unfoldable pub get_header : Option (Dict Text) → Text → Option Text
get_header none name = none
get_header (some m) name = lookup name m

unfoldable pub has_header : Option (Dict Text) → Text → Bool
unfolding get_header
has_header headers name = is_some (get_header headers name)

unfoldable pub missing_headers : Option (Dict Text) → List Text
unfolding has_header
missing_headers headers = keep (λ name. not (has_header headers name)) core_security_headers

unfoldable pub check_headers : Option (Dict Text) → SecurityHeadersCheck
unfolding has_header missing_headers
check_headers headers =
    let missing = missing_headers headers in
    record {
      hsts = has_header headers (codes "Strict-Transport-Security");
      csp = has_header headers (codes "Content-Security-Policy");
      csp_report_only = has_header headers (codes "Content-Security-Policy-Report-Only");
      x_frame_options = has_header headers (codes "X-Frame-Options");
      x_content_type_options = has_header headers (codes "X-Content-Type-Options");
      referrer_policy = has_header headers (codes "Referrer-Policy");
      permissions_policy = has_header headers (codes "Permissions-Policy");
      coop = has_header headers (codes "Cross-Origin-Opener-Policy");
      coep = has_header headers (codes "Cross-Origin-Embedder-Policy");
      present_count = (length core_security_headers - length missing) % u32_bound;
      missing = missing;
      csp_found = elim (get_header headers (codes "Content-Security-Policy")) [
        | none ↦ none
        | some value ↦ parse_csp value
      ];
      hsts_found = elim (get_header headers (codes "Strict-Transport-Security")) [
        | none ↦ none
        | some value ↦ some (parse_hsts value)
      ];
    }

-- `x += 1` on a `u32`, where the test holds.
unfoldable pub add_when : Bool → ℕ → ℕ
add_when true x = (x + 1) % u32_bound
add_when false x = x

unfoldable pub is_same_site_none : Cookie → Bool
is_same_site_none cookie = elim cookie.same_site [
  | none ↦ false
  | some ss ↦ eq_ignore_ascii_case ss (codes "None")
]

-- The body of the loop over the cookies.
unfoldable pub count_cookie : Cookie → CookieSecurityCheck → CookieSecurityCheck
unfolding add_when is_same_site_none
count_cookie cookie c = record c {
  secure = add_when cookie.secure c.secure;
  http_only = add_when cookie.http_only c.http_only;
  same_site_set = add_when (is_some cookie.same_site) c.same_site_set;
  same_site_none_without_secure =
      add_when (is_same_site_none cookie && not cookie.secure) c.same_site_none_without_secure;
  header_bytes = (c.header_bytes + (length cookie.name + 1 + length cookie.value + 2)) % u64_bound;
}

unfoldable pub count_cookies : List Cookie → CookieSecurityCheck → CookieSecurityCheck
unfolding count_cookie
count_cookies [] c = c
count_cookies (cookie ∷ cookies) c = count_cookies cookies (count_cookie cookie c)

unfoldable pub check_cookies : List Cookie → CookieSecurityCheck
unfolding count_cookies
check_cookies cookies =
    let c = count_cookies cookies (record {
      total = length cookies % u32_bound;
      secure = 0;
      http_only = 0;
      same_site_set = 0;
      same_site_none_without_secure = 0;
      header_bytes = 0;
    }) in
    record c { header_bytes = if leb 2 c.header_bytes then c.header_bytes - 2 else c.header_bytes }

unfoldable pub build_security_audit : Option (Dict Text) → List Cookie → SecurityAudit
unfolding check_headers check_cookies
build_security_audit headers cookies = record {
  headers = check_headers headers;
  cookies = check_cookies cookies;
}
