-- ===== src/Examples/Reports.antt =====
-- The derived reports at concrete headers, cookies and resources.
use browser_headless.Base.{
  ℕ, ◌+◌, ◌≤◌, ◌≡◌, ◌⊎◌, arith, true, false, not, none, some, List, [], ◌∷◌, Text, codes, split,
  is_some, any, length, keep, All,
}
use browser_headless.Browser.Resource.{WebPageResource, Cookie, new_resource}
use browser_headless.Browser.Security.{CspAnalysis, directive, parse_csp, build_cors_issues}
use browser_headless.Browser.Security.Csp.Reading.{Reads, parse_csp-Reads}
use browser_headless.Browser.Security.Cors.{Distinct, IsFrom}
use browser_headless.Browser.Security.Cors.Report.{Complete, build_cors_issues-Complete}
use browser_headless.Browser.Security.Audit.{
  Headers, core_security_headers, find_header, extract_security_headers, build_security_audit,
}
use browser_headless.Browser.Security.Audit.Counts.{cookie_header, build_security_audit-Counts}
use browser_headless.Browser.Coverage.{ScriptCoverage}
use browser_headless.Browser.Analysis.{compute_initiator_chain_depth}
use browser_headless.Browser.Analysis.Chains.{
  initiator_of, Longest, compute_initiator_chain_depth-Walk,
}

abbrev weak_policy : Text
weak_policy = codes "default-src 'self'; script-src 'UNSAFE-inline' *"

parse_csp-Reads_example :
    ((parse_csp weak_policy ≡ none)
      × (any (λ raw. is_some (directive raw)) (split b';' weak_policy) ≡ false))
    ⊎ ((a : CspAnalysis) × (parse_csp weak_policy ≡ some a)
        × (any (λ raw. is_some (directive raw)) (split b';' weak_policy) ≡ true)
        × Reads weak_policy a)
parse_csp-Reads_example = parse_csp-Reads weak_policy

-- A script that the page started, open to every origin with credentials, and what that script loaded.
abbrev pub two_resources : List WebPageResource
two_resources =
    record (new_resource (codes "1")) {
      content_size = 10;
      url = codes "https://example.com/a.js";
      mime_type = codes "text/javascript";
      cors_allow_origin = some (codes "*");
      cors_allow_credentials = true;
    }
    ∷ record (new_resource (codes "2")) {
      content_size = 20;
      url = codes "https://example.com/b.js";
      mime_type = codes "text/javascript";
      initiator = some (record {
        kind = codes "script";
        url = some (codes "https://example.com/a.js");
        line_number = none;
      });
    }
    ∷ []

build_cors_issues-Complete_example :
    (length (build_cors_issues two_resources) ≤ 20)
    × Distinct (build_cors_issues two_resources)
    × All (IsFrom two_resources) (build_cors_issues two_resources)
    × Complete two_resources (build_cors_issues two_resources)
build_cors_issues-Complete_example = build_cors_issues-Complete two_resources

compute_initiator_chain_depth-Walk_example :
    ((any (λ r. is_some r.initiator) two_resources ≡ false)
      × (compute_initiator_chain_depth two_resources ≡ none))
    ⊎ ((any (λ r. is_some r.initiator) two_resources ≡ true)
        × ((d : ℕ) × (compute_initiator_chain_depth two_resources ≡ some d)
            × Longest (λ url. initiator_of url two_resources none) two_resources 0 d
            × (d ≤ 101)))
compute_initiator_chain_depth-Walk_example = compute_initiator_chain_depth-Walk two_resources

abbrev some_headers : Headers
some_headers = (codes "x-frame-options", some (codes "DENY")) ∷ []

abbrev one_cookie : List Cookie
one_cookie =
    record {
      name = codes "a";
      value = codes "b";
      http_only = true;
      secure = false;
      same_site = none;
    }
    ∷ []

build_security_audit-Counts_example :
    ((build_security_audit
        (extract_security_headers (some some_headers))
        one_cookie).headers.missing
      ≡ keep (λ name. not (is_some (find_header name some_headers))) core_security_headers)
    × ((build_security_audit
            (extract_security_headers (some some_headers))
            one_cookie).headers.present_count
          + length
              (build_security_audit
                (extract_security_headers (some some_headers))
                one_cookie).headers.missing
        ≡ 7)
    × ((build_security_audit
          (extract_security_headers (some some_headers))
          one_cookie).cookies.header_bytes
        ≡ length (cookie_header one_cookie))
unfolding codes
build_security_audit-Counts_example =
    build_security_audit-Counts some_headers one_cookie (omega arith)

-- A function that was run, with a branch in it that was not.
abbrev pub one_script : ScriptCoverage
one_script = record {
  url = codes "https://example.com/a.js";
  functions =
      record {
        ranges =
            record { start_offset = 0; end_offset = 100; count = 1 }
            ∷ record { start_offset = 10; end_offset = 30; count = 0 }
            ∷ [];
      }
      ∷ [];
}
