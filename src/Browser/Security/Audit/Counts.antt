-- ===== src/Browser/Security/Audit/Counts.antt =====
-- src/browser/security.rs: the audit against the response's headers and the `Cookie` header of the cookies.
use browser_headless.Base.{
  ℕ, ◌+◌, ◌-◌, ◌%◌, ◌≤◌, ◌<◌, ◌≡◌, refl, sym, ap, ◌∙◌, inl, inr, arith, Bool, true, false, not,
  ◌&&◌, ◌||◌, Option, none, some, List, [], ◌∷◌, ◌++◌, Text, codes, text_eq, text_eq_iff,
  text_eq_refl, text_eq_sym, if◌then◌else◌, is_empty, is_some, any, all, length, length-append,
  length-keep-le, keep, leb, Bool-cases, Option-cases,
}
use browser_headless.Base.Dicts.{Dict, lookup, insert, lookup-insert}
use browser_headless.Config.{u32_bound, u64_bound}
use browser_headless.Browser.Resource.{Cookie}
use browser_headless.Browser.Security.Audit.{
  Headers, security_header_names, core_security_headers, find_header, collect_headers,
  extract_security_headers, CookieSecurityCheck, get_header, has_header, missing_headers,
  check_headers, count_cookie, count_cookies, check_cookies, build_security_audit,
}

-- The value found, where the name is asked for and there is one; otherwise the other.
abbrev pick : Bool → Option Text → Option Text → Option Text
pick true (some v) other = some v
pick true none other = other
pick false found other = other

pick-twice :
    (a b : Bool) (found other : Option Text)
    → pick a found (pick b found other) ≡ pick (b || a) found other
pick-twice true true (some v) other = refl
pick-twice true true none other = refl
pick-twice true false found other = refl
pick-twice false true found other = refl
pick-twice false false found other = refl

-- What a found header adds.
abbrev put : Text → Option Text → Dict Text → Dict Text
put name none out = out
put name (some v) out = insert name v out

put-same :
    (name : Text) (found : Option Text) (out : Dict Text)
    → lookup name (put name found out) ≡ pick true found (lookup name out)
put-same name none out = refl
put-same name (some v) out =
    lookup-insert name name v out
    ∙ ap (λ b. if b then some v else lookup name out) (text_eq_refl name)

put-other :
    (k name : Text) (found : Option Text) (out : Dict Text)
    → text_eq name k ≡ false
    → lookup k (put name found out) ≡ lookup k out
put-other k name none out ne = refl
put-other k name (some v) out ne =
    lookup-insert name k v out ∙ ap (λ b. if b then some v else lookup k out) ne

collect_headers-step :
    (k name : Text) (headers : Headers) (found : Option Text) (out : Dict Text)
    → find_header name headers ≡ found
    → lookup k (put name found out) ≡ pick (text_eq k name) (find_header k headers) (lookup k out)
collect_headers-step k name headers found out h = elim (Bool-cases (text_eq k name)) [
  | inl e ↦
      let same = (text_eq_iff k name).0 e in
      ap (λ n. lookup n (put name found out)) same
      ∙ put-same name found out
      ∙ sym (
          ap (λ b. pick b (find_header k headers) (lookup k out)) e
          ∙ ap (λ f. pick true f (lookup k out)) (ap (λ n. find_header n headers) same ∙ h)
          ∙ ap (λ n. pick true found (lookup n out)) same)
  | inr e ↦
      put-other k name found out (text_eq_sym k name e)
      ∙ sym (ap (λ b. pick b (find_header k headers) (lookup k out)) e)
]

collect_headers-lookup :
    (k : Text) (names : List Text) (headers : Headers) (out : Dict Text)
    → lookup k (collect_headers names headers out)
      ≡ pick (any (text_eq k) names) (find_header k headers) (lookup k out)
unfolding collect_headers
collect_headers-lookup k [] headers out = refl
collect_headers-lookup k (name ∷ names) headers out =
    elim (Option-cases (find_header name headers)) [
      | inl e ↦
          rw (e, collect_headers)
            (collect_headers-lookup k names headers out
              ∙ ap (pick (any (text_eq k) names) (find_header k headers))
                  (collect_headers-step k name headers none out e)
              ∙ pick-twice (any (text_eq k) names) (text_eq k name) (find_header k headers)
                  (lookup k out))
      | inr (v, e) ↦
          rw (e, collect_headers)
            (collect_headers-lookup k names headers (insert name v out)
              ∙ ap (pick (any (text_eq k) names) (find_header k headers))
                  (collect_headers-step k name headers (some v) out e)
              ∙ pick-twice (any (text_eq k) names) (text_eq k name) (find_header k headers)
                  (lookup k out))
    ]

-- The `Cookie` header of all the cookies.
abbrev pub cookie_header : List Cookie → Text
cookie_header [] = []
cookie_header (c ∷ []) = c.name ++ (codes "=" ++ c.value)
cookie_header (c ∷ d ∷ cookies) =
    (c.name ++ (codes "=" ++ c.value)) ++ (codes "; " ++ cookie_header (d ∷ cookies))

abbrev cookie_bytes : List Cookie → ℕ
cookie_bytes [] = 0
cookie_bytes (c ∷ cookies) = (length c.name + 1 + length c.value + 2) + cookie_bytes cookies

length-cookie_header :
    (c : Cookie) (cookies : List Cookie)
    → length (cookie_header (c ∷ cookies)) + 2 ≡ cookie_bytes (c ∷ cookies)
unfolding codes
length-cookie_header c [] = omega (arith, length-append c.name (codes "=" ++ c.value))
length-cookie_header c (d ∷ cookies) = omega (
  arith,
  length-append (c.name ++ (codes "=" ++ c.value)) (codes "; " ++ cookie_header (d ∷ cookies)),
  length-append c.name (codes "=" ++ c.value),
  length-cookie_header d cookies,
)

mod_small : (n : ℕ) → n < u64_bound → n % u64_bound ≡ n
mod_small n h = omega (arith, h)

count_cookies-header_bytes :
    (cookies : List Cookie) (c : CookieSecurityCheck)
    → c.header_bytes + cookie_bytes cookies < u64_bound
    → (count_cookies cookies c).header_bytes ≡ c.header_bytes + cookie_bytes cookies
unfolding count_cookies count_cookie
count_cookies-header_bytes [] c h = omega arith
count_cookies-header_bytes (cookie ∷ cookies) c h =
    let small =
      mod_small (c.header_bytes + (length cookie.name + 1 + length cookie.value + 2))
        (omega (arith, h)) in
    count_cookies-header_bytes cookies (count_cookie cookie c) (rw small (omega (arith, h)))
    ∙ omega (arith, small)

get-unless_empty :
    (name : Text) (m : Dict Text)
    → get_header (if is_empty m then none else some m) name ≡ lookup name m
unfolding get_header lookup
get-unless_empty name [] = refl
get-unless_empty name (x ∷ m) = refl

pick-none : (found : Option Text) → pick true found none ≡ found
pick-none none = refl
pick-none (some v) = refl

-- A header that is asked for is in the extracted map as the response has it: the first of that name in any case, if
-- its value is a string.
extract-lookup :
    (name : Text) (raw : Headers)
    → any (text_eq name) security_header_names ≡ true
    → get_header (extract_security_headers (some raw)) name ≡ find_header name raw
unfolding extract_security_headers lookup
extract-lookup name raw asked =
    get-unless_empty name (collect_headers security_header_names raw [])
    ∙ collect_headers-lookup name security_header_names raw []
    ∙ ap (λ b. pick b (find_header name raw) none) asked
    ∙ pick-none (find_header name raw)

and-true : (a b : Bool) → (a && b) ≡ true → (a ≡ true) × (b ≡ true)
and-true true b h = (refl, h)
and-true false b h = cc

keep-asked :
    (names : List Text) (raw : Headers)
    → all (λ name. any (text_eq name) security_header_names) names ≡ true
    → keep (λ name. not (has_header (extract_security_headers (some raw)) name)) names
      ≡ keep (λ name. not (is_some (find_header name raw))) names
unfolding has_header
keep-asked [] raw h = refl
keep-asked (name ∷ names) raw h =
    let (asked, h') = and-true (any (text_eq name) security_header_names) _ h in
    rw (extract-lookup name raw asked) (
      ap (λ rest. if not (is_some (find_header name raw)) then name ∷ rest else rest)
        (keep-asked names raw h'))

seven_less : (missing : ℕ) → missing ≤ 7 → (7 - missing) % u32_bound + missing ≡ 7
seven_less missing h = omega (arith, h)

drop_two : (n m : ℕ) → n ≡ m + 2 → (if leb 2 n then n - 2 else n) ≡ m
drop_two n m h = ground arith

check_cookies-header_bytes :
    (cookies : List Cookie)
    → length (cookie_header cookies) + 2 < u64_bound
    → (check_cookies cookies).header_bytes ≡ length (cookie_header cookies)
unfolding check_cookies count_cookies
check_cookies-header_bytes [] fits = refl
check_cookies-header_bytes (c ∷ cookies) fits =
    let start : CookieSecurityCheck = record {
      total = length (c ∷ cookies) % u32_bound;
      secure = 0;
      http_only = 0;
      same_site_set = 0;
      same_site_none_without_secure = 0;
      header_bytes = 0;
    } in
    let measured = length-cookie_header c cookies in
    let summed = count_cookies-header_bytes (c ∷ cookies) start (omega (arith, fits, measured)) in
    drop_two (count_cookies (c ∷ cookies) start).header_bytes (length (cookie_header (c ∷ cookies)))
      (omega (arith, summed, measured))

-- The audit of the extracted headers reports a core header as missing exactly where the response has no such header,
-- in any case, with a string as its value; it counts the others; and it measures the `Cookie` header of all
-- the cookies, as long as that fits a u64.
pub build_security_audit-Counts :
    (raw : Headers) (cookies : List Cookie)
    → length (cookie_header cookies) + 2 < u64_bound
    → let audit = build_security_audit (extract_security_headers (some raw)) cookies in
      (audit.headers.missing
        ≡ keep (λ name. not (is_some (find_header name raw))) core_security_headers)
      × (audit.headers.present_count + length audit.headers.missing ≡ 7)
      × (audit.cookies.header_bytes ≡ length (cookie_header cookies))
unfolding build_security_audit check_headers missing_headers text_eq codes
build_security_audit-Counts raw cookies fits = (
  keep-asked core_security_headers raw refl,
  seven_less _ (
      length-keep-le (λ name. not (has_header (extract_security_headers (some raw)) name))
        core_security_headers),
  check_cookies-header_bytes cookies fits,
)
