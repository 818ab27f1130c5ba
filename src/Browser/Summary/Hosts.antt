-- ===== src/Browser/Summary/Hosts.antt =====
-- The third-party hosts of `build_resource_summary` of src/browser/mod.rs, each with its own resources.
use browser_headless.Base.{
  ℕ, ◌+◌, ◌≡◌, refl, arith, Bool, false, not, ◌&&◌, Option, none, some, List, [], ◌∷◌, Text, codes,
  text_eq, text_eq_iff, is_empty, length, sum, map, keep, if◌then◌else◌,
}
use browser_headless.Base.Dicts.{Dict}
use browser_headless.Browser.Resource.{WebPageResource}
use browser_headless.Browser.Analysis.{mime_bucket}
use browser_headless.Browser.Summary.{
  add_bytes, HostCounts, Tally, host_of, count_third_party, count_host, tally_one, tally,
}

-- The bytes and the count under a host.
abbrev pub bytes_at : Text → Dict (ℕ × ℕ) → ℕ
bytes_at j [] = 0
bytes_at j ((i, (b, c)) ∷ d) = if text_eq i j then b else bytes_at j d

abbrev pub count_at : Text → Dict (ℕ × ℕ) → ℕ
count_at j [] = 0
count_at j ((i, (b, c)) ∷ d) = if text_eq i j then c else count_at j d

bytes_at-add_bytes :
    (j k : Text) (n : ℕ) (d : Dict (ℕ × ℕ))
    → bytes_at j (add_bytes k n d) ≡ bytes_at j d + (if text_eq k j then n else 0)
unfolding add_bytes
bytes_at-add_bytes j k n [] = ground arith
bytes_at-add_bytes j k n ((i, (b, c)) ∷ d) =
    ground (arith, text_eq_iff k j, text_eq_iff i k, text_eq_iff i j, bytes_at-add_bytes j k n d)

count_at-add_bytes :
    (j k : Text) (n : ℕ) (d : Dict (ℕ × ℕ))
    → count_at j (add_bytes k n d) ≡ count_at j d + (if text_eq k j then 1 else 0)
unfolding add_bytes
count_at-add_bytes j k n [] = ground arith
count_at-add_bytes j k n ((i, (b, c)) ∷ d) =
    ground (arith, text_eq_iff k j, text_eq_iff i k, text_eq_iff i j, count_at-add_bytes j k n d)

-- A resource of that host, which is not the page's own; and one that is a script.
abbrev pub is_third_party : Text → Text → WebPageResource → Bool
is_third_party target_host host r =
    not (is_empty target_host)
    && (not (text_eq host target_host)
        && (elim (host_of r) [ none ↦ false | some h ↦ text_eq h host ]))

abbrev pub is_third_party_script : Text → Text → WebPageResource → Bool
is_third_party_script target_host host r =
    is_third_party target_host host r && text_eq (mime_bucket r.mime_type) (codes "javascript")

abbrev pub bytes_where : (WebPageResource → Bool) → List WebPageResource → ℕ
bytes_where p rs = sum (map (λ r. r.content_size) (keep p rs))

abbrev pub count_where : (WebPageResource → Bool) → List WebPageResource → ℕ
count_where p rs = length (keep p rs)

-- What one resource adds under a host.
record Adds (target_host host : Text) (r : WebPageResource) (t u : HostCounts) : Type 0 where
  bytes :
      bytes_at host u.third_party_by_host
      ≡ bytes_at host t.third_party_by_host
        + (if is_third_party target_host host r then r.content_size else 0)
  counted :
      count_at host u.third_party_by_host
      ≡ count_at host t.third_party_by_host + (if is_third_party target_host host r then 1 else 0)
  script_bytes :
      bytes_at host u.third_party_scripts_by_host
      ≡ bytes_at host t.third_party_scripts_by_host
        + (if is_third_party_script target_host host r then r.content_size else 0)
  scripts_counted :
      count_at host u.third_party_scripts_by_host
      ≡ count_at host t.third_party_scripts_by_host
        + (if is_third_party_script target_host host r then 1 else 0)

count_host-Adds :
    (target_host host : Text) (r : WebPageResource) (o : Option Text) (t : HostCounts)
    → host_of r ≡ o
    → Adds target_host host r t (count_host target_host r o t)
unfolding count_host count_third_party
count_host-Adds target_host host r none t e = record {
  bytes = ground arith;
  counted = ground arith;
  script_bytes = ground arith;
  scripts_counted = ground arith;
}
count_host-Adds target_host host r (some h) t e = record {
  bytes =
      ground
        (arith, text_eq_iff h host, bytes_at-add_bytes host h r.content_size t.third_party_by_host);
  counted =
      ground
        (arith, text_eq_iff h host, count_at-add_bytes host h r.content_size t.third_party_by_host);
  script_bytes = ground (
    arith,
    text_eq_iff h host,
    bytes_at-add_bytes host h r.content_size t.third_party_scripts_by_host,
  );
  scripts_counted = ground (
    arith,
    text_eq_iff h host,
    count_at-add_bytes host h r.content_size t.third_party_scripts_by_host,
  );
}

-- What the loop counts under a host: exactly the resources of the list that are third-party ones of that host.
pub record HostTally (target_host host : Text) (rs : List WebPageResource) (t u : HostCounts)
    : Type 0 where
  pub bytes :
      bytes_at host u.third_party_by_host
      ≡ bytes_at host t.third_party_by_host + bytes_where (is_third_party target_host host) rs
  pub counted :
      count_at host u.third_party_by_host
      ≡ count_at host t.third_party_by_host + count_where (is_third_party target_host host) rs
  pub script_bytes :
      bytes_at host u.third_party_scripts_by_host
      ≡ bytes_at host t.third_party_scripts_by_host
        + bytes_where (is_third_party_script target_host host) rs
  pub scripts_counted :
      count_at host u.third_party_scripts_by_host
      ≡ count_at host t.third_party_scripts_by_host
        + count_where (is_third_party_script target_host host) rs

bytes_where-cons :
    (p : WebPageResource → Bool) (r : WebPageResource) (rs : List WebPageResource)
    → bytes_where p (r ∷ rs) ≡ (if p r then r.content_size else 0) + bytes_where p rs
bytes_where-cons p r rs = ground arith

count_where-cons :
    (p : WebPageResource → Bool) (r : WebPageResource) (rs : List WebPageResource)
    → count_where p (r ∷ rs) ≡ (if p r then 1 else 0) + count_where p rs
count_where-cons p r rs = ground arith

pub tally-HostTally :
    (target_host host : Text) (rs : List WebPageResource) (t : Tally)
    → HostTally target_host host rs t.by_host (tally target_host rs t).by_host
unfolding tally tally_one
tally-HostTally target_host host [] t = record {
  bytes = omega arith;
  counted = omega arith;
  script_bytes = omega arith;
  scripts_counted = omega arith;
}
tally-HostTally target_host host (r ∷ rs) t =
    let one = count_host-Adds target_host host r (host_of r) t.by_host refl in
    let rest = tally-HostTally target_host host rs (tally_one target_host r t) in
    let third = is_third_party target_host host in
    let script = is_third_party_script target_host host in
    record {
      bytes = omega (arith, one.bytes, rest.bytes, bytes_where-cons third r rs);
      counted = omega (arith, one.counted, rest.counted, count_where-cons third r rs);
      script_bytes =
          omega (arith, one.script_bytes, rest.script_bytes, bytes_where-cons script r rs);
      scripts_counted =
          omega (arith, one.scripts_counted, rest.scripts_counted, count_where-cons script r rs);
    }
