-- ===== src/Browser/Collect/Facts.antt =====
-- The functions of src/browser/mod.rs and src/browser/security.rs that read one event of the browser.
use browser_headless.Base.{
  ℕ, ◌-◌, ◌/◌, Bool, true, false, not, ◌&&◌, ◌||◌, Option, none, some, List, [], ◌∷◌, ◌++◌, map,
  min, Text, codes, show_ℕ, starts_with, eq_ignore_ascii_case, trim, split_once, is_whitespace, leb,
  ◌==◌, if◌then◌else◌, is_empty, any, take, unwrap_or,
}
use browser_headless.Base.Int.{floor_div_sub}
use browser_headless.Config.{u32_bound}
use browser_headless.Browser.Resource.{ResourceTiming}
use browser_headless.Browser.Security.Audit.{Headers}
use browser_headless.Browser.Collect.State.{
  SecurityDetails, TlsInfo, Thrown, ExceptionThrown, string, other, ConsoleArg, DocumentTiming,
}

unfoldable pub is_real_resource : Text → Bool
is_real_resource url = not (
    starts_with (codes "data:") url
    || starts_with (codes "blob:") url
    || starts_with (codes "about:") url
    || starts_with (codes "chrome-extension:") url
    || starts_with (codes "moz-extension:") url)

pub record ResourceHeaderFacts : Type 0 where
  pub content_encoding : Option Text
  pub cache_control : Option Text
  pub has_source_map : Bool
  pub cors_allow_origin : Option Text
  pub cors_allow_credentials : Bool

abbrev pub no_facts : ResourceHeaderFacts
no_facts = record {
  content_encoding = none;
  cache_control = none;
  has_source_map = false;
  cors_allow_origin = none;
  cors_allow_credentials = false;
}

-- The second half of the loop's body, which reads a CORS header.
unfoldable pub read_cors_header :
    Bool → Text → Option Text → ResourceHeaderFacts → ResourceHeaderFacts
read_cors_header want_cors k v facts =
    if not want_cors
    then facts
    else if eq_ignore_ascii_case k (codes "access-control-allow-origin")
    then record facts { cors_allow_origin = v }
    else if eq_ignore_ascii_case k (codes "access-control-allow-credentials")
    then record facts {
      cors_allow_credentials = elim v [
        | none ↦ false
        | some w ↦ eq_ignore_ascii_case (trim w) (codes "true")
      ];
    }
    else facts

unfoldable pub read_header :
    Bool → Bool → Text → Option Text → ResourceHeaderFacts → ResourceHeaderFacts
unfolding read_cors_header
read_header want_resource want_cors k v facts =
    if want_resource && eq_ignore_ascii_case k (codes "content-encoding")
    then record facts { content_encoding = v }
    else if want_resource && eq_ignore_ascii_case k (codes "cache-control")
    then record facts { cache_control = v }
    else if want_resource
        && (eq_ignore_ascii_case k (codes "sourcemap")
            || eq_ignore_ascii_case k (codes "x-sourcemap"))
    then record facts { has_source_map = true }
    else read_cors_header want_cors k v facts

unfoldable pub read_headers : Bool → Bool → Headers → ResourceHeaderFacts → ResourceHeaderFacts
unfolding read_header
read_headers want_resource want_cors [] facts = facts
read_headers want_resource want_cors ((k, v) ∷ headers) facts =
    read_headers want_resource want_cors headers (read_header want_resource want_cors k v facts)

unfoldable pub extract_resource_headers : Option Headers → Bool → Bool → ResourceHeaderFacts
unfolding read_headers
extract_resource_headers headers want_resource want_cors =
    if not want_resource && not want_cors then no_facts else elim headers [
      | none ↦ no_facts
      | some object ↦ read_headers want_resource want_cors object no_facts
    ]

-- The whole milliseconds from `a` to `b`, cut to a u32.
unfoldable pub phase : ℕ → ℕ → ℕ
phase a b = min ((b - a) / 1000) (u32_bound - 1)

unfoldable pub build_document_timing : Text → ℕ → Bool → Text → ResourceTiming → DocumentTiming
unfolding phase
build_document_timing url status from_cache protocol t = record {
  url = url;
  status = status;
  from_cache = from_cache;
  protocol = protocol;
  dns_ms = phase t.dns_start t.dns_end;
  tcp_ms = phase t.connect_start t.connect_end;
  tls_ms = phase t.ssl_start t.ssl_end;
  ttfb_ms = phase t.send_start t.receive_headers_end;
}

-- `extract_tls_info` of src/browser/security.rs, with the clock's seconds as an argument.
unfoldable pub extract_tls_info : ℕ → SecurityDetails → Text → Option Text → Option ℕ → TlsInfo
extract_tls_info now_secs sd host remote_ip remote_port = record {
  host = host;
  remote_ip = remote_ip;
  remote_port = remote_port;
  protocol = sd.protocol;
  cipher = sd.cipher;
  key_exchange = if is_empty sd.key_exchange then none else some sd.key_exchange;
  subject_name = sd.subject_name;
  issuer = sd.issuer;
  valid_from = sd.valid_from;
  valid_to = sd.valid_to;
  days_remaining = floor_div_sub sd.valid_to now_secs 86400;
  san_list = sd.san_list;
}

unfoldable pub description_of : Option Thrown → Option Text
description_of none = none
description_of (some e) = e.description

unfoldable pub format_exception : ExceptionThrown → Text
unfolding description_of
format_exception d =
    let extra = unwrap_or (description_of d.exception) [] in
    let place =
      show_ℕ d.line_number ++ (codes ":" ++ (show_ℕ d.column_number ++ (codes " " ++ d.text))) in
    if is_empty extra then place else place ++ (codes " | " ++ extra)

abbrev pub is_ascii_alphabetic : ℕ → Bool
is_ascii_alphabetic c = (leb b'a' c && leb c b'z') || (leb b'A' c && leb c b'Z')

-- Whether the head of a description can name a class.
unfoldable pub is_class_name : Text → Bool
is_class_name [] = false
is_class_name (c ∷ head) = is_ascii_alphabetic c && not (any is_whitespace (c ∷ head))

unfoldable pub classify_description : Option Text → Text
unfolding is_class_name
classify_description none = codes "Other"
classify_description (some desc) = elim (split_once b':' desc) [
  | none ↦ codes "Other"
  | some (head, _) ↦ if is_class_name (trim head) then trim head else codes "Other"
]

unfoldable pub classify_thrown : Thrown → Text
unfolding classify_description
classify_thrown exc = elim exc.class_name [
  | none ↦ classify_description exc.description
  | some class ↦ if is_empty class then classify_description exc.description else class
]

unfoldable pub classify_exception : ExceptionThrown → Text
unfolding classify_thrown
classify_exception d = elim d.exception [ none ↦ codes "Other" | some exc ↦ classify_thrown exc ]

-- `text.lines().next()`: up to the first line feed, less a carriage return before it. A text without a line feed
-- is its own first line.
unfoldable pub first_line : Text → Text
first_line [] = []
first_line (c ∷ []) = if c == 10 then [] else c ∷ []
first_line (c ∷ d ∷ t) =
    let rest = c ∷ first_line (d ∷ t) in
    if c == 10 then [] else if c == 13 && d == 10 then [] else rest

unfoldable pub exception_sample_message : ExceptionThrown → Option Text
unfolding description_of first_line
exception_sample_message d =
    let described = unwrap_or (description_of d.exception) [] in
    let raw = if is_empty described then d.text else described in
    if is_empty raw then none else some (take 200 (first_line raw))

unfoldable pub console_part : ConsoleArg → Text
console_part a = elim a.value [
  | some (string s) ↦ s
  | some (other json) ↦ json
  | none ↦ unwrap_or a.description (codes "[" ++ (a.kind ++ codes "]"))
]

-- `parts.join(" ")`.
unfoldable pub join_spaces : List Text → Text
join_spaces [] = []
join_spaces (p ∷ []) = p
join_spaces (p ∷ q ∷ ps) = p ++ (codes " " ++ join_spaces (q ∷ ps))

unfoldable pub format_console : Text → List ConsoleArg → Text
unfolding console_part join_spaces
format_console level args =
    codes "[" ++ (level ++ (codes "] " ++ join_spaces (map console_part args)))
