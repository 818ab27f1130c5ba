-- ===== src/Capture/Cookies.antt =====
-- `parse_cookie_header` of src/capture.rs.
use browser_headless.Base.{
  Option, none, some, List, [], ◌∷◌, Text, is_empty, split, split_once, trim, if◌then◌else◌,
}

-- One entry of the header: skipped if it is blank or has no `=`.
unfoldable pub parse_cookie_pair : Text → Option (Text × Text)
parse_cookie_pair raw =
    let pair = trim raw in
    if is_empty pair then none else elim (split_once b'=' pair) [
      | none ↦ none
      | some (name, value) ↦ some (trim name, trim value)
    ]

unfoldable pub filter_pairs : List Text → List (Text × Text)
unfolding parse_cookie_pair
filter_pairs [] = []
filter_pairs (raw ∷ rest) = elim (parse_cookie_pair raw) [
  | none ↦ filter_pairs rest
  | some pair ↦ pair ∷ filter_pairs rest
]

unfoldable pub parse_cookie_header : Text → List (Text × Text)
unfolding filter_pairs
parse_cookie_header header = filter_pairs (split b';' header)
