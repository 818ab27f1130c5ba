-- ===== src/Browser/Summary/Duplicates.antt =====
-- `build_duplicate_resources` of src/browser/mod.rs. A group of a map is a key with its members in order.
use browser_headless.Base.{
  ℕ, ◌+◌, ◌-◌, ◌*◌, Bool, ◌&&◌, none, some, List, [], ◌∷◌, ◌++◌, map, Text, codes, text_eq, show_ℕ,
  leb, ltb, ◌==◌, if◌then◌else◌, length, take, sum,
}
use browser_headless.Base.Sorting.{sort_by, text_le}
use browser_headless.Browser.Resource.{WebPageResource}
use browser_headless.Browser.Analysis.{url_basename}

pub record DuplicateEntry : Type 0 where
  pub key : Text
  pub urls : List Text
  pub count : ℕ
  pub bytes_each : ℕ
  pub wasted_bytes : ℕ

pub record DuplicateResources : Type 0 where
  pub exact_url : List DuplicateEntry
  pub likely_same_file : List DuplicateEntry
  pub wasted_bytes : ℕ

-- `map.entry(k).or_default().push(v)`, for keys that a test compares.
unfoldable pub push_group {ℓ κ} :
    {K : Type ℓ} {V : Type κ} → (K → K → Bool) → K → V → List (K × List V) → List (K × List V)
push_group same k v [] = (k, v ∷ []) ∷ []
push_group same k v ((j, vs) ∷ groups) =
    if same j k then (j, vs ++ (v ∷ [])) ∷ groups else (j, vs) ∷ push_group same k v groups

unfoldable pub group_by_url : List WebPageResource → List (Text × List ℕ) → List (Text × List ℕ)
unfolding push_group
group_by_url [] groups = groups
group_by_url (r ∷ rs) groups = group_by_url rs (push_group text_eq r.url r.content_size groups)

abbrev pub descending : ℕ → ℕ → Bool
descending a b = leb b a

-- The largest copy, and what the others cost.
unfoldable pub split_largest : List ℕ → ℕ × ℕ
split_largest [] = (0, 0)
split_largest (size ∷ sizes) = (size, sum sizes)

unfoldable pub exact_entry : Text → List ℕ → DuplicateEntry
unfolding split_largest sort_by
exact_entry url sizes =
    let (bytes_each, wasted) = split_largest (sort_by descending sizes) in
    record {
      key = url;
      urls = url ∷ [];
      count = length sizes;
      bytes_each = bytes_each;
      wasted_bytes = wasted;
    }

unfoldable pub exact_entries : List (Text × List ℕ) → List DuplicateEntry
unfolding exact_entry
exact_entries [] = []
exact_entries ((url, sizes) ∷ groups) =
    let rest = exact_entries groups in
    if ltb (length sizes) 2 then rest else exact_entry url sizes ∷ rest

abbrev pub same_name_size : Text × ℕ → Text × ℕ → Bool
same_name_size a b = text_eq a.0 b.0 && a.1 == b.1

-- The resources that have a size and a name.
unfoldable pub group_by_name :
    List WebPageResource → List ((Text × ℕ) × List Text) → List ((Text × ℕ) × List Text)
unfolding push_group
group_by_name [] groups = groups
group_by_name (r ∷ rs) groups = elim (url_basename r.url) [
  | none ↦ group_by_name rs groups
  | some name ↦ group_by_name rs (
      if r.content_size == 0
      then groups
      else push_group same_name_size (name, r.content_size) r.url groups)
]

-- `dedup()` of a sorted list.
unfoldable pub dedup : List Text → List Text
dedup [] = []
dedup (u ∷ []) = u ∷ []
dedup (u ∷ v ∷ us) = let rest = dedup (v ∷ us) in if text_eq u v then rest else u ∷ rest

unfoldable pub likely_entry : Text → ℕ → List Text → DuplicateEntry
likely_entry name size urls = record {
  key = name ++ (codes "|" ++ show_ℕ size);
  urls = urls;
  count = length urls;
  bytes_each = size;
  wasted_bytes = (length urls - 1) * size;
}

unfoldable pub likely_entries : List ((Text × ℕ) × List Text) → List DuplicateEntry
unfolding dedup sort_by text_le likely_entry
likely_entries [] = []
likely_entries (((name, size), urls) ∷ groups) =
    let rest = likely_entries groups in
    let distinct = dedup (sort_by text_le urls) in
    if ltb (length distinct) 2 then rest else likely_entry name size distinct ∷ rest

abbrev pub wasted : List DuplicateEntry → ℕ
wasted entries = sum (map (λ e. e.wasted_bytes) entries)

abbrev pub more_wasted : DuplicateEntry → DuplicateEntry → Bool
more_wasted a b = leb b.wasted_bytes a.wasted_bytes

unfoldable pub build_duplicate_resources : List WebPageResource → DuplicateResources
unfolding group_by_url exact_entries group_by_name likely_entries sort_by
build_duplicate_resources resources =
    let exact_url = exact_entries (group_by_url resources []) in
    let likely_same_file = likely_entries (group_by_name resources []) in
    record {
      exact_url = take 10 (sort_by more_wasted exact_url);
      likely_same_file = take 10 (sort_by more_wasted likely_same_file);
      wasted_bytes = wasted exact_url + wasted likely_same_file;
    }
