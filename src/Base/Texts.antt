-- ===== src/Base/Texts.antt =====
-- Texts as lists of code points: `str` and `String` of the source. A byte of the source is a code
-- point here, which is the same for ASCII.
use Prim.Native.Nat.{ℕ, zero, suc, ◌+◌, ◌-◌, ◌*◌, ◌/◌, ◌%◌, ◌<◌}
use Prim.Native.Char.{code}
use Prim.Native.String.{String}
use mathlib.Core.Path.{◌≡◌, refl}
use mathlib.Core.Logic.{◌↔◌}
use mathlib.Core.Bool.{Bool, true, false, ◌&&◌, ◌||◌}
use mathlib.Core.List.{List, [], ◌∷◌, map}
use mathlib.Core.Option.{Option, none, some}
use native.Mathlib.Omega.{arith}
use browser_headless.Base.Tests.{if◌then◌else◌, ◌==◌, leb}

abbrev pub Text : Type 0
Text = List ℕ

-- A literal.
unfoldable pub codes : String → Text
codes String.[] = []
codes (String.◌∷◌ c s) = code c ∷ codes s

unfoldable pub text_eq : Text → Text → Bool
text_eq [] [] = true
text_eq [] (d ∷ t) = false
text_eq (c ∷ s) [] = false
text_eq (c ∷ s) (d ∷ t) = c == d && text_eq s t

pub text_eq_refl : (s : Text) → text_eq s s ≡ true
unfolding text_eq
text_eq_refl [] = refl
text_eq_refl (c ∷ s) = ground (arith, text_eq_refl s)

pub text_eq_sound : (s t : Text) → text_eq s t ≡ true → s ≡ t
unfolding text_eq
text_eq_sound [] [] h = refl
text_eq_sound [] (d ∷ t) h = ground arith
text_eq_sound (c ∷ s) [] h = ground arith
text_eq_sound (c ∷ s) (d ∷ t) h = ground (arith, text_eq_sound s t)

pub text_eq_iff : (s t : Text) → (text_eq s t ≡ true) ↔ (s ≡ t)
text_eq_iff s t = (text_eq_sound s t, λ e. subst_eq e)
  where
    subst_eq : s ≡ t → text_eq s t ≡ true
    subst_eq e = rw (← e) (text_eq_refl s)

pub text_eq_sym : (s t : Text) → text_eq s t ≡ false → text_eq t s ≡ false
text_eq_sym s t h = ground (arith, text_eq_iff s t, text_eq_iff t s, h)

-- `text.strip_prefix(pre)`.
unfoldable pub strip_prefix : Text → Text → Option Text
strip_prefix [] t = some t
strip_prefix (c ∷ p) [] = none
strip_prefix (c ∷ p) (d ∷ t) = if c == d then strip_prefix p t else none

-- `text.starts_with(pre)`.
unfoldable pub starts_with : Text → Text → Bool
starts_with [] t = true
starts_with (c ∷ p) [] = false
starts_with (c ∷ p) (d ∷ t) = c == d && starts_with p t

-- `text.contains(part)`.
unfoldable pub contains : Text → Text → Bool
unfolding starts_with
contains p [] = starts_with p []
contains p (d ∷ t) = starts_with p (d ∷ t) || contains p t

abbrev pub to_ascii_lowercase_code : ℕ → ℕ
to_ascii_lowercase_code c = if leb b'A' c && leb c b'Z' then c + 32 else c

unfoldable pub to_ascii_lowercase : Text → Text
to_ascii_lowercase = map to_ascii_lowercase_code

unfoldable pub eq_ignore_ascii_case : Text → Text → Bool
unfolding text_eq to_ascii_lowercase
eq_ignore_ascii_case s t = text_eq (to_ascii_lowercase s) (to_ascii_lowercase t)

-- `text.split(sep)`: never empty.
unfoldable pub split : ℕ → Text → List Text
split sep [] = [] ∷ []
split sep (c ∷ t) = elim (split sep t) [
  | [] ↦ [] ∷ []
  | piece ∷ rest ↦ if c == sep then [] ∷ piece ∷ rest else (c ∷ piece) ∷ rest
]

-- `text.split_once(sep)`.
unfoldable pub split_once : ℕ → Text → Option (Text × Text)
split_once sep [] = none
split_once sep (c ∷ t) =
    if c == sep
    then some ([], t)
    else elim (split_once sep t) [ none ↦ none | some (a, b) ↦ some (c ∷ a, b) ]

-- The ASCII part of `char::is_whitespace`.
abbrev pub is_whitespace : ℕ → Bool
is_whitespace c = (leb 9 c && leb c 13) || c == 32

-- `text.split(char::is_whitespace)`, of which `split_whitespace` drops the empty pieces.
split_spaces : Text → List Text
split_spaces [] = [] ∷ []
split_spaces (c ∷ t) = elim (split_spaces t) [
  | [] ↦ [] ∷ []
  | piece ∷ rest ↦ if is_whitespace c then [] ∷ piece ∷ rest else (c ∷ piece) ∷ rest
]

drop_empty : List Text → List Text
drop_empty [] = []
drop_empty ([] ∷ pieces) = drop_empty pieces
drop_empty ((c ∷ t) ∷ pieces) = (c ∷ t) ∷ drop_empty pieces

-- `text.split_whitespace()`.
unfoldable pub split_whitespace : Text → List Text
unfolding split_spaces drop_empty
split_whitespace t = drop_empty (split_spaces t)

unfoldable pub trim_start : Text → Text
trim_start [] = []
trim_start (c ∷ t) = if is_whitespace c then trim_start t else c ∷ t

unfoldable pub trim_end : Text → Text
trim_end [] = []
trim_end (c ∷ t) = elim (trim_end t) [
  | [] ↦ if is_whitespace c then [] else c ∷ []
  | d ∷ r ↦ c ∷ d ∷ r
]

unfoldable pub trim : Text → Text
unfolding trim_start trim_end
trim t = trim_end (trim_start t)

-- Decimal digits: `{n}` in a format string. `n + 1` rounds of the division are enough.
show_fuel : ℕ → ℕ → Text → Text
show_fuel zero n acc = acc
show_fuel (suc f) n acc =
    let rest = show_fuel f (n / 10) ((48 + n % 10) ∷ acc) in
    if n / 10 == 0 then (48 + n % 10) ∷ acc else rest

unfoldable pub show_ℕ : ℕ → Text
unfolding show_fuel
show_ℕ n = show_fuel (suc n) n []

-- `text.parse::<u64>()`, with the width's bound as an argument: an optional `+`, then digits.
digits_from : ℕ → ℕ → Text → Option ℕ
digits_from bound acc [] = some acc
digits_from bound acc (c ∷ t) =
    let rest = digits_from bound (acc * 10 + (c - 48)) t in
    if leb 48 c && leb c 57 && leb (acc * 10 + (c - 48) + 1) bound then rest else none

unsigned : ℕ → Text → Option ℕ
unfolding digits_from
unsigned bound [] = none
unsigned bound (c ∷ t) = digits_from bound 0 (c ∷ t)

unfoldable pub parse_uint : ℕ → Text → Option ℕ
unfolding unsigned
parse_uint bound [] = none
parse_uint bound (c ∷ t) = if c == b'+' then unsigned bound t else unsigned bound (c ∷ t)

digits_from_lt :
    (bound acc : ℕ) (t : Text) (n : ℕ) → acc < bound → digits_from bound acc t ≡ some n → n < bound
unfolding digits_from
digits_from_lt bound acc [] n h e = ground arith
digits_from_lt bound acc (c ∷ t) n h e =
    ground (arith, digits_from_lt bound (acc * 10 + (c - 48)) t n)

-- A number that parses fits the width.
pub parse_uint_lt :
    (bound : ℕ) (t : Text) (n : ℕ) → 0 < bound → parse_uint bound t ≡ some n → n < bound
unfolding parse_uint
parse_uint_lt bound [] n h e = ground arith
parse_uint_lt bound (c ∷ []) n h e = ground (arith, digits_from_lt bound 0 (c ∷ []) n h)
parse_uint_lt bound (c ∷ d ∷ t) n h e =
    ground (arith, digits_from_lt bound 0 (c ∷ d ∷ t) n h, digits_from_lt bound 0 (d ∷ t) n h)
