-- ===== src/Capture/Batch.antt =====
-- `run_batch` of src/capture.rs. `buffer_unordered` of the futures crate yields the output of every
-- future once, in the order in which they finish; that order is an argument.
pub mod Order
use browser_headless.Base.{
  ℕ, zero, suc, ◌+◌, ◌<◌, ◌≤◌, ◌≡◌, refl, sym, ap, ◌≢◌, ◌∙◌, inl, inr, Bool, true, false, Option,
  none, some, List, [], ◌∷◌, arith, Text, codes, ◌++◌, any, all, length, get_elem?, set, replicate,
  length-set, get_elem?-set_self, get_elem?-set_ne, ◌==◌, ==_iff, ==-refl, Bool-cases, Option-cases,
  Result, ok, err, max, min, if◌then◌else◌,
}
use browser_headless.Config.{Env}
use browser_headless.Error.{CaptureError, status_u16}
use browser_headless.Capture.Query.{SummaryQuery}
use browser_headless.Capture.Engine.{Captured, content, full, World, capture_one}

pub record BatchItem (Json : Type 0) : Type 0 where
  pub url : Text
  pub status : ℕ
  pub body : Option Json
  pub error : Option Text

pub record BatchQuery (F : Type 0) : Type 0 where
  pub urls : List Text
  pub base : SummaryQuery F

module _ {Json : Type 0} where
  unfoldable pub success : Text → Result Json Text → BatchItem Json
  success url (ok value) = record { url = url; status = 200; body = some value; error = none }
  success url (err e) = record {
    url = url;
    status = 500;
    body = none;
    error = some (codes "serialize result: " ++ e);
  }

  unfoldable pub failure : Text → ℕ → Text → BatchItem Json
  failure url status error = record { url = url; status = status; body = none; error = some error }

module _ {B : Type 0} where
  -- `.map(|slot| slot.expect(…))`; `none` is the panic of an empty slot.
  unfoldable pub unwrap_slots : List (Option B) → Option (List B)
  unwrap_slots [] = some []
  unwrap_slots (none ∷ slots) = none
  unwrap_slots (some item ∷ slots) = elim (unwrap_slots slots) [
    | none ↦ none
    | some items ↦ some (item ∷ items)
  ]

  -- The future of one URL done: its output goes to its slot.
  unfoldable pub fill_slot : (ℕ → Text → B) → List Text → List (Option B) → ℕ → List (Option B)
  fill_slot item urls slots idx = elim (get_elem? urls idx) [
    | none ↦ slots
    | some url ↦ set slots idx (some (item idx url))
  ]

  -- The loop over the stream.
  unfoldable pub fill_slots :
      (ℕ → Text → B) → List Text → List (Option B) → List ℕ → List (Option B)
  unfolding fill_slot
  fill_slots item urls slots [] = slots
  fill_slots item urls slots (idx ∷ order) =
      fill_slots item urls (fill_slot item urls slots idx) order

-- The captures of one batch meet different worlds: `worlds` by index. `to_value` serializes.
module _ {F Url Stat Json : Type 0} (env : Env) (allow_private_ips : Bool)
    (worlds : ℕ → World F Url Stat) (to_value : Captured Stat → Result Json Text) where
  unfoldable pub batch_item : SummaryQuery F → ℕ → Text → BatchItem Json
  unfolding success failure
  batch_item base idx url =
      elim ((capture_one env (worlds idx) (record base { url = url }) allow_private_ips).1) [
        | ok captured ↦ success url (to_value captured)
        | err e ↦ failure url (status_u16 e) e.message
      ]

  -- `order` lists the indices of the URLs in the order in which their captures finish.
  unfoldable pub run_batch : BatchQuery F → List ℕ → Option (List (BatchItem Json))
  unfolding fill_slots unwrap_slots
  run_batch batch order =
      unwrap_slots
        (fill_slots (batch_item batch.base) batch.urls (replicate (length batch.urls) none) order)
