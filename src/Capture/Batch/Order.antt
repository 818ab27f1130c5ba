-- ===== src/Capture/Batch/Order.antt =====
-- The results of `run_batch` of src/capture.rs keep the order of the request.
use mathlib.Core.Option.{some-injective}
use mathlib.Core.Bool.{false≢true}
use browser_headless.Base.{
  ℕ, zero, suc, ◌+◌, ◌<◌, ◌≡◌, refl, ap, ◌≢◌, ◌∙◌, inl, inr, Bool, true, Option, none, some, List,
  [], ◌∷◌, arith, Text, any, length, get_elem?, set, replicate, length-set, none-ne-some,
  get_elem?-lt, get_elem?-set_self, get_elem?-set_ne, ◌==◌, ==_iff, Bool-cases, Option-cases,
  Result,
}
use browser_headless.Config.{Env}
use browser_headless.Capture.Engine.{Captured, World}
use browser_headless.Capture.Batch.{
  BatchQuery, unwrap_slots, fill_slot, fill_slots, batch_item, run_batch,
}

module _ {B : Type 0} (item : ℕ → Text → B) where
  -- The items of the URLs from index `k` on.
  abbrev pub items_from : ℕ → List Text → List B
  items_from k [] = []
  items_from k (url ∷ urls) = item k url ∷ items_from (suc k) urls

  fill_slot-some :
      (urls : List Text) (slots : List (Option B)) (idx : ℕ) (url : Text)
      → get_elem? urls idx ≡ some url
      → fill_slot item urls slots idx ≡ set slots idx (some (item idx url))
  unfolding fill_slot
  fill_slot-some urls slots idx url e = rw (e, fill_slot)

  fill_slot-none :
      (urls : List Text) (slots : List (Option B)) (idx : ℕ)
      → get_elem? urls idx ≡ none
      → fill_slot item urls slots idx ≡ slots
  unfolding fill_slot
  fill_slot-none urls slots idx e = rw (e, fill_slot)

  length-fill_slot :
      (urls : List Text) (slots : List (Option B)) (idx : ℕ)
      → length (fill_slot item urls slots idx) ≡ length slots
  length-fill_slot urls slots idx = elim (Option-cases (get_elem? urls idx)) [
    | inl e ↦ ap length (fill_slot-none urls slots idx e)
    | inr (url, e) ↦
        ap length (fill_slot-some urls slots idx url e) ∙ length-set slots idx (some (item idx url))
  ]

  slot_there :
      (urls : List Text) (slots : List (Option B)) (j : ℕ) (url : Text)
      → length slots ≡ length urls
      → get_elem? urls j ≡ some url
      → (s : Option B) × (get_elem? slots j ≡ some s)
  slot_there [] slots j url h e = absurd (none-ne-some e)
  slot_there (u ∷ urls) [] j url h e = absurd (omega arith)
  slot_there (u ∷ urls) (s ∷ slots) zero url h e = (s, refl)
  slot_there (u ∷ urls) (s ∷ slots) (suc j) url h e = slot_there urls slots j url (omega arith) e

  fill_slot_self :
      (urls : List Text) (slots : List (Option B)) (j : ℕ) (url : Text)
      → length slots ≡ length urls
      → get_elem? urls j ≡ some url
      → get_elem? (fill_slot item urls slots j) j ≡ some (some (item j url))
  fill_slot_self urls slots j url h e =
      let (s, there) = slot_there urls slots j url h e in
      rw (fill_slot-some urls slots j url e)
        (get_elem?-set_self slots j s (some (item j url)) there)

  fill_slot_ne :
      (urls : List Text) (slots : List (Option B)) (idx j : ℕ)
      → idx ≢ j
      → get_elem? (fill_slot item urls slots idx) j ≡ get_elem? slots j
  fill_slot_ne urls slots idx j ne = elim (Option-cases (get_elem? urls idx)) [
    | inl e ↦ rw (fill_slot-none urls slots idx e)
    | inr (url, e) ↦
        rw (fill_slot-some urls slots idx url e)
          (get_elem?-set_ne slots idx j (some (item idx url)) ne)
  ]

  -- A filled slot stays as it is: a second output for the same index would be the same.
  fill_slots_keep :
      (urls : List Text) (slots : List (Option B)) (order : List ℕ) (j : ℕ) (url : Text)
      → length slots ≡ length urls
      → get_elem? urls j ≡ some url
      → get_elem? slots j ≡ some (some (item j url))
      → get_elem? (fill_slots item urls slots order) j ≡ some (some (item j url))
  unfolding fill_slots
  fill_slots_keep urls slots [] j url h e g = g
  fill_slots_keep urls slots (idx ∷ order) j url h e g =
      fill_slots_keep urls (fill_slot item urls slots idx) order j url
        (length-fill_slot urls slots idx ∙ h) e
        (elim (Bool-cases (idx == j)) [
          | inl same ↦ rw ((==_iff idx j).0 same) (fill_slot_self urls slots j url h e)
          | inr other ↦ fill_slot_ne urls slots idx j (ground (arith, other)) ∙ g
        ])

  fill_slots_done :
      (urls : List Text) (slots : List (Option B)) (order : List ℕ) (j : ℕ) (url : Text)
      → length slots ≡ length urls
      → get_elem? urls j ≡ some url
      → any (λ idx. idx == j) order ≡ true
      → get_elem? (fill_slots item urls slots order) j ≡ some (some (item j url))
  unfolding fill_slots
  fill_slots_done urls slots [] j url h e g = absurd (false≢true g)
  fill_slots_done urls slots (idx ∷ order) j url h e g = elim (Bool-cases (idx == j)) [
    | inl same ↦
        fill_slots_keep urls (fill_slot item urls slots idx) order j url
          (length-fill_slot urls slots idx ∙ h) e
          (rw ((==_iff idx j).0 same) (fill_slot_self urls slots j url h e))
    | inr other ↦
        fill_slots_done urls (fill_slot item urls slots idx) order j url
          (length-fill_slot urls slots idx ∙ h) e (ground (arith, other))
  ]

  length-fill_slots :
      (urls : List Text) (slots : List (Option B)) (order : List ℕ)
      → length (fill_slots item urls slots order) ≡ length slots
  unfolding fill_slots
  length-fill_slots urls slots [] = refl
  length-fill_slots urls slots (idx ∷ order) =
      length-fill_slots urls (fill_slot item urls slots idx) order ∙ length-fill_slot urls slots idx

  unwrap_slots-items_from :
      (k : ℕ) (urls : List Text) (slots : List (Option B))
      → length slots ≡ length urls
      → ((j : ℕ) (url : Text)
          → get_elem? urls j ≡ some url
          → get_elem? slots j ≡ some (some (item (k + j) url)))
      → unwrap_slots slots ≡ some (items_from k urls)
  unfolding unwrap_slots
  unwrap_slots-items_from k [] [] h f = refl
  unwrap_slots-items_from k [] (s ∷ slots) h f = absurd (omega arith)
  unwrap_slots-items_from k (u ∷ urls) [] h f = absurd (omega arith)
  unwrap_slots-items_from k (u ∷ urls) (s ∷ slots) h f =
      let here : s ≡ some (item k u) =
        some-injective _ _ (f 0 u refl) ∙ ap (λ n. some (item n u)) (omega arith) in
      let later : unwrap_slots slots ≡ some (items_from (suc k) urls) =
        unwrap_slots-items_from (suc k) urls slots (omega arith)
          (λ j url e. f (suc j) url e ∙ ap (λ n. some (some (item n url))) (omega arith)) in
      rw (here, unwrap_slots) (rw (later, unwrap_slots))

  length-replicate-none : (n : ℕ) → length (replicate {A = Option B} n none) ≡ n
  length-replicate-none zero = refl
  length-replicate-none (suc n) = ap suc (length-replicate-none n)

  slots-items_from :
      (urls : List Text) (order : List ℕ)
      → ((j : ℕ) → j < length urls → any (λ idx. idx == j) order ≡ true)
      → unwrap_slots (fill_slots item urls (replicate (length urls) none) order)
        ≡ some (items_from 0 urls)
  slots-items_from urls order h =
      let slots : List (Option B) = replicate (length urls) none in
      let fit : length slots ≡ length urls = length-replicate-none (length urls) in
      unwrap_slots-items_from 0 urls (fill_slots item urls slots order)
        (length-fill_slots urls slots order ∙ fit)
        (λ j url e.
          fill_slots_done urls slots order j url fit e (h j (get_elem?-lt urls j url e))
          ∙ ap (λ n. some (some (item n url))) (omega arith))

module _ {F Url Stat Json : Type 0} (env : Env) (allow_private_ips : Bool)
    (worlds : ℕ → World F Url Stat) (to_value : Captured Stat → Result Json Text) where
  -- Provided that every capture of the batch finishes, in whatever order, the batch does not panic and
  -- its results are one item for each URL, in the order of the request.
  pub run_batch-items_from :
      (batch : BatchQuery F) (order : List ℕ)
      → ((j : ℕ) → j < length batch.urls → any (λ idx. idx == j) order ≡ true)
      → run_batch env allow_private_ips worlds to_value batch order
        ≡ some
            (items_from (batch_item env allow_private_ips worlds to_value batch.base) 0 batch.urls)
  unfolding run_batch
  run_batch-items_from batch order h = slots-items_from _ batch.urls order h
