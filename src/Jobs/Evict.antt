-- ===== src/Jobs/Evict.antt =====
-- src/jobs.rs: what a submit takes out of the store, and that the rest is left as it was.
use browser_headless.Base.{
  ℕ, zero, suc, ◌*◌, ◌≡◌, refl, sym, ap, ◌∙◌, subst, inl, inr, Bool, true, false, some, [], ◌∷◌,
  arith, none-ne-some, Text, text_eq, text_eq_iff, text_eq_refl, leb, length, ok, err, is_ok, to_ℕ,
  err-ne-ok, Bool-cases, Option-cases,
}
use browser_headless.Base.Dicts.{Dict, lookup, remove, retain, count_values, lookup-insert}
use browser_headless.Base.Dicts.Unique.{
  Unique, lookup-remove, lookup-retain, Unique-insert, Unique-remove, Unique-retain,
}
use browser_headless.Config.{Env, job_ttl, max_async_jobs}
use browser_headless.Error.{CaptureError}
use browser_headless.Jobs.{
  JobRecord, record_active, unexpired, oldest_completed, evict, new_record, submit,
}
use browser_headless.Jobs.Bounds.{
  evict_spent, evict_fits, evict_stuck, evict_takes, submit-full, submit-full_answer, submit-room,
}

module _ {Json : Type 0} where
  -- The second map holds nothing that the first does not.
  abbrev pub Within : Dict (JobRecord Json) → Dict (JobRecord Json) → Type 0
  Within m s = (j : Text) (r : JobRecord Json) → lookup j s ≡ some r → lookup j m ≡ some r

  -- Every job in flight of the first map is in the second.
  abbrev pub KeepsActive : Dict (JobRecord Json) → Dict (JobRecord Json) → Type 0
  KeepsActive m s =
      (j : Text) (r : JobRecord Json)
      → lookup j m ≡ some r
      → record_active r ≡ true
      → lookup j s ≡ some r

  oldest_completed-lookup :
      (m : Dict (JobRecord Json)) (k : Text) (r : JobRecord Json)
      → Unique m
      → oldest_completed m ≡ some (k, r)
      → (lookup k m ≡ some r) × (record_active r ≡ false)
  unfolding oldest_completed lookup
  oldest_completed-lookup [] k r u h = ground arith
  oldest_completed-lookup ((i, s) ∷ m) k r u h =
      ground (arith, text_eq_refl i, text_eq_iff i k, u.0, oldest_completed-lookup m k r u.1)

  Within-remove : (k : Text) (m : Dict (JobRecord Json)) → Unique m → Within m (remove k m)
  Within-remove k m u j r h = ground (arith, lookup-remove k j m u, h)

  KeepsActive-remove :
      (k : Text) (s : JobRecord Json) (m : Dict (JobRecord Json))
      → Unique m
      → lookup k m ≡ some s
      → record_active s ≡ false
      → KeepsActive m (remove k m)
  KeepsActive-remove k s m u f a j r h b = ground (arith, lookup-remove k j m u, text_eq_iff k j)

  evict-keeps :
      (fuel limit : ℕ) (m : Dict (JobRecord Json))
      → Unique m
      → Unique (evict fuel limit m)
        × Within m (evict fuel limit m)
        × KeepsActive m (evict fuel limit m)
  evict-keeps zero limit m u = rw (evict_spent limit m) (u, (λ j r h. h), (λ j r h a. h))
  evict-keeps (suc fuel) limit m u = elim (Bool-cases (leb limit (length m))) [
    | inr fits ↦ rw (evict_fits fuel limit m fits) (u, (λ j r h. h), (λ j r h a. h))
    | inl full ↦ elim (Option-cases (oldest_completed m)) [
      | inl e ↦ rw (evict_stuck fuel limit m full e) (u, (λ j r h. h), (λ j r h a. h))
      | inr ((k, r), e) ↦
          let (f, a) = oldest_completed-lookup m k r u e in
          let (v, within, kept) = evict-keeps fuel limit (remove k m) (Unique-remove k m u) in
          rw (evict_takes fuel limit m k r full e) (
            v,
            (λ j s h. Within-remove k m u j s (within j s h)),
            (λ j s h b. kept j s (KeepsActive-remove k r m u f a j s h b) b),
          )
    ]
  ]

  retain-keeps :
      (now : ℕ) (m : Dict (JobRecord Json)) (j : Text) (r : JobRecord Json)
      → Unique m
      → lookup j m ≡ some r
      → unexpired now r ≡ true
      → lookup j (retain (unexpired now) m) ≡ some r
  retain-keeps now m j r u h e = lookup-retain j (unexpired now) m u ∙ rw (h, e) refl

  pub Within-retain :
      (p : JobRecord Json → Bool) (m : Dict (JobRecord Json)) → Unique m → Within m (retain p m)
  Within-retain p m u j r h = elim (Option-cases (lookup j m)) [
    | inl e ↦ absurd (none-ne-some (sym (lookup-retain j p m u ∙ rw e refl) ∙ h))
    | inr (s, e) ↦ elim (Bool-cases (p s)) [
      | inl a ↦ e ∙ sym (lookup-retain j p m u ∙ rw (e, a) refl) ∙ h
      | inr a ↦ absurd (none-ne-some (sym (lookup-retain j p m u ∙ rw (e, a) refl) ∙ h))
    ]
  ]

  -- What a submit leaves under the other ids was there; under its own id there is a new record at most.
  pub submit-Within :
      (env : Env) (id : Text) (now : ℕ) (m : Dict (JobRecord Json)) (j : Text) (r : JobRecord Json)
      → Unique m
      → text_eq id j ≡ false
      → lookup j (submit env id now m).0 ≡ some r
      → lookup j m ≡ some r
  submit-Within env id now m j r u ne h =
      let live = retain (unexpired now) m in
      elim (Bool-cases (leb (max_async_jobs env) (count_values record_active live))) [
        | inl full ↦
            Within-retain (unexpired now) m u j r
              (sym (ap (lookup j) (submit-full env id now m full)) ∙ h)
        | inr room ↦
            let rest = evict (length live) (max_async_jobs env) live in
            let fresh = new_record now (job_ttl env * 1000) in
            let (v, within, kept) =
              evict-keeps (length live) (max_async_jobs env) live
                (Unique-retain (unexpired now) m u) in
            Within-retain (unexpired now) m u j r (
              within j r (
                sym (
                  ap (λ s. lookup j s.0) (submit-room env id now m room)
                  ∙ (lookup-insert id j fresh rest ∙ rw ne refl))
                ∙ h))
      ]

  pub Unique-submit :
      (env : Env) (id : Text) (now : ℕ) (m : Dict (JobRecord Json))
      → Unique m
      → Unique (submit env id now m).0
  Unique-submit env id now m u =
      let live = retain (unexpired now) m in
      elim (Bool-cases (leb (max_async_jobs env) (count_values record_active live))) [
        | inl full ↦
            subst Unique (sym (submit-full env id now m full)) (Unique-retain (unexpired now) m u)
        | inr room ↦
            subst (λ s. Unique s.0) (sym (submit-room env id now m room))
              (Unique-insert id (new_record now (job_ttl env * 1000))
                (evict (length live) (max_async_jobs env) live)
                (evict-keeps (length live) (max_async_jobs env) live
                  (Unique-retain (unexpired now) m u)).0)
      ]

  -- An accepted submit answers with its id and stores a new record under it.
  pub submit-stores :
      (env : Env) (id : Text) (now : ℕ) (m : Dict (JobRecord Json)) (answer : Text)
      → (submit env id now m).1 ≡ ok answer
      → lookup id (submit env id now m).0 ≡ some (new_record now (job_ttl env * 1000))
  submit-stores env id now m answer h =
      let live = retain (unexpired now) m in
      elim (Bool-cases (leb (max_async_jobs env) (count_values record_active live))) [
        | inl full ↦ absurd (
            omega
              (arith, ap (λ r. to_ℕ (is_ok r)) h, ap to_ℕ (submit-full_answer env id now m full)))
        | inr room ↦
            ap (λ s. lookup id s.0) (submit-room env id now m room)
            ∙ (lookup-insert id id (new_record now (job_ttl env * 1000))
                  (evict (length live) (max_async_jobs env) live)
                ∙ rw (text_eq_refl id) refl)
      ]

  -- A refused submit only drops what has expired.
  pub submit-refused :
      (env : Env) (id : Text) (now : ℕ) (m : Dict (JobRecord Json)) (e : CaptureError)
      → (submit env id now m).1 ≡ err e
      → (submit env id now m).0 ≡ retain (unexpired now) m
  submit-refused env id now m e h =
      let live = retain (unexpired now) m in
      elim (Bool-cases (leb (max_async_jobs env) (count_values record_active live))) [
        | inl full ↦ submit-full env id now m full
        | inr room ↦ absurd (err-ne-ok (sym h ∙ ap (λ s. s.1) (submit-room env id now m room)))
      ]

  -- A submit, whether it is accepted or refused, keeps every job in flight that has not expired, as it
  -- was, under every other id.
  pub submit-keeps_active :
      (env : Env) (id : Text) (now : ℕ) (m : Dict (JobRecord Json)) (j : Text) (r : JobRecord Json)
      → Unique m
      → text_eq id j ≡ false
      → lookup j m ≡ some r
      → unexpired now r ≡ true
      → record_active r ≡ true
      → lookup j (submit env id now m).0 ≡ some r
  submit-keeps_active env id now m j r u ne h e a =
      let live = retain (unexpired now) m in
      let held = retain-keeps now m j r u h e in
      elim (Bool-cases (leb (max_async_jobs env) (count_values record_active live))) [
        | inl full ↦ ap (lookup j) (submit-full env id now m full) ∙ held
        | inr room ↦
            let rest = evict (length live) (max_async_jobs env) live in
            let fresh = new_record now (job_ttl env * 1000) in
            let (v, within, kept) =
              evict-keeps (length live) (max_async_jobs env) live
                (Unique-retain (unexpired now) m u) in
            ap (λ s. lookup j s.0) (submit-room env id now m room)
            ∙ (lookup-insert id j fresh rest ∙ rw ne (kept j r held a))
      ]
