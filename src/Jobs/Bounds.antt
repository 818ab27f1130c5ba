-- ===== src/Jobs/Bounds.antt =====
-- The cap of src/jobs.rs: how many jobs are in flight, and how many records are kept.
use browser_headless.Base.{
  ℕ, zero, suc, ◌+◌, ◌*◌, ◌≤◌, ◌<◌, ◌≡◌, refl, sym, subst, inl, inr, true, false, none, some, [],
  ◌∷◌, arith, Text, text_eq_refl, leb, leb→le, length, ok, is_ok, Bool-cases, Option-cases,
}
use browser_headless.Base.Dicts.{
  Dict, lookup, insert, remove, retain, count_values, length-insert, length-remove,
  length-retain-le, count_values-le-length, count_values-remove-le,
}
use browser_headless.Config.{Env, job_ttl, max_async_jobs}
use browser_headless.Jobs.{
  JobRecord, record_active, unexpired, oldest_completed, evict, new_record, submit,
}

module _ {Json : Type 0} where
  oldest_completed-none :
      (m : Dict (JobRecord Json))
      → oldest_completed m ≡ none
      → count_values record_active m ≡ length m
  unfolding oldest_completed count_values
  oldest_completed-none [] h = refl
  oldest_completed-none ((k, r) ∷ m) h = ground (arith, oldest_completed-none m)

  -- What is found is in the map.
  oldest_completed-in :
      (m : Dict (JobRecord Json)) (k : Text) (r : JobRecord Json)
      → oldest_completed m ≡ some (k, r)
      → lookup k m ≡ none
      → ⊥
  unfolding oldest_completed lookup
  oldest_completed-in [] k r h g = ground arith
  oldest_completed-in ((i, s) ∷ m) k r h g =
      ground (arith, text_eq_refl i, oldest_completed-in m k r)

  -- One round of the loop takes an entry out and no job in flight is added.
  evict_round :
      (m : Dict (JobRecord Json)) (k : Text) (r : JobRecord Json)
      → oldest_completed m ≡ some (k, r)
      → (length (remove k m) + 1 ≡ length m)
        × (count_values record_active (remove k m) ≤ count_values record_active m)
  evict_round m k r h = elim (Option-cases (lookup k m)) [
    | inl e ↦ absurd (oldest_completed-in m k r h e)
    | inr (v, e) ↦ (length-remove k v m e, count_values-remove-le record_active k m)
  ]

  pub evict_spent : (limit : ℕ) (m : Dict (JobRecord Json)) → evict zero limit m ≡ m
  unfolding evict
  evict_spent limit m = refl

  pub evict_fits :
      (fuel limit : ℕ) (m : Dict (JobRecord Json))
      → leb limit (length m) ≡ false
      → evict (suc fuel) limit m ≡ m
  unfolding evict
  evict_fits fuel limit m e = rw (evict, e) refl

  pub evict_stuck :
      (fuel limit : ℕ) (m : Dict (JobRecord Json))
      → leb limit (length m) ≡ true
      → oldest_completed m ≡ none
      → evict (suc fuel) limit m ≡ m
  unfolding evict
  evict_stuck fuel limit m e f = rw (evict, e, f) refl

  pub evict_takes :
      (fuel limit : ℕ) (m : Dict (JobRecord Json)) (k : Text) (r : JobRecord Json)
      → leb limit (length m) ≡ true
      → oldest_completed m ≡ some (k, r)
      → evict (suc fuel) limit m ≡ evict fuel limit (remove k m)
  unfolding evict
  evict_takes fuel limit m k r e f = rw (evict, e, f) refl

  -- With fewer jobs in flight than the limit, the loop makes room.
  evict_bounds :
      (fuel limit : ℕ) (m : Dict (JobRecord Json))
      → length m ≤ fuel
      → count_values record_active m < limit
      → (length (evict fuel limit m) < limit)
        × (count_values record_active (evict fuel limit m) ≤ count_values record_active m)
  evict_bounds zero limit m f h =
      rw (evict_spent limit m) (omega (arith, count_values-le-length record_active m), omega arith)
  evict_bounds (suc fuel) limit m f h = elim (Bool-cases (leb limit (length m))) [
    | inr fits ↦ rw (evict_fits fuel limit m fits) (ground arith, omega arith)
    | inl full ↦ elim (Option-cases (oldest_completed m)) [
      | inl e ↦ absurd (omega (arith, leb→le limit (length m) full, oldest_completed-none m e))
      | inr ((k, r), e) ↦
          let (shorter, fewer) = evict_round m k r e in
          let (bound, kept) =
            evict_bounds fuel limit (remove k m) (omega (arith, shorter)) (omega arith) in
          rw (evict_takes fuel limit m k r full e) (bound, omega (arith, kept, fewer))
    ]
  ]

  pub submit-full :
      (env : Env) (id : Text) (now : ℕ) (m : Dict (JobRecord Json))
      → leb (max_async_jobs env) (count_values record_active (retain (unexpired now) m)) ≡ true
      → (submit env id now m).0 ≡ retain (unexpired now) m
  unfolding submit
  submit-full env id now m e = rw (submit, e) refl

  pub submit-full_answer :
      (env : Env) (id : Text) (now : ℕ) (m : Dict (JobRecord Json))
      → leb (max_async_jobs env) (count_values record_active (retain (unexpired now) m)) ≡ true
      → is_ok (submit env id now m).1 ≡ false
  unfolding submit
  submit-full_answer env id now m e = rw (submit, e) refl

  pub submit-room :
      (env : Env) (id : Text) (now : ℕ) (m : Dict (JobRecord Json))
      → leb (max_async_jobs env) (count_values record_active (retain (unexpired now) m)) ≡ false
      → submit env id now m ≡ (
        insert id (new_record now (job_ttl env * 1000)) (
            evict
              (length (retain (unexpired now) m))
              (max_async_jobs env)
              (retain (unexpired now) m)),
        ok id,
      )
  unfolding submit
  submit-room env id now m e = rw (submit, e) refl

  -- From a store that is not larger than the limit, a submit, accepted or refused, leaves one that is not
  -- larger than the limit, and that holds no more jobs in flight than the limit.
  pub submit_bounds :
      (env : Env) (id : Text) (now : ℕ) (m : Dict (JobRecord Json))
      → length m ≤ max_async_jobs env
      → (length (submit env id now m).0 ≤ max_async_jobs env)
        × (count_values record_active (submit env id now m).0 ≤ max_async_jobs env)
  submit_bounds env id now m h =
      let live = retain (unexpired now) m in
      elim (Bool-cases (leb (max_async_jobs env) (count_values record_active live))) [
        | inl full ↦
            subst
              (λ s.
                (length s ≤ max_async_jobs env)
                × (count_values record_active s ≤ max_async_jobs env))
              (sym (submit-full env id now m full))
              (
                omega (arith, length-retain-le (unexpired now) m),
                omega (
                  arith,
                  length-retain-le (unexpired now) m,
                  count_values-le-length record_active live,
                ),
              )
        | inr room ↦
            let (bound, kept) =
              evict_bounds (length live) (max_async_jobs env) live (omega arith)
                (ground (arith, room)) in
            let rest = evict (length live) (max_async_jobs env) live in
            let fresh : JobRecord Json = new_record now (job_ttl env * 1000) in
            subst
              (λ s.
                (length s.0 ≤ max_async_jobs env)
                × (count_values record_active s.0 ≤ max_async_jobs env))
              (sym (submit-room env id now m room))
              (
                omega (arith, bound, length-insert id fresh rest),
                omega (
                  arith,
                  bound,
                  length-insert id fresh rest,
                  count_values-le-length record_active (insert id fresh rest),
                ),
              )
      ]
