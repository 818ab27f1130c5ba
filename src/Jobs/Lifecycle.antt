-- ===== src/Jobs/Lifecycle.antt =====
-- src/jobs.rs: the store and its tasks over every run of submits, job starts, results and purges:
-- what a record holds, and which task will complete it.
use browser_headless.Base.{
  ℕ, ◌*◌, ◌≤◌, ◌<◌, ◌≡◌, refl, sym, ap, ◌∙◌, subst, ◌⊎◌, inl, inr, false, Option, none, some, [],
  none-ne-some, Text, text_eq, text_eq_iff, if◌then◌else◌, Result, ok, err, Bool-cases,
  Option-cases,
}
use mathlib.Core.Option.{some-injective}
use browser_headless.Base.Dicts.{
  Dict, lookup, insert, remove, modify, lookup-insert, lookup-modify, modify_absent,
}
use browser_headless.Base.Dicts.Unique.{
  Unique, lookup-remove, Unique-insert, Unique-remove, Unique-modify, Unique-retain,
}
use browser_headless.Config.{Env, job_ttl}
use browser_headless.Error.{CaptureError, status_u16, status-error}
use browser_headless.Jobs.{
  queued, running, done, error, JobRecord, unexpired, new_record, submit, mark_running,
  complete_record, complete, purge_expired,
}
use browser_headless.Jobs.Evict.{
  Within-retain, submit-Within, Unique-submit, submit-stores, submit-refused,
}

-- Where the task of a job stands: spawned, or past `mark_running` with its capture running.
pub data TaskPhase : Type 0 where
  spawned capturing : TaskPhase

pub record System (Json : Type 0) : Type 0 where
  pub store : Dict (JobRecord Json)
  pub tasks : Dict TaskPhase

module _ {Json : Type 0} where
  -- One step of the store. A UUID is taken by no earlier job.
  pub data Step (env : Env) : System Json → System Json → Type 0 where
    submitted :
        (s : System Json) (id answer : Text) (now : ℕ)
        → lookup id s.store ≡ none
        → lookup id s.tasks ≡ none
        → (submit env id now s.store).1 ≡ ok answer
        → Step env s
            (record { store = (submit env id now s.store).0; tasks = insert id spawned s.tasks })
    turned_away :
        (s : System Json) (id : Text) (e : CaptureError) (now : ℕ)
        → lookup id s.store ≡ none
        → lookup id s.tasks ≡ none
        → (submit env id now s.store).1 ≡ err e
        → Step env s (record s { store = (submit env id now s.store).0 })
    began :
        (s : System Json) (id : Text)
        → lookup id s.tasks ≡ some spawned
        → Step env s
            (record { store = mark_running id s.store; tasks = insert id capturing s.tasks })
    ended :
        (s : System Json) (id : Text) (now : ℕ) (result : Result Json CaptureError)
        → lookup id s.tasks ≡ some capturing
        → Step env s
            (record { store = complete env id now result s.store; tasks = remove id s.tasks })
    purged :
        (s : System Json) (now : ℕ) → Step env s (record s { store = purge_expired now s.store })

  pub data Run (env : Env) : System Json → Type 0 where
    fresh : Run env (record { store = []; tasks = [] })
    then_step : (s t : System Json) → Run env s → Step env s t → Run env t

  -- What a record holds, by where its job's task stands; a job without a task has its result.
  abbrev pub Linked : Option TaskPhase → JobRecord Json → Type 0
  Linked (some spawned) r =
      (r.status ≡ queued) × (r.http_status ≡ none) × (r.body ≡ none) × (r.error_message ≡ none)
  Linked (some capturing) r =
      (r.status ≡ running) × (r.http_status ≡ none) × (r.body ≡ none) × (r.error_message ≡ none)
  Linked none r =
      ((r.status ≡ done)
        × (r.http_status ≡ some 200)
        × ((v : Json) × (r.body ≡ some v))
        × (r.error_message ≡ none))
      ⊎ ((r.status ≡ error)
          × ((c : ℕ) × (r.http_status ≡ some c) × (400 ≤ c) × (c < 600))
          × (r.body ≡ none)
          × ((t : Text) × (r.error_message ≡ some t)))

  abbrev pub Coherent : System Json → Type 0
  Coherent s =
      Unique s.store
      × Unique s.tasks
      × ((id : Text) (r : JobRecord Json)
          → lookup id s.store ≡ some r
          → Linked (lookup id s.tasks) r)

  complete_record-Linked :
      (now ttl : ℕ) (result : Result Json CaptureError) (r : JobRecord Json)
      → Linked (some capturing) r
      → Linked none (complete_record now ttl result r)
  unfolding complete_record
  complete_record-Linked now ttl (ok v) r (s, h, b, e) = inl (refl, refl, (v, refl), e)
  complete_record-Linked now ttl (err x) r (s, h, b, e) =
      inr (refl, (status_u16 x, refl, (status-error x).0, (status-error x).1), b, (x.message, refl))

  new_record-Linked : (now ttl : ℕ) → Linked (some spawned) (new_record {Json = Json} now ttl)
  unfolding new_record
  new_record-Linked now ttl = (refl, refl, refl, refl)

  lookup-modify_ne :
      (k j : Text) (f : JobRecord Json → JobRecord Json) (m : Dict (JobRecord Json))
      → text_eq k j ≡ false
      → lookup j (modify k f m) ≡ lookup j m
  lookup-modify_ne k j f m ne = elim (Option-cases (lookup k m)) [
    | inl e ↦ ap (lookup j) (modify_absent k f m e)
    | inr (v, e) ↦ lookup-modify k j f v m e ∙ rw ne refl
  ]

  -- An update of the record of job `id` and of its task.
  modify-Coherent :
      (id : Text) (f : JobRecord Json → JobRecord Json) (s : System Json) (tasks : Dict TaskPhase)
      (before after : Option TaskPhase)
      → lookup id s.tasks ≡ before
      → ((j : Text) → lookup j tasks ≡ (if text_eq id j then after else lookup j s.tasks))
      → Unique tasks
      → ((r : JobRecord Json) → Linked before r → Linked after (f r))
      → Coherent s
      → Coherent (record { store = modify id f s.store; tasks = tasks })
  modify-Coherent id f s tasks before after hb ha ut keep (u, v, link) = (
    Unique-modify id f s.store u,
    ut,
    λ j r h. elim (Bool-cases (text_eq id j)) [
      | inl same ↦
          let ij = (text_eq_iff id j).0 same in
          let here : lookup j tasks ≡ after = ha j ∙ rw same refl in
          elim (Option-cases (lookup id s.store)) [
            | inl e ↦ absurd (
                none-ne-some (
                  sym (
                    ap (λ k. lookup k (modify id f s.store)) (sym ij)
                    ∙ ap (lookup id) (modify_absent id f s.store e)
                    ∙ e)
                  ∙ h))
            | inr (r', e) ↦
                let new =
                  some-injective (f r') r
                    (sym (lookup-modify id j f r' s.store e ∙ rw same refl) ∙ h) in
                subst (λ o. Linked o r) (sym here)
                  (subst (Linked after) new (keep r' (subst (λ o. Linked o r') hb (link id r' e))))
          ]
      | inr other ↦
          let here : lookup j tasks ≡ lookup j s.tasks = ha j ∙ rw other refl in
          let old : lookup j s.store ≡ some r = sym (lookup-modify_ne id j f s.store other) ∙ h in
          subst (λ o. Linked o r) (sym here) (link j r old)
    ],
  )

  -- A store that holds no more than before, with the same tasks.
  Within-Coherent :
      (s : System Json) (m : Dict (JobRecord Json))
      → Unique m
      → ((j : Text) (r : JobRecord Json) → lookup j m ≡ some r → lookup j s.store ≡ some r)
      → Coherent s
      → Coherent (record s { store = m })
  Within-Coherent s m um within (u, v, link) = (um, v, λ j r h. link j r (within j r h))

  submit-Coherent :
      (env : Env) (s : System Json) (id answer : Text) (now : ℕ)
      → (submit env id now s.store).1 ≡ ok answer
      → Coherent s
      → Coherent
          (record { store = (submit env id now s.store).0; tasks = insert id spawned s.tasks })
  submit-Coherent env s id answer now ho (u, v, link) = (
    Unique-submit env id now s.store u,
    Unique-insert id spawned s.tasks v,
    λ j r h. elim (Bool-cases (text_eq id j)) [
      | inl same ↦
          let ij = (text_eq_iff id j).0 same in
          let new = some-injective (new_record now (job_ttl env * 1000)) r (
            sym (submit-stores env id now s.store answer ho)
            ∙ ap (λ k. lookup k (submit env id now s.store).0) ij
            ∙ h) in
          let here : lookup j (insert id spawned s.tasks) ≡ some spawned =
            lookup-insert id j spawned s.tasks ∙ rw same refl in
          subst (λ o. Linked o r) (sym here)
            (subst (Linked (some spawned)) new (new_record-Linked now (job_ttl env * 1000)))
      | inr other ↦
          let here : lookup j (insert id spawned s.tasks) ≡ lookup j s.tasks =
            lookup-insert id j spawned s.tasks ∙ rw other refl in
          subst (λ o. Linked o r) (sym here)
            (link j r (submit-Within env id now s.store j r u other h))
    ],
  )

  Step-Coherent : (env : Env) (s t : System Json) → Step env s t → Coherent s → Coherent t
  unfolding mark_running complete purge_expired
  Step-Coherent env s _ (submitted _ id answer now h g ho) c =
      submit-Coherent env s id answer now ho c
  Step-Coherent env s _ (turned_away _ id e now h g ho) (u, v, link) =
      Within-Coherent s (submit env id now s.store).0 (Unique-submit env id now s.store u)
        (λ j r k.
          Within-retain (unexpired now) s.store u j r
            (sym (ap (lookup j) (submit-refused env id now s.store e ho)) ∙ k))
        (u, v, link)
  Step-Coherent env s _ (began _ id h) (u, v, link) =
      modify-Coherent id (λ r. record r { status = running }) s (insert id capturing s.tasks)
        (some spawned) (some capturing) h (λ j. lookup-insert id j capturing s.tasks)
        (Unique-insert id capturing s.tasks v) (λ r (a, b, c, d). (refl, b, c, d)) (u, v, link)
  Step-Coherent env s _ (ended _ id now result h) (u, v, link) =
      modify-Coherent id (complete_record now (job_ttl env * 1000) result) s (remove id s.tasks)
        (some capturing) none h (λ j. lookup-remove id j s.tasks v) (Unique-remove id s.tasks v)
        (complete_record-Linked now (job_ttl env * 1000) result) (u, v, link)
  Step-Coherent env s _ (purged _ now) (u, v, link) =
      Within-Coherent s (purge_expired now s.store) (Unique-retain (unexpired now) s.store u)
        (Within-retain (unexpired now) s.store u) (u, v, link)

  -- After every run of submits (each under an id that no stored job and no task has), job starts,
  -- results and purges: a record without a task has its result,
  -- 200 and a body, or a status from 400 to 599 and a message; a record that is queued or running
  -- has its task, spawned or capturing, and no result yet.
  pub Run-Coherent : (env : Env) (s : System Json) → Run env s → Coherent s
  unfolding lookup
  Run-Coherent env _ fresh = (tt, tt, λ id r h. absurd (none-ne-some h))
  Run-Coherent env t (then_step s _ r st) = Step-Coherent env s t st (Run-Coherent env s r)
