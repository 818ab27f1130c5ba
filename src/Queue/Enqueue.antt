-- ===== src/Queue/Enqueue.antt =====
-- src/queue.rs: what `enqueue` and `get` do to Redis and answer, from what its commands promise.
use browser_headless.Base.{
  ◌≡◌, refl, sym, ap, ◌∙◌, subst, ◌⊎◌, inl, inr, arith, Bool, true, false, Option, none, some, List,
  [], ◌∷◌, ◌++◌, Text, codes, text_eq, text_eq_iff, ltb, if◌then◌else◌, none-ne-some, Bool-cases,
  Result, ok, err, Result-cases, err-ne-ok, is_ok, to_ℕ, ok-injective,
}
use browser_headless.Error.{CaptureError}
use browser_headless.Capture.Query.{SummaryQuery}
use browser_headless.Jobs.{JobView, queued}
use browser_headless.Queue.Laws.{View, OnlyAt, IsLawful}
use browser_headless.Queue.{
  QueueConfig, Redis, QueueCodec, Client, result_key, conn, fail, invalidate, with_request_id,
  add_entry, write_marker, enqueue, decode_view, get, into_job_view, view_status, StoredJobResult,
}

pub not_ok : {A : Type 0} (r : Result A CaptureError) (a : A) → is_ok r ≡ false → r ≡ ok a → ⊥
not_ok r a h e = absurd (omega (arith, ap to_ℕ h, ap (λ x. to_ℕ (is_ok x)) e))

module _ {S F Json : Type 0} (r : Redis S) (v : View S) (law : IsLawful r v)
    (codec : QueueCodec F Json) (cfg : QueueConfig) where
  -- Every value that was stored is still there.
  abbrev pub Keeps : S → S → Type 0
  Keeps s t = (j x : Text) → v.value s j ≡ some x → v.value t j ≡ some x

  -- What an accepted job leaves: its marker, where there was no value, and its payload at the stream's end.
  abbrev pub Placed : Text → Text → S → S → Type 0
  Placed id payload s t =
      (v.value s (result_key cfg id) ≡ none)
      × (v.value t (result_key cfg id) ≡ some (codec.queued_marker id))
      × ((kept : List Text) × (v.entries t cfg.stream ≡ kept ++ (payload ∷ [])))

  pub server-conn : (c : Client S) → (conn r codec cfg c).0.server ≡ c.server
  unfolding conn
  server-conn c = ground arith

  OnlyAt-Keeps :
      (k : Text) (s t : S)
      → OnlyAt v k s t
      → ((x : Text) → v.value s k ≡ some x → v.value t k ≡ some x)
      → Keeps s t
  OnlyAt-Keeps k s t other here j x h = elim (Bool-cases (text_eq k j)) [
    | inl same ↦
        let kj = (text_eq_iff k j).0 same in
        ap (v.value t) (sym kj) ∙ here x (ap (v.value s) kj ∙ h)
    | inr ne ↦ other j ne ∙ h
  ]

  -- The server after the marker, after the entry, and after the marker's removal.
  abbrev pub marked : Text → S → S × Result Bool Text
  marked id s = r.set_nx_ex s (result_key cfg id) (codec.queued_marker id) cfg.result_ttl_secs

  abbrev pub added : Text → S → S × Result Text Text
  added payload s = r.xadd s cfg.stream (if ltb 0 cfg.maxlen then some cfg.maxlen else none) payload

  pub add_entry-ok :
      (id payload e : Text) (c : Client S)
      → (added payload c.server).1 ≡ ok e
      → add_entry r codec cfg id payload c
        ≡ (record c { server = (added payload c.server).0 }, ok id)
  unfolding add_entry
  add_entry-ok id payload e c h = rw (add_entry, h) refl

  pub add_entry-err :
      (id payload e : Text) (c : Client S)
      → (added payload c.server).1 ≡ err e
      → ((add_entry r codec cfg id payload c).0.server
          ≡ (r.del (added payload c.server).0 (result_key cfg id)).0)
        × (is_ok (add_entry r codec cfg id payload c).1 ≡ false)
  unfolding add_entry fail invalidate
  add_entry-err id payload e c h = rw (add_entry, h) (refl, refl)

  pub write_marker-ok :
      (id payload : Text) (c : Client S)
      → (marked id c.server).1 ≡ ok true
      → write_marker r codec cfg id payload c
        ≡ add_entry r codec cfg id payload (record c { server = (marked id c.server).0 })
  unfolding write_marker
  write_marker-ok id payload c h = rw (write_marker, h) refl

  pub write_marker-no :
      (id payload : Text) (c : Client S)
      → ((marked id c.server).1 ≡ ok false) ⊎ ((e : Text) × ((marked id c.server).1 ≡ err e))
      → ((write_marker r codec cfg id payload c).0.server ≡ (marked id c.server).0)
        × (is_ok (write_marker r codec cfg id payload c).1 ≡ false)
  unfolding write_marker fail invalidate
  write_marker-no id payload c (inl h) = rw (write_marker, h) (refl, refl)
  write_marker-no id payload c (inr (e, h)) = rw (write_marker, h) (refl, refl)

  pub marked-cases :
      (id : Text) (s : S)
      → ((marked id s).1 ≡ ok true)
        ⊎ (((marked id s).1 ≡ ok false) ⊎ ((e : Text) × ((marked id s).1 ≡ err e)))
  marked-cases id s = elim (Result-cases (marked id s).1) [
    | inl (true, h) ↦ inl h
    | inl (false, h) ↦ inr (inl h)
    | inr (e, h) ↦ inr (inr (e, h))
  ]

  -- The steps after the marker touch only the job's key.
  add_entry-OnlyAt :
      (id payload : Text) (c : Client S)
      → OnlyAt v (result_key cfg id) c.server (add_entry r codec cfg id payload c).0.server
  add_entry-OnlyAt id payload c j ne = elim (Result-cases (added payload c.server).1) [
    | inl (e, h) ↦
        ap (λ a. v.value a.0.server j) (add_entry-ok id payload e c h)
        ∙ ap (λ f. f j) (law.add_values c.server cfg.stream payload _)
    | inr (e, h) ↦
        ap (λ s. v.value s j) (add_entry-err id payload e c h).0
        ∙ (law.del_other (added payload c.server).0 (result_key cfg id) j ne
            ∙ ap (λ f. f j) (law.add_values c.server cfg.stream payload _))
  ]

  write_marker-Keeps :
      (id payload : Text) (c : Client S)
      → Keeps c.server (write_marker r codec cfg id payload c).0.server
  write_marker-Keeps id payload c =
      let key = result_key cfg id in
      let s = (marked id c.server).0 in
      elim (marked-cases id c.server) [
        | inl h ↦
            let absent = (law.set_done c.server key _ _ h).0 in
            let later = add_entry-OnlyAt id payload (record c { server = s }) in
            subst (λ t. Keeps c.server t.0.server) (sym (write_marker-ok id payload c h))
              (OnlyAt-Keeps key c.server _
                (λ j ne. later j ne ∙ law.set_other c.server key _ _ j ne)
                (λ x held. absurd (none-ne-some (sym absent ∙ held))))
        | inr h ↦ subst (Keeps c.server) (sym (write_marker-no id payload c h).0) (
            OnlyAt-Keeps key c.server s (law.set_other c.server key _ _)
              (λ x held. law.set_held c.server key _ x _ held))
      ]

  pub enqueue-cases :
      (id : Text) (q : SummaryQuery F) (c : Client S)
      → (((enqueue r codec cfg id q c).0.server ≡ c.server)
          × (is_ok (enqueue r codec cfg id q c).1 ≡ false))
        ⊎ ((payload : Text) × (codec.payload id (with_request_id id q) ≡ ok payload)
            × (enqueue r codec cfg id q c
                ≡ write_marker r codec cfg id payload (conn r codec cfg c).0))
  unfolding enqueue
  enqueue-cases id q c = elim (Result-cases (codec.payload id (with_request_id id q))) [
    | inr (e, h) ↦ inl (rw (enqueue, h) (refl, refl))
    | inl (p, h) ↦ elim (Result-cases (conn r codec cfg c).1) [
      | inr (e, k) ↦ inl (rw (enqueue, h, k) (server-conn c, refl))
      | inl (_, k) ↦ inr (p, h, rw (enqueue, h, k) refl)
    ]
  ]

  -- Whatever fails on the way, an enqueue keeps every value that Redis stored: it overwrites no result and
  -- removes none.
  pub enqueue-Keeps :
      (id : Text) (q : SummaryQuery F) (c : Client S)
      → Keeps c.server (enqueue r codec cfg id q c).0.server
  enqueue-Keeps id q c = elim (enqueue-cases id q c) [
    | inl (same, _) ↦ subst (Keeps c.server) (sym same) (λ j x h. h)
    | inr (p, _, same) ↦
        subst (λ t. Keeps c.server t.0.server) (sym same)
          (subst (λ s. Keeps s (write_marker r codec cfg id p (conn r codec cfg c).0).0.server)
            (server-conn c) (write_marker-Keeps id p (conn r codec cfg c).0))
  ]

  add_entry-Placed :
      (id payload answer : Text) (c : Client S)
      → v.value c.server (result_key cfg id) ≡ some (codec.queued_marker id)
      → (add_entry r codec cfg id payload c).1 ≡ ok answer
      → (answer ≡ id)
        × (v.value (add_entry r codec cfg id payload c).0.server (result_key cfg id)
            ≡ some (codec.queued_marker id))
        × ((kept : List Text) × (v.entries (add_entry r codec cfg id payload c).0.server cfg.stream
              ≡ kept ++ (payload ∷ [])))
  add_entry-Placed id payload answer c m h = elim (Result-cases (added payload c.server).1) [
    | inr (e, k) ↦ absurd (not_ok _ answer (add_entry-err id payload e c k).1 h)
    | inl (e, k) ↦
        let same = add_entry-ok id payload e c k in
        let (kept, at_end) = law.add_done c.server cfg.stream payload e _ k in
        (
          ok-injective (sym h ∙ ap (λ t. t.1) same),
          ap (λ t. v.value t.0.server (result_key cfg id)) same
              ∙ (ap (λ f. f (result_key cfg id)) (law.add_values c.server cfg.stream payload _)
                  ∙ m),
          (kept, ap (λ t. v.entries t.0.server cfg.stream) same ∙ at_end),
        )
  ]

  -- An enqueue that answers gives the job's id; it found no value under the job's key, left the queued marker
  -- there, and put the job's payload at the end of the stream.
  pub enqueue-Placed :
      (id : Text) (q : SummaryQuery F) (c : Client S) (answer : Text)
      → (enqueue r codec cfg id q c).1 ≡ ok answer
      → (answer ≡ id)
        × ((payload : Text) × (codec.payload id (with_request_id id q) ≡ ok payload)
            × Placed id payload c.server (enqueue r codec cfg id q c).0.server)
  enqueue-Placed id q c answer h = elim (enqueue-cases id q c) [
    | inl (_, failed) ↦ absurd (not_ok _ answer failed h)
    | inr (p, ser, same) ↦
        let c' = (conn r codec cfg c).0 in
        let h' = sym (ap (λ t. t.1) same) ∙ h in
        elim (marked-cases id c'.server) [
          | inr k ↦ absurd (not_ok _ answer (write_marker-no id p c' k).1 h')
          | inl k ↦
              let (absent, mark) = law.set_done c'.server (result_key cfg id) _ _ k in
              let go = write_marker-ok id p c' k in
              let (aid, kept, tail) =
                add_entry-Placed id p answer (record c' { server = (marked id c'.server).0 }) mark
                  (sym (ap (λ t. t.1) go) ∙ h') in
              (
                aid,
                (
                  p,
                  ser,
                  subst (λ t. Placed id p c.server t.0.server) (sym (same ∙ go))
                      (
                        ap (λ s. v.value s (result_key cfg id)) (sym (server-conn c)) ∙ absent,
                        kept,
                        tail,
                      ),
                ),
              )
        ]
  ]

  -- A poll that answers shows the value stored under the job's key, or that there is none.
  pub get-decode_view :
      (id : Text) (c : Client S) (o : Option (JobView Json))
      → (get r codec cfg id c).1 ≡ ok o
      → decode_view r codec cfg (v.value c.server (result_key cfg id)) ≡ ok o
  unfolding get fail
  get-decode_view id c o h = elim (Result-cases (conn r codec cfg c).1) [
    | inr (e, k) ↦ absurd (err-ne-ok (rw (get, k) at h))
    | inl (_, k) ↦ elim (Result-cases (r.get (conn r codec cfg c).0.server (result_key cfg id))) [
      | inr (e, f) ↦ absurd (err-ne-ok (rw (get, k, f) at h))
      | inl (raw, f) ↦
          ap (decode_view r codec cfg) (
            ap (λ s. v.value s (result_key cfg id)) (sym (server-conn c))
            ∙ sym (law.get_lem _ (result_key cfg id) raw f))
          ∙ (rw (get, k, f) at h)
    ]
  ]

  pub decode_marker :
      (id : Text) (stored : StoredJobResult Json)
      → codec.decode (codec.queued_marker id) ≡ ok stored
      → decode_view r codec cfg (some (codec.queued_marker id)) ≡ ok (some (into_job_view 0 stored))
  unfolding decode_view
  decode_marker id stored d = rw (decode_view, d) refl

  -- A poll that answers after an accepted enqueue, with nothing in between, shows the job as queued, under its
  -- id, without a result.
  pub get-enqueue :
      (id : Text) (q : SummaryQuery F) (c : Client S) (answer : Text) (o : Option (JobView Json))
      → codec.decode (codec.queued_marker id)
        ≡ ok (record {
          id = id;
          phase = some (codes "queued");
          status = none;
          body = none;
          error_message = none;
        })
      → (enqueue r codec cfg id q c).1 ≡ ok answer
      → (get r codec cfg answer (enqueue r codec cfg id q c).0).1 ≡ ok o
      → o
        ≡ some (record {
          id = id;
          status = queued;
          http_status = none;
          body = none;
          error_message = none;
          age_ms = 0;
        })
  unfolding into_job_view view_status text_eq codes
  get-enqueue id q c answer o d h g =
      let (aid, (p, ser, (absent, mark, tail))) = enqueue-Placed id q c answer h in
      let polled = subst (λ i. (get r codec cfg i (enqueue r codec cfg id q c).0).1 ≡ ok o) aid g in
      let shown = get-decode_view id (enqueue r codec cfg id q c).0 o polled in
      ok-injective (sym shown ∙ ap (decode_view r codec cfg) mark ∙ decode_marker id _ d)
