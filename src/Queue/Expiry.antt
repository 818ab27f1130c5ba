-- ===== src/Queue/Expiry.antt =====
-- The expiry of the marker that src/queue.rs writes with `EX`.
use browser_headless.Base.{
  ℕ, ◌*◌, ◌≤◌, ◌<◌, ◌≡◌, sym, ap, ◌∙◌, inl, inr, true, Option, none, Text, ok, Result-cases,
}
use browser_headless.Capture.Query.{SummaryQuery}
use browser_headless.Queue.{
  QueueConfig, Redis, QueueCodec, Client, result_key, conn, enqueue, add_entry,
}
use browser_headless.Queue.Laws.{View, IsLawful}
use browser_headless.Queue.Enqueue.{
  not_ok, marked, added, add_entry-ok, add_entry-err, marked-cases, write_marker-ok,
  write_marker-no, enqueue-cases,
}

-- The milliseconds that a key has left, and the server so many milliseconds later if no command reaches it.
pub record Keyspace (S : Type 0) : Type 0 where
  pub remaining : S → Text → ℕ
  pub later : ℕ → S → S

-- What the Redis documentation says of expiry: `EX` gives a key its seconds, `XADD` leaves the other keys'
-- time, and a key's value is there until its time is over and not after.
pub record Expires {S : Type 0} (r : Redis S) (v : View S) (k : Keyspace S) : Type 0 where
  pub set_remaining :
      (s : S) (key x : Text) (ttl : ℕ)
      → (r.set_nx_ex s key x ttl).1 ≡ ok true
      → k.remaining (r.set_nx_ex s key x ttl).0 key ≡ ttl * 1000
  pub add_remaining :
      (s : S) (stream p : Text) (m : Option ℕ) (key : Text)
      → k.remaining (r.xadd s stream m p).0 key ≡ k.remaining s key
  pub later_live :
      (s : S) (key : Text) (ms : ℕ)
      → ms < k.remaining s key
      → v.value (k.later ms s) key ≡ v.value s key
  pub later_gone :
      (s : S) (key : Text) (ms : ℕ) → k.remaining s key ≤ ms → v.value (k.later ms s) key ≡ none

module _ {S F Json : Type 0} (r : Redis S) (v : View S) (law : IsLawful r v)
    (codec : QueueCodec F Json) (cfg : QueueConfig) (k : Keyspace S) (expiry : Expires r v k) where
  add_entry-remaining :
      (id payload answer : Text) (c : Client S) (key : Text)
      → (add_entry r codec cfg id payload c).1 ≡ ok answer
      → k.remaining (add_entry r codec cfg id payload c).0.server key ≡ k.remaining c.server key
  add_entry-remaining id payload answer c key h =
      elim (Result-cases (added r v law codec cfg payload c.server).1) [
        | inr (e, f) ↦
            absurd (not_ok _ answer (add_entry-err r v law codec cfg id payload e c f).1 h)
        | inl (e, f) ↦
            ap (λ t. k.remaining t.0.server key) (add_entry-ok r v law codec cfg id payload e c f)
            ∙ expiry.add_remaining c.server cfg.stream payload _ key
      ]

  -- The marker of an accepted job has the whole TTL left.
  pub enqueue-remaining :
      (id : Text) (q : SummaryQuery F) (c : Client S) (answer : Text)
      → (enqueue r codec cfg id q c).1 ≡ ok answer
      → k.remaining (enqueue r codec cfg id q c).0.server (result_key cfg id)
        ≡ cfg.result_ttl_secs * 1000
  enqueue-remaining id q c answer h = elim (enqueue-cases r v law codec cfg id q c) [
    | inl (_, failed) ↦ absurd (not_ok _ answer failed h)
    | inr (p, _, same) ↦
        let c' = (conn r codec cfg c).0 in
        let h' = sym (ap (λ t. t.1) same) ∙ h in
        elim (marked-cases r v law codec cfg id c'.server) [
          | inr e ↦ absurd (not_ok _ answer (write_marker-no r v law codec cfg id p c' e).1 h')
          | inl e ↦
              let go = write_marker-ok r v law codec cfg id p c' e in
              ap (λ t. k.remaining t.0.server (result_key cfg id)) (same ∙ go)
              ∙ add_entry-remaining id p answer
                  (record c' { server = (marked r v law codec cfg id c'.server).0 })
                  (result_key cfg id) (sym (ap (λ t. t.1) go) ∙ h')
              ∙ expiry.set_remaining c'.server (result_key cfg id) _ _ e
        ]
  ]
