-- ===== src/Worker/Retries.antt =====
-- src/worker.rs: the attempts of `capture_to_result`.
use browser_headless.Base.{
  ℕ, zero, suc, ◌+◌, ◌≤◌, ◌<◌, ◌≡◌, refl, sym, subst, ◌⊎◌, inl, inr, true, false, arith, Text,
  Bool-cases, Result,
}
use browser_headless.Error.{CaptureError}
use browser_headless.Capture.Engine.{Captured}
use browser_headless.Worker.{
  WorkerConfig, JobResult, attempt_result, is_transient, retry, capture_to_result,
}

first_or_later : (i j : ℕ) → i ≤ j → (i ≡ j) ⊎ (i + 1 ≤ j)
first_or_later i j h = ground arith

module _ {Stat Json : Type 0} (to_value : Captured Stat → Result Json Text) where
  -- The attempts from `first` on, with `left` retries: every one but the last failed for a transient
  -- reason, and the last one did not unless the retries were used up.
  pub record Attempts (id : Text) (captures : ℕ → Result (Captured Stat) CaptureError)
      (first left : ℕ) (answer : JobResult Json × ℕ) : Type 0 where
    pub last : ℕ
    pub made : answer.1 ≡ last + 1
    pub from_first : first ≤ last
    pub bounded : last ≤ first + left
    pub answered : answer.0 ≡ attempt_result to_value id (captures last)
    pub transient : (j : ℕ) → first ≤ j → j < last → is_transient to_value (captures j) ≡ true
    pub settled : (is_transient to_value (captures last) ≡ false) ⊎ (last ≡ first + left)

  retry-again :
      (id : Text) (captures : ℕ → Result (Captured Stat) CaptureError) (left first : ℕ)
      → is_transient to_value (captures first) ≡ true
      → retry to_value id captures (suc left) first ≡ retry to_value id captures left (first + 1)
  unfolding retry
  retry-again id captures left first e = rw (retry, e) refl

  retry-stops :
      (id : Text) (captures : ℕ → Result (Captured Stat) CaptureError) (left first : ℕ)
      → is_transient to_value (captures first) ≡ false
      → retry to_value id captures (suc left) first
        ≡ (attempt_result to_value id (captures first), first + 1)
  unfolding retry
  retry-stops id captures left first e = rw (retry, e) refl

  retry-Attempts :
      (id : Text) (captures : ℕ → Result (Captured Stat) CaptureError) (left first : ℕ)
      → Attempts id captures first left (retry to_value id captures left first)
  unfolding retry
  retry-Attempts id captures zero first = record {
    last = first;
    made = refl;
    from_first = omega arith;
    bounded = omega arith;
    answered = refl;
    transient = λ j a b. absurd (omega arith);
    settled = inr (omega arith);
  }
  retry-Attempts id captures (suc left) first =
      elim (Bool-cases (is_transient to_value (captures first))) [
        | inr e ↦
            subst (Attempts id captures first (suc left))
              (sym (retry-stops id captures left first e))
              (record {
                last = first;
                made = refl;
                from_first = omega arith;
                bounded = omega arith;
                answered = refl;
                transient = λ j a b. absurd (omega arith);
                settled = inl e;
              })
        | inl e ↦
            let rest = retry-Attempts id captures left (first + 1) in
            subst (Attempts id captures first (suc left))
              (sym (retry-again id captures left first e))
              (record {
                last = rest.last;
                made = rest.made;
                from_first = omega (arith, rest.from_first);
                bounded = omega (arith, rest.bounded);
                answered = rest.answered;
                transient = λ j a b. elim (first_or_later first j a) [
                  | inl same ↦ subst (λ i. is_transient to_value (captures i) ≡ true) same e
                  | inr later ↦ rest.transient j later b
                ];
                settled = elim rest.settled [ inl x ↦ inl x | inr y ↦ inr (omega (arith, y)) ];
              })
      ]

  -- A job is attempted at least once and at most `job_max_retries` times more. Every attempt but the last
  -- failed with 408, 502, 503 or 504, the last one did not unless the retries were used up, and
  -- it alone makes the result.
  pub capture_to_result-Attempts :
      (cfg : WorkerConfig) (id : Text) (captures : ℕ → Result (Captured Stat) CaptureError)
      → Attempts id captures 0 cfg.job_max_retries (capture_to_result to_value cfg id captures)
  unfolding capture_to_result
  capture_to_result-Attempts cfg id captures = retry-Attempts id captures cfg.job_max_retries 0
