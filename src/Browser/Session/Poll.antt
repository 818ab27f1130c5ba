-- ===== src/Browser/Session/Poll.antt =====
-- `wait_for_selector`, `wait_for_function` and `is_truthy` of src/browser/mod.rs: polling with a backoff.
use browser_headless.Base.{
  ℕ, suc, ◌+◌, ◌*◌, ◌≤◌, ◌<◌, inl, inr, arith, Bool, true, false, not, List, [], ◌∷◌, ◌++◌, Text,
  codes, show_ℕ, leb, leb→le, if◌then◌else◌, min, All, length, Bool-cases,
}
use browser_headless.Error.{BrowserError, wait_timeout}
use browser_headless.Browser.Session.Commands.{Answer, pending, failed, done}

-- The value of an expression, with what the test reads of it: whether a number is 0, and whether a string, an array
-- or an object is empty.
pub data Value : Type 0 where
  null : Value
  bool : Bool → Value
  number : Bool → Value
  string array object : Bool → Value

unfoldable pub is_truthy : Value → Bool
is_truthy null = false
is_truthy (bool b) = b
is_truthy (number is_zero) = not is_zero
is_truthy (string empty) = not empty
is_truthy (array empty) = not empty
is_truthy (object empty) = not empty

-- One try: what it finds, and the clock after it. A try that fails finds nothing.
abbrev pub Try : Type 0
Try = Bool × ℕ

abbrev pub initial_interval : ℕ
initial_interval = 10

abbrev pub max_interval : ℕ
max_interval = 200

-- The sleeps of the loop, and its answer.
unfoldable pub poll : Text → ℕ → List Try → ℕ → List ℕ × Answer (Unit {0})
poll message deadline [] interval = ([], pending)
poll message deadline ((found, now) ∷ tries) interval =
    let rest = poll message deadline tries (min (interval * 2) max_interval) in
    if found
    then ([], done tt)
    else if leb deadline now
    then ([], failed (wait_timeout message))
    else (interval ∷ rest.0, rest.1)

-- A wait that starts at a moment, for a number of milliseconds at most.
unfoldable pub wait_for_selector : Text → ℕ → ℕ → List Try → List ℕ × Answer (Unit {0})
unfolding poll
wait_for_selector selector timeout started tries =
    poll (codes "selector " ++ (selector ++ (codes " (after " ++ (show_ℕ timeout ++ codes "ms)"))))
      (started + timeout) tries initial_interval

unfoldable pub wait_for_function : ℕ → ℕ → List Try → List ℕ × Answer (Unit {0})
unfolding poll
wait_for_function timeout started tries =
    poll (codes "function (after " ++ (show_ℕ timeout ++ codes "ms)")) (started + timeout) tries
      initial_interval

-- How a poll ends: still going with every try in vain and in time, found by the last try that it made, or given up
-- at a try in vain past the deadline.
pub data Ended (deadline : ℕ) : List Try → ℕ → Answer (Unit {0}) → Type 0 where
  going : Ended deadline [] 0 pending
  hit : (now : ℕ) (tries : List Try) → Ended deadline ((true, now) ∷ tries) 0 (done tt)
  gave_up :
      (now : ℕ) (tries : List Try) (e : BrowserError)
      → deadline ≤ now
      → Ended deadline ((false, now) ∷ tries) 0 (failed e)
  again :
      (now : ℕ) (tries : List Try) (n : ℕ) (a : Answer (Unit {0}))
      → now < deadline
      → Ended deadline tries n a
      → Ended deadline ((false, now) ∷ tries) (suc n) a

poll-Ended :
    (message : Text) (deadline : ℕ) (tries : List Try) (interval : ℕ)
    → interval ≤ max_interval
    → Ended deadline tries
        (length (poll message deadline tries interval).0)
        (poll message deadline tries interval).1
      × All (λ s. s ≤ max_interval) (poll message deadline tries interval).0
unfolding poll
poll-Ended message deadline [] interval h = (going, tt)
poll-Ended message deadline ((true, now) ∷ tries) interval h = (hit now tries, tt)
poll-Ended message deadline ((false, now) ∷ tries) interval h =
    elim (Bool-cases (leb deadline now)) [
      | inl late ↦ rw late (gave_up now tries _ (leb→le deadline now late), tt)
      | inr early ↦
          let rest =
            poll-Ended message deadline tries (min (interval * 2) max_interval) (omega arith) in
          rw early (again now tries _ _ (ground arith) rest.0, (h, rest.1))
    ]

-- A wait for an element tries again, after a sleep of at most 200 ms, exactly until a try finds it or a try in vain
-- ends at the deadline or later, and is an error only in the second case.
pub wait_for_selector-Ended :
    (selector : Text) (timeout started : ℕ) (tries : List Try)
    → let (sleeps, answer) = wait_for_selector selector timeout started tries in
      Ended (started + timeout) tries (length sleeps) answer × All (λ s. s ≤ max_interval) sleeps
unfolding wait_for_selector
wait_for_selector-Ended selector timeout started tries =
    poll-Ended _ (started + timeout) tries initial_interval (omega arith)
