-- ===== src/Examples/Stores.antt =====
-- The job store at concrete inputs.
use browser_headless.Base.{
  ℕ, ◌≤◌, ◌≡◌, refl, arith, none, some, [], ◌∷◌, codes, text_eq, length, ok,
}
use browser_headless.Base.Dicts.{Dict, lookup, insert, remove, retain, count_values}
use browser_headless.Config.{max_async_jobs, env_usize}
use browser_headless.Jobs.{
  running, JobRecord, record_active, unexpired, submit, mark_running, complete,
}
use browser_headless.Jobs.Bounds.{submit_bounds}
use browser_headless.Jobs.Evict.{submit-keeps_active}
use browser_headless.Jobs.Lifecycle.{
  System, submitted, began, ended, Run, fresh, then_step, spawned, capturing, Coherent,
  Run-Coherent,
}
use browser_headless.Examples.Network.{empty_env}

abbrev running_job : JobRecord ℕ
running_job = record {
  status = running;
  http_status = none;
  body = none;
  error_message = none;
  created = 0;
  expires = 3600000;
}

-- A store with one job that is running.
abbrev one_job : Dict (JobRecord ℕ)
one_job = (codes "a", running_job) ∷ []

submit_bounds_example :
    (length (submit empty_env (codes "b") 5 one_job).0 ≤ max_async_jobs empty_env)
    × (count_values record_active (submit empty_env (codes "b") 5 one_job).0
        ≤ max_async_jobs empty_env)
unfolding max_async_jobs env_usize
submit_bounds_example = submit_bounds empty_env (codes "b") 5 one_job (omega arith)

submit-keeps_active_example :
    lookup (codes "a") (submit empty_env (codes "b") 5 one_job).0 ≡ some running_job
unfolding lookup unexpired record_active text_eq codes
submit-keeps_active_example =
    submit-keeps_active empty_env (codes "b") 5 one_job (codes "a") running_job (refl, tt) refl refl
      refl refl

-- A job is submitted, starts, and ends with a result.
abbrev after_submit : System ℕ
after_submit = record {
  store = (submit empty_env (codes "a") 0 []).0;
  tasks = insert (codes "a") spawned [];
}

abbrev after_begin : System ℕ
after_begin = record {
  store = mark_running (codes "a") after_submit.store;
  tasks = insert (codes "a") capturing after_submit.tasks;
}

abbrev after_end : System ℕ
after_end = record {
  store = complete empty_env (codes "a") 10 (ok 42) after_begin.store;
  tasks = remove (codes "a") after_begin.tasks;
}

after_end-Run : Run empty_env after_end
unfolding lookup insert submit max_async_jobs env_usize count_values retain text_eq codes
after_end-Run =
    then_step after_begin after_end
      (then_step after_submit after_begin
        (then_step (record { store = []; tasks = [] }) after_submit fresh
          (submitted (record { store = []; tasks = [] }) (codes "a") (codes "a") 0 refl refl refl))
        (began after_submit (codes "a") refl))
      (ended after_begin (codes "a") 10 (ok 42) refl)

Run-Coherent_example : Coherent after_end
Run-Coherent_example = Run-Coherent empty_env after_end after_end-Run
