-- ===== src/Http/Bounds.antt =====
-- src/http.rs: how much work one request may cause, and the statuses of the answers.
use browser_headless.Base.{ℕ, ◌≤◌, ◌<◌, Bool, Text, Result, length}
use browser_headless.Config.{Env, max_batch_urls}
use browser_headless.Capture.Query.{Lang}
use browser_headless.Capture.Engine.{Captured, World}
use browser_headless.Queue.{QueueConfig, Redis, QueueCodec}
use browser_headless.Http.{
  Response, error_page, ApiRequest, summary_get, summary_post, summary_batch, post_job, get_job,
  Handled,
}

-- An error page has a status from 400 to 599.
unfoldable pub IsSound : {Stat Json : Type 0} → Response Stat Json → Type 0
IsSound (error_page status m) = (400 ≤ status) × (status < 600)
IsSound _ = Unit

-- The captures that a request may run.
abbrev pub most_captures : {F : Type 0} → Env → ApiRequest F → ℕ
most_captures env (summary_get q) = 1
most_captures env (summary_post q) = 1
most_captures env (summary_batch batch order) = max_batch_urls env
most_captures env (post_job q) = 0
most_captures env (get_job id) = 0

module _ {S F Url Stat Json : Type 0} (env : Env) (r : Redis S) (codec : QueueCodec F Json)
    (cfg : QueueConfig) (ct_eq : Text → Text → Bool) (allow_private_ips : Bool)
    (worlds : ℕ → World F Url Stat) (to_value : Captured Stat → Result Json Text)
    (to_markdown : Lang → Stat → Text) where
  -- So many captures at most; and the status.
  unfoldable Fine : ℕ → Handled S F Stat Json → Type 0
  Fine most h = (length h.1 ≤ most) × IsSound h.2
