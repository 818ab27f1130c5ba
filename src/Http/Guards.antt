-- ===== src/Http/Guards.antt =====
-- src/http.rs: what the key's check and the rate limit keep out.
use browser_headless.Base.{
  ℕ, ◌≡◌, ◌≢◌, ◌↔◌, refl, sym, ap, ◌∙◌, inl, inr, Bool, true, false, Option, none, some, [], Text,
  codes, Bool-cases, Option-cases, Result-cases, Result, err-injective, ok, err, err-ne-ok,
  none-ne-some,
}
use mathlib.Core.Option.{some-injective}
use browser_headless.Config.{Env}
use browser_headless.Error.{CaptureError, status_u16}
use browser_headless.RateLimit.{try_acquire}
use browser_headless.Capture.Query.{Lang}
use browser_headless.Capture.Engine.{Captured, World}
use browser_headless.Queue.{QueueConfig, Redis, QueueCodec}
use browser_headless.Http.{
  HeaderMap, AppState, Moment, error_page, into_response, check_api_key, check_auth, check_rate,
  ApiRequest, Handled, dispatch, handle, HealthState, metrics_endpoint, mcp_auth,
}

-- The comparison says whether the bytes are the same.
abbrev pub IsEquality : (Text → Text → Bool) → Type 0
IsEquality ct_eq = (s t : Text) → (ct_eq s t ≡ true) ↔ (s ≡ t)

module _ (ct_eq : Text → Text → Bool) (law : IsEquality ct_eq) where
  check-provided :
      (required : Text) (headers : HeaderMap) (provided : Text)
      → headers (codes "x-api-key") ≡ some provided
      → check_api_key ct_eq (some required) headers ≡ ok tt
      → provided ≡ required
  unfolding check_api_key
  check-provided required headers provided given h = elim (Bool-cases (ct_eq provided required)) [
    | inl e ↦ (law provided required).0 e
    | inr e ↦ absurd (err-ne-ok (rw (check_api_key, given, e) at h))
  ]

  -- The check of a key that is set passes exactly when the header `X-Api-Key` is that key, and that of no key
  -- always.
  check_api_key_iff :
      (key : Option Text) (headers : HeaderMap)
      → (check_api_key ct_eq key headers ≡ ok tt)
        ↔ ((required : Text) → key ≡ some required → headers (codes "x-api-key") ≡ some required)
  unfolding check_api_key
  check_api_key_iff none headers = (λ _ required e. absurd (none-ne-some e), λ _. refl)
  check_api_key_iff (some required) headers = (
    λ h other e. elim (Option-cases (headers (codes "x-api-key"))) [
      | inl missing ↦ absurd (err-ne-ok (rw (check_api_key, missing) at h))
      | inr (provided, given) ↦
          given
          ∙ ap some
              (check-provided required headers provided given h ∙ some-injective required other e)
    ],
    λ h. rw (check_api_key, h required refl, (law required required).1 refl) refl,
  )

  check_api_key-status :
      (key : Option Text) (headers : HeaderMap) (e : CaptureError)
      → check_api_key ct_eq key headers ≡ err e
      → status_u16 e ≡ 401
  unfolding check_api_key status_u16
  check_api_key-status none headers e h = cc
  check_api_key-status (some required) headers e h =
      elim (Option-cases (headers (codes "x-api-key"))) [
        | inl missing ↦ ap status_u16 (sym (err-injective (rw (check_api_key, missing) at h)))
        | inr (provided, given) ↦ elim (Bool-cases (ct_eq provided required)) [
          | inl e' ↦ absurd (err-ne-ok (sym (rw (check_api_key, given, e') at h)))
          | inr e' ↦ ap status_u16 (sym (err-injective (rw (check_api_key, given, e') at h)))
        ]
      ]

  -- A key that is set and not in the header is refused with 401.
  refused_key :
      (required : Text) (headers : HeaderMap)
      → headers (codes "x-api-key") ≢ some required
      → (e : CaptureError) × (check_api_key ct_eq (some required) headers ≡ err e)
        × (status_u16 e ≡ 401)
  refused_key required headers wrong =
      elim (Result-cases (check_api_key ct_eq (some required) headers)) [
        | inl (tt, h) ↦
            absurd (wrong ((check_api_key_iff (some required) headers).0 h required refl))
        | inr (e, h) ↦ (e, h, check_api_key-status (some required) headers e h)
      ]

  refused_auth :
      {S Json : Type 0} (st : AppState S Json) (required : Text) (headers : HeaderMap)
      → st.api_key ≡ some required
      → headers (codes "x-api-key") ≢ some required
      → (e : CaptureError) × (check_auth ct_eq st headers ≡ err e) × (status_u16 e ≡ 401)
  unfolding check_auth
  refused_auth st required headers set wrong =
      let (e, h, status) = refused_key required headers wrong in
      (e, ap (λ key. check_api_key ct_eq key headers) set ∙ h, status)

  -- The metrics page is protected too where the environment asks for it: without the key that is set, 401.
  pub metrics_endpoint-protected :
      {Stat Json : Type 0} (st : HealthState) (required : Text) (headers : HeaderMap)
      → st.protect_metrics ≡ true
      → st.api_key ≡ some required
      → headers (codes "x-api-key") ≢ some required
      → (m : Text) × (metrics_endpoint {Stat = Stat} {Json = Json} ct_eq st headers
          ≡ error_page 401 m)
  unfolding metrics_endpoint into_response
  metrics_endpoint-protected st required headers protected set wrong =
      let (e, h, status) = refused_key required headers wrong in
      (
        e.message,
        rw (metrics_endpoint, protected, set, h) (ap (λ s. error_page s e.message) status),
      )

  -- Behind the key's check the MCP service is not reached without the key that is set: the state stays and the
  -- answer is a 401 page.
  pub mcp_auth-protected :
      {S Stat Json A : Type 0} (st : AppState S Json) (required : Text) (headers : HeaderMap)
      (next : AppState S Json → AppState S Json × A)
      → st.api_key ≡ some required
      → headers (codes "x-api-key") ≢ some required
      → (m : Text) × (mcp_auth {Stat = Stat} ct_eq st headers next ≡ (st, err (error_page 401 m)))
  unfolding mcp_auth into_response
  mcp_auth-protected st required headers next set wrong =
      let (e, h, status) = refused_auth st required headers set wrong in
      (e.message, rw (mcp_auth, h) (ap (λ s. (st, err (error_page s e.message))) status))

module _ {S F Url Stat Json : Type 0} (env : Env) (r : Redis S) (codec : QueueCodec F Json)
    (cfg : QueueConfig) (ct_eq : Text → Text → Bool) (allow_private_ips : Bool)
    (worlds : ℕ → World F Url Stat) (to_value : Captured Stat → Result Json Text)
    (to_markdown : Lang → Stat → Text) where
  abbrev handled : AppState S Json → HeaderMap → Moment → ApiRequest F → Handled S F Stat Json
  handled = handle env r codec cfg ct_eq allow_private_ips worlds to_value to_markdown

  -- Without the key that is set, no request of the capture API changes the state or runs a capture, and each is
  -- answered with 401.
  pub handle-unauthorized :
      IsEquality ct_eq
      → (st : AppState S Json) (required : Text) (headers : HeaderMap) (at : Moment)
        (request : ApiRequest F)
      → st.api_key ≡ some required
      → headers (codes "x-api-key") ≢ some required
      → (m : Text) × (handled st headers at request ≡ (st, [], error_page 401 m))
  unfolding handle into_response
  handle-unauthorized law st required headers at request set wrong =
      let (e, h, status) = refused_auth ct_eq law st required headers set wrong in
      (e.message, rw (handle, h) (ap (λ s. (st, [], error_page s e.message)) status))

  -- A request that the limiter refuses takes its answer from the limiter alone: the jobs and the key stay, no
  -- capture runs, and the status is 429.
  pub handle-limited :
      (st : AppState S Json) (headers : HeaderMap) (at : Moment) (request : ApiRequest F)
      → check_auth ct_eq st headers ≡ ok tt
      → (try_acquire st.rate_limiter at.poisoned at.nanos).1 ≡ false
      → (m : Text) × (handled st headers at request ≡ (
        record st { rate_limiter = (try_acquire st.rate_limiter at.poisoned at.nanos).0 },
        [],
        error_page 429 m,
      ))
  unfolding handle check_rate into_response
  handle-limited st headers at request auth limited =
      (codes "rate limit exceeded; retry shortly", rw (handle, auth, check_rate, limited) refl)

  -- A request that both checks let through is dispatched, with the token taken.
  handle-allowed :
      (st : AppState S Json) (headers : HeaderMap) (at : Moment) (request : ApiRequest F)
      → check_auth ct_eq st headers ≡ ok tt
      → (try_acquire st.rate_limiter at.poisoned at.nanos).1 ≡ true
      → handled st headers at request
        ≡ dispatch env r codec cfg ct_eq allow_private_ips worlds to_value to_markdown
            (record st { rate_limiter = (try_acquire st.rate_limiter at.poisoned at.nanos).0 })
            at
            request
  unfolding handle check_rate
  handle-allowed st headers at request auth allowed = rw (handle, auth, check_rate, allowed) refl
