-- ===== src/Capture/Lean.antt =====
-- The content-only mode and the named profiles of src/capture.rs, from the query to the request.
use browser_headless.Base.{◌≡◌, ◌∙◌, ◌⊎◌, Bool, true, false, none, some, arith}
use browser_headless.Config.{Env}
use browser_headless.Capture.Query.{
  SummaryQuery, content, scrape, audit, lighthouse, apply_profile, apply_clamps,
}
use browser_headless.Capture.Request.{SummaryRequest, build_request}
use browser_headless.Capture.Engine.{World, prepare}

-- Nothing but the content is collected.
pub record CollectsNothing {F : Type 0} (r : SummaryRequest F) : Type 0 where
  pub screenshot : r.screenshot ≡ false
  pub pdf : r.pdf ≡ false
  pub har : r.har ≡ false
  pub save_dom_snapshot : r.save_dom_snapshot ≡ false
  pub web_vitals : r.web_vitals ≡ false
  pub metrics : r.metrics ≡ false
  pub metadata : r.metadata ≡ false
  pub render_blocking : r.render_blocking ≡ false
  pub service_worker : r.service_worker ≡ false
  pub initiators : r.initiators ≡ false
  pub console_messages : r.console_messages ≡ false
  pub image_sizing : r.image_sizing ≡ false
  pub dom_mutations : r.dom_mutations ≡ false
  pub resources : r.resources ≡ false
  pub http_errors : r.http_errors ≡ false
  pub coverage : r.coverage ≡ false
  pub resource_hints : r.resource_hints ≡ false
  pub font_audit : r.font_audit ≡ false
  pub security_scan : r.security_scan ≡ false
  pub collect_cookies : r.collect_cookies ≡ false

-- Every analytical signal is collected.
pub record CollectsAnalysis {F : Type 0} (r : SummaryRequest F) : Type 0 where
  pub web_vitals : r.web_vitals ≡ true
  pub metrics : r.metrics ≡ true
  pub metadata : r.metadata ≡ true
  pub render_blocking : r.render_blocking ≡ true
  pub service_worker : r.service_worker ≡ true
  pub initiators : r.initiators ≡ true
  pub console_messages : r.console_messages ≡ true
  pub image_sizing : r.image_sizing ≡ true
  pub dom_mutations : r.dom_mutations ≡ true
  pub resources : r.resources ≡ true
  pub http_errors : r.http_errors ≡ true
  pub resource_hints : r.resource_hints ≡ true
  pub font_audit : r.font_audit ≡ true
  pub security_scan : r.security_scan ≡ true
  pub collect_cookies : r.collect_cookies ≡ true

module _ {F Url Stat : Type 0} (env : Env) (w : World F Url Stat) where
  -- The request that a query leads to.
  abbrev pub request : SummaryQuery F → Bool → SummaryRequest F
  request q allow = build_request w.hundred (prepare env w q) allow

  prepare-content_only :
      (q : SummaryQuery F)
      → (q.content_only ≡ true) ⊎ (q.profile ≡ some content) ⊎ (q.profile ≡ some scrape)
      → (prepare env w q).content_only ≡ true
  unfolding prepare apply_profile apply_clamps
  prepare-content_only q h = ground arith

  CollectsNothing-build_request :
      (q : SummaryQuery F) (allow : Bool)
      → q.content_only ≡ true
      → CollectsNothing (build_request w.hundred q allow)
  unfolding build_request
  CollectsNothing-build_request q allow h = ground arith

  -- With `content_only`, or the profile `content` or `scrape`, the browser is asked for nothing but the
  -- content, whatever other flags the query sets.
  pub lean-CollectsNothing :
      (q : SummaryQuery F) (allow : Bool)
      → (q.content_only ≡ true) ⊎ (q.profile ≡ some content) ⊎ (q.profile ≡ some scrape)
      → CollectsNothing (request q allow)
  lean-CollectsNothing q allow h =
      CollectsNothing-build_request (prepare env w q) allow (prepare-content_only q h)

  -- The query asks for the analytical suite, and not for the content alone.
  abbrev pub AsksAnalysis : SummaryQuery F → Type 0
  AsksAnalysis q =
      (q.profile ≡ some audit)
      ⊎ (q.profile ≡ some lighthouse)
      ⊎ ((q.profile ≡ none) × (q.all_metrics ≡ true))

  prepare-analysis :
      (q : SummaryQuery F)
      → AsksAnalysis q
      → ((prepare env w q).all_metrics ≡ true)
        × ((prepare env w q).content_only ≡ q.content_only)
        × ((prepare env w q).screenshot ≡ q.screenshot)
        × ((prepare env w q).pdf ≡ q.pdf)
        × ((prepare env w q).har ≡ q.har)
        × ((prepare env w q).save_dom_snapshot ≡ q.save_dom_snapshot)
  unfolding prepare apply_profile apply_clamps
  prepare-analysis q h =
      (ground arith, ground arith, ground arith, ground arith, ground arith, ground arith)

  CollectsAnalysis-build_request :
      (q : SummaryQuery F) (allow : Bool)
      → q.all_metrics ≡ true
      → q.content_only ≡ false
      → CollectsAnalysis (build_request w.hundred q allow)
  unfolding build_request
  CollectsAnalysis-build_request q allow h k = ground arith

  binaries-build_request :
      (q : SummaryQuery F) (allow : Bool)
      → q.content_only ≡ false
      → ((build_request w.hundred q allow).screenshot ≡ q.screenshot)
        × ((build_request w.hundred q allow).pdf ≡ q.pdf)
        × ((build_request w.hundred q allow).har ≡ q.har)
        × ((build_request w.hundred q allow).save_dom_snapshot ≡ q.save_dom_snapshot)
  unfolding build_request
  binaries-build_request q allow k = ground arith

  -- `all_metrics` and the profiles `audit` and `lighthouse` turn every analytical signal on, and leave
  -- the screenshot, the PDF, the HAR and the DOM snapshot to the query's own flags.
  pub audit-CollectsAnalysis :
      (q : SummaryQuery F) (allow : Bool)
      → AsksAnalysis q
      → q.content_only ≡ false
      → CollectsAnalysis (request q allow)
        × ((request q allow).screenshot ≡ q.screenshot)
        × ((request q allow).pdf ≡ q.pdf)
        × ((request q allow).har ≡ q.har)
        × ((request q allow).save_dom_snapshot ≡ q.save_dom_snapshot)
  audit-CollectsAnalysis q allow h k =
      let (on, lean, shot, pdf, har, dom) = prepare-analysis q h in
      let (shot', pdf', har', dom') = binaries-build_request (prepare env w q) allow (lean ∙ k) in
      (
        CollectsAnalysis-build_request (prepare env w q) allow on (lean ∙ k),
        shot' ∙ shot,
        pdf' ∙ pdf,
        har' ∙ har,
        dom' ∙ dom,
      )
