-- ===== src/Browser/Session/Capture.antt =====
-- `capture` of src/browser/mod.rs, its four stages composed.
use browser_headless.Base.{
  ℕ, Bool, true, false, Option, none, some, List, [], ◌∷◌, ◌++◌, Text, if◌then◌else◌, Result, ok,
  err,
}
use browser_headless.Error.{BrowserError}
use browser_headless.Capture.Request.{SummaryRequest}
use browser_headless.Browser.Security.{build_cors_issues}
use browser_headless.Browser.Summary.Report.{ResourceSummary}
use browser_headless.Browser.Summary.Hints.{RawResourceHints, build_resource_hints}
use browser_headless.Browser.Collect.Finish.{WebPageStat}
use browser_headless.Browser.Session.Commands.{
  Setting, settings, pdf, dom_snapshot, web_vitals, dom_mutations, metrics, metadata,
  render_blocking, service_worker, image_sizing, resource_hints, font_audit, security_scan,
  create_context, new_page, apply, evaluate, sleep, read, close_page, dispose_context, Answer,
  pending, failed, done, Ran, ◌>>=◌,
}
use browser_headless.Browser.Session.Format.{
  Site, settling, send, return, collect_summary, wait_element, wait_function, read_data, read_when,
}

-- `try_join!`: both sides send their commands; of two errors the first listed is taken.
unfoldable pub join_answers {ℓ κ} : {A : Type ℓ} {B : Type κ} → Answer (A → B) → Answer A → Answer B
join_answers (failed e) a = failed e
join_answers pending (failed e) = failed e
join_answers pending a = pending
join_answers (done f) (failed e) = failed e
join_answers (done f) pending = pending
join_answers (done f) (done a) = done (f a)

infixl 6 ◌<*>◌
unfoldable pub ◌<*>◌ {ℓ κ} :
    {F : Type 0} {A : Type ℓ} {B : Type κ} → Ran F (A → B) → Ran F A → Ran F B
unfolding join_answers
(log, f) <*> (more, a) = (log ++ more, join_answers f a)

-- What the reads of the format stage bring.
pub record Reads (Doc : Type 0) : Type 0 where
  pub body : Text
  pub pdf : Option Doc
  pub dom_snapshot : Option Doc
  pub web_vitals : Option Doc
  pub dom_mutations : Option Doc
  pub metrics : Option Doc
  pub metadata : Option Doc
  pub render_blocking : Option Doc
  pub service_worker : Option Doc
  pub image_sizing : Option Doc
  pub resource_hints : Option RawResourceHints
  pub font_audit : Option Doc
  pub security_scan : Option Doc

abbrev pub reads_of :
    {Doc : Type 0}
    → Text
    → Option Doc
    → Option Doc
    → Option Doc
    → Option Doc
    → Option Doc
    → Option Doc
    → Option Doc
    → Option Doc
    → Option Doc
    → Option RawResourceHints
    → Option Doc
    → Option Doc
    → Reads Doc
reads_of body printed snapshot vitals mutations counters head blockers worker images hints fonts
      scan =
    record {
      body = body;
      pdf = printed;
      dom_snapshot = snapshot;
      web_vitals = vitals;
      dom_mutations = mutations;
      metrics = counters;
      metadata = head;
      render_blocking = blockers;
      service_worker = worker;
      image_sizing = images;
      resource_hints = hints;
      font_audit = fonts;
      security_scan = scan;
    }

module _ {F Doc : Type 0} (site : Site F Doc) where
  -- The overrides of stage 1, joined: each is sent, and the first listed error is taken.
  unfoldable pub apply_all : List (Setting F) → Ran F (Unit {0})
  apply_all [] = return tt
  apply_all (s ∷ rest) =
      let (log, answer) = apply_all rest in
      (apply s ∷ log, elim (site.apply s) [ err e ↦ failed e | ok _ ↦ answer ])

  unfoldable pub wait_when : (Text → Ran F (Unit {0})) → Option Text → Ran F (Unit {0})
  wait_when wait none = return tt
  wait_when wait (some what) = wait what

  unfoldable pub settle_for : Option ℕ → Ran F (Unit {0})
  settle_for none = return tt
  settle_for (some ms) = (sleep ms ∷ [], done tt)

  -- Stage 3.
  unfoldable pub settle_page : SummaryRequest F → Ran F (Unit {0})
  unfolding wait_when settle_for wait_element wait_function
  settle_page req =
      wait_when (λ selector. wait_element site settling selector req.timeout) req.wait_for_element
      >>= λ _.
          (wait_when (λ expression. wait_function site expression req.timeout) req.wait_for_function
            >>= λ _.
                (settle_for req.settle >>= λ _.
                wait_when (λ script. send (evaluate script) (site.evaluate script)) req.script))

  unfoldable pub read_mutations : Bool → Ran F (Option Doc)
  read_mutations false = return none
  read_mutations true = send (read dom_mutations) site.read_mutations

  abbrev pub some_hints :
      Result RawResourceHints BrowserError → Result (Option RawResourceHints) BrowserError
  some_hints (ok h) = ok (some h)
  some_hints (err e) = err e

  unfoldable pub read_hints : Bool → Ran F (Option RawResourceHints)
  read_hints false = return none
  read_hints true = send (read resource_hints) (some_hints site.read_hints)

  -- Phase A of stage 4.
  unfoldable pub read_all : SummaryRequest F → Ran F (Reads Doc)
  unfolding read_data read_when read_mutations read_hints
  read_all req =
      return reads_of
      <*> read_data site req req.data_format
      <*> read_when site req.pdf pdf
      <*> read_when site req.save_dom_snapshot dom_snapshot
      <*> read_when site req.web_vitals web_vitals
      <*> read_mutations req.dom_mutations
      <*> read_when site req.metrics metrics
      <*> read_when site req.metadata metadata
      <*> read_when site req.render_blocking render_blocking
      <*> read_when site req.service_worker service_worker
      <*> read_when site req.image_sizing image_sizing
      <*> read_hints req.resource_hints
      <*> read_when site req.font_audit font_audit
      <*> read_when site req.security_scan security_scan

  unfoldable pub with_hints : WebPageStat Doc → Option RawResourceHints → ResourceSummary
  with_hints stat none = stat.resource_summary
  with_hints stat (some raw) = record stat.resource_summary {
    resource_hints =
        some (build_resource_hints site.parse raw stat.resource_summary.top_third_party_domains);
  }

  -- Phase B: the assignments, and what is derived from the resources.
  unfoldable pub assigned : WebPageStat Doc → Reads Doc → WebPageStat Doc
  assigned stat reads = record stat {
    body = reads.body;
    pdf = reads.pdf;
    dom_snapshot = reads.dom_snapshot;
    web_vitals = reads.web_vitals;
    dom_mutations = reads.dom_mutations;
    metrics = reads.metrics;
    metadata = reads.metadata;
    render_blocking_resources = reads.render_blocking;
    service_worker = reads.service_worker;
    font_audit = reads.font_audit;
    security_scan = elim reads.security_scan [
      | none ↦ stat.security_scan
      | some found ↦ some (record { found = found; cors_issues = build_cors_issues stat.resources })
    ];
    image_sizing = elim reads.image_sizing [
      | none ↦ stat.image_sizing
      | some imgs ↦ some (site.enrich imgs stat.resources).0
    ];
    image_audit = elim reads.image_sizing [
      | none ↦ stat.image_audit
      | some imgs ↦ some (site.enrich imgs stat.resources).1
    ];
  }

  unfoldable pub assembled : SummaryRequest F → WebPageStat Doc → Reads Doc → WebPageStat Doc
  unfolding assigned with_hints
  assembled req stat reads =
      let s = assigned stat reads in
      record s {
        har = if req.har then some (site.har s req.url) else s.har;
        resource_summary = with_hints s reads.resource_hints;
        resources = if req.resources then s.resources else [];
      }

  -- The teardown runs in a task of its own, whose commands are sent last.
  unfoldable pub teardown : Text → WebPageStat Doc → Ran F (WebPageStat Doc)
  teardown ctx_id stat = (close_page ∷ dispose_context ctx_id ∷ [], done stat)

  -- The stages on an open page, and the teardown.
  unfoldable pub on_page : F → (F → Bool) → Text → SummaryRequest F → Text → Ran F (WebPageStat Doc)
  unfolding settings apply_all collect_summary settle_page read_all assembled teardown
  on_page default_scale above_one default_user_agent req ctx_id =
      apply_all (settings default_scale above_one default_user_agent req) >>= λ _.
      (collect_summary site req >>= λ stat.
      (settle_page req >>= λ _.
      (read_all req >>= λ reads. teardown ctx_id (assembled req stat reads))))

  unfoldable pub capture : F → (F → Bool) → Text → SummaryRequest F → Ran F (WebPageStat Doc)
  unfolding on_page
  capture default_scale above_one default_user_agent req =
      send create_context site.create_context >>= λ ctx_id.
      (send new_page site.new_page >>= λ _.
      on_page default_scale above_one default_user_agent req ctx_id)
