-- ===== src/Browser/Session/Format.antt =====
-- What stages 2 to 4 of `capture` of src/browser/mod.rs ask of the page: the loading, the data and the reads.
use browser_headless.Base.{
  ℕ, ◌+◌, Bool, true, false, not, ◌||◌, Option, none, some, List, [], ◌∷◌, ◌++◌, map, Text, codes,
  if◌then◌else◌, Result, ok, err,
}
use browser_headless.Error.{BrowserError, element_not_found, invalid_input}
use browser_headless.Capture.Query.{DataFormat, html_data, text_data, markdown_data}
use browser_headless.Capture.Request.{SummaryRequest}
use browser_headless.Browser.Resource.{ParsedUrl, WebPageResource}
use browser_headless.Browser.Summary.Hints.{RawResourceHints}
use browser_headless.Browser.Collect.State.{CollectCaptures, Event}
use browser_headless.Browser.Collect.Loop.{Round, LeanEvent, Outcome, run_lean, run_full}
use browser_headless.Browser.Collect.Loop
use browser_headless.Browser.Collect.Finish.{WebPageStat, FinalReads, lean_stat, finish}
use browser_headless.Browser.Session.Commands.{
  Setting, Part, html, property, text, normalized, Command, goto, poll_element, poll_function,
  sleep, read, Answer, pending, failed, done, Ran, ◌>>=◌,
}
use browser_headless.Browser.Session.Poll.{Try, wait_for_selector, wait_for_function}

-- Which stage waits: after the loading, or with a read.
pub data Stage : Type 0 where
  settling reading : Stage

-- What one capture meets, as answers to its commands. `Doc` stands for decoded values that are only passed on; the
-- moment at which a wait starts comes with the tries that it makes. `convert` is the Markdown converter, `har` and
-- `enrich` make the archive and the image audit.
pub record Site (F Doc : Type 0) : Type 0 where
  pub create_context : Result Text BrowserError
  pub new_page : Result (Unit {0}) BrowserError
  pub apply : Setting F → Result (Unit {0}) BrowserError
  pub enable : Result (Unit {0}) BrowserError
  pub goto : Text → Result (Unit {0}) BrowserError
  pub started : ℕ
  pub now_secs : ℕ
  pub rounds : List (Round Event)
  pub lean_rounds : List (Round LeanEvent)
  pub final_reads : FinalReads Doc
  pub tries : Stage → Text → ℕ × List Try
  pub evaluate : Text → Result (Unit {0}) BrowserError
  pub content : Result Text BrowserError
  pub read_text : Part → Result (Option Text) BrowserError
  pub read_doc : Part → Result (Option Doc) BrowserError
  pub read_mutations : Result (Option Doc) BrowserError
  pub read_hints : Result RawResourceHints BrowserError
  pub parse : Text → Option ParsedUrl
  pub convert : Text → Result Text Text
  pub har : WebPageStat Doc → Text → Doc
  pub enrich : Doc → List WebPageResource → Doc × Doc

abbrev pub answered {ℓ} : {A : Type ℓ} → Result A BrowserError → Answer A
answered (ok a) = done a
answered (err e) = failed e

-- One command with its answer.
abbrev pub send {ℓ} : {F : Type 0} {A : Type ℓ} → Command F → Result A BrowserError → Ran F A
send c r = (c ∷ [], answered r)

abbrev pub return {ℓ} : {F : Type 0} {A : Type ℓ} → A → Ran F A
return a = ([], done a)

-- `captures` as `capture` fills them in.
unfoldable pub captures_of : {F : Type 0} → SummaryRequest F → CollectCaptures
captures_of req = record {
  lean = req.content_only;
  screenshot = req.screenshot;
  initiators = req.initiators;
  console = req.console_messages;
  http_errors = req.http_errors;
  coverage = req.coverage;
  cookies = req.collect_cookies;
  resource_headers = not req.content_only;
  cors_headers = req.security_scan;
  free_resources = not (req.resources || req.har || req.image_sizing || req.security_scan);
}

module _ {F Doc : Type 0} (site : Site F Doc) where
  -- The outcome of the loop: what is made of the state, unless it still runs or returned an error.
  unfoldable pub stat_of :
      {S : Type 0}
      → (S → Result (WebPageStat Doc) BrowserError)
      → Outcome S
      → Answer (WebPageStat Doc)
  stat_of make (Loop.running s) = pending
  stat_of make (Loop.failed e) = failed e
  stat_of make (Loop.stopped s) = answered (make s)

  -- The rounds of the loop, on the lean path or the full one.
  unfoldable pub drained : SummaryRequest F → Answer (WebPageStat Doc)
  unfolding stat_of captures_of
  drained req =
      let deadline = site.started + req.timeout in
      if req.content_only
      then stat_of (λ p. ok (lean_stat p))
          (run_lean deadline req.wait_for_request req.wait_until_load site.lean_rounds)
      else stat_of (finish site.parse (captures_of req) req.url site.final_reads) (
          run_full site.parse site.now_secs (captures_of req) req.url deadline req.wait_for_request
            req.wait_until_load site.rounds)

  -- `collect_summary`; the commands that enable domains are left out of the log.
  unfoldable pub collect_summary : SummaryRequest F → Ran F (WebPageStat Doc)
  unfolding drained
  collect_summary req = ([], answered site.enable) >>= λ _.
      (send (goto req.url) (site.goto req.url) >>= λ _. ([], drained req))

  -- A wait: one poll and one sleep for each try in vain.
  unfoldable pub wait_element : Stage → Text → ℕ → Ran F (Unit {0})
  wait_element stage selector timeout =
      let (started, tries) = site.tries stage selector in
      let (sleeps, answer) = wait_for_selector selector timeout started tries in
      (poll_element selector ∷ map sleep sleeps, answer)

  unfoldable pub wait_function : Text → ℕ → Ran F (Unit {0})
  wait_function expression timeout =
      let (started, tries) = site.tries settling expression in
      let (sleeps, answer) = wait_for_function timeout started tries in
      (poll_function expression ∷ map sleep sleeps, answer)

  unfoldable pub found_or : Text → Option Text → Answer Text
  found_or what none = failed (element_not_found what)
  found_or what (some s) = done s

  -- `capture_property(.., "outerHTML", ..)`.
  unfoldable pub capture_property : Text → ℕ → Ran F Text
  unfolding wait_element found_or
  capture_property selector timeout = wait_element reading selector timeout >>= λ _.
      (send (read property) (site.read_text property) >>= λ value. ([], found_or selector value))

  -- `extract_text` and `normalize_dom`, of the element or of the body.
  unfoldable pub read_scoped : Part → Option Text → ℕ → Ran F Text
  unfolding wait_element found_or
  read_scoped part none timeout = send (read part) (site.read_text part) >>= λ value.
      ([], found_or (codes "document.body") value)
  read_scoped part (some selector) timeout = wait_element reading selector timeout >>= λ _.
      (send (read part) (site.read_text part) >>= λ value. ([], found_or selector value))

  unfoldable pub read_html : Option Text → ℕ → Ran F Text
  unfolding capture_property
  read_html none timeout = send (read html) site.content
  read_html (some selector) timeout = capture_property selector timeout

  unfoldable pub converted : Result Text Text → Answer Text
  converted (ok markdown) = done markdown
  converted (err e) = failed (invalid_input (codes "markdown convert: " ++ e))

  unfoldable pub read_data : SummaryRequest F → DataFormat → Ran F Text
  unfolding read_html read_scoped converted
  read_data req html_data = read_html req.capture_element req.timeout
  read_data req text_data = read_scoped text req.capture_element req.timeout
  read_data req markdown_data =
      (if req.normalize_custom_elements
        then read_scoped normalized req.capture_element req.timeout
        else read_html req.capture_element req.timeout)
      >>= λ source. ([], converted (site.convert source))

  -- A read that is sent if it is asked for.
  unfoldable pub read_when : Bool → Part → Ran F (Option Doc)
  read_when false part = return none
  read_when true part = send (read part) (site.read_doc part)
