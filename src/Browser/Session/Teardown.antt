-- ===== src/Browser/Session/Teardown.antt =====
-- The teardown at the end of `capture` of src/browser/mod.rs: which captures dispose of their browser context.
use browser_headless.Base.{
  ℕ, ◌+◌, ◌≡◌, refl, ap, ◌∙◌, arith, Bool, true, false, Option, none, some, List, [], ◌∷◌, map,
  Text, if◌then◌else◌, count, count-append, to_ℕ, Result,
}
use browser_headless.Error.{BrowserError}
use browser_headless.Capture.Query.{DataFormat, html_data, text_data, markdown_data}
use browser_headless.Capture.Request.{SummaryRequest}
use browser_headless.Browser.Collect.Finish.{WebPageStat}
use browser_headless.Browser.Session.Poll.{wait_for_selector, wait_for_function}
use browser_headless.Browser.Session.Commands.{
  Setting, Part, Command, create_context, new_page, goto, evaluate, sleep, read, dispose_context,
  Answer, pending, failed, done, Ran, after, ◌>>=◌,
}
use browser_headless.Browser.Session.Format.{
  Site, Stage, settling, reading, send, collect_summary, wait_element, wait_function,
  capture_property, read_scoped, found_or, read_html, read_data, read_when,
}
use browser_headless.Browser.Session.Capture.{
  ◌<*>◌, apply_all, wait_when, settle_for, settle_page, read_mutations, read_hints, read_all,
  on_page, teardown, capture,
}

abbrev pub is_dispose : {F : Type 0} → Command F → Bool
is_dispose (dispose_context ctx) = true
is_dispose _ = false

abbrev pub is_done {ℓ} : {A : Type ℓ} → Answer A → Bool
is_done (done a) = true
is_done _ = false

-- A run that disposes of nothing.
record IsQuiet {F A : Type 0} (m : Ran F A) : Type 0 where
  disposed : count is_dispose m.0 ≡ 0

-- A run that disposes once if it answers, and of nothing otherwise.
record Disposes {F A : Type 0} (m : Ran F A) : Type 0 where
  disposed : count is_dispose m.0 ≡ to_ℕ (is_done m.1)

-- A run that sends no command, or one that disposes of nothing.
still : {F A : Type 0} (a : Answer A) → IsQuiet {F = F} ([], a)
still a = record { disposed = refl }

sent : {F A : Type 0} (c : Command F) (a : Answer A) → is_dispose c ≡ false → IsQuiet (c ∷ [], a)
sent c a h = record { disposed = ground (arith, h) }

module _ {F A B : Type 0} where
  after-IsQuiet : (a : Answer A) (f : A → Ran F B) → ((x : A) → IsQuiet (f x)) → IsQuiet (after a f)
  unfolding after
  after-IsQuiet pending f h = still pending
  after-IsQuiet (failed e) f h = still (failed e)
  after-IsQuiet (done x) f h = h x

  after-Disposes :
      (a : Answer A) (f : A → Ran F B) → ((x : A) → Disposes (f x)) → Disposes (after a f)
  unfolding after
  after-Disposes pending f h = record { disposed = refl }
  after-Disposes (failed e) f h = record { disposed = refl }
  after-Disposes (done x) f h = h x

  bind-IsQuiet :
      (m : Ran F A) (f : A → Ran F B) → IsQuiet m → ((x : A) → IsQuiet (f x)) → IsQuiet (m >>= f)
  unfolding ◌>>=◌
  bind-IsQuiet m f q h = record {
    disposed = omega (
      arith,
      count-append {0} is_dispose m.0 (after m.1 f).0,
      q.disposed,
      (after-IsQuiet m.1 f h).disposed,
    );
  }

  bind-Disposes :
      (m : Ran F A) (f : A → Ran F B) → IsQuiet m → ((x : A) → Disposes (f x)) → Disposes (m >>= f)
  unfolding ◌>>=◌
  bind-Disposes m f q h = record {
    disposed =
        count-append {0} is_dispose m.0 (after m.1 f).0
        ∙ ap (λ (n : ℕ). n + count is_dispose (after m.1 f).0) q.disposed
        ∙ omega (arith, (after-Disposes m.1 f h).disposed);
  }

  join-IsQuiet : (m : Ran F (A → B)) (n : Ran F A) → IsQuiet m → IsQuiet n → IsQuiet (m <*> n)
  unfolding ◌<*>◌
  join-IsQuiet m n q h = record {
    disposed = omega (arith, count-append {0} is_dispose m.0 n.0, q.disposed, h.disposed);
  }

module _ {F Doc : Type 0} (site : Site F Doc) where
  apply_all-IsQuiet : (ss : List (Setting F)) → IsQuiet (apply_all site ss)
  unfolding apply_all
  apply_all-IsQuiet [] = still (done tt)
  apply_all-IsQuiet (s ∷ ss) = record { disposed = omega (arith, (apply_all-IsQuiet ss).disposed) }

  sleeps-IsQuiet : (sleeps : List ℕ) → count (is_dispose {F = F}) (map sleep sleeps) ≡ 0
  sleeps-IsQuiet [] = refl
  sleeps-IsQuiet (ms ∷ sleeps) = omega (arith, sleeps-IsQuiet sleeps)

  wait_element-IsQuiet : (g : Stage) (s : Text) (t : ℕ) → IsQuiet (wait_element site g s t)
  unfolding wait_element
  wait_element-IsQuiet g s t = record {
    disposed =
        omega
          (arith, sleeps-IsQuiet (wait_for_selector s t (site.tries g s).0 (site.tries g s).1).0);
  }

  wait_function-IsQuiet : (s : Text) (t : ℕ) → IsQuiet (wait_function site s t)
  unfolding wait_function
  wait_function-IsQuiet s t = record {
    disposed = omega (
      arith,
      sleeps-IsQuiet (wait_for_function t (site.tries settling s).0 (site.tries settling s).1).0,
    );
  }

  wait_when-IsQuiet :
      (wait : Text → Ran F (Unit {0})) (o : Option Text)
      → ((s : Text) → IsQuiet (wait s))
      → IsQuiet (wait_when site wait o)
  unfolding wait_when
  wait_when-IsQuiet wait none h = still (done tt)
  wait_when-IsQuiet wait (some s) h = h s

  settle_for-IsQuiet : (o : Option ℕ) → IsQuiet (settle_for site o)
  unfolding settle_for
  settle_for-IsQuiet none = still (done tt)
  settle_for-IsQuiet (some ms) = sent (sleep ms) (done tt) refl

  settle_page-IsQuiet : (req : SummaryRequest F) → IsQuiet (settle_page site req)
  unfolding settle_page
  settle_page-IsQuiet req =
      bind-IsQuiet _ _
        (wait_when-IsQuiet _ req.wait_for_element
          (λ s. wait_element-IsQuiet settling s req.timeout))
        λ _.
          bind-IsQuiet _ _
            (wait_when-IsQuiet _ req.wait_for_function (λ s. wait_function-IsQuiet s req.timeout))
            λ _.
              bind-IsQuiet _ _ (settle_for-IsQuiet req.settle)
                λ _. wait_when-IsQuiet _ req.script (λ s. sent (evaluate s) _ refl)

  collect_summary-IsQuiet : (req : SummaryRequest F) → IsQuiet (collect_summary site req)
  unfolding collect_summary
  collect_summary-IsQuiet req =
      bind-IsQuiet _ _ (still _) λ _. bind-IsQuiet _ _ (sent (goto req.url) _ refl) λ _. still _

  read-IsQuiet :
      (part : Part) (r : Result (Option Text) BrowserError) (what : Text)
      → IsQuiet {F = F} (send (read part) r >>= λ value. ([], found_or site what value))
  read-IsQuiet part r what = bind-IsQuiet _ _ (sent (read part) _ refl) λ _. still _

  capture_property-IsQuiet : (s : Text) (t : ℕ) → IsQuiet (capture_property site s t)
  unfolding capture_property
  capture_property-IsQuiet s t =
      bind-IsQuiet _ _ (wait_element-IsQuiet reading s t) λ _. read-IsQuiet _ _ s

  read_scoped-IsQuiet :
      (part : Part) (o : Option Text) (t : ℕ) → IsQuiet (read_scoped site part o t)
  unfolding read_scoped
  read_scoped-IsQuiet part none t = read-IsQuiet part _ _
  read_scoped-IsQuiet part (some s) t =
      bind-IsQuiet _ _ (wait_element-IsQuiet reading s t) λ _. read-IsQuiet part _ s

  read_html-IsQuiet : (o : Option Text) (t : ℕ) → IsQuiet (read_html site o t)
  unfolding read_html
  read_html-IsQuiet none t = sent (read Part.html) _ refl
  read_html-IsQuiet (some s) t = capture_property-IsQuiet s t

  choose-IsQuiet :
      (b : Bool) (m n : Ran F Text) → IsQuiet m → IsQuiet n → IsQuiet (if b then m else n)
  choose-IsQuiet true m n q r = q
  choose-IsQuiet false m n q r = r

  read_data-IsQuiet : (req : SummaryRequest F) (f : DataFormat) → IsQuiet (read_data site req f)
  unfolding read_data
  read_data-IsQuiet req html_data = read_html-IsQuiet req.capture_element req.timeout
  read_data-IsQuiet req text_data = read_scoped-IsQuiet Part.text req.capture_element req.timeout
  read_data-IsQuiet req markdown_data =
      bind-IsQuiet _ _
        (choose-IsQuiet req.normalize_custom_elements _ _
          (read_scoped-IsQuiet Part.normalized req.capture_element req.timeout)
          (read_html-IsQuiet req.capture_element req.timeout))
        λ _. still _

  read_when-IsQuiet : (b : Bool) (part : Part) → IsQuiet (read_when site b part)
  unfolding read_when
  read_when-IsQuiet true part = sent (read part) _ refl
  read_when-IsQuiet false part = still _

  read_mutations-IsQuiet : (b : Bool) → IsQuiet (read_mutations site b)
  unfolding read_mutations
  read_mutations-IsQuiet true = sent (read Part.dom_mutations) _ refl
  read_mutations-IsQuiet false = still _

  read_hints-IsQuiet : (b : Bool) → IsQuiet (read_hints site b)
  unfolding read_hints
  read_hints-IsQuiet true = sent (read Part.resource_hints) _ refl
  read_hints-IsQuiet false = still _

  ruleset quiet_reads = (
    join-IsQuiet, still, read_data-IsQuiet, read_when-IsQuiet, read_mutations-IsQuiet,
    read_hints-IsQuiet,
  )

  read_all-IsQuiet : (req : SummaryRequest F) → IsQuiet (read_all site req)
  unfolding read_all
  read_all-IsQuiet req = search quiet_reads depth 16

  module _ (default_scale : F) (above_one : F → Bool) (default_user_agent : Text) where
    teardown-Disposes : (ctx : Text) (stat : WebPageStat Doc) → Disposes (teardown site ctx stat)
    unfolding teardown
    teardown-Disposes ctx stat = record { disposed = omega arith }

    on_page-Disposes :
        (req : SummaryRequest F) (ctx : Text)
        → Disposes (on_page site default_scale above_one default_user_agent req ctx)
    unfolding on_page
    on_page-Disposes req ctx = bind-Disposes _ _ (apply_all-IsQuiet _) λ _.
        bind-Disposes _ _ (collect_summary-IsQuiet req) λ stat.
          bind-Disposes _ _ (settle_page-IsQuiet req)
            λ _. bind-Disposes _ _ (read_all-IsQuiet req) λ reads. teardown-Disposes ctx _

    -- A capture disposes of its browser context, once, exactly if it answers with a snapshot: one that fails, or
    -- that is dropped before it is done, leaves its context behind.
    pub capture-Disposes :
        (req : SummaryRequest F)
        → count is_dispose (capture site default_scale above_one default_user_agent req).0
          ≡ to_ℕ (is_done (capture site default_scale above_one default_user_agent req).1)
    unfolding capture
    capture-Disposes req =
        let run =
          bind-Disposes _ _ (sent create_context _ refl)
            λ ctx. bind-Disposes _ _ (sent new_page _ refl) λ _. on_page-Disposes req ctx in
        run.disposed
