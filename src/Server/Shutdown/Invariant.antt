-- ===== src/Server/Shutdown/Invariant.antt =====
-- What every step of the two threads keeps while a thread object is destroyed.
use ff_http_lws.Base.{
  ℕ, ◌≡◌, ◌≢◌, refl, sym, ◌∙◌, ap, Bool, true, false, Option, none, some, List, ◌∷◌, opt_cons,
  arith,
}
use ff_http_lws.Thread.{HttpThread}
use ff_http_lws.Thread.Race.{returned, of_worker, of_stopper, take_turn}
use ff_http_lws.Thread.Race.Turns.{
  worker_keeps, returned_stays, stopper_keeps, Ended, worker-Ended, stopper-Ended, finished-Ended,
}
use ff_http_lws.Server.Shutdown.{
  Main, deleting, killing, waiting, System, Step, run, has_thread, has_none, stop_turn, stop_done,
  joined, runnable_deleted, memory_freed,
}

-- The destructor is behind its wait.
abbrev pub past_wait : Main → Bool
past_wait deleting = false
past_wait killing = false
past_wait waiting = false
past_wait _ = true

-- Stop has returned.
abbrev pub past_stop : Main → Bool
past_stop deleting = false
past_stop killing = false
past_stop _ = true

-- The destructor has tested `RunnableThread`.
abbrev pub past_test : Main → Bool
past_test deleting = false
past_test _ = true

pub past_wait-past_stop : (m : Main) → past_wait m ≡ true → past_stop m ≡ true
past_wait-past_stop deleting h = cc
past_wait-past_stop killing h = cc
past_wait-past_stop _ h = refl

pub past_wait-past_test : (m : Main) → past_wait m ≡ true → past_test m ≡ true
past_wait-past_test deleting h = cc
past_wait-past_test _ h = refl

-- What holds on the way: `x` is the thread of the object, `c` its context, `ds` and `ks` the contexts
-- destroyed and the threads killed before.
pub record Inv (x c : Option ℕ) (ds ks : List ℕ) (s : System) : Type 0 where
  pub handle : s.race.thread.runnable_thread ≡ x
  pub untested : past_test s.main ≡ false → s.killed ≡ ks
  pub tested : past_test s.main ≡ true → s.killed ≡ opt_cons x ks
  pub ended : Ended c ds s.race
  pub waited : past_wait s.main ≡ true → s.race.worker ≡ returned
  pub stopped : past_stop s.main ≡ true → s.race.destroyed ≡ opt_cons c ds
  pub kept : s.freed ≡ true → past_wait s.main ≡ true
  pub threaded : s.main ≡ killing → s.race.thread.runnable_thread ≢ none
  pub alone :
      s.race.thread.runnable_thread ≡ none
      → (s.race.worker ≡ returned) × (s.race.destroyed ≡ opt_cons c ds)

has_thread-killed :
    {x y : Option ℕ} {q : ℕ} {ks ls : List ℕ}
    → y ≡ some q
    → y ≡ x
    → ls ≡ ks
    → q ∷ ls ≡ opt_cons x ks
has_thread-killed {q = q} {ks = ks} e f k = ap (◌∷◌ q) k ∙ ap (λ y. opt_cons y ks) (sym e ∙ f)

has_none-killed :
    {x y : Option ℕ} {ks ls : List ℕ} → y ≡ none → y ≡ x → ls ≡ ks → ls ≡ opt_cons x ks
has_none-killed {ks = ks} e f k = k ∙ ap (λ y. opt_cons y ks) (sym e ∙ f)

run-Inv :
    {x c : Option ℕ} {ds ks : List ℕ} (wakes : Bool) (s : System)
    → Inv x c ds ks s
    → Inv x c ds ks (record s { race = take_turn s.race (of_worker wakes) })
run-Inv {c = c} {ds = ds} wakes s h =
    let (thread, stopper, destroyed) = worker_keeps wakes s.race in
    let runnable = ap (λ (t : HttpThread). t.runnable_thread) thread in
    record {
      handle = runnable ∙ h.handle;
      untested = h.untested;
      tested = h.tested;
      ended = worker-Ended wakes c ds s.race h.ended;
      waited = λ p. returned_stays wakes s.race (h.waited p);
      stopped = λ p. destroyed ∙ h.stopped p;
      kept = h.kept;
      threaded = λ k none_left. h.threaded k (sym runnable ∙ none_left);
      alone = λ none_left.
          let (w, d) = h.alone (sym runnable ∙ none_left) in
          (returned_stays wakes s.race w, destroyed ∙ d);
    }

stop-Inv :
    {x c : Option ℕ} {ds ks : List ℕ} (s : System)
    → s.main ≡ killing
    → Inv x c ds ks s
    → Inv x c ds ks (record s { race = take_turn s.race of_stopper })
stop-Inv {c = c} {ds = ds} s k h =
    let (worker, runnable) = stopper_keeps s.race in
    record {
      handle = runnable ∙ h.handle;
      untested = h.untested;
      tested = h.tested;
      ended = stopper-Ended c ds s.race h.ended;
      waited = λ p. worker ∙ h.waited p;
      stopped = λ p. absurd (cc);
      kept = h.kept;
      threaded = λ k none_left. h.threaded k (sym runnable ∙ none_left);
      alone = λ none_left. absurd (h.threaded k (sym runnable ∙ none_left));
    }

pub Step-Inv :
    {x c : Option ℕ} {ds ks : List ℕ} {s t : System} → Step s t → Inv x c ds ks s → Inv x c ds ks t
Step-Inv {s = s} (run wakes free) h = run-Inv wakes s h
Step-Inv (has_thread m r) h = record {
  handle = h.handle;
  untested = λ b. absurd (cc);
  tested = λ b. has_thread-killed r h.handle (h.untested (ap past_test m));
  ended = h.ended;
  waited = λ p. absurd cc;
  stopped = λ p. absurd cc;
  kept = λ f. ground (arith, h.kept f);
  threaded = λ k n. ground (arith, r, n);
  alone = h.alone;
}
Step-Inv (has_none m n) h = record {
  handle = h.handle;
  untested = λ b. absurd (cc);
  tested = λ b. has_none-killed n h.handle (h.untested (ap past_test m));
  ended = h.ended;
  waited = λ p. (h.alone n).0;
  stopped = λ p. (h.alone n).1;
  kept = λ f. refl;
  threaded = λ k. absurd cc;
  alone = h.alone;
}
Step-Inv {s = s} (stop_turn m p) h = stop-Inv s m h
Step-Inv {c = c} {ds = ds} {s = s} (stop_done m p) h = record {
  handle = h.handle;
  untested = λ b. absurd (cc);
  tested = λ b. h.tested (ap past_test m);
  ended = h.ended;
  waited = λ p. absurd cc;
  stopped = λ q. finished-Ended c ds s.race p h.ended;
  kept = λ f. ground (arith, h.kept f);
  threaded = λ k. absurd cc;
  alone = h.alone;
}
Step-Inv (joined m w) h = record {
  handle = h.handle;
  untested = λ b. absurd (cc);
  tested = λ b. h.tested (ap past_test m);
  ended = h.ended;
  waited = λ p. w;
  stopped = λ q. ground (arith, h.stopped);
  kept = λ f. refl;
  threaded = λ k. absurd cc;
  alone = h.alone;
}
Step-Inv (runnable_deleted m) h = record {
  handle = h.handle;
  untested = λ b. absurd (cc);
  tested = λ b. h.tested (ap past_test m);
  ended = h.ended;
  waited = λ p. ground (arith, h.waited);
  stopped = λ q. ground (arith, h.stopped);
  kept = λ f. refl;
  threaded = λ k. absurd cc;
  alone = h.alone;
}
Step-Inv (memory_freed m) h = record {
  handle = h.handle;
  untested = λ b. absurd (cc);
  tested = λ b. h.tested (ap past_test m);
  ended = h.ended;
  waited = λ p. ground (arith, h.waited);
  stopped = λ q. ground (arith, h.stopped);
  kept = λ f. refl;
  threaded = λ k. absurd cc;
  alone = h.alone;
}
