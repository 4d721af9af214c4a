-- ===== src/Server/Shutdown/Safety.antt =====
-- The thread object lives as long as Run does, and its context is destroyed once.
use ff_http_lws.Base.{◌≡◌, refl, sym, ◌∙◌, ap, true, none, opt_cons}
use ff_http_lws.Thread.Race.{Sys, returned}
use ff_http_lws.Server.{Environment, Game, destroy_thread}
use ff_http_lws.Server.Shutdown.{System, Reach, here, later, begin}
use ff_http_lws.Server.Lifetime.{destroy_thread_lem}
use ff_http_lws.Server.Shutdown.Invariant.{past_wait-past_stop, past_wait-past_test, Inv, Step-Inv}

-- The destructor begins with a thread on which Run stands anywhere, or with no thread and so no
-- context.
abbrev pub IsWhole : Sys → Type 0
IsWhole r = r.thread.runnable_thread ≡ none → (r.worker ≡ returned) × (r.thread.context ≡ none)

begin-Inv :
    (env : Environment) (g : Game) (r : Sys)
    → IsWhole r
    → Inv r.thread.runnable_thread r.thread.context r.destroyed g.killed (begin env g r)
begin-Inv env g r h = record {
  handle = refl;
  untested = λ b. refl;
  tested = λ b. absurd (cc);
  ended = (refl, refl);
  waited = λ p. absurd cc;
  stopped = λ p. absurd cc;
  kept = λ f. absurd cc;
  threaded = λ k. absurd cc;
  alone = λ n. let (w, c) = h n in (w, ap (λ x. opt_cons x r.destroyed) (sym c));
}

Reach-Inv :
    (env : Environment) (g : Game) (r : Sys) {s : System}
    → IsWhole r
    → Reach (begin env g r) s
    → Inv r.thread.runnable_thread r.thread.context r.destroyed g.killed s
Reach-Inv env g r h here = begin-Inv env g r h
Reach-Inv env g r h (later reached step) = Step-Inv step (Reach-Inv env g r h reached)

-- The destructor waits long enough, and does no more and no less than the one step that the actor
-- takes it for: in every state that the two threads reach from its beginning, wherever Run stood,
-- once the memory of the thread object is given back Run has returned, and exactly the threads are
-- killed and the contexts destroyed that are with that step. (A thread object without a thread is
-- taken to have no Run and no context.)
pub destroy_thread_refines :
    (env : Environment) (g : Game) (r : Sys) {s : System}
    → IsWhole r
    → r.destroyed ≡ g.contexts_destroyed
    → Reach (begin env g r) s
    → s.freed ≡ true
    → (s.race.worker ≡ returned)
      × (s.killed ≡ (destroy_thread r.thread g).killed)
      × (s.race.destroyed ≡ (destroy_thread r.thread g).contexts_destroyed)
destroy_thread_refines env g r {s} h same reached freed =
    let i = Reach-Inv env g r h reached in
    let past = i.kept freed in
    let (_, _, killed, destroyed) = destroy_thread_lem r.thread g (λ n. (h n).1) in
    (
      i.waited past,
      i.tested (past_wait-past_test s.main past) ∙ sym killed,
      i.stopped (past_wait-past_stop s.main past)
          ∙ ap (opt_cons r.thread.context) same
          ∙ sym destroyed,
    )
