-- ===== src/Server/Shutdown/Paused.antt =====
-- The destructor of an object whose thread is paused.
use ff_http_lws.Base.{ℕ, ◌≡◌, ◌≢◌, refl, sym, ◌∙◌, Bool, true, false, Option, none, arith}
use ff_http_lws.Thread.Race.{Sys, Worker, returned}
use ff_http_lws.Thread.Race.Turns.{stopper_keeps}
use ff_http_lws.Server.{Environment, Game, is_stuck}
use ff_http_lws.Server.Shutdown.{
  Main, deleting, killing, waiting, System, Step, run, has_thread, has_none, stop_turn, stop_done,
  joined, runnable_deleted, memory_freed, Reach, here, later, begin, begin_inside,
}

-- The destructor has not come behind its wait.
abbrev before_end : Main → Bool
before_end deleting = true
before_end killing = true
before_end waiting = true
before_end _ = false

record Held (x : Option ℕ) (w : Worker) (s : System) : Type 0 where
  paused : s.paused ≡ true
  handle : s.race.thread.runnable_thread ≡ x
  worker : s.race.worker ≡ w
  before : before_end s.main ≡ true
  unfreed : s.freed ≡ false

Step-Held :
    {x : Option ℕ} {w : Worker} {s t : System}
    → x ≢ none
    → w ≢ returned
    → Step s t
    → Held x w s
    → Held x w t
Step-Held x w (run wakes free) h = absurd (ground (arith, free, h.paused))
Step-Held x w (has_thread m r) h = record {
  paused = h.paused;
  handle = h.handle;
  worker = h.worker;
  before = refl;
  unfreed = h.unfreed;
}
Step-Held x w (has_none m n) h = absurd (x (sym h.handle ∙ n))
Step-Held {s = s} x w (stop_turn m p) h =
    let (worker, runnable) = stopper_keeps s.race in
    record {
      paused = h.paused;
      handle = runnable ∙ h.handle;
      worker = worker ∙ h.worker;
      before = h.before;
      unfreed = h.unfreed;
    }
Step-Held x w (stop_done m p) h = record {
  paused = h.paused;
  handle = h.handle;
  worker = h.worker;
  before = refl;
  unfreed = h.unfreed;
}
Step-Held x w (joined m e) h = absurd (w (sym h.worker ∙ e))
Step-Held x w (runnable_deleted m) h = absurd (ground (arith, m, h.before))
Step-Held x w (memory_freed m) h = absurd (ground (arith, m, h.before))

-- The thread gets no turns, and Run has not returned.
pub record NeverEnds (s : System) : Type 0 where
  handle : Option ℕ
  worker : Worker
  has : handle ≢ none
  going : worker ≢ returned
  held : Held handle worker s

pub Step-NeverEnds : {s t : System} → Step s t → NeverEnds s → NeverEnds t
Step-NeverEnds step n = record {
  handle = n.handle;
  worker = n.worker;
  has = n.has;
  going = n.going;
  held = Step-Held n.has n.going step n.held;
}

pub NeverEnds-unfreed : {s : System} → NeverEnds s → s.freed ≡ false
NeverEnds-unfreed n = n.held.unfreed

pub begin_inside-NeverEnds :
    (env : Environment) (g : Game) (r : Sys)
    → r.thread.runnable_thread ≢ none
    → r.worker ≢ returned
    → NeverEnds (begin_inside env g r)
begin_inside-NeverEnds env g r has going = record {
  handle = r.thread.runnable_thread;
  worker = r.worker;
  has = has;
  going = going;
  held = record { paused = refl; handle = refl; worker = refl; before = refl; unfreed = refl };
}

pub Reach-NeverEnds : {s t : System} → Reach s t → NeverEnds s → NeverEnds t
Reach-NeverEnds here n = n
Reach-NeverEnds (later reached step) n = Step-NeverEnds step (Reach-NeverEnds reached n)

Reach-Held :
    {x : Option ℕ} {w : Worker} {s t : System}
    → x ≢ none
    → w ≢ returned
    → Held x w s
    → Reach s t
    → Held x w t
Reach-Held x w h here = h
Reach-Held x w h (later reached step) = Step-Held x w step (Reach-Held x w h reached)

-- The destructor of an object whose thread is paused before Run has returned never ends: in every
-- state that the two threads reach, the memory is not given back and Run stands where it stood.
pub paused_never_freed :
    (env : Environment) (g : Game) (r : Sys) {s : System}
    → is_stuck env r.thread g ≡ true
    → r.worker ≢ returned
    → Reach (begin env g r) s
    → (s.freed ≡ false) × (s.race.worker ≡ r.worker)
paused_never_freed env g r {s} stuck w reached =
    let has : r.thread.runnable_thread ≢ none = λ n. ground (arith, n, stuck) in
    let h =
      Reach-Held {x = r.thread.runnable_thread} {w = r.worker} has w
        (record { paused = stuck; handle = refl; worker = refl; before = refl; unfreed = refl })
        reached in
    (h.unfreed, h.worker)
