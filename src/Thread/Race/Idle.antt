-- ===== src/Thread/Race/Idle.antt =====
-- Run without a context.
use ff_http_lws.Base.{◌≡◌, refl, Bool, true, false, none, List, [], ◌∷◌, map}
use ff_http_lws.Thread.{HttpThread}
use ff_http_lws.Thread.Race.{
  Sys, Worker, looping, testing, guarding, of_worker, take_turn, schedule, worker_turn,
}

-- Run goes round its loop and is not in `lws_service`.
abbrev pub is_spinning : Worker → Bool
is_spinning looping = true
is_spinning testing = true
is_spinning _ = false

-- A system in which Run begins, and Stop has not begun.
abbrev pub at_start : HttpThread → Sys
at_start t = record { thread = t; worker = looping; stopper = guarding; destroyed = [] }

-- The worker spins, with no context to find.
record IsIdle (s : Sys) : Type 0 where
  no_context : s.thread.context ≡ none
  started : s.thread.start_thread ≡ true
  spinning : is_spinning s.worker ≡ true

worker-IsIdle : (wakes : Bool) (s : Sys) → IsIdle s → IsIdle (take_turn s (of_worker wakes))
unfolding take_turn
worker-IsIdle wakes s h = go s.worker h.spinning
  where
    go : (w : Worker) → is_spinning w ≡ true → IsIdle (worker_turn wakes w s)
    go looping e = record {
      no_context = h.no_context;
      started = h.started;
      spinning = rw h.started refl;
    }
    go testing e = record {
      no_context = h.no_context;
      started = h.started;
      spinning = rw h.no_context refl;
    }
    go _ e = absurd cc

idle :
    (s : Sys) (ws : List Bool)
    → IsIdle s
    → is_spinning (schedule s (map of_worker ws)).worker ≡ true
unfolding schedule
idle s [] h = h.spinning
idle s (wakes ∷ ws) h = idle (take_turn s (of_worker wakes)) ws (worker-IsIdle wakes s h)

-- With the flag set and no context, Run neither serves nor returns, whatever turns it has.
pub spins :
    (t : HttpThread) (ws : List Bool)
    → t.context ≡ none
    → t.start_thread ≡ true
    → is_spinning (schedule (at_start t) (map of_worker ws)).worker ≡ true
spins t ws none_there set =
    idle (at_start t) ws (record { no_context = none_there; started = set; spinning = refl })
