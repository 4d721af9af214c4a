-- ===== src/Thread/Race/Refines.antt =====
-- The stopper on its own does what `Stop` does as one operation.
use ff_http_lws.Base.{opt_cons, ◌≡◌, replicate, arith}
use ff_http_lws.Thread.{stop}
use ff_http_lws.Thread.Race.{Sys, guarding, finished, of_stopper, take_turn, schedule}

-- Six turns of the stopper that nothing interrupts are the operation `Stop`: the same thread object,
-- the same context destroyed, and the worker where it was.
pub schedule-stop :
    (s : Sys)
    → s.stopper ≡ guarding
    → schedule s (replicate 6 of_stopper) ≡ record {
      thread = (stop s.thread).0;
      worker = s.worker;
      stopper = finished;
      destroyed = opt_cons (stop s.thread).1 s.destroyed;
    }
unfolding schedule take_turn stop
schedule-stop s start = ground arith
