-- ===== src/Examples/Shutdowns.antt =====
-- The destruction of the sample thread object beside Run.
use ff_http_lws.Base.{◌≡◌, refl, true, false, none, some, [], ◌∷◌}
use ff_http_lws.Thread.{construct, http_start, stop}
use ff_http_lws.Thread.Race.{Sys, looping, is_destroyed, in_service, returned, finished}
use ff_http_lws.Server.{Game, suspend_called}
use ff_http_lws.Server.Shutdown.{System, gone, Reach, begin}
use ff_http_lws.Server.Shutdown.Faults.{running_faults}
use ff_http_lws.Examples.Sample.Calls.{fresh_game, environment}
use ff_http_lws.Examples.Threads.{serving}

-- Run is at the head of its loop.
abbrev at_loop : Sys
at_loop = record serving { worker = looping }

abbrev at_end : System
at_end = record {
  race = record {
    thread = (stop at_loop.thread).0;
    worker = returned;
    stopper = finished;
    destroyed = 9 ∷ [];
  };
  main = gone;
  paused = false;
  killed = 6 ∷ [];
  freed = true;
}

running_faults_example :
    ((s : System) × Reach (begin environment fresh_game at_loop) s
      × (s.freed ≡ false)
      × (s.race.worker ≡ in_service (some 9))
      × (is_destroyed 9 s.race.destroyed ≡ true))
    × ((s : System) × Reach (begin environment fresh_game at_loop) s
        × (s.freed ≡ false)
        × (s.race.worker ≡ in_service none))
unfolding http_start construct
running_faults_example = running_faults environment fresh_game at_loop 6 9 refl refl refl refl refl

-- The game once the thread is paused.
abbrev paused_game : Game
paused_game = record fresh_game { thread_calls = suspend_called 6 true ∷ [] }
