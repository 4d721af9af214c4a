-- ===== src/Server/Shutdown/Faults.antt =====
-- What Kill(true) does not keep from happening: Stop comes before the wait.
use ff_http_lws.Base.{
  ℕ, ◌≡◌, true, false, none, some, List, [], ◌∷◌, ◌++◌, replicate, ==_refl, arith,
}
use ff_http_lws.Thread.Race.{
  Sys, looping, in_service, Turn, of_worker, of_stopper, take_turn, is_destroyed,
}
use ff_http_lws.Server.{Environment, Game, is_stuck}
use ff_http_lws.Server.Shutdown.{System, Reach, here, kill_turn, game_turn, turn, play, begin}
use ff_http_lws.Server.Shutdown.Moves.{play-Reach}

-- Run enters the service; the test, the guard, the destruction.
abbrev during : List Turn
during = replicate 3 (of_worker false) ++ replicate 3 of_stopper

-- Run tests the context; the game thread destroys and nulls it; Run calls.
abbrev after_test : List Turn
after_test = replicate 2 (of_worker false) ++ (replicate 4 of_stopper ++ of_worker false ∷ [])

-- The destructor of a thread object whose thread is running, not paused, with a shared context can reach two
-- states in which the worker uses the context wrongly, while the object is still there: inside
-- `lws_service` with the context that is destroyed, and inside it with a null pointer.
pub running_faults :
    (env : Environment) (g : Game) (r : Sys) (x c : ℕ)
    → r.thread.runnable_thread ≡ some x
    → is_stuck env r.thread g ≡ false
    → r.thread.start_thread ≡ true
    → r.thread.context ≡ some c
    → r.worker ≡ looping
    → ((s : System) × Reach (begin env g r) s
        × (s.freed ≡ false)
        × (s.race.worker ≡ in_service (some c))
        × (is_destroyed c s.race.destroyed ≡ true))
      × ((s : System) × Reach (begin env g r) s
          × (s.freed ≡ false)
          × (s.race.worker ≡ in_service none))
unfolding play turn game_turn kill_turn take_turn
running_faults env g r x c has free flag context start = (
  (
    play (begin env g r) during,
    play-Reach (begin env g r) during (begin env g r) here,
    ground (arith, ==_refl c),
    ground (arith, ==_refl c),
    ground (arith, ==_refl c),
  ),
  (
    play (begin env g r) after_test,
    play-Reach (begin env g r) after_test (begin env g r) here,
    ground arith,
    ground arith,
  ),
)
