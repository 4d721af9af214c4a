-- ===== src/Server/Shutdown/Ends.antt =====
-- A destructor that finds Run at the test of its loop, or returned.
use ff_http_lws.Base.{
  ℕ, ◌≡◌, refl, sym, subst, Bool, true, false, Option, none, some, List, ◌∷◌, ◌++◌, replicate,
}
use ff_http_lws.Thread.Race.{
  Sys, Worker, looping, returned, guarding, Turn, of_worker, of_stopper, take_turn,
}
use ff_http_lws.Server.{Environment, Game, is_stuck}
use ff_http_lws.Server.Shutdown.{
  deleting, System, begin, play, turn, game_turn, kill_turn, join_turn,
}

-- Run is at the test of its loop, or has returned.
abbrev pub is_resting : Worker → Bool
is_resting looping = true
is_resting returned = true
is_resting _ = false

-- The game thread until it waits, one turn of Run, and the rest of the destructor.
abbrev pub last_turns : List Turn
last_turns = replicate 8 of_stopper ++ of_worker false ∷ replicate 3 of_stopper

abbrev pub Ended : System → Type 0
Ended s = let s' = play s last_turns in (s'.freed ≡ true) × (is_resting s'.race.worker ≡ true)

module _ (env : Environment) (g : Game) (r : Sys) where
  -- The beginning, by the handle of the thread, whether it is paused, Run and the context.
  abbrev beginning : Option ℕ → Bool → Worker → Option ℕ → System
  beginning handle paused p context = record {
    race = record {
      thread = record r.thread { runnable_thread = handle; context = context };
      worker = p;
      stopper = guarding;
      destroyed = r.destroyed;
    };
    main = deleting;
    paused = paused;
    killed = g.killed;
    freed = false;
  }

  beginning-Ended :
      (x : ℕ) (p : Worker) (context : Option ℕ)
      → is_resting p ≡ true
      → Ended (beginning (some x) false p context)
  unfolding play turn game_turn kill_turn join_turn take_turn
  beginning-Ended x looping none rest = (refl, refl)
  beginning-Ended x looping (some c) rest = (refl, refl)
  beginning-Ended x returned none rest = (refl, refl)
  beginning-Ended x returned (some c) rest = (refl, refl)
  beginning-Ended x _ context rest = absurd (cc)

  -- The destructor of an object with a thread, not paused, ends in these turns from a resting Run.
  pub threaded_ends :
      (x : ℕ)
      → r.thread.runnable_thread ≡ some x
      → is_stuck env r.thread g ≡ false
      → is_resting r.worker ≡ true
      → Ended (begin env g r)
  threaded_ends x set free rest =
      subst (λ y. Ended (beginning y (is_stuck env r.thread g) r.worker r.thread.context)) (sym set)
        (subst (λ b. Ended (beginning (some x) b r.worker r.thread.context)) (sym free)
          (beginning-Ended x r.worker r.thread.context rest))
