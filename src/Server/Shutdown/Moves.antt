-- ===== src/Server/Shutdown/Moves.antt =====
-- Interleavings as sequences of steps.
use ff_http_lws.Base.{Bool, true, false, ℕ, ◌≡◌, refl, Option, none, some, List, [], ◌∷◌}
use ff_http_lws.Thread.Race.{Worker, returned, Stopper, finished, Turn, of_worker, of_stopper}
use ff_http_lws.Server.Shutdown.{
  Main, deleting, killing, waiting, deleting_runnable, freeing, gone, System, run, has_thread,
  has_none, stop_turn, stop_done, joined, runnable_deleted, memory_freed, Reach, later, kill_turn,
  join_turn, game_turn, turn, play, run_turn, test_turn,
}

module _ (s t : System) (r : Reach s t) where
  deleting-Reach :
      (x : Option ℕ)
      → t.main ≡ deleting
      → t.race.thread.runnable_thread ≡ x
      → Reach s (test_turn x t)
  deleting-Reach none e n = later r (has_none e n)
  deleting-Reach (some x) e n = later r (has_thread e n)

  killing-Reach : (p : Stopper) → t.main ≡ killing → t.race.stopper ≡ p → Reach s (kill_turn p t)
  unfolding kill_turn
  killing-Reach finished e f = later r (stop_done e f)
  killing-Reach _ e f = later r (stop_turn e (λ done. absurd cc))

  waiting-Reach : (w : Worker) → t.main ≡ waiting → t.race.worker ≡ w → Reach s (join_turn w t)
  unfolding join_turn
  waiting-Reach returned e f = later r (joined e f)
  waiting-Reach _ e f = r

  -- A turn of the game thread is a step, or a wait.
  game_turn-Reach : (m : Main) → t.main ≡ m → Reach s (game_turn m t)
  unfolding game_turn
  game_turn-Reach deleting e = deleting-Reach t.race.thread.runnable_thread e refl
  game_turn-Reach killing e = killing-Reach t.race.stopper e refl
  game_turn-Reach waiting e = waiting-Reach t.race.worker e refl
  game_turn-Reach deleting_runnable e = later r (runnable_deleted e)
  game_turn-Reach freeing e = later r (memory_freed e)
  game_turn-Reach gone e = r

  run_turn-Reach : (wakes b : Bool) → t.paused ≡ b → Reach s (run_turn wakes b t)
  run_turn-Reach wakes true e = r
  run_turn-Reach wakes false e = later r (run wakes e)

-- What an interleaving leads to is reached.
pub play-Reach : (s : System) (ts : List Turn) (t : System) → Reach s t → Reach s (play t ts)
unfolding play turn
play-Reach s [] t r = r
play-Reach s (of_worker wakes ∷ ts) t r =
    play-Reach s ts _ (run_turn-Reach s t r wakes t.paused refl)
play-Reach s (of_stopper ∷ ts) t r = play-Reach s ts _ (game_turn-Reach s t r t.main refl)
