-- ===== src/Server/Shutdown.antt =====
-- HTTP_Server_Stop on the game thread while Run is on its own: the destructor of the thread object
-- statement by statement, with `Kill(true)`, which has Stop run and then waits for Run to return
-- (the engine's), between the turns of Run.
pub mod Invariant
pub mod Safety
pub mod Faults
pub mod Moves
pub mod Ends
pub mod Paused
use ff_http_lws.Base.{ℕ, ◌≡◌, ◌≢◌, Bool, true, false, Option, none, some, List, [], ◌∷◌}
use ff_http_lws.Thread.{HttpThread}
use ff_http_lws.Server.{Environment, Game, is_stuck}
use ff_http_lws.Thread.Race.{
  Sys, Worker, returned, Stopper, guarding, finished, Turn, of_worker, of_stopper, take_turn,
}

-- Where the destructor stands: at the test of `RunnableThread`; inside `Kill(true)`, in Stop and then
-- in the wait; at `delete RunnableThread`; at its end, where the memory is given back; behind it.
pub data Main : Type 0 where
  deleting killing waiting deleting_runnable freeing gone : Main

pub record System : Type 0 where
  pub race : Sys
  pub main : Main
  -- whether the server's thread is paused
  pub paused : Bool
  -- the calls of `Kill(true)`
  pub killed : List ℕ
  -- whether the memory of the thread object is given back
  pub freed : Bool

-- One step of either thread.
pub data Step (s : System) : System → Type 0 where
  -- the server's thread has a turn, unless it is paused; if it is inside `lws_service`, the call
  -- returns in this turn or it does not
  run :
      (wakes : Bool)
      → s.paused ≡ false
      → Step s (record s { race = take_turn s.race (of_worker wakes) })
  -- `if (this->RunnableThread)`
  has_thread :
      {r : ℕ}
      → s.main ≡ deleting
      → s.race.thread.runnable_thread ≡ some r
      → Step s (record s { main = killing; killed = r ∷ s.killed })
  has_none :
      s.main ≡ deleting
      → s.race.thread.runnable_thread ≡ none
      → Step s (record s { main = freeing })
  -- a statement of Stop
  stop_turn :
      s.main ≡ killing
      → s.race.stopper ≢ finished
      → Step s (record s { race = take_turn s.race of_stopper })
  stop_done : s.main ≡ killing → s.race.stopper ≡ finished → Step s (record s { main = waiting })
  -- the wait ends once Run has returned
  joined :
      s.main ≡ waiting → s.race.worker ≡ returned → Step s (record s { main = deleting_runnable })
  runnable_deleted : s.main ≡ deleting_runnable → Step s (record s { main = freeing })
  memory_freed : s.main ≡ freeing → Step s (record s { main = gone; freed = true })

pub data Reach (s : System) : System → Type 0 where
  here : Reach s s
  later : {t u : System} → Reach s t → Step t u → Reach s u

-- The destructor is about to begin on this thread object, with Run wherever it is.
abbrev pub begin : Environment → Game → Sys → System
begin env g r = record {
  race = record r { stopper = guarding };
  main = deleting;
  paused = is_stuck env r.thread g;
  killed = g.killed;
  freed = false;
}

-- The same where a handler, which Run executes inside `lws_service`, is what destroys the object of Run:
-- the thread of Run is busy with the destructor, and gets no turn before it is through.
abbrev pub begin_inside : Environment → Game → Sys → System
begin_inside env g r = record (begin env g r) { paused = true }

-- `if (this->RunnableThread)`, then the call of `Kill(true)`.
abbrev pub test_turn : Option ℕ → System → System
test_turn none s = record s { main = freeing }
test_turn (some r) s = record s { main = killing; killed = r ∷ s.killed }

pub kill_turn : Stopper → System → System
kill_turn finished s = record s { main = waiting }
kill_turn _ s = record s { race = take_turn s.race of_stopper }

pub join_turn : Worker → System → System
join_turn returned s = record s { main = deleting_runnable }
join_turn _ s = s

-- The next step of the game thread; in the wait it stays where it is until Run has returned.
pub game_turn : Main → System → System
unfolding kill_turn join_turn
game_turn deleting s = test_turn s.race.thread.runnable_thread s
game_turn killing s = kill_turn s.race.stopper s
game_turn waiting s = join_turn s.race.worker s
game_turn deleting_runnable s = record s { main = freeing }
game_turn freeing s = record s { main = gone; freed = true }
game_turn gone s = s

abbrev pub run_turn : Bool → Bool → System → System
run_turn wakes true s = s
run_turn wakes false s = record s { race = take_turn s.race (of_worker wakes) }

unfoldable pub turn : System → Turn → System
unfolding game_turn
turn s (of_worker wakes) = run_turn wakes s.paused s
turn s of_stopper = game_turn s.main s

-- An interleaving of the two threads.
unfoldable pub play : System → List Turn → System
play s [] = s
play s (t ∷ ts) = play (turn s t) ts
