-- ===== src/Server/World.antt =====
-- The whole server at run time: the calls of the actor on the game thread, and Run of every thread
-- object on its own thread, in any interleaving. A stop is taken apart into the statements of the
-- destructor, as in Shutdown.
pub mod Invariant
pub mod Turns
pub mod Quiet
pub mod Destroyed
pub mod Complete
pub mod Hangs
pub mod Owner
pub mod Refines
use ff_http_lws.Base.{
  ◌≡◌, Bool, true, false, not, Option, none, some, List, [], ◌∷◌, ◌++◌, ◌==◌, ℕ, is_empty,
  if◌then◌else◌,
}
use ff_http_lws.Engine.Map.{find, remove, contains_key}
use ff_http_lws.Thread.{HttpThread}
use ff_http_lws.Thread.Race.{
  Sys, Worker, looping, returned, in_service, guarding, of_worker, take_turn,
}
use ff_http_lws.Server.{Environment, Game, ok, is_stuck}
use ff_http_lws.Server.Protocol.{Call, on_begin_play, call_start, answer}
use ff_http_lws.Server.Changes.{enters, starts}
use ff_http_lws.Server.Shutdown.{System, begin, begin_inside, Step}

-- What the game thread does: nothing of the server's, or a call that runs the destructor of the
-- object at an address.
pub data Doing : Type 0 where
  idle : Doing
  destroying : Call → ℕ → System → Doing

-- Where Run of the object at an address stands, if it has a thread.
abbrev pub Runs : Type 0
Runs = ℕ → Option Worker

abbrev pub put : ℕ → Option Worker → Runs → Runs
put a p runs b = if a == b then p else runs b

pub record World : Type 0 where
  pub game : Game
  pub runs : Runs
  pub doing : Doing
  -- the calls that have returned, in order
  pub calls : List Call

-- One thread object with its Run, no Stop begun.
abbrev pub with_run : HttpThread → Worker → Game → Sys
with_run t p g = record {
  thread = t;
  worker = p;
  stopper = guarding;
  destroyed = g.contexts_destroyed;
}

abbrev pub worker_of : Option Worker → Worker
worker_of none = returned
worker_of (some p) = p

-- Where Run of a new thread object begins.
abbrev pub first_place : Option ℕ → Option Worker
first_place none = none
first_place (some r) = some looping

-- The Runs once a call that runs no destructor has returned.
abbrev pub began : Environment → Call → Game → Runs → Runs
began env c g runs =
    if starts g.settings c == 0
    then runs
    else put g.next (first_place (env.create_thread g.next g.settings.server_name)) runs

-- The game once the destructor of the object at an address is through.
abbrev pub destroyed_game : ℕ → System → Game → Game
destroyed_game a s g = record g {
  live = remove ◌==◌ a g.live;
  killed = s.killed;
  contexts_destroyed = s.race.destroyed;
}

-- The destructor runs on the object at this address.
abbrev pub is_destroying : ℕ → Doing → Bool
is_destroying b idle = false
is_destroying b (destroying c a s) = a == b

-- What may happen next. Calls come one at a time. A step `returns` does not say on which thread the
-- call is made: a handler that a Run executes inside `lws_service` may be the caller of a start or of
-- a toggle; `lws_service` then returns in a later turn, or not. What a handler does to a request is
-- the matter of EndToEnd.
pub data Happens (env : Environment) (w : World) : World → Type 0 where
  -- a turn of a Run whose thread is not paused and whose object is not being destroyed; if it is inside
  -- `lws_service`, the call returns in this turn or it does not
  run_goes_on :
      (wakes : Bool) (a : ℕ) (t : HttpThread) (p : Worker)
      → is_destroying a w.doing ≡ false
      → find ◌==◌ a w.game.live ≡ some t
      → w.runs a ≡ some p
      → is_stuck env t w.game ≡ false
      → Happens env w (record w {
        runs = put a (some (take_turn (with_run t p w.game) (of_worker wakes)).worker) w.runs;
      })
  -- a call that runs no destructor
  returns :
      (c : Call) (r : Bool × Game)
      → w.doing ≡ idle
      → enters c w.game ≡ none
      → answer env c w.game ≡ ok r
      → Happens env w
          (record w { game = r.1; runs = began env c w.game w.runs; calls = w.calls ++ c ∷ [] })
  -- a call that runs one, at its beginning
  enters_destructor :
      (c : Call) (a : ℕ) (t : HttpThread)
      → w.doing ≡ idle
      → enters c w.game ≡ some a
      → find ◌==◌ a w.game.live ≡ some t
      → Happens env w (record w {
        doing = destroying c a (begin env w.game (with_run t (worker_of (w.runs a)) w.game));
      })
  -- a call that runs one, made by a handler that the Run of the same object executes inside
  -- `lws_service`
  stops_itself :
      (c : Call) (a k : ℕ) (t : HttpThread)
      → w.doing ≡ idle
      → enters c w.game ≡ some a
      → find ◌==◌ a w.game.live ≡ some t
      → w.runs a ≡ some (in_service (some k))
      → Happens env w (record w {
        doing = destroying c a (begin_inside env w.game (with_run t (in_service (some k)) w.game));
      })
  -- a step of the destructor, or of the Run of its object
  destructor_step :
      (c : Call) (a : ℕ) (s s' : System)
      → w.doing ≡ destroying c a s
      → Step s s'
      → Happens env w (record w { doing = destroying c a s' })
  -- the call returns once the memory is given back
  leaves_destructor :
      (c : Call) (a : ℕ) (s : System)
      → w.doing ≡ destroying c a s
      → s.freed ≡ true
      → Happens env w (record w {
        game = destroyed_game a s w.game;
        runs = put a (some s.race.worker) w.runs;
        doing = idle;
        calls = w.calls ++ c ∷ [];
      })

pub data Reachable (env : Environment) (w : World) : World → Type 0 where
  at_once : Reachable env w w
  afterwards : {v u : World} → Reachable env w v → Happens env v u → Reachable env w u

-- Before the first call: no thread object, and so no Run.
abbrev pub world_of : Game → World
world_of g = record { game = g; runs = λ a. none; doing = idle; calls = [] }

-- Where Run of the object at an address stands: while the object is destroyed, the destructor's
-- state tells.
abbrev pub place : World → ℕ → Option Worker
place w b = elim w.doing [
  | idle ↦ w.runs b
  | destroying c a s ↦ if a == b then some s.race.worker else w.runs b
]

-- The object at an address has memory, which is not given back yet.
abbrev pub has_memory : World → ℕ → Bool
has_memory w b = elim w.doing [
  | idle ↦ contains_key ◌==◌ b w.game.live
  | destroying c a s ↦ if a == b then not s.freed else contains_key ◌==◌ b w.game.live
]
