-- ===== src/Server/Protocol.antt =====
-- The actor against a machine of four phases: which sequences of calls are safe, and what they
-- return.
pub mod Refines
use ff_http_lws.Base.{
  suc, ◌≡◌, Bool, true, false, not, ◌&&◌, Option, none, some, List, [], ◌∷◌, ◌==◌, ℕ, is_empty,
  if◌then◌else◌,
}
use ff_http_lws.Engine.Map.{find}
use ff_http_lws.Thread.{ServerSettings, HttpThread}
use ff_http_lws.Server.Heap.{IsHeap}
use ff_http_lws.Server.{
  Environment, Game, Outcome, ok, undefined_behaviour, never_returns, ◌>>=◌, is_stuck,
  http_server_start, http_server_stop, http_server_toggle, begin_play, end_play,
}

-- The calls that the engine and Blueprints make of the actor.
pub data Call : Type 0 where
  on_begin_play call_start call_stop on_end_play : Call
  call_toggle : Bool → Call

-- One call, with what it returns (true where it returns nothing).
unfoldable pub answer : Environment → Call → Game → Outcome (Bool × Game)
answer env on_begin_play g = ok (true, begin_play env g)
answer env call_start g = ok (http_server_start env g)
answer env (call_toggle is_pause) g = http_server_toggle is_pause g
answer env call_stop g = do g' ← http_server_stop env g; ok (true, g')
answer env on_end_play g = do g' ← end_play env g; ok (true, g')

-- What some calls return one after the other.
pub answers : Environment → List Call → Game → Outcome (List Bool)
unfolding answer
answers env [] g = ok []
answers env (c ∷ cs) g = do r ← answer env c g; bs ← answers env cs r.1; ok (r.0 ∷ bs)

-- The pointer of the actor is null, points to a live object that is not paused, with a thread or
-- without one, to one whose thread is paused, or to a dead one.
pub data Phase : Type 0 where
  unset paused dangling : Phase
  running : Bool → Phase

abbrev pub is_some : Option ℕ → Bool
is_some none = false
is_some (some n) = true

-- Whether the server has a name, and whether the engine gives a thread to the object at an address.
abbrev pub has_name : ServerSettings → Bool
has_name s = not (is_empty s.server_name)

abbrev pub has_thread : Environment → ServerSettings → ℕ → Bool
has_thread env s a = is_some (env.create_thread a s.server_name)

-- The machine: its phase, with the number of the next object. `named` tells whether the server has a
-- name, `created` which objects get a thread.
abbrev pub Machine : Type 0
Machine = ℕ × Phase

module _ (named : Bool) (created : ℕ → Bool) where
  abbrev pub started_from : Machine → Machine
  started_from (n, p) = if named then (suc n, running (created n)) else (n, p)

  abbrev pub stopped_from : Machine → Outcome (Bool × Machine)
  stopped_from (n, unset) = ok (true, (n, unset))
  stopped_from (n, running with_thread) = ok (true, (n, dangling))
  stopped_from (n, paused) = never_returns
  stopped_from (n, dangling) = undefined_behaviour

  abbrev pub toggled_to : Bool → Bool → Phase
  toggled_to true true = paused
  toggled_to with_thread is_pause = running with_thread

  abbrev pub expect : Call → Machine → Outcome (Bool × Machine)
  expect on_begin_play m = ok (true, started_from m)
  expect call_start m = ok (named, started_from m)
  expect call_stop m = stopped_from m
  expect on_end_play m = stopped_from m
  expect (call_toggle is_pause) (n, unset) = ok (false, (n, unset))
  expect (call_toggle is_pause) (n, running with_thread) =
      ok (with_thread, (n, toggled_to with_thread is_pause))
  expect (call_toggle is_pause) (n, paused) = ok (true, (n, toggled_to true is_pause))
  expect (call_toggle is_pause) (n, dangling) = undefined_behaviour

  abbrev pub expects : List Call → Machine → Outcome (List Bool)
  expects [] m = ok []
  expects (c ∷ cs) m = do r ← expect c m; bs ← expects cs r.1; ok (r.0 ∷ bs)

-- The pointer is to a live object, which has a thread or not, paused or not.
abbrev pub PointsLive : Environment → Bool → Bool → Game → Type 0
PointsLive env with_thread stuck g =
    (a : ℕ) × (t : HttpThread) × (g.thread ≡ some a)
    × (find ◌==◌ a g.live ≡ some t)
    × (is_some t.runnable_thread ≡ with_thread)
    × (is_stuck env t g ≡ stuck)

-- Where the pointer of the actor stands.
abbrev pub Points : Environment → Phase → Game → Type 0
Points env unset g = g.thread ≡ none
Points env (running with_thread) g = PointsLive env with_thread false g
Points env paused g = PointsLive env true true g
Points env dangling g = (a : ℕ) × (g.thread ≡ some a) × (find ◌==◌ a g.live ≡ none)

pub record Stands (env : Environment) (s : ServerSettings) (m : Machine) (g : Game) : Type 0 where
  pub settings : g.settings ≡ s
  pub next : g.next ≡ m.0
  pub heap : IsHeap g
  pub points : Points env m.1 g
