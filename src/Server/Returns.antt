-- ===== src/Server/Returns.antt =====
-- What a start without a name, a stop and a toggle return, by what the actor points to.
use ff_http_lws.Base.{
  ℕ, ◌≡◌, refl, Bool, true, false, Option, none, some, ◌∷◌, is_empty, ◌==◌, Option-cases, inl, inr,
  arith,
}
use ff_http_lws.Engine.Map.{TMap, find}
use ff_http_lws.Thread.{HttpThread, toggle}
use ff_http_lws.Server.Protocol.{is_some}
use ff_http_lws.Server.{
  Environment, Game, ok, suspend_called, http_server_start, destroy_thread, http_server_stop,
  http_server_toggle,
}

pub null_stop : (env : Environment) (g : Game) → g.thread ≡ none → http_server_stop env g ≡ ok g
unfolding http_server_stop
null_stop env g null = ground arith

pub null_toggle :
    (g : Game) (is_pause : Bool) → g.thread ≡ none → http_server_toggle is_pause g ≡ ok (false, g)
unfolding http_server_toggle
null_toggle g is_pause null = ground arith

pub start_unnamed :
    (env : Environment) (g : Game)
    → is_empty g.settings.server_name ≡ true
    → http_server_start env g ≡ (false, g)
unfolding http_server_start
start_unnamed env g unnamed = rw unnamed

pub destroy_thread-settings :
    (t : HttpThread) (g : Game) → (destroy_thread t g).settings ≡ g.settings
unfolding destroy_thread
destroy_thread-settings t g = ground arith

-- The game once a toggle has told the engine.
abbrev pub suspended_by : Option ℕ → Bool → Game → Game
suspended_by none is_pause g = g
suspended_by (some r) is_pause g = record g {
  thread_calls = suspend_called r is_pause ∷ g.thread_calls;
}

pub toggle_value :
    (g : Game) (a : ℕ) (t : HttpThread) (is_pause : Bool)
    → g.thread ≡ some a
    → find ◌==◌ a g.live ≡ some t
    → http_server_toggle is_pause g
      ≡ ok (is_some t.runnable_thread, suspended_by t.runnable_thread is_pause g)
unfolding http_server_toggle toggle
toggle_value g a t is_pause pointed alive = ground arith

-- The destructor changes nothing of the game but what it ends.
pub destroy_thread_rest :
    (t : HttpThread) (g : Game) (live : TMap ℕ HttpThread)
    → record g {
      live = live;
      killed = (destroy_thread t g).killed;
      contexts_destroyed = (destroy_thread t g).contexts_destroyed;
    }
      ≡ record (destroy_thread t g) { live = live }
unfolding destroy_thread
destroy_thread_rest t g live = elim (Option-cases t.runnable_thread) [
  | inl unset ↦ rw unset refl
  | inr (r, set) ↦ rw set refl
]
