-- ===== src/Examples/Servers.antt =====
-- The sample server actor: starts, stops and sessions; and the plugin's module.
use ff_http_lws.Thread.Race.{calling, in_service}
use ff_http_lws.Thread.Race.Serves.{run_for}
use ff_http_lws.Server.Serving.{start_serves}
use ff_http_lws.Base.{
  ◌+◌, ◌≤◌, zero, suc, Bool, arith, List, map, replicate, ℕ, ◌≡◌, refl, true, false, none, some, [],
  ◌∷◌, ◌++◌, codes, ◌==◌,
}
use ff_http_lws.Engine.Map.{find}
use ff_http_lws.Thread.{HttpThread, construct, init, stop, toggle}
use ff_http_lws.Thread.Race.{of_worker, schedule}
use ff_http_lws.Thread.Race.Idle.{is_spinning, at_start}
use ff_http_lws.Server.NoContext.{start_without_context}
use ff_http_lws.Server.{
  Environment, Game, Outcome, ok, launch, http_server_start, http_server_stop, http_server_toggle,
  destroy_thread, begin_play,
}
use ff_http_lws.Server.Protocol.{on_begin_play, call_start, call_stop, call_toggle, answer, Call}
use ff_http_lws.Server.Changes.{after_calls}
use ff_http_lws.Server.Accounts.{occurs, held, made}
use ff_http_lws.Server.Accounts.Balance.{after_calls-balance}
use ff_http_lws.Plugin.{Platform}
use ff_http_lws.Examples.Sample.Calls.{settings, environment, fresh_game}

-- Every second turn an event has come.
abbrev every_second : ℕ → Bool
every_second zero = false
every_second (suc zero) = true
every_second (suc (suc n)) = every_second n

every_second_returns : (n : ℕ) → (d : ℕ) × (every_second (n + d) ≡ true)
every_second_returns zero = (1, refl)
every_second_returns (suc zero) = (0, refl)
every_second_returns (suc (suc n)) =
    let (d, e) = every_second_returns n in
    let z : suc (suc n) + d ≡ suc (suc (n + d)) = omega arith in (d, rw z e)

start_serves_example :
    let (done, g') = http_server_start environment fresh_game in
    (done ≡ true)
    × (t : HttpThread) × (c : ℕ) × (find ◌==◌ 5 g'.live ≡ some t)
    × (t.context ≡ some c)
    × (m : ℕ) × (100 ≤ m)
    × ((run_for every_second 0 m (at_start t)).worker ≡ calling)
    × ((run_for every_second 0 (m + 1) (at_start t)).worker ≡ in_service (some c))
start_serves_example =
    start_serves environment fresh_game 6 refl (λ info. (λ e. cc)) every_second refl
      every_second_returns 100

abbrev pub game_of : Outcome Game → Game
game_of (ok g) = g
game_of _ = fresh_game

-- A session that ends, and a second one that is paused.
abbrev pub some_calls : List Call
some_calls =
    on_begin_play
    ∷ call_toggle true
    ∷ call_toggle false
    ∷ call_stop
    ∷ call_start
    ∷ call_toggle true
    ∷ []

abbrev pub after_some_calls : Game
after_some_calls = game_of (after_calls environment some_calls fresh_game)

pub some_calls_return : after_calls environment some_calls fresh_game ≡ ok after_some_calls
unfolding after_calls answer begin_play http_server_start http_server_stop http_server_toggle
    destroy_thread launch construct init stop toggle
some_calls_return = refl

after_calls-balance_example :
    (after_some_calls.next ≡ 2 + 5)
    × ((r : ℕ)
        → occurs r (held (λ t. t.runnable_thread) after_some_calls.live)
            + occurs r after_some_calls.killed
          ≡ occurs r (made environment settings (λ t. t.runnable_thread) 5 2) + (0 + 0))
    × ((c : ℕ)
        → occurs c (held (λ t. t.context) after_some_calls.live)
            + occurs c after_some_calls.contexts_destroyed
          ≡ occurs c (made environment settings (λ t. t.context) 5 2) + (0 + 0))
after_calls-balance_example =
    after_calls-balance environment some_calls fresh_game after_some_calls
      (record { heap = tt; whole = tt }) some_calls_return

-- Two starts, a stop of the second thread object, and a third start.
abbrev after_third_start : Game
after_third_start = game_of (
    after_calls environment (call_stop ∷ call_start ∷ [])
      (http_server_start environment (http_server_start environment fresh_game).1).1)

third_start_returns :
    after_calls environment
      (call_stop ∷ call_start ∷ [])
      (http_server_start environment (http_server_start environment fresh_game).1).1
    ≡ ok after_third_start
unfolding after_calls answer begin_play http_server_start http_server_stop destroy_thread launch
    construct init stop
third_start_returns = refl

-- The port is taken.
abbrev refusing : Environment
refusing = record environment { create_context = λ info. none }

start_without_context_example :
    let (done, g') = http_server_start refusing fresh_game in
    (done ≡ true)
    × (t : HttpThread) × (find ◌==◌ 5 g'.live ≡ some t)
    × (t.context ≡ none)
    × (is_spinning (schedule (at_start t) (map of_worker (replicate 100 true))).worker ≡ true)
start_without_context_example =
    start_without_context refusing fresh_game 6 (replicate 100 true) refl (λ info. refl) refl

abbrev platform : Platform
platform = record {
  base_plugin_dir = codes "C:/Plugin";
  combine = λ a b. a ++ codes "/" ++ b;
  get_dll_handle = λ path. some 3;
  get_last_error = 0;
}
