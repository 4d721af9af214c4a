-- ===== src/Examples/Worlds.antt =====
-- The sample server at run time: its calls, its Run and its destructor interleaved.
use ff_http_lws.Base.{◌≡◌, ◌++◌, replicate, refl, true, false, none, some, [], ◌∷◌}
use ff_http_lws.Thread.{construct, init, toggle}
use ff_http_lws.Thread.Race.{
  in_service, looping, testing, calling, of_worker, of_stopper, take_turn,
}
use ff_http_lws.Server.{
  Game, launch, suspend_called, is_stuck, http_server_start, http_server_toggle,
}
use ff_http_lws.Server.Lifetime.{started, started_free, launch_runnable}
use ff_http_lws.Server.Protocol.{call_start, call_stop, call_toggle, answer}
use ff_http_lws.Server.Shutdown.{System, begin, begin_inside, here, play, turn}
use ff_http_lws.Server.Shutdown.Moves.{play-Reach}
use ff_http_lws.Server.World.{
  idle, destroying, World, Reachable, at_once, afterwards, returns, run_goes_on, enters_destructor,
  world_of, with_run, place, has_memory, put,
}
use ff_http_lws.Server.World.Refines.{run_has_memory}
use ff_http_lws.Server.World.Hangs.{world_hangs}
use ff_http_lws.Server.World.Complete.{Reach-Reachable, world_complete}
use ff_http_lws.Examples.Sample.Calls.{environment, environment-docs, fresh_game}
use ff_http_lws.Examples.Servers.{some_calls, some_calls_return, after_some_calls}

-- The server is started, Run takes a turn, and the stop has begun: Run has its second turn while
-- the context is destroyed.
abbrev pub running_game : Game
running_game = started environment fresh_game

abbrev in_destructor : System
in_destructor =
    play
      (begin environment running_game
        (with_run (launch environment fresh_game.settings 5) testing running_game))
      (of_stopper ∷ of_stopper ∷ of_worker false ∷ of_stopper ∷ [])

abbrev pub started_world : World
started_world = record {
  game = running_game;
  runs = put 5 (some looping) (λ a. none);
  doing = idle;
  calls = call_start ∷ [];
}

abbrev sample_world : World
sample_world = record {
  game = running_game;
  runs = put 5 (some testing) (put 5 (some looping) (λ a. none));
  doing = destroying call_stop 5 in_destructor;
  calls = call_start ∷ [];
}

in_destructor_place : place sample_world 5 ≡ some calling
unfolding play turn take_turn launch construct init
in_destructor_place = refl

pub started_world-Reachable : Reachable environment (world_of fresh_game) started_world
unfolding answer http_server_start
started_world-Reachable =
    afterwards at_once (returns call_start (true, running_game) refl refl refl)

pub launched_thread : (launch environment fresh_game.settings 5).runnable_thread ≡ some 6
launched_thread = launch_runnable environment fresh_game.settings 5

sample_world-Reachable : Reachable environment (world_of fresh_game) sample_world
unfolding answer take_turn launch construct init http_server_start
sample_world-Reachable =
    let object = launch environment fresh_game.settings 5 in
    let turned = afterwards started_world-Reachable (
      run_goes_on false 5 object looping refl refl refl
        (started_free environment-docs fresh_game)) in
    let entered = afterwards turned (enters_destructor call_stop 5 object refl refl refl) in
    let beginning = begin environment running_game (with_run object testing running_game) in
    Reach-Reachable call_stop 5
      (play-Reach beginning (of_stopper ∷ of_stopper ∷ of_worker false ∷ of_stopper ∷ []) beginning
        here)
      refl entered

run_has_memory_example : has_memory sample_world 5 ≡ true
run_has_memory_example =
    run_has_memory environment fresh_game sample_world 5 calling refl sample_world-Reachable
      in_destructor_place (λ e. absurd cc)

world_complete_example :
    (w : World) × Reachable environment (world_of fresh_game) w
    × (w.doing ≡ idle)
    × (w.calls ≡ some_calls)
    × (w.game ≡ after_some_calls)
world_complete_example =
    world_complete environment fresh_game after_some_calls some_calls refl some_calls_return

-- The thread is paused, and then the actor stops it.
abbrev paused_game : Game
paused_game = record running_game {
  thread_calls = suspend_called 6 true ∷ running_game.thread_calls;
}

abbrev paused_world : World
paused_world = record started_world {
  game = paused_game;
  calls = call_start ∷ call_toggle true ∷ [];
}

paused_world-Reachable : Reachable environment (world_of fresh_game) paused_world
unfolding answer http_server_toggle launch construct init toggle
paused_world-Reachable =
    afterwards started_world-Reachable
      (returns (call_toggle true) (true, paused_game) refl refl refl)

is_paused_now : is_stuck environment (launch environment fresh_game.settings 5) paused_game ≡ true
unfolding launch construct init
is_paused_now = refl

-- The stop has begun, and the game thread waits.
abbrev paused_beginning : System
paused_beginning =
    begin environment paused_game
      (with_run (launch environment fresh_game.settings 5) looping paused_game)

abbrev paused_stop : System
paused_stop = play paused_beginning (replicate 9 of_stopper ++ replicate 3 (of_worker true))

abbrev stopping_world : World
stopping_world = record paused_world { doing = destroying call_stop 5 paused_stop }

stopping_steps :
    Reachable environment
      (record paused_world { doing = destroying call_stop 5 paused_beginning })
      stopping_world
stopping_steps =
    Reach-Reachable call_stop 5
      (play-Reach paused_beginning (replicate 9 of_stopper ++ replicate 3 (of_worker true))
        paused_beginning here)
      refl at_once

world_hangs_example :
    (s : System) × (destroying call_stop 5 paused_stop ≡ destroying call_stop 5 s)
    × (s.freed ≡ false)
    × (call_start ∷ call_toggle true ∷ [] ≡ call_start ∷ call_toggle true ∷ [])
    × (paused_game ≡ paused_game)
world_hangs_example =
    world_hangs environment fresh_game paused_world stopping_world call_stop 5
      (launch environment fresh_game.settings 5) refl paused_world-Reachable refl refl is_paused_now
      stopping_steps

-- Run is inside `lws_service`, and a handler there stops the server.
abbrev serving_world : World
serving_world = record {
  game = running_game;
  runs =
      put 5 (some (in_service (some 9)))
        (put 5 (some calling) (put 5 (some testing) started_world.runs));
  doing = idle;
  calls = call_start ∷ [];
}

abbrev stopped_inside : System
stopped_inside =
    begin_inside environment running_game
      (with_run (launch environment fresh_game.settings 5) (in_service (some 9)) running_game)

abbrev late_inside : System
late_inside = play stopped_inside (replicate 9 of_stopper ++ replicate 3 (of_worker true))
