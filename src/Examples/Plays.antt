-- ===== src/Examples/Plays.antt =====
-- The sample server in two whole games, with one start and with two.
use ff_http_lws.Base.{ℕ, List, ap, ◌==◌, ◌≡◌, ◌≢◌, refl, true, false, some, [], ◌∷◌}
use ff_http_lws.Thread.{construct, init, stop, toggle}
use ff_http_lws.Thread.Race.{Worker, returned}
use ff_http_lws.Server.{
  Game, ok, launch, http_server_start, http_server_toggle, http_server_stop, destroy_thread,
  begin_play, end_play,
}
use ff_http_lws.Server.Protocol.{Call, on_begin_play, on_end_play, call_start, call_toggle, answer}
use ff_http_lws.Server.Changes.{after_calls}
use ff_http_lws.Server.World.{idle, World, Reachable, world_of, place}
use ff_http_lws.Engine.Map.{find}
use ff_http_lws.Server.Accounts.{occurs, made}
use ff_http_lws.Server.Changes.{all_starts}
use ff_http_lws.Server.Owner.{up_after}
use ff_http_lws.Server.World.Owner.{nothing_left, run_left}
use ff_http_lws.Server.World.Complete.{world_complete}
use ff_http_lws.Examples.Sample.Calls.{environment, fresh_game}
use ff_http_lws.Examples.Servers.{game_of}

-- A game that is played, with the server paused for a while, and then ends.
abbrev whole_play : List Call
whole_play = on_begin_play ∷ call_toggle true ∷ call_toggle false ∷ on_end_play ∷ []

abbrev after_whole_play : Game
after_whole_play = game_of (after_calls environment whole_play fresh_game)

whole_play_returns : after_calls environment whole_play fresh_game ≡ ok after_whole_play
unfolding after_calls answer begin_play end_play http_server_start http_server_stop
    http_server_toggle destroy_thread launch construct init stop toggle
whole_play_returns = refl

played :
    (w : World) × Reachable environment (world_of fresh_game) w
    × (w.doing ≡ idle)
    × (w.calls ≡ whole_play)
    × (w.game ≡ after_whole_play)
played = world_complete environment fresh_game after_whole_play whole_play refl whole_play_returns

nothing_left_example :
    (played.0.game.live ≡ [])
    × ((b : ℕ) (p : Worker) → played.0.runs b ≡ some p → p ≡ returned)
    × ((r : ℕ)
        → occurs r played.0.game.killed
          ≡ occurs r (
              made environment fresh_game.settings
                (λ t. t.runnable_thread)
                5
                (all_starts fresh_game.settings played.0.calls)))
    × ((c : ℕ)
        → occurs c played.0.game.contexts_destroyed
          ≡ occurs c (
              made environment fresh_game.settings
                (λ t. t.context)
                5
                (all_starts fresh_game.settings played.0.calls)))
nothing_left_example =
    nothing_left environment fresh_game played.0 refl refl refl refl played.1 played.2
      (ap (up_after false) played.3)

-- The same, with a second start.
abbrev rest_of_play : List Call
rest_of_play = call_toggle false ∷ on_end_play ∷ []

abbrev second_play : List Call
second_play = call_start ∷ call_start ∷ rest_of_play

abbrev after_second_play : Game
after_second_play = game_of (after_calls environment second_play fresh_game)

second_play_returns : after_calls environment second_play fresh_game ≡ ok after_second_play
unfolding after_calls answer end_play http_server_start http_server_stop http_server_toggle
    destroy_thread launch construct init stop toggle
second_play_returns = refl

played_twice :
    (w : World) × Reachable environment (world_of fresh_game) w
    × (w.doing ≡ idle)
    × (w.calls ≡ second_play)
    × (w.game ≡ after_second_play)
played_twice =
    world_complete environment fresh_game after_second_play second_play refl second_play_returns

run_left_example :
    (find ◌==◌ 5 played_twice.0.game.live ≡ some (launch environment fresh_game.settings 5))
    × (played_twice.0.game.thread ≢ some 5)
    × (p : Worker) × (place played_twice.0 5 ≡ some p)
    × (p ≢ returned)
run_left_example =
    run_left environment fresh_game played_twice.0 rest_of_play 6 refl refl refl played_twice.1
      played_twice.3
