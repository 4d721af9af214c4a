-- ===== src/Server/World/Hangs.antt =====
-- Stops that never return, in the running server.
use ff_http_lws.Base.{◌==◌, ◌≡◌, ◌≢◌, refl, sym, subst, ◌∙◌, ℕ, true, false, none, some, [], arith}
use ff_http_lws.Engine.Map.{find}
use ff_http_lws.Thread.{HttpThread}
use ff_http_lws.Thread.Race.{returned}
use ff_http_lws.Server.{Environment, Game, is_stuck}
use ff_http_lws.Server.Protocol.{Call}
use ff_http_lws.Server.Changes.{enters}
use ff_http_lws.Server.Shutdown.{System, Step, Reach, here, later, begin}
use ff_http_lws.Server.Shutdown.Paused.{paused_never_freed}
use ff_http_lws.Server.World.{
  destroying, World, Happens, run_goes_on, returns, enters_destructor, stops_itself,
  destructor_step, leaves_destructor, Reachable, at_once, afterwards, world_of, with_run, worker_of,
}
use ff_http_lws.Server.World.Refines.{world_of-WorldInv, Reachable-WorldInv}

-- The game thread is inside the destructor that began in the state `b` of its object.
record IsInside (w : World) (c : Call) (a : ℕ) (b : System) (u : World) : Type 0 where
  state : System
  reached : Reach b state
  doing : u.doing ≡ destroying c a state
  same_game : u.game ≡ w.game
  same_calls : u.calls ≡ w.calls

module _ {env : Environment} (w : World) (c : Call) (a : ℕ) (b : System)
    (waits : (s : System) → Reach b s → s.freed ≡ false) where
  Happens-IsInside : {v u : World} → Happens env v u → IsInside w c a b v → IsInside w c a b u
  Happens-IsInside (run_goes_on wakes a' t p other alive placed free) i = record {
    state = i.state;
    reached = i.reached;
    doing = i.doing;
    same_game = i.same_game;
    same_calls = i.same_calls;
  }
  Happens-IsInside (returns c' r nothing outside result) i =
      absurd (ground (arith, nothing, i.doing))
  Happens-IsInside (enters_destructor c' a' t nothing entered alive) i =
      absurd (ground (arith, nothing, i.doing))
  Happens-IsInside (stops_itself c' a' k t nothing entered alive inside) i =
      absurd (ground (arith, nothing, i.doing))
  Happens-IsInside (destructor_step c' a' s s' now step) i =
      let same : destroying c' a' s ≡ destroying c a i.state = sym now ∙ i.doing in
      let there : s ≡ i.state = ground (arith, same) in
      let call : c' ≡ c = ground (arith, same) in
      let object : a' ≡ a = ground (arith, same) in
      record {
        state = s';
        reached = later i.reached (subst (λ x. Step x s') there step);
        doing = rw (call, object) refl;
        same_game = i.same_game;
        same_calls = i.same_calls;
      }
  Happens-IsInside (leaves_destructor c' a' s now freed) i =
      let same : destroying c' a' s ≡ destroying c a i.state = sym now ∙ i.doing in
      let there : s ≡ i.state = ground (arith, same) in
      absurd (ground (arith, freed, waits i.state i.reached, there))

  Reachable-IsInside : {v u : World} → Reachable env v u → IsInside w c a b v → IsInside w c a b u
  Reachable-IsInside at_once i = i
  Reachable-IsInside (afterwards before now) i = Happens-IsInside now (Reachable-IsInside before i)

-- In the running server, reached from an actor without thread objects, a call that enters the
-- destructor of an object whose thread is paused never returns: in every state that is reached from
-- there, the game thread is still inside this destructor, no further call has returned, and the
-- actor's state is what it was.
pub world_hangs :
    (env : Environment) (g : Game) (w u : World) (c : Call) (a : ℕ) (t : HttpThread)
    → g.live ≡ []
    → Reachable env (world_of g) w
    → enters c w.game ≡ some a
    → find ◌==◌ a w.game.live ≡ some t
    → is_stuck env t w.game ≡ true
    → Reachable env
        (record w {
          doing = destroying c a (begin env w.game (with_run t (worker_of (w.runs a)) w.game));
        })
        u
    → (s : System) × (u.doing ≡ destroying c a s)
      × (s.freed ≡ false)
      × (u.calls ≡ w.calls)
      × (u.game ≡ w.game)
world_hangs env g w u c a t empty reached entered alive stuck after =
    let h = Reachable-WorldInv reached (world_of-WorldInv env g empty) in
    let has : t.runnable_thread ≢ none = λ unset. ground (arith, unset, stuck) in
    let (flag, p, at, going) = (h.settled a t alive).threaded has in
    let inside : worker_of (w.runs a) ≢ returned = λ e. going (ground (arith, at, e)) in
    let r = with_run t (worker_of (w.runs a)) w.game in
    let waits : (s : System) → Reach (begin env w.game r) s → s.freed ≡ false =
      λ s first. (paused_never_freed env w.game r stuck inside first).0 in
    let i = Reachable-IsInside w c a (begin env w.game r) waits after (record {
      state = begin env w.game r;
      reached = here;
      doing = refl;
      same_game = refl;
      same_calls = refl;
    }) in
    (i.state, i.doing, waits i.state i.reached, i.same_calls, i.same_game)
