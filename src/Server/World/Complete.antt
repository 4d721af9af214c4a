-- ===== src/Server/World/Complete.antt =====
-- Every outcome of the calls as single steps is reached by the running server.
use ff_http_lws.Base.{
  ℕ, ◌≡◌, refl, sym, ◌∙◌, ap, subst, Bool, true, false, List, [], ◌∷◌, ◌++◌, append_assoc,
  append-nil, Option, none, some, ◌==◌, Bool-cases, Option-cases, inl, inr, arith,
}
use ff_http_lws.Thread.Race.{Sys, Worker}
use ff_http_lws.Server.{Environment, Game, ok, is_stuck}
use ff_http_lws.Server.Protocol.{Call, answer}
use ff_http_lws.Server.Changes.{starts, enters, answer-stop, answer-free, after_calls}
use ff_http_lws.Server.Changes.History.{first_returned}
use ff_http_lws.Server.Shutdown.{System, Reach, here, later, begin, play, has_none, memory_freed}
use ff_http_lws.Server.Shutdown.Moves.{play-Reach}
use ff_http_lws.Server.Shutdown.Ends.{is_resting, last_turns, threaded_ends}
use ff_http_lws.Server.World.{
  Runs, put, first_place, began, idle, destroying, World, returns, enters_destructor,
  destructor_step, leaves_destructor, Reachable, at_once, afterwards, world_of, with_run, worker_of,
  destroyed_game,
}
use ff_http_lws.Server.World.Invariant.{WorldInv}
use ff_http_lws.Server.World.Destroyed.{stopped}
use ff_http_lws.Server.World.Refines.{world_of-WorldInv, Reachable-WorldInv}

-- The steps of a destructor are steps of the server.
pub Reach-Reachable :
    {env : Environment} {w v : World} (c : Call) (a : ℕ) {s s' : System}
    → Reach s s'
    → v.doing ≡ destroying c a s
    → Reachable env w v
    → Reachable env w (record v { doing = destroying c a s' })
Reach-Reachable {env} {w} {v} c a here now before =
    subst (λ d. Reachable env w (record v { doing = d })) now before
Reach-Reachable {w = w} {v = v} c a (later {t} {u} first step) now before =
    afterwards (Reach-Reachable c a first now before) (destructor_step c a t u refl step)

-- A destructor can end, if the thread is not paused and Run rests.
destructor_ends :
    (env : Environment) (g : Game) (r : Sys)
    → is_stuck env r.thread g ≡ false
    → is_resting r.worker ≡ true
    → (s : System) × Reach (begin env g r) s × (s.freed ≡ true) × (is_resting s.race.worker ≡ true)
destructor_ends env g r free rest = elim (Option-cases r.thread.runnable_thread) [
  | inl unset ↦ (_, later (later here (has_none refl unset)) (memory_freed refl), refl, rest)
  | inr (x, set) ↦
      let b = begin env g r in
      let (freed, rest') = threaded_ends env g r x set free rest in
      (play b last_turns, play-Reach b last_turns b here, freed, rest')
]

-- Every Run rests.
abbrev AllResting : Runs → Type 0
AllResting runs = (b : ℕ) → is_resting (worker_of (runs b)) ≡ true

put-AllResting :
    (a : ℕ) (p : Option Worker) (runs : Runs)
    → is_resting (worker_of p) ≡ true
    → AllResting runs
    → AllResting (put a p runs)
put-AllResting a p runs here_rests h b = elim (Bool-cases (a == b)) [
  | inl same ↦ rw same here_rests
  | inr other ↦ rw other (h b)
]

first_place-rests : (o : Option ℕ) → is_resting (worker_of (first_place o)) ≡ true
first_place-rests none = refl
first_place-rests (some r) = refl

began-AllResting :
    (env : Environment) (c : Call) (g : Game) (runs : Runs)
    → AllResting runs
    → AllResting (began env c g runs)
began-AllResting env c g runs h b = elim (Bool-cases (starts g.settings c == 0)) [
  | inl none_started ↦ rw none_started (h b)
  | inr started ↦ rw started (
      put-AllResting g.next (first_place (env.create_thread g.next g.settings.server_name)) runs
        (first_place-rests (env.create_thread g.next g.settings.server_name)) h b)
]

-- From an idle server, a call that returns as one step can be carried out.
call_carried_out :
    {env : Environment} {g₀ : Game} (w : World) (c : Call) (r : Bool × Game)
    → WorldInv env g₀ w
    → w.doing ≡ idle
    → AllResting w.runs
    → answer env c w.game ≡ ok r
    → (v : World) × Reachable env w v
      × (v.doing ≡ idle)
      × (v.calls ≡ w.calls ++ c ∷ [])
      × (v.game ≡ r.1)
      × AllResting v.runs
call_carried_out {env} w c r h nothing rest result = elim (Option-cases (enters c w.game)) [
  | inl outside ↦ (
    _,
    afterwards at_once (returns c r nothing outside result),
    nothing,
    refl,
    refl,
    began-AllResting env c w.game w.runs rest,
  )
  | inr (a, entered) ↦
      let (t, alive, free) = answer-free env c w.game r a entered result in
      let r₀ = with_run t (worker_of (w.runs a)) w.game in
      let (s, reached, freed, rest') = destructor_ends env w.game r₀ free (rest a) in
      let whole = stopped w h c a s t entered alive reached freed in
      let same =
        sym (answer-stop env c w.game (destroyed_game a s w.game) a entered whole) ∙ result in
      let entered_world = afterwards at_once (enters_destructor c a t nothing entered alive) in
      (
        _,
        afterwards (Reach-Reachable c a reached refl entered_world)
            (leaves_destructor c a s refl freed),
        refl,
        refl,
        ground (arith, same),
        put-AllResting a (some s.race.worker) w.runs rest' rest,
      )
]

pub Reachable-trans :
    {env : Environment} {w v u : World} → Reachable env w v → Reachable env v u → Reachable env w u
Reachable-trans before at_once = before
Reachable-trans before (afterwards first now) = afterwards (Reachable-trans before first) now

calls_carried_out :
    {env : Environment} {g₀ : Game} (cs : List Call) (w : World) (g' : Game)
    → WorldInv env g₀ w
    → w.doing ≡ idle
    → AllResting w.runs
    → after_calls env cs w.game ≡ ok g'
    → (v : World) × Reachable env w v × (v.doing ≡ idle) × (v.calls ≡ w.calls ++ cs) × (v.game ≡ g')
unfolding after_calls
calls_carried_out [] w g' h nothing rests returned =
    let value : ok w.game ≡ ok g' = returned in
    (w, at_once, nothing, sym (append-nil w.calls), ground (arith, value))
calls_carried_out {env} (c ∷ cs) w g' h nothing rests returned =
    let (r, first, rest) =
      first_returned (answer env c w.game) (λ r. after_calls env cs r.1) g' returned in
    let (v, reached, quiet, before, game, rests') = call_carried_out w c r h nothing rests first in
    let (u, further, end, all, last) =
      calls_carried_out cs v g' (Reachable-WorldInv reached h) quiet rests'
        (ap (after_calls env cs) game ∙ rest) in
    (
      u,
      Reachable-trans reached further,
      end,
      all ∙ ap (λ x. x ++ cs) before ∙ append_assoc w.calls (c ∷ []) cs,
      last,
    )

-- From an actor without thread objects, whatever calls return as single steps, one after the other,
-- the running server can carry out, every destructor statement by statement beside the Run of its
-- object: it comes to a state in which exactly these calls have returned, no destructor is under way,
-- and the game is the one that they leave behind.
pub world_complete :
    (env : Environment) (g g' : Game) (cs : List Call)
    → g.live ≡ []
    → after_calls env cs g ≡ ok g'
    → (w : World) × Reachable env (world_of g) w × (w.doing ≡ idle) × (w.calls ≡ cs) × (w.game ≡ g')
world_complete env g g' cs empty returned =
    calls_carried_out cs (world_of g) g' (world_of-WorldInv env g empty) refl (λ b. refl) returned
