-- ===== src/Server/World/Owner.antt =====
-- What is left of the servers when the actor is through with them.
use ff_http_lws.Base.{
  ℕ, ◌≡◌, ◌≢◌, refl, sym, ◌∙◌, ap, subst, Bool, true, false, some, List, [], ◌∷◌, is_empty, ◌==◌,
  arith,
}
use ff_http_lws.Base.{Option, ◌+◌}
use ff_http_lws.Engine.Map.{TMap}
use ff_http_lws.Thread.{HttpThread}
use ff_http_lws.Server.Accounts.{occurs, held, made}
use ff_http_lws.Server.Accounts.Balance.{after_calls-balance}
use ff_http_lws.Server.Changes.{all_starts}
use ff_http_lws.Engine.Map.{find}
use ff_http_lws.Thread.Race.{Worker, looping, testing, calling, in_service, returned}
use ff_http_lws.Server.{Environment, Game, ok, launch, http_server_start}
use ff_http_lws.Server.Lifetime.{started, start_named, launch_runnable}
use ff_http_lws.Server.Owner.{up_after, IsOwner, calls-IsOwner}
use ff_http_lws.Server.Leaks.{lost_by_second_start}
use ff_http_lws.Server.Protocol.{Call, call_start, answer}
use ff_http_lws.Server.Changes.{after_calls, enters-thread}
use ff_http_lws.Server.World.{
  Doing, idle, destroying, World, Reachable, world_of, place, is_destroying,
}
use ff_http_lws.Server.World.Invariant.{WorldInv, DoingInv}
use ff_http_lws.Server.World.Refines.{
  world_refines, world_of-WorldInv, Reachable-WorldInv, live_object_runs,
}

-- A Run that is not known to go on has returned.
has_returned : (p : Worker) → ¬ (p ≢ returned) → p ≡ returned
has_returned returned h = refl
has_returned looping h = absurd (h (λ e. absurd cc))
has_returned testing h = absurd (h (λ e. absurd cc))
has_returned calling h = absurd (h (λ e. absurd cc))
has_returned (in_service c) h = absurd (h (λ e. absurd cc))

-- With no live object the books are closed: what was made is what was ended.
closed_books :
    {live : TMap ℕ HttpThread} (field : HttpThread → Option ℕ) (ended : List ℕ) (r n : ℕ)
    → live ≡ []
    → occurs r (held field live) + occurs r ended ≡ n
    → occurs r ended ≡ n
closed_books field ended r n only e =
    let none_held = ap (λ l. occurs r (held field l)) only in omega (arith, e, none_held)

-- Before the first start the books are empty.
nothing_before :
    {live : TMap ℕ HttpThread} (field : HttpThread → Option ℕ) (ended : List ℕ) (r n : ℕ)
    → live ≡ []
    → ended ≡ []
    → n + (occurs r (held field live) + occurs r ended) ≡ n
nothing_before field ended r n none_live none_ended =
    let none_held = ap (λ l. occurs r (held field l)) none_live in
    let none_before = ap (occurs r) none_ended in omega (arith, none_held, none_before)

-- From an actor without thread objects, before which nothing was killed or destroyed, and with a
-- server name that is not empty, in every state of the server that calls, statements of the
-- destructors and turns of the Runs reach in any interleaving, once no destructor is under way: if no
-- call has started a server while the actor had one, and the last one is stopped, then no thread object
-- is left, every Run that there was has returned, and each thread and each context that the starts
-- created was killed or destroyed as often as it was created, and nothing else was. So nothing of
-- the servers is left that could call a handler of the actor.
pub nothing_left :
    (env : Environment) (g : Game) (w : World)
    → g.live ≡ []
    → g.killed ≡ []
    → g.contexts_destroyed ≡ []
    → is_empty g.settings.server_name ≡ false
    → Reachable env (world_of g) w
    → w.doing ≡ idle
    → up_after false w.calls ≡ some false
    → let k = all_starts g.settings w.calls in
      (w.game.live ≡ [])
      × ((b : ℕ) (p : Worker) → w.runs b ≡ some p → p ≡ returned)
      × ((r : ℕ)
          → occurs r w.game.killed
            ≡ occurs r (made env g.settings (λ t. t.runnable_thread) g.next k))
      × ((c : ℕ)
          → occurs c w.game.contexts_destroyed
            ≡ occurs c (made env g.settings (λ t. t.context) g.next k))
nothing_left env g w empty unkilled undestroyed named reached nothing down =
    let initial = world_of-WorldInv env g empty in
    let h = Reachable-WorldInv reached initial in
    let refined = world_refines env g w empty reached in
    let start : IsOwner false g = record { named = named; only = empty } in
    let only = (calls-IsOwner env false false w.calls g w.game down refined start).only in
    let (_, threads, contexts) = after_calls-balance env w.calls g w.game initial.sound refined in
    let thread = λ (t : HttpThread). t.runnable_thread in
    let context = λ (t : HttpThread). t.context in
    (
      only,
      λ b p at. has_returned p (λ going. ground (arith, h.owned b p at going, only)),
      λ r.
          closed_books thread w.game.killed r _ only (threads r)
          ∙ nothing_before thread g.killed r _ empty unkilled,
      λ c.
          closed_books context w.game.contexts_destroyed c _ only (contexts c)
          ∙ nothing_before context g.contexts_destroyed c _ empty undestroyed,
    )

not_destroying :
    {env : Environment} {g : Game} {a : ℕ} {w : World}
    → WorldInv env g w
    → w.game.thread ≢ some a
    → is_destroying a w.doing ≡ false
not_destroying {env} {g} {a} {w} h unpointed = go w.doing h.doing
  where
    go : (d : Doing) → DoingInv env w.game w.runs d → is_destroying a d ≡ false
    go idle i = refl
    go (destroying c b s) i =
        let pointed = enters-thread c w.game b i.1 in ground (arith, pointed, unpointed)

calls_twice :
    (env : Environment) (g g' : Game) (cs : List Call)
    → is_empty g.settings.server_name ≡ false
    → after_calls env (call_start ∷ call_start ∷ cs) g ≡ ok g'
    → after_calls env cs (started env (started env g)) ≡ ok g'
unfolding after_calls answer
calls_twice env g g' cs named result =
    let first : http_server_start env g ≡ (true, started env g) = start_named env g named in
    let second : http_server_start env (started env g) ≡ (true, started env (started env g)) =
      start_named env (started env g) named in
    ap (λ (r : Bool × Game). after_calls env cs r.1)
      (sym (ap (λ (r : Bool × Game). http_server_start env r.1) first ∙ second))
    ∙ result

-- From an actor without thread objects and with a server name that is not empty, for which the
-- engine gives a thread: if the first two calls start a server, then in every state of the server
-- that is reached, in any interleaving, whatever calls have returned since, EndPlay included, the
-- thread object of the first start is live, the actor does not point to it, and its Run has not
-- returned.
pub run_left :
    (env : Environment) (g : Game) (w : World) (cs : List Call) (x : ℕ)
    → g.live ≡ []
    → is_empty g.settings.server_name ≡ false
    → env.create_thread g.next g.settings.server_name ≡ some x
    → Reachable env (world_of g) w
    → w.calls ≡ call_start ∷ call_start ∷ cs
    → (find ◌==◌ g.next w.game.live ≡ some (launch env g.settings g.next))
      × (w.game.thread ≢ some g.next)
      × (p : Worker) × (place w g.next ≡ some p)
      × (p ≢ returned)
run_left env g w cs x empty named created reached calls =
    let outcome : after_calls env (call_start ∷ call_start ∷ cs) g ≡ ok w.game =
      subst (λ cs'. after_calls env cs' g ≡ ok w.game) calls
        (world_refines env g w empty reached) in
    let leaked = lost_by_second_start env g cs w.game (calls_twice env g w.game cs named outcome) in
    let set = launch_runnable env g.settings g.next ∙ created in
    let h = Reachable-WorldInv reached (world_of-WorldInv env g empty) in
    let (p, at, going) =
      live_object_runs env g w g.next (launch env g.settings g.next) empty reached leaked.alive
        (λ unset. ground (arith, set, unset)) (not_destroying h leaked.unpointed) in
    (leaked.alive, leaked.unpointed, p, at, going)
