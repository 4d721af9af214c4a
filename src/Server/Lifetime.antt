-- ===== src/Server/Lifetime.antt =====
-- A new thread object, and the raw pointer of the actor: what a stop leaves behind, and what a second
-- start loses.
use ff_http_lws.Base.{
  ℕ, suc, opt_cons, ap, ◌∙◌, ◌≡◌, ◌≢◌, refl, Bool, true, false, Option, none, some, [], ◌∷◌,
  is_empty, Plain, Option-cases, inl, inr, ◌==◌, ==_refl, arith,
}
use ff_http_lws.Engine.{UnrealDocs, Ascii}
use ff_http_lws.Thread.Address.{convert_address-Ascii}
use ff_http_lws.Engine.Map.{TMap, find, remove}
use ff_http_lws.Thread.{
  stop, http_stop, LwsPoints, ServerSettings, HttpThread, construct, init, http_start,
}
use ff_http_lws.Server.Heap.{IsHeap}
use ff_http_lws.Server.{
  Environment, EnvironmentDocs, Game, ok, undefined_behaviour, never_returns, told_created,
  is_stuck, launch, http_server_start, destroy_thread, http_server_stop, http_server_toggle,
  end_play,
}

pub destroy_thread-thread : (t : HttpThread) (g : Game) → (destroy_thread t g).thread ≡ g.thread
unfolding destroy_thread
destroy_thread-thread t g = ground arith

pub destroy_thread-live : (t : HttpThread) (g : Game) → (destroy_thread t g).live ≡ g.live
unfolding destroy_thread
destroy_thread-live t g = ground arith

pub find-removed : (a : ℕ) (live : TMap ℕ HttpThread) → find ◌==◌ a (remove ◌==◌ a live) ≡ none
find-removed a [] = refl
find-removed a ((b, t) ∷ live) = ground (arith, find-removed a live)

module _ (env : Environment) (g : Game) (a : ℕ) (pointed : g.thread ≡ some a) where
  pub stop_alive :
      (t : HttpThread)
      → find ◌==◌ a g.live ≡ some t
      → is_stuck env t g ≡ false
      → http_server_stop env g ≡ ok (record (destroy_thread t g) { live = remove ◌==◌ a g.live })
  unfolding http_server_stop
  stop_alive t alive free = ground (arith, free)

  pub stop_stuck :
      (t : HttpThread)
      → find ◌==◌ a g.live ≡ some t
      → is_stuck env t g ≡ true
      → http_server_stop env g ≡ never_returns
  unfolding http_server_stop
  stop_stuck t alive stuck = ground (arith, stuck)

  -- What a stop or a toggle does through a pointer to a dead object.
  pub use_dead :
      find ◌==◌ a g.live ≡ none
      → (http_server_stop env g ≡ undefined_behaviour)
        × ((is_pause : Bool) → http_server_toggle is_pause g ≡ undefined_behaviour)
  unfolding http_server_stop http_server_toggle
  use_dead dead = (ground arith, λ is_pause. ground arith)

-- A stop of a live thread object that is not paused succeeds and leaves the pointer dangling: a second stop, the stop
-- that EndPlay makes, and a toggle are all undefined behaviour then.
pub stop_leaves_dangling :
    (env : Environment) (g : Game) (a : ℕ) (t : HttpThread)
    → g.thread ≡ some a
    → find ◌==◌ a g.live ≡ some t
    → is_stuck env t g ≡ false
    → (g' : Game) × (http_server_stop env g ≡ ok g')
      × (g'.thread ≡ some a)
      × (http_server_stop env g' ≡ undefined_behaviour)
      × (end_play env g' ≡ undefined_behaviour)
      × ((is_pause : Bool) → http_server_toggle is_pause g' ≡ undefined_behaviour)
unfolding end_play
stop_leaves_dangling env g a t pointed alive free =
    let g' : Game = record (destroy_thread t g) { live = remove ◌==◌ a g.live } in
    let kept : g'.thread ≡ some a = rw (destroy_thread-thread t g) pointed in
    let dead = use_dead env g' a kept (find-removed a g.live) in
    (g', stop_alive env g a pointed t alive free, kept, dead.0, dead.0, dead.1)

-- The state after a start under a name that is not empty.
abbrev pub started : Environment → Game → Game
started env g = record g {
  thread = some g.next;
  next = suc g.next;
  live = (g.next, launch env g.settings g.next) ∷ g.live;
  thread_calls = told_created (env.create_thread g.next g.settings.server_name) g.thread_calls;
}

init_runnable :
    (env : Environment) (a : ℕ) (t : HttpThread) (r : Option ℕ)
    → (elim r as (λ _. HttpThread) [
      | none ↦ t
      | some _ ↦ init t (env.fresh_protocols a) env.create_context
    ]).runnable_thread
      ≡ t.runnable_thread
unfolding init http_start
init_runnable env a t none = refl
init_runnable env a t (some r) = refl

pub launch_runnable :
    (env : Environment) (s : ServerSettings) (a : ℕ)
    → (launch env s a).runnable_thread ≡ env.create_thread a s.server_name
unfolding launch construct
launch_runnable env s a = init_runnable env a _ (env.create_thread a s.server_name)

init_uri :
    (env : Environment) (a : ℕ) (t : HttpThread) (r : Option ℕ)
    → (elim r as (λ _. HttpThread) [
      | none ↦ t
      | some _ ↦ init t (env.fresh_protocols a) env.create_context
    ]).api_uri.data_points
      ≡ t.api_uri.data_points
unfolding init http_start
init_uri env a t none = refl
init_uri env a t (some r) = refl

-- The text of the API URI in a new thread object.
pub launch_uri :
    (env : Environment) (e : UnrealDocs env.ue) (s : ServerSettings) (a : ℕ)
    → is_empty s.api_uri ≡ false
    → Ascii s.api_uri
    → Plain s.api_uri
    → (launch env s a).api_uri.data_points ≡ some s.api_uri
unfolding launch construct init http_start
launch_uri env e s a full ascii plain =
    init_uri env a (construct env.ue s (env.memory a) a (env.create_thread a s.server_name))
      (env.create_thread a s.server_name)
    ∙ rw full
        (ap (λ (p : LwsPoints). p.data_points) (convert_address-Ascii e s.api_uri ascii plain).0)

-- A thread object that has just been started is not paused.
pub started_free :
    {env : Environment}
    → EnvironmentDocs env
    → (g : Game) → is_stuck env (launch env g.settings g.next) (started env g) ≡ false
started_free {env} d g =
    rw (launch_runnable env g.settings g.next)
      (go (env.create_thread g.next g.settings.server_name))
  where
    go :
        (r : Option ℕ)
        → (elim r as (λ _. Bool) [
          | none ↦ false
          | some r' ↦ env.is_paused r' (told_created r g.thread_calls)
        ])
          ≡ false
    go none = refl
    go (some r) = d.is_paused_created r g.thread_calls

pub start_named :
    (env : Environment) (g : Game)
    → is_empty g.settings.server_name ≡ false
    → http_server_start env g ≡ (true, started env g)
unfolding http_server_start
start_named env g named = rw named

-- A thread object that was created without a thread has no context.
pub launch_context :
    (env : Environment) (s : ServerSettings) (a : ℕ)
    → (launch env s a).runnable_thread ≡ none
    → (launch env s a).context ≡ none
unfolding launch init http_start construct
launch_context env s a h = elim (Option-cases (env.create_thread a s.server_name)) [
  | inl failed ↦ rw (launch, failed)
  | inr (r, created) ↦ absurd (cc)
]

-- What the destructor does to the rest of the game, if an object without a thread has no context.
pub destroy_thread_lem :
    (t : HttpThread) (g : Game)
    → (t.runnable_thread ≡ none → t.context ≡ none)
    → ((destroy_thread t g).settings ≡ g.settings)
      × ((destroy_thread t g).next ≡ g.next)
      × ((destroy_thread t g).killed ≡ opt_cons t.runnable_thread g.killed)
      × ((destroy_thread t g).contexts_destroyed ≡ opt_cons t.context g.contexts_destroyed)
unfolding destroy_thread stop http_stop
destroy_thread_lem t g h = elim (Option-cases t.runnable_thread) [
  | inl unset ↦ rw (unset, h unset) (refl, refl, refl, refl)
  | inr (r, set) ↦ rw set (refl, refl, refl, refl)
]

-- From a well-formed heap, under a server name that is not empty, two starts and a stop: the stop
-- succeeds and deletes the second thread object, and the first stays live although
-- the actor no longer points to it.
pub second_start_leaks :
    {env : Environment} (d : EnvironmentDocs env) (g : Game)
    → IsHeap g
    → is_empty g.settings.server_name ≡ false
    → let twice = (http_server_start env (http_server_start env g).1).1 in
      (g' : Game) × (http_server_stop env twice ≡ ok g')
      × (find ◌==◌ g.next g'.live ≡ some (launch env g.settings g.next))
      × (g'.thread ≢ some g.next)
second_start_leaks {env} d g h named =
    let once = started env g in
    let twice = started env once in
    let last = launch env g.settings once.next in
    let stopped =
      stop_alive env twice once.next refl last (rw (==_refl once.next)) (started_free d once) in
    rw (start_named env g named, start_named env once named)
      (
        record (destroy_thread last twice) { live = remove ◌==◌ once.next twice.live },
        stopped,
        ground arith,
        rw (destroy_thread-thread last twice) (λ same. ground arith),
      )
