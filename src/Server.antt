-- ===== src/Server.antt =====
-- Source/FF_HTTP_LWS/Public/FF_HTTP_LWS_Server.h and Private/FF_HTTP_LWS_Server.cpp:
-- `AHTTP_Server_LWS`, the actor that owns a thread object by a raw pointer. The plugin is built for
-- Windows, so `_WIN64` is defined. Thread objects live in a heap, and a use of an address that is
-- not live is undefined behaviour. FRunnableThread::Create is the engine's: it returns a handle or
-- null, and has `Init` run on the new thread before it returns; Kill has `Stop` run and waits, for
-- ever if the thread is paused. It is one step here; Shutdown takes it apart.
pub mod Heap
pub mod Lifetime
pub mod Sessions
pub mod Serving
pub mod NoContext
pub mod Protocol
pub mod Returns
pub mod Changes
pub mod Accounts
pub mod Leaks
pub mod Owner
pub mod World
pub mod Shutdown
use ff_http_lws.Base.{
  ◌≡◌, opt_cons, ℕ, suc, Bool, true, false, Option, none, some, List, [], ◌∷◌, ℤ, pos, FString,
  codes, is_empty, ◌==◌, if◌then◌else◌,
}
use ff_http_lws.Engine.{Unreal}
use ff_http_lws.Engine.Map.{TMap, find, remove}
use ff_http_lws.Lws.Structs.{LwsProtocols, LwsContextCreationInfo}
use ff_http_lws.Thread.{ServerSettings, HttpThread, Uninit, construct, init, stop, toggle}

-- The defaults of the actor's properties.
abbrev pub default_settings : ServerSettings
default_settings = record {
  server_path_root = [];
  server_path_404 = codes "404.html";
  port_http = pos 8081;
  port_https = pos 8453;
  api_uri = codes "api/lws/v1/";
  server_name = codes "LibWebSocket";
}

-- What the engine is told of its threads: a thread of this handle is created, or `Suspend` is called.
pub data ThreadCall : Type 0 where
  thread_created : ℕ → ThreadCall
  suspend_called : ℕ → Bool → ThreadCall

-- What the engine and libwebsockets give to the actor.
pub record Environment : Type 0 where
  pub ue : Unreal
  -- the memory that `new` finds, for the thread object at an address and for its protocols
  pub memory : ℕ → Uninit
  pub fresh_protocols : ℕ → LwsProtocols × LwsProtocols
  -- `FRunnableThread::Create`, by the address of the thread object and the thread's name
  pub create_thread : ℕ → FString → Option ℕ
  -- whether a thread is paused after some calls, the latest first
  pub is_paused : ℕ → List ThreadCall → Bool
  -- `lws_create_context`
  pub create_context : LwsContextCreationInfo → Option ℕ

-- What the engine documents of `Create` and of `Suspend`: a new thread is not paused, and "whether to
-- pause the thread (true) or resume (false)".
pub record EnvironmentDocs (env : Environment) : Type 0 where
  pub is_paused_created :
      (r : ℕ) (calls : List ThreadCall) → env.is_paused r (thread_created r ∷ calls) ≡ false
  pub is_paused_suspend :
      (r : ℕ) (pause : Bool) (calls : List ThreadCall)
      → env.is_paused r (suspend_called r pause ∷ calls) ≡ pause

-- The actor, the live thread objects, and what was done to threads and contexts.
pub record Game : Type 0 where
  pub settings : ServerSettings
  -- `Thread_LibWebSocket`
  pub thread : Option ℕ
  -- the next address that `new` returns
  pub next : ℕ
  pub live : TMap ℕ HttpThread
  -- what the engine is told, and the calls of `Kill(true)` and of `lws_context_destroy`
  pub thread_calls : List ThreadCall
  pub killed : List ℕ
  pub contexts_destroyed : List ℕ

pub data Outcome (A : Type 0) : Type 0 where
  ok : A → Outcome A
  undefined_behaviour : Outcome A
  never_returns : Outcome A

infixl 5 ◌>>=◌
abbrev pub ◌>>=◌ : {A B : Type 0} → Outcome A → (A → Outcome B) → Outcome B
ok a >>= f = f a
undefined_behaviour >>= f = undefined_behaviour
never_returns >>= f = never_returns

-- A new thread object once its constructor has returned.
unfoldable pub launch : Environment → ServerSettings → ℕ → HttpThread
unfolding init construct
launch env s self =
    let runnable = env.create_thread self s.server_name in
    let built = construct env.ue s (env.memory self) self runnable in
    elim runnable [
      | none ↦ built
      | some _ ↦ init built (env.fresh_protocols self) env.create_context
    ]

abbrev pub told_created : Option ℕ → List ThreadCall → List ThreadCall
told_created none calls = calls
told_created (some r) calls = thread_created r ∷ calls

-- `HTTP_Server_Start`
unfoldable pub http_server_start : Environment → Game → Bool × Game
http_server_start env g = if is_empty g.settings.server_name then (false, g) else (
  true,
  record g {
    thread = some g.next;
    next = suc g.next;
    live = (g.next, launch env g.settings g.next) ∷ g.live;
    thread_calls = told_created (env.create_thread g.next g.settings.server_name) g.thread_calls;
  },
)

-- Reading through a pointer to a thread object.
abbrev pub deref : Game → ℕ → Outcome HttpThread
deref g a = elim (find ◌==◌ a g.live) [ none ↦ undefined_behaviour | some t ↦ ok t ]

-- The destructor of the thread object, where it ends.
unfoldable pub destroy_thread : HttpThread → Game → Game
unfolding stop
destroy_thread t g = elim t.runnable_thread [
  | none ↦ g
  | some runnable ↦ record g {
    killed = runnable ∷ g.killed;
    contexts_destroyed = opt_cons (stop t).1 g.contexts_destroyed;
  }
]

-- The thread of the object is paused: `Kill(true)` waits for ever.
abbrev pub is_stuck : Environment → HttpThread → Game → Bool
is_stuck env t g = elim t.runnable_thread [ none ↦ false | some r ↦ env.is_paused r g.thread_calls ]

-- `HTTP_Server_Stop`: the pointer keeps its value.
unfoldable pub http_server_stop : Environment → Game → Outcome Game
unfolding destroy_thread
http_server_stop env g = elim g.thread [
  | none ↦ ok g
  | some a ↦ do
    t ← deref g a
    (if is_stuck env t g
        then never_returns
        else ok (record (destroy_thread t g) { live = remove ◌==◌ a g.live }))
]

-- `HTTP_Server_Toggle`
unfoldable pub http_server_toggle : Bool → Game → Outcome (Bool × Game)
unfolding toggle
http_server_toggle is_pause g = elim g.thread [
  | none ↦ ok (false, g)
  | some a ↦ do
    t ← deref g a
    ok (elim (toggle t is_pause).1 [
      | none ↦ ((toggle t is_pause).0, g)
      | some (r, pause) ↦ (
        (toggle t is_pause).0,
        record g { thread_calls = suspend_called r pause ∷ g.thread_calls },
      )
    ])
]

-- `BeginPlay` and `EndPlay`, the parent class aside.
unfoldable pub begin_play : Environment → Game → Game
unfolding http_server_start
begin_play env g = (http_server_start env g).1

unfoldable pub end_play : Environment → Game → Outcome Game
unfolding http_server_stop
end_play env g = http_server_stop env g
