-- ===== src/Server/Sessions.antt =====
-- The way the actor is meant to be used: a start, toggles, one stop.
pub mod Toggles
pub mod Clean
use ff_http_lws.Base.{
  ℕ, suc, opt_cons, ap, Option, Option-cases, inl, inr, ◌≡◌, refl, sym, ◌∙◌, All, Bool, true, false,
  none, some, List, [], ◌∷◌, is_empty, ◌==◌, ==_refl, arith,
}
use ff_http_lws.Engine.Map.{find, remove}
use ff_http_lws.Thread.{ServerSettings, HttpThread, construct, init, http_start, http_stop, stop}
use ff_http_lws.Server.Heap.{IsHeap, Below-suc, find-fresh, remove-missing}
use ff_http_lws.Server.Lifetime.{
  started, start_named, stop_alive, stop_stuck, started_free, launch_runnable,
}
use ff_http_lws.Server.{
  Environment, EnvironmentDocs, suspend_called, is_stuck, never_returns, Game, Outcome, ok, ◌>>=◌,
  launch, http_server_start, destroy_thread, http_server_stop, http_server_toggle,
}

pub toggle_all : List Bool → Game → Outcome Game
toggle_all [] g = ok g
toggle_all (p ∷ ps) g = do r ← http_server_toggle p g; toggle_all ps r.1

-- A start, some toggles, a stop.
pub session : Environment → List Bool → Game → Outcome Game
session env toggles g = do
  g' ← toggle_all toggles (http_server_start env g).1
  http_server_stop env g'

pub sessions : Environment → List (List Bool) → Game → Outcome Game
sessions env [] g = ok g
sessions env (s ∷ ss) g = do g' ← session env s g; sessions env ss g'

-- Whether the thread of an object is paused after some toggles; without a thread it is not.
abbrev pub paused_after : Bool → List Bool → Bool
paused_after b [] = b
paused_after b (p ∷ ps) = paused_after p ps

-- What the thread objects of some sessions leave in a list, one after the other: `field` picks what
-- one object leaves.
abbrev pub each_ended :
    (HttpThread → Option ℕ) → Environment → ServerSettings → ℕ → List (List Bool) → List ℕ → List ℕ
each_ended field env s a [] xs = xs
each_ended field env s a (x ∷ ss) xs =
    each_ended field env s (suc a) ss (opt_cons (field (launch env s a)) xs)

-- What some sessions leave: nothing but the ends of their own threads and contexts.
pub record IsClean (env : Environment) (ss : List (List Bool)) (g g' : Game) : Type 0 where
  pub settings_kept : g'.settings ≡ g.settings
  pub live_kept : g'.live ≡ g.live
  pub heap : IsHeap g'
  pub killed_each :
      g'.killed ≡ each_ended (λ t. t.runnable_thread) env g.settings g.next ss g.killed
  pub destroyed_each :
      g'.contexts_destroyed
      ≡ each_ended (λ t. t.context) env g.settings g.next ss g.contexts_destroyed
