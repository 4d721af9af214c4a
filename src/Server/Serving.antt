-- ===== src/Server/Serving.antt =====
-- A start for which the engine gives a thread and libwebsockets a context.
use ff_http_lws.Base.{
  ℕ, ◌+◌, ◌≤◌, Bool, ◌≡◌, ◌≢◌, refl, sym, ◌∙◌, true, false, none, some, is_empty, ◌==◌, ==_refl,
  Option-cases, inl, inr,
}
use ff_http_lws.Engine.Map.{find}
use ff_http_lws.Lws.Structs.{LwsContextCreationInfo}
use ff_http_lws.Thread.{HttpThread, init, http_start}
use ff_http_lws.Thread.Race.{calling, in_service}
use ff_http_lws.Thread.Race.Idle.{at_start}
use ff_http_lws.Thread.Race.Serves.{run_for, Returns, calls_again}
use ff_http_lws.Server.Lifetime.{start_named}
use ff_http_lws.Server.{Environment, Game, launch, http_server_start}

module _ (env : Environment) (g : Game) (runnable : ℕ)
    (created : env.create_thread g.next g.settings.server_name ≡ some runnable)
    (accepted : (info : LwsContextCreationInfo) → env.create_context info ≢ none) where
  launched : (launch env g.settings g.next).start_thread ≡ true
  unfolding launch init http_start
  launched = rw (launch, created) refl

  with_context :
      (info : LwsContextCreationInfo) × ((launch env g.settings g.next).context
        ≡ env.create_context info)
  unfolding launch init http_start
  with_context = rw (launch, created) (_, refl)

  has_context : (c : ℕ) × ((launch env g.settings g.next).context ≡ some c)
  has_context = elim (Option-cases (launch env g.settings g.next).context) [
    | inl missing ↦ let (info, same) = with_context in absurd (accepted info (sym same ∙ missing))
    | inr (c, shared) ↦ (c, shared)
  ]

  -- Under a name that is not empty, with the thread created and the context accepted, a start reports
  -- success, and the new thread object is live and has a context; and if from every moment on there
  -- is a turn in which lws_service returns if Run is inside it, then Run, before its object is
  -- stopped, calls lws_service with that context again and again: after any number of turns there is
  -- a later one before which it stands at the call and after which it is inside.
  pub start_serves :
      (wakes : ℕ → Bool)
      → is_empty g.settings.server_name ≡ false
      → Returns wakes
      → (n : ℕ)
      → let (done, g') = http_server_start env g in
        (done ≡ true)
        × (t : HttpThread) × (c : ℕ) × (find ◌==◌ g.next g'.live ≡ some t)
        × (t.context ≡ some c)
        × (m : ℕ) × (n ≤ m)
        × ((run_for wakes 0 m (at_start t)).worker ≡ calling)
        × ((run_for wakes 0 (m + 1) (at_start t)).worker ≡ in_service (some c))
  start_serves wakes named returns n =
      let t = launch env g.settings g.next in
      let (c, shared) = has_context in
      let (m, later, before, after) = calls_again t c launched shared wakes returns n in
      rw (start_named env g named)
        (refl, t, c, rw (==_refl g.next), shared, m, later, before, after)
