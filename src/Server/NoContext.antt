-- ===== src/Server/NoContext.antt =====
-- A start for which libwebsockets creates no context, for instance since the port is taken.
use ff_http_lws.Base.{
  ℕ, ◌≡◌, refl, true, false, none, some, is_empty, Bool, List, map, ◌==◌, ==_refl,
}
use ff_http_lws.Engine.Map.{find}
use ff_http_lws.Lws.Structs.{LwsContextCreationInfo}
use ff_http_lws.Thread.{HttpThread, init, http_start}
use ff_http_lws.Thread.Race.{of_worker, schedule}
use ff_http_lws.Thread.Race.Idle.{is_spinning, at_start, spins}
use ff_http_lws.Server.Lifetime.{start_named}
use ff_http_lws.Server.{Environment, Game, launch, http_server_start}

module _ (env : Environment) (g : Game) (runnable : ℕ) (ws : List Bool)
    (created : env.create_thread g.next g.settings.server_name ≡ some runnable)
    (refused : (info : LwsContextCreationInfo) → env.create_context info ≡ none) where
  launched :
      ((launch env g.settings g.next).context ≡ none)
      × ((launch env g.settings g.next).start_thread ≡ true)
  unfolding launch init http_start
  launched = rw (launch, created) (refused _, refl)

  -- Under a name that is not empty, with the thread created but every context refused, a start still
  -- reports success; the new thread object is live, and its Run only spins: after any number of turns
  -- it has neither served nor returned.
  pub start_without_context :
      is_empty g.settings.server_name ≡ false
      → let (done, g') = http_server_start env g in
        (done ≡ true)
        × (t : HttpThread) × (find ◌==◌ g.next g'.live ≡ some t)
        × (t.context ≡ none)
        × (is_spinning (schedule (at_start t) (map of_worker ws)).worker ≡ true)
  start_without_context named =
      let t = launch env g.settings g.next in
      rw (start_named env g named)
        (refl, t, rw (==_refl g.next), launched.0, spins t ws launched.0 launched.1)
