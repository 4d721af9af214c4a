-- ===== src/Server/Sessions/Clean.antt =====
-- What sessions leave behind, and the session that does not end.
use ff_http_lws.Base.{ℕ, suc, opt_cons, ◌≡◌, ◌∙◌, Bool, true, false, some, List, is_empty, ==_refl}
use ff_http_lws.Thread.{HttpThread}
use ff_http_lws.Server.Lifetime.{start_named, stop_stuck, launch_runnable}
use ff_http_lws.Server.{Environment, EnvironmentDocs, never_returns, Game, launch}
use ff_http_lws.Server.Sessions.{session, paused_after}
use ff_http_lws.Server.Sessions.Toggles.{toggled_game}

-- What one session does: `t` is the thread object that it starts.
record IsSession (t : HttpThread) (g g' : Game) : Type 0 where
  settings_kept : g'.settings ≡ g.settings
  live_kept : g'.live ≡ g.live
  next_suc : g'.next ≡ suc g.next
  killed_once : g'.killed ≡ opt_cons t.runnable_thread g.killed
  destroyed_once : g'.contexts_destroyed ≡ opt_cons t.context g.contexts_destroyed

-- A session whose last toggle pauses the thread never ends: under a server name that is not empty and
-- with the thread created, the stop waits for ever for a thread that is paused.
pub session_paused :
    {env : Environment} (d : EnvironmentDocs env) (toggles : List Bool) (g : Game) (r : ℕ)
    → is_empty g.settings.server_name ≡ false
    → env.create_thread g.next g.settings.server_name ≡ some r
    → paused_after false toggles ≡ true
    → session env toggles g ≡ never_returns
unfolding session
session_paused {env} d toggles g r named created paused =
    let t = launch env g.settings g.next in
    let (g', toggled, same, stuck) = toggled_game d toggles g in
    rw (start_named env g named, toggled)
      (stop_stuck env g' g.next same.thread_kept t (rw (same.live_kept, ==_refl g.next))
        (stuck ∙ rw (launch_runnable env g.settings g.next, created) paused))
