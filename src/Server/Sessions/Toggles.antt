-- ===== src/Server/Sessions/Toggles.antt =====
-- What toggles leave of a game, and whether the thread is paused after them.
use ff_http_lws.Base.{
  ℕ, Option, Option-cases, inl, inr, ◌≡◌, refl, sym, ◌∙◌, Bool, true, false, none, some, List, [],
  ◌∷◌, ◌==◌, ==_refl, arith,
}
use ff_http_lws.Engine.Map.{find}
use ff_http_lws.Thread.{HttpThread}
use ff_http_lws.Server.Lifetime.{started, started_free}
use ff_http_lws.Server.{
  Environment, EnvironmentDocs, suspend_called, is_stuck, Game, ok, launch, http_server_toggle,
}
use ff_http_lws.Server.Sessions.{toggle_all, paused_after}

-- The parts that a toggle leaves alone.
pub record Same (g g' : Game) : Type 0 where
  pub settings_kept : g'.settings ≡ g.settings
  pub thread_kept : g'.thread ≡ g.thread
  pub next_kept : g'.next ≡ g.next
  pub live_kept : g'.live ≡ g.live
  pub killed_kept : g'.killed ≡ g.killed
  pub contexts_kept : g'.contexts_destroyed ≡ g.contexts_destroyed

Same-refl : (g : Game) → Same g g
Same-refl g = record {
  settings_kept = refl;
  thread_kept = refl;
  next_kept = refl;
  live_kept = refl;
  killed_kept = refl;
  contexts_kept = refl;
}

Same-trans : {g₁ g₂ g₃ : Game} → Same g₁ g₂ → Same g₂ g₃ → Same g₁ g₃
Same-trans h k = record {
  settings_kept = k.settings_kept ∙ h.settings_kept;
  thread_kept = k.thread_kept ∙ h.thread_kept;
  next_kept = k.next_kept ∙ h.next_kept;
  live_kept = k.live_kept ∙ h.live_kept;
  killed_kept = k.killed_kept ∙ h.killed_kept;
  contexts_kept = k.contexts_kept ∙ h.contexts_kept;
}

abbrev pub stuck_after : Option ℕ → Bool → List Bool → Bool
stuck_after none b ps = false
stuck_after (some r) b ps = paused_after b ps

stuck_after-cons :
    (r : Option ℕ) (b p : Bool) (ps : List Bool) → stuck_after r p ps ≡ stuck_after r b (p ∷ ps)
stuck_after-cons none b p ps = refl
stuck_after-cons (some r) b p ps = refl

pub stuck_after-false :
    (r : Option ℕ) (b : Bool) (ps : List Bool)
    → paused_after b ps ≡ false
    → stuck_after r b ps ≡ false
stuck_after-false none b ps h = refl
stuck_after-false (some r) b ps h = h

toggle_alive :
    {env : Environment} (d : EnvironmentDocs env) (g : Game) (a : ℕ) (t : HttpThread) (p : Bool)
    → g.thread ≡ some a
    → find ◌==◌ a g.live ≡ some t
    → (r : Bool × Game) × (http_server_toggle p g ≡ ok r)
      × Same g r.1
      × (is_stuck env t r.1 ≡ stuck_after t.runnable_thread p [])
unfolding http_server_toggle
toggle_alive d g a t p pointed alive = elim (Option-cases t.runnable_thread) [
  | inl unset ↦ ((false, g), ground (arith, unset), Same-refl g, ground (arith, unset))
  | inr (r, set) ↦ (
    (true, record g { thread_calls = suspend_called r p ∷ g.thread_calls }),
    ground (arith, set),
    record {
      settings_kept = refl;
      thread_kept = refl;
      next_kept = refl;
      live_kept = refl;
      killed_kept = refl;
      contexts_kept = refl;
    },
    ground (arith, set, d.is_paused_suspend r p g.thread_calls),
  )
]

toggle_all_alive :
    {env : Environment} (d : EnvironmentDocs env) (ps : List Bool) (b : Bool) (g : Game) (a : ℕ)
    (t : HttpThread)
    → g.thread ≡ some a
    → find ◌==◌ a g.live ≡ some t
    → is_stuck env t g ≡ stuck_after t.runnable_thread b []
    → (g' : Game) × (toggle_all ps g ≡ ok g')
      × Same g g'
      × (is_stuck env t g' ≡ stuck_after t.runnable_thread b ps)
unfolding toggle_all
toggle_all_alive d [] b g a t pointed alive stuck = (g, refl, Same-refl g, stuck)
toggle_all_alive d (p ∷ ps) b g a t pointed alive stuck =
    let (r, toggled, same, stuck') = toggle_alive d g a t p pointed alive in
    let (g', rest, same', stuck'') =
      toggle_all_alive d ps p r.1 a t (same.thread_kept ∙ pointed) (rw same.live_kept alive)
        stuck' in
    (
      g',
      rw toggled rest,
      Same-trans same same',
      stuck'' ∙ stuck_after-cons t.runnable_thread b p ps,
    )

-- The game between the toggles and the stop of a session.
pub toggled_game :
    {env : Environment} (d : EnvironmentDocs env) (toggles : List Bool) (g : Game)
    → let t = launch env g.settings g.next in
      (g' : Game) × (toggle_all toggles (started env g) ≡ ok g')
      × Same (started env g) g'
      × (is_stuck env t g' ≡ stuck_after t.runnable_thread false toggles)
toggled_game {env} d toggles g =
    let t = launch env g.settings g.next in
    toggle_all_alive d toggles false (started env g) g.next t refl (rw (==_refl g.next))
      (started_free d g ∙ sym (stuck_after-false t.runnable_thread false [] refl))
