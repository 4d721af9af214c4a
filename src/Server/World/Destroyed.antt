-- ===== src/Server/World/Destroyed.antt =====
-- The end of a destructor keeps the invariant, and the call has done what it does as one step.
use ff_http_lws.Base.{
  ℕ, ◌≡◌, ◌≢◌, refl, sym, ◌∙◌, ap, subst, Bool, true, false, Option, none, some, [], ◌∷◌, ◌++◌,
  ◌==◌, Bool-cases, Option-cases, inl, inr, arith, if◌then◌else◌,
}
use ff_http_lws.Engine.Map.{find, remove, contains_key}
use ff_http_lws.Thread.{HttpThread}
use ff_http_lws.Thread.Race.{Worker, returned}
use ff_http_lws.Server.{Environment, Game, ok, is_stuck, destroy_thread, http_server_stop}
use ff_http_lws.Server.Lifetime.{find-removed, stop_alive}
use ff_http_lws.Server.Protocol.{Call}
use ff_http_lws.Server.Accounts.{IsSound, find-IsWhole, Change-IsSound}
use ff_http_lws.Server.Changes.{deleted, enters, enters-thread, answer-stop}
use ff_http_lws.Server.Shutdown.{System, Reach, begin}
use ff_http_lws.Server.Shutdown.Safety.{destroy_thread_refines}
use ff_http_lws.Server.Shutdown.Paused.{paused_never_freed}
use ff_http_lws.Server.World.{idle, put, World, with_run, worker_of, destroyed_game}
use ff_http_lws.Server.World.Invariant.{Settled, WorldInv, put_other, found-Below}
use ff_http_lws.Server.Leaks.{find-remove_other}
use ff_http_lws.Server.World.Quiet.{after_calls-append}
use ff_http_lws.Server.Returns.{destroy_thread_rest}

module _ {env : Environment} {g₀ : Game} (w : World) (h : WorldInv env g₀ w) (c : Call) (a : ℕ)
    (s : System) (t : HttpThread) (entered : enters c w.game ≡ some a)
    (alive : find ◌==◌ a w.game.live ≡ some t)
    (reached : Reach (begin env w.game (with_run t (worker_of (w.runs a)) w.game)) s)
    (freed : s.freed ≡ true) where
  whole_sys : t.runnable_thread ≡ none → (worker_of (w.runs a) ≡ returned) × (t.context ≡ none)
  whole_sys unset = (
    rw ((h.settled a t alive).threadless unset) refl,
    find-IsWhole a t w.game.live h.sound.whole alive unset,
  )

  -- The thread was not paused, or the destructor would still wait.
  not_stuck : is_stuck env t w.game ≡ false
  not_stuck = elim (Option-cases t.runnable_thread) [
    | inl unset ↦ rw unset refl
    | inr (r, set) ↦ elim (Bool-cases (is_stuck env t w.game)) [
      | inr free ↦ free
      | inl stuck ↦
          let has : t.runnable_thread ≢ none = λ unset. absurd (ground (arith, set, unset)) in
          let (flag, p, at, going) = (h.settled a t alive).threaded has in
          let inside : worker_of (w.runs a) ≢ returned = λ e. going (ground (arith, at, e)) in
          let waits =
            paused_never_freed env w.game (with_run t (worker_of (w.runs a)) w.game) stuck inside
              reached in
          absurd (ground (arith, freed, waits.0))
    ]
  ]

  whole_game :
      destroyed_game a s w.game
      ≡ record (destroy_thread t w.game) { live = remove ◌==◌ a w.game.live }
  whole_game =
      let (_, killed, destroyed) =
        destroy_thread_refines env w.game (with_run t (worker_of (w.runs a)) w.game) whole_sys refl
          reached freed in
      rw (killed, destroyed) (destroy_thread_rest t w.game (remove ◌==◌ a w.game.live))

  pub freed-returned : s.race.worker ≡ returned
  freed-returned =
      (destroy_thread_refines env w.game (with_run t (worker_of (w.runs a)) w.game) whole_sys refl
        reached freed).0

  pointed : w.game.thread ≡ some a
  pointed = enters-thread c w.game a entered

  pub stopped : http_server_stop env w.game ≡ ok (destroyed_game a s w.game)
  stopped = stop_alive env w.game a pointed t alive not_stuck ∙ ap ok (sym whole_game)

  after_remove :
      (b : ℕ) → (a == b) ≡ false → find ◌==◌ b (remove ◌==◌ a w.game.live) ≡ find ◌==◌ b w.game.live
  after_remove b other = find-remove_other b a w.game.live other

  destroyed-Settled :
      (b : ℕ) (u : HttpThread)
      → find ◌==◌ b (remove ◌==◌ a w.game.live) ≡ some u
      → Settled u (put a (some s.race.worker) w.runs b)
  destroyed-Settled b u found = elim (Bool-cases (a == b)) [
    | inl same ↦
        let eq : a ≡ b = ground (arith, same) in
        let gone = find-removed a w.game.live in absurd (ground (arith, gone, found, eq))
    | inr other ↦ rw other (h.settled b u (sym (after_remove b other) ∙ found))
  ]

  destroyed-owned :
      (b : ℕ) (p : Worker)
      → put a (some s.race.worker) w.runs b ≡ some p
      → p ≢ returned
      → contains_key ◌==◌ b (remove ◌==◌ a w.game.live) ≡ true
  destroyed-owned b p at going = elim (Bool-cases (a == b)) [
    | inl same ↦
        let last : some s.race.worker ≡ some p =
          sym (ap (λ x. if x then some s.race.worker else w.runs b) same) ∙ at in
        absurd (going (ground (arith, last, freed-returned)))
    | inr other ↦
        let before : w.runs b ≡ some p =
          sym (put_other a b (some s.race.worker) w.runs other) ∙ at in
        ap (λ (o : Option HttpThread). elim o as (λ _. Bool) [ none ↦ false | some v ↦ true ])
          (after_remove b other)
        ∙ h.owned b p before going
  ]

  pub leaves-WorldInv : WorldInv env g₀ (record w {
    game = destroyed_game a s w.game;
    runs = put a (some s.race.worker) w.runs;
    doing = idle;
    calls = w.calls ++ c ∷ [];
  })
  leaves-WorldInv = record {
    sound = subst IsSound (sym whole_game) (Change-IsSound env (deleted a t pointed alive) h.sound);
    refines =
        after_calls-append env w.calls c g₀ w.game (true, destroyed_game a s w.game) h.refines
          (answer-stop env c w.game (destroyed_game a s w.game) a entered stopped);
    settled = destroyed-Settled;
    owned = destroyed-owned;
    unborn = λ b fresh.
        let other : (a == b) ≡ false =
          ground (arith, found-Below w.game.next a t w.game.live h.sound.heap alive, fresh) in
        put_other a b (some s.race.worker) w.runs other ∙ h.unborn b fresh;
    doing = tt;
  }
