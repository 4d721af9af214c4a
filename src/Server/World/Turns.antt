-- ===== src/Server/World/Turns.antt =====
-- A turn of a Run keeps the invariant.
use ff_http_lws.Base.{
  ℕ, Bool, ◌≤◌, ◌≡◌, ◌≢◌, refl, sym, ◌∙◌, subst, false, none, some, ◌==◌, Bool-cases, inl, inr, ◌⊎◌,
  arith,
}
use ff_http_lws.Engine.Map.{find}
use ff_http_lws.Thread.{HttpThread}
use ff_http_lws.Thread.Race.{Worker, returned, of_worker, take_turn}
use ff_http_lws.Server.{Environment, Game}
use ff_http_lws.Server.Shutdown.{Reach, begin}
use ff_http_lws.Server.Shutdown.Paused.{NeverEnds}
use ff_http_lws.Server.World.{
  Doing, idle, destroying, put, World, with_run, worker_of, is_destroying,
}
use ff_http_lws.Server.World.Invariant.{
  Settled, AllSettled, DoingInv, WorldInv, put_other, found-contains, goes_on,
}

module _ {env : Environment} {g₀ : Game} (wakes : Bool) (w : World) (h : WorldInv env g₀ w) (a : ℕ)
    (t : HttpThread) (p : Worker) (alive : find ◌==◌ a w.game.live ≡ some t)
    (placed : w.runs a ≡ some p) where
  next_place : Worker
  next_place = (take_turn (with_run t p w.game) (of_worker wakes)).worker

  has_thread : t.runnable_thread ≢ none
  has_thread unset =
      let gone = (h.settled a t alive).threadless unset in absurd (ground (arith, gone, placed))

  turn-Settled : Settled t (some next_place)
  unfolding next_place
  turn-Settled =
      let (set, q, at, going) = (h.settled a t alive).threaded has_thread in
      let same : p ≡ q = ground (arith, placed, at) in
      record {
        threadless = λ unset. absurd (has_thread unset);
        threaded = λ has. (
          set,
          next_place,
          refl,
          goes_on wakes (with_run t p w.game) set (subst (λ x. x ≢ returned) (sym same) going),
        );
      }

  turn-AllSettled : AllSettled w.game.live (put a (some next_place) w.runs)
  turn-AllSettled b u found = elim (Bool-cases (a == b)) [
    | inl same ↦
        let at : a ≡ b = ground (arith, same) in
        let this : t ≡ u = ground (arith, at, alive, found) in
        rw same (subst (λ x. Settled x (some next_place)) this turn-Settled)
    | inr other ↦ rw other (h.settled b u found)
  ]

  turn-DoingInv :
      (d : Doing)
      → is_destroying a d ≡ false
      → DoingInv env w.game w.runs d
      → DoingInv env w.game (put a (some next_place) w.runs) d
  turn-DoingInv idle other i = tt
  turn-DoingInv (destroying c a' s) other i =
      let (u, entered, found, reached) = i in
      let apart : (a == a') ≡ false = ground (arith, other) in
      (
        u,
        entered,
        found,
        subst (λ x. Reach (begin env w.game (with_run u (worker_of x) w.game)) s ⊎ NeverEnds s)
            (sym (put_other a a' (some next_place) w.runs apart)) reached,
      )

  pub turn-WorldInv :
      is_destroying a w.doing ≡ false
      → WorldInv env g₀ (record w {
        runs = put a (some (take_turn (with_run t p w.game) (of_worker wakes)).worker) w.runs;
      })
  unfolding next_place
  turn-WorldInv other = record {
    sound = h.sound;
    refines = h.refines;
    settled = turn-AllSettled;
    owned = λ b q at going. elim (Bool-cases (a == b)) [
      | inl same ↦
          let eq : a ≡ b = ground (arith, same) in
          found-contains b t w.game.live (subst (λ x. find ◌==◌ x w.game.live ≡ some t) eq alive)
      | inr apart ↦ h.owned b q (sym (put_other a b (some next_place) w.runs apart) ∙ at) going
    ];
    unborn = λ b fresh. elim (Bool-cases (a == b)) [
      | inl same ↦
          let eq : a ≡ b = ground (arith, same) in
          let gone : w.runs a ≡ none = h.unborn a (subst (λ x. w.game.next ≤ x) (sym eq) fresh) in
          absurd (ground (arith, gone, placed))
      | inr apart ↦ put_other a b (some next_place) w.runs apart ∙ h.unborn b fresh
    ];
    doing = turn-DoingInv w.doing other h.doing;
  }
