-- ===== src/Server/World/Refines.antt =====
-- The running server against the calls of the actor as single steps.
use ff_http_lws.Base.{
  ℕ, ◌≡◌, ◌≢◌, refl, sym, ◌∙◌, ap, subst, true, false, none, some, [], ◌==◌, Bool-cases, inl, inr,
  ◌⊎◌, arith, if◌then◌else◌,
}
use ff_http_lws.Engine.Map.{find}
use ff_http_lws.Thread.{HttpThread}
use ff_http_lws.Thread.Race.{Worker, returned, in_service}
use ff_http_lws.Server.{Environment, Game, ok}
use ff_http_lws.Server.Accounts.{AllWhole}
use ff_http_lws.Server.Heap.{Below}
use ff_http_lws.Server.Changes.{after_calls}
use ff_http_lws.Server.Shutdown.{System, Reach, here, later}
use ff_http_lws.Server.World.{
  with_run, Doing, idle, destroying, World, Happens, run_goes_on, returns, enters_destructor,
  stops_itself, destructor_step, leaves_destructor, Reachable, at_once, afterwards, world_of,
  is_destroying, place, has_memory,
}
use ff_http_lws.Server.Shutdown.Paused.{
  NeverEnds, Step-NeverEnds, NeverEnds-unfreed, begin_inside-NeverEnds,
}
use ff_http_lws.Server.World.Invariant.{DoingInv, WorldInv}
use ff_http_lws.Server.World.Turns.{turn-WorldInv}
use ff_http_lws.Server.World.Quiet.{returns-WorldInv}
use ff_http_lws.Server.World.Destroyed.{leaves-WorldInv, freed-returned}

pub world_of-WorldInv : (env : Environment) (g : Game) → g.live ≡ [] → WorldInv env g (world_of g)
unfolding after_calls
world_of-WorldInv env g empty = record {
  sound = record {
    heap = subst (Below g.next) (sym empty) tt;
    whole = subst AllWhole (sym empty) tt;
  };
  refines = refl;
  settled = λ b t found. absurd (ground (arith, empty, found));
  owned = λ b p at. absurd (cc);
  unborn = λ b fresh. refl;
  doing = tt;
}

-- A destructor that gives the memory back has not waited for ever.
ends : {b s : System} → Reach b s ⊎ NeverEnds s → s.freed ≡ true → Reach b s
ends (inl first) freed = first
ends (inr held) freed = absurd (ground (arith, freed, NeverEnds-unfreed held))

module _ {env : Environment} {g₀ : Game} where
  Happens-WorldInv : {w v : World} → Happens env w v → WorldInv env g₀ w → WorldInv env g₀ v
  Happens-WorldInv {w} (run_goes_on wakes a t p other alive placed free) h =
      turn-WorldInv wakes w h a t p alive placed other
  Happens-WorldInv {w} (returns c r nothing outside result) h =
      returns-WorldInv w h c r nothing outside result
  Happens-WorldInv {w} (enters_destructor c a t nothing entered alive) h = record {
    sound = h.sound;
    refines = h.refines;
    settled = h.settled;
    owned = h.owned;
    unborn = h.unborn;
    doing = (t, entered, alive, inl here);
  }
  Happens-WorldInv {w} (stops_itself c a k t nothing entered alive inside) h = record {
    sound = h.sound;
    refines = h.refines;
    settled = h.settled;
    owned = h.owned;
    unborn = h.unborn;
    doing = (
      t,
      entered,
      alive,
      inr (
          begin_inside-NeverEnds env w.game (with_run t (in_service (some k)) w.game)
            (λ unset. absurd (ground (arith, (h.settled a t alive).threadless unset, inside)))
            (λ e. absurd cc)),
    );
  }
  Happens-WorldInv {w} (destructor_step c a s s' now step) h =
      let (t, entered, alive, reached) = subst (DoingInv env w.game w.runs) now h.doing in
      record {
        sound = h.sound;
        refines = h.refines;
        settled = h.settled;
        owned = h.owned;
        unborn = h.unborn;
        doing = (
          t,
          entered,
          alive,
          elim reached [
            | inl first ↦ inl (later first step)
            | inr held ↦ inr (Step-NeverEnds step held)
          ],
        );
      }
  Happens-WorldInv {w} (leaves_destructor c a s now freed) h =
      let (t, entered, alive, reached) = subst (DoingInv env w.game w.runs) now h.doing in
      leaves-WorldInv w h c a s t entered alive (ends reached freed) freed

  pub Reachable-WorldInv : {w v : World} → Reachable env w v → WorldInv env g₀ w → WorldInv env g₀ v
  Reachable-WorldInv at_once h = h
  Reachable-WorldInv (afterwards before now) h = Happens-WorldInv now (Reachable-WorldInv before h)

  place-has_memory :
      (w : World) (b : ℕ) (p : Worker)
      → WorldInv env g₀ w
      → place w b ≡ some p
      → p ≢ returned
      → has_memory w b ≡ true
  place-has_memory w b p h = go w.doing refl
    where
      go :
          (d : Doing)
          → w.doing ≡ d
          → place (record w { doing = d }) b ≡ some p
          → p ≢ returned
          → has_memory (record w { doing = d }) b ≡ true
      go idle now at going = h.owned b p at going
      go (destroying c a s) now at going = elim (Bool-cases (a == b)) [
        | inr other ↦ rw other (
            h.owned b p (sym (ap (λ x. if x then some s.race.worker else w.runs b) other) ∙ at)
              going)
        | inl same ↦ elim (Bool-cases s.freed) [
          | inr kept ↦ rw (same, kept) refl
          | inl freed ↦
              let (t, entered, alive, reached) = subst (DoingInv env w.game w.runs) now h.doing in
              let gone = freed-returned w h c a s t entered alive (ends reached freed) freed in
              let last : some s.race.worker ≡ some p =
                sym (ap (λ x. if x then some s.race.worker else w.runs b) same) ∙ at in
              absurd (going (ground (arith, last, gone)))
        ]
      ]

-- From an actor without thread objects, in every state of the server that calls of the actor, the
-- statements of its destructors and turns of the Runs reach in any interleaving: the game is the one
-- that the same calls leave behind as single steps, one after the other.
pub world_refines :
    (env : Environment) (g : Game) (w : World)
    → g.live ≡ []
    → Reachable env (world_of g) w
    → after_calls env w.calls g ≡ ok w.game
world_refines env g w empty reached =
    let h = Reachable-WorldInv reached (world_of-WorldInv env g empty) in h.refines

-- From an actor without thread objects, in every state of the server that calls, statements of
-- the destructors and turns of the Runs reach in any interleaving: a Run that has not returned
-- has its thread object in memory, whether the object is live, lost by the actor or being
-- destroyed.
pub run_has_memory :
    (env : Environment) (g : Game) (w : World) (b : ℕ) (p : Worker)
    → g.live ≡ []
    → Reachable env (world_of g) w
    → place w b ≡ some p
    → p ≢ returned
    → has_memory w b ≡ true
run_has_memory env g w b p empty reached at going =
    place-has_memory w b p (Reachable-WorldInv reached (world_of-WorldInv env g empty)) at going

-- From an actor without thread objects, in every state of the server that calls, statements of
-- the destructors and turns of the Runs reach in any interleaving: a thread object that is live,
-- has a thread and is not being destroyed has its Run, and it has not returned; so the Run of an
-- object that the actor has lost goes on as long as the object is live.
pub live_object_runs :
    (env : Environment) (g : Game) (w : World) (b : ℕ) (t : HttpThread)
    → g.live ≡ []
    → Reachable env (world_of g) w
    → find ◌==◌ b w.game.live ≡ some t
    → t.runnable_thread ≢ none
    → is_destroying b w.doing ≡ false
    → (p : Worker) × (place w b ≡ some p) × (p ≢ returned)
live_object_runs env g w b t empty reached alive has other =
    let h = Reachable-WorldInv reached (world_of-WorldInv env g empty) in
    let (flag, p, at, going) = (h.settled b t alive).threaded has in (p, go w.doing other at, going)
  where
    go :
        (d : Doing) {p : Worker}
        → is_destroying b d ≡ false
        → w.runs b ≡ some p
        → place (record w { doing = d }) b ≡ some p
    go idle apart at = at
    go (destroying c a s) apart at = rw apart at
