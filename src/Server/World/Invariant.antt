-- ===== src/Server/World/Invariant.antt =====
-- What every step of the running server keeps.
use ff_http_lws.Base.{
  Bool, ℕ, ◌≤◌, ◌<◌, ◌≡◌, ◌≢◌, refl, true, false, Option, none, some, [], ◌∷◌, ◌==◌, ==_refl,
  Bool-cases, Option-cases, inl, inr, ◌⊎◌, arith,
}
use ff_http_lws.Engine.Map.{TMap, find, contains_key}
use ff_http_lws.Thread.{HttpThread}
use ff_http_lws.Thread.Race.{
  Sys, Worker, looping, testing, calling, returned, in_service, of_worker, take_turn, service_turn,
  is_wrong,
}
use ff_http_lws.Server.{Environment, Game, ok}
use ff_http_lws.Server.Heap.{Below}
use ff_http_lws.Server.Accounts.{IsSound}
use ff_http_lws.Server.Changes.{after_calls, enters}
use ff_http_lws.Server.Shutdown.{Reach, begin}
use ff_http_lws.Server.Shutdown.Paused.{NeverEnds}
use ff_http_lws.Server.World.{Doing, idle, destroying, Runs, put, World, with_run, worker_of}

-- A live object and its Run: an object without a thread has none, and with a thread Run has not
-- returned, since its flag is set.
pub record Settled (t : HttpThread) (place : Option Worker) : Type 0 where
  pub threadless : t.runnable_thread ≡ none → place ≡ none
  pub threaded :
      t.runnable_thread ≢ none
      → (t.start_thread ≡ true) × (p : Worker) × (place ≡ some p) × (p ≢ returned)

abbrev pub AllSettled : TMap ℕ HttpThread → Runs → Type 0
AllSettled live runs = (b : ℕ) (t : HttpThread) → find ◌==◌ b live ≡ some t → Settled t (runs b)

-- A Run that has not returned has its object.
abbrev pub AllOwned : TMap ℕ HttpThread → Runs → Type 0
AllOwned live runs =
    (b : ℕ) (p : Worker) → runs b ≡ some p → p ≢ returned → contains_key ◌==◌ b live ≡ true

-- No Run is at an address that is not given out.
abbrev pub Unborn : ℕ → Runs → Type 0
Unborn n runs = (b : ℕ) → n ≤ b → runs b ≡ none

-- The destructor was entered on a live object, with its Run where it stands; or it
-- waits for ever.
abbrev pub DoingInv : Environment → Game → Runs → Doing → Type 0
DoingInv env g runs idle = Unit {0}
DoingInv env g runs (destroying c a s) =
    (t : HttpThread) × (enters c g ≡ some a)
    × (find ◌==◌ a g.live ≡ some t)
    × (Reach (begin env g (with_run t (worker_of (runs a)) g)) s ⊎ NeverEnds s)

pub record WorldInv (env : Environment) (g₀ : Game) (w : World) : Type 0 where
  pub sound : IsSound w.game
  pub refines : after_calls env w.calls g₀ ≡ ok w.game
  pub settled : AllSettled w.game.live w.runs
  pub owned : AllOwned w.game.live w.runs
  pub unborn : Unborn w.game.next w.runs
  pub doing : DoingInv env w.game w.runs w.doing

pub put_same : (a : ℕ) (p : Option Worker) (runs : Runs) → put a p runs a ≡ p
put_same a p runs = rw (==_refl a) refl

pub put_other :
    (a b : ℕ) (p : Option Worker) (runs : Runs) → (a == b) ≡ false → put a p runs b ≡ runs b
put_other a b p runs other = rw other refl

pub found-Below :
    (n a : ℕ) (t : HttpThread) (live : TMap ℕ HttpThread)
    → Below n live
    → find ◌==◌ a live ≡ some t
    → a < n
found-Below n a t [] h found = absurd (cc)
found-Below n a t ((b, u) ∷ live) h found = elim (Bool-cases (b == a)) [
  | inl same ↦ ground (arith, same, h.0)
  | inr other ↦ found-Below n a t live h.2 (ground (arith, other, found))
]

pub found-contains :
    (a : ℕ) (t : HttpThread) (live : TMap ℕ HttpThread)
    → find ◌==◌ a live ≡ some t
    → contains_key ◌==◌ a live ≡ true
found-contains a t live found = rw (contains_key, found) refl

service_goes_on : (wakes wrong : Bool) (c : Option ℕ) → service_turn wakes wrong c ≢ returned
service_goes_on true false c = λ e. absurd (cc)
service_goes_on true true c = λ e. absurd (cc)
service_goes_on false wrong c = λ e. absurd (cc)

-- With the flag set, no turn of Run returns.
pub goes_on :
    (wakes : Bool) (s : Sys)
    → s.thread.start_thread ≡ true
    → s.worker ≢ returned
    → (take_turn s (of_worker wakes)).worker ≢ returned
unfolding take_turn
goes_on wakes s set going = go s.worker refl
  where
    go : (p : Worker) → s.worker ≡ p → (take_turn s (of_worker wakes)).worker ≢ returned
    go looping at = λ e. ground (arith, set, at, e)
    go testing at = elim (Option-cases s.thread.context) [
      | inl missing ↦ λ e. ground (arith, missing, at, e)
      | inr (c, shared) ↦ λ e. ground (arith, shared, at, e)
    ]
    go calling at = λ e. ground (arith, at, e)
    go (in_service c) at = rw at (service_goes_on wakes (is_wrong c s.destroyed) c)
    go returned at = absurd (going at)
