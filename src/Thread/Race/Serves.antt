-- ===== src/Thread/Race/Serves.antt =====
-- Run with a context, where each call of `lws_service` returns in the end.
use ff_http_lws.Base.{
  ℕ, zero, suc, ◌+◌, ◌≤◌, ◌≡◌, refl, sym, ◌∙◌, ap, Bool, true, false, some, Bool-cases, inl, inr,
  arith,
}
use ff_http_lws.Thread.{HttpThread}
use ff_http_lws.Thread.Race.{
  Sys, Worker, looping, testing, calling, in_service, of_worker, take_turn,
}
use ff_http_lws.Thread.Race.Idle.{at_start}

-- Some turns of Run from a moment on, where `wakes` tells in which turns `lws_service` returns if Run is
-- inside.
pub run_for : (ℕ → Bool) → ℕ → ℕ → Sys → Sys
run_for wakes n zero s = s
run_for wakes n (suc k) s = run_for wakes (suc n) k (take_turn s (of_worker (wakes n)))

-- From every moment on there is a turn in which `lws_service` returns if Run is inside.
abbrev pub Returns : (ℕ → Bool) → Type 0
Returns wakes = (n : ℕ) → (d : ℕ) × (wakes (n + d) ≡ true)

-- The places of Run with a context.
data Place : Type 0 where
  at_flag at_context at_call inside : Place

next : Bool → Place → Place
next wakes at_flag = at_context
next wakes at_context = at_call
next wakes at_call = inside
next true inside = at_flag
next false inside = inside

walk : (ℕ → Bool) → ℕ → ℕ → Place → Place
walk wakes n zero p = p
walk wakes n (suc k) p = walk wakes (suc n) k (next (wakes n) p)

walk-append :
    (wakes : ℕ → Bool) (n a b : ℕ) (p : Place)
    → walk wakes n (a + b) p ≡ walk wakes (n + a) b (walk wakes n a p)
unfolding walk
walk-append wakes n zero b p =
    let e : 0 + b ≡ b = omega arith in let e' : n + 0 ≡ n = omega arith in rw (e, e') refl
walk-append wakes n (suc a) b p =
    let e : suc a + b ≡ suc (a + b) = omega arith in
    let e' : n + suc a ≡ suc n + a = omega arith in
    rw (e, e') (walk-append wakes (suc n) a b (next (wakes n) p))

-- From inside a call that returns within some turns, Run comes to the next call.
walk-inside :
    (wakes : ℕ → Bool) (d n : ℕ)
    → wakes (n + d) ≡ true
    → (k : ℕ) × (walk wakes n k inside ≡ at_call)
unfolding walk next
walk-inside wakes zero n now =
    let z : n + 0 ≡ n = omega arith in
    let here : wakes n ≡ true = ap wakes (sym z) ∙ now in (3, rw here refl)
walk-inside wakes (suc d) n now = elim (Bool-cases (wakes n)) [
  | inl here ↦ (3, rw here refl)
  | inr asleep ↦
      let z : n + suc d ≡ suc n + d = omega arith in
      let (k, there) = walk-inside wakes d (suc n) (ap wakes (sym z) ∙ now) in
      (suc k, rw asleep there)
]

walk-at_call :
    (wakes : ℕ → Bool)
    → Returns wakes
    → (p : Place) (n : ℕ) → (k : ℕ) × (walk wakes n k p ≡ at_call)
unfolding walk next
walk-at_call wakes returns at_flag n = (2, refl)
walk-at_call wakes returns at_context n = (1, refl)
walk-at_call wakes returns at_call n = (0, refl)
walk-at_call wakes returns inside n = let (d, now) = returns n in walk-inside wakes d n now

module _ (t : HttpThread) (c : ℕ) (set : t.start_thread ≡ true) (shared : t.context ≡ some c) where
  worker_at : Place → Worker
  worker_at at_flag = looping
  worker_at at_context = testing
  worker_at at_call = calling
  worker_at inside = in_service (some c)

  abbrev sys_at : Place → Sys
  sys_at p = record (at_start t) { worker = worker_at p }

  take_turn-next :
      (wakes : Bool) (p : Place) → take_turn (sys_at p) (of_worker wakes) ≡ sys_at (next wakes p)
  unfolding take_turn worker_at next
  take_turn-next wakes at_flag = rw set refl
  take_turn-next wakes at_context = rw shared refl
  take_turn-next wakes at_call = ap (λ x. record (at_start t) { worker = in_service x }) shared
  take_turn-next true inside = refl
  take_turn-next false inside = refl

  run_for-walk :
      (wakes : ℕ → Bool) (k n : ℕ) (p : Place)
      → run_for wakes n k (sys_at p) ≡ sys_at (walk wakes n k p)
  unfolding run_for walk
  run_for-walk wakes zero n p = refl
  run_for-walk wakes (suc k) n p =
      ap (run_for wakes (suc n) k) (take_turn-next (wakes n) p)
      ∙ run_for-walk wakes k (suc n) (next (wakes n) p)

  -- Run comes to its call again and again, if each call returns in the end.
  pub calls_again :
      (wakes : ℕ → Bool)
      → Returns wakes
      → (n : ℕ)
      → (m : ℕ) × (n ≤ m)
        × ((run_for wakes 0 m (at_start t)).worker ≡ calling)
        × ((run_for wakes 0 (m + 1) (at_start t)).worker ≡ in_service (some c))
  unfolding worker_at walk next
  calls_again wakes returns n =
      let p = walk wakes 0 n at_flag in
      let (k, there) = walk-at_call wakes returns p (0 + n) in
      let before : walk wakes 0 (n + k) at_flag ≡ at_call =
        walk-append wakes 0 n k at_flag ∙ there in
      let after : walk wakes 0 ((n + k) + 1) at_flag ≡ inside =
        walk-append wakes 0 (n + k) 1 at_flag ∙ ap (next (wakes (0 + (n + k)))) before in
      (
        n + k,
        omega arith,
        ap (λ (s : Sys). s.worker) (run_for-walk wakes (n + k) 0 at_flag) ∙ ap worker_at before,
        ap (λ (s : Sys). s.worker) (run_for-walk wakes ((n + k) + 1) 0 at_flag)
            ∙ ap worker_at after,
      )
