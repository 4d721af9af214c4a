-- ===== src/Thread/Race/Turns.antt =====
-- What one turn of Run or of Stop leaves as it was, and what Stop makes of the context.
use ff_http_lws.Base.{
  ℕ, ◌≡◌, Bool, refl, sym, ◌∙◌, ap, ap₂, subst, Option, none, some, List, opt_cons, arith,
}
use ff_http_lws.Thread.Race.{
  Sys, Worker, looping, returned, Stopper, guarding, destroying, nulling, dropping_protocols,
  emptying_pool, clearing_flag, finished, of_worker, of_stopper, worker_turn, stopper_turn,
  take_turn,
}

-- A turn of Run leaves everything but its own place as it was.
pub worker_keeps :
    (wakes : Bool) (r : Sys)
    → let r' = take_turn r (of_worker wakes) in
      (r'.thread ≡ r.thread) × (r'.stopper ≡ r.stopper) × (r'.destroyed ≡ r.destroyed)
unfolding take_turn
worker_keeps wakes r = go r.worker
  where
    go :
        (w : Worker)
        → let r' = worker_turn wakes w r in
          (r'.thread ≡ r.thread) × (r'.stopper ≡ r.stopper) × (r'.destroyed ≡ r.destroyed)
    go looping = (refl, refl, refl)
    go _ = (refl, refl, refl)

pub returned_stays :
    (wakes : Bool) (r : Sys)
    → r.worker ≡ returned
    → (take_turn r (of_worker wakes)).worker ≡ returned
unfolding take_turn
returned_stays wakes r h = ground arith

-- A turn of Stop leaves Run where it was, and the handle of its thread.
pub stopper_keeps :
    (r : Sys)
    → let r' = take_turn r of_stopper in
      (r'.worker ≡ r.worker) × (r'.thread.runnable_thread ≡ r.thread.runnable_thread)
unfolding take_turn
stopper_keeps r = go r.stopper
  where
    go :
        (p : Stopper)
        → let r' = stopper_turn p r in
          (r'.worker ≡ r.worker) × (r'.thread.runnable_thread ≡ r.thread.runnable_thread)
    go guarding = (refl, refl)
    go finished = (refl, refl)
    go _ = (refl, refl)

-- What Stop has made of the context `c` and of the destroyed contexts `ds`, by where it stands.
abbrev pub EndedAt : Option ℕ → List ℕ → Stopper → Sys → Type 0
EndedAt c ds guarding r = (r.destroyed ≡ ds) × (r.thread.context ≡ c)
EndedAt c ds destroying r = (r.destroyed ≡ ds) × (r.thread.context ≡ c)
EndedAt c ds nulling r = (r.destroyed ≡ opt_cons c ds) × (r.thread.context ≡ c)
EndedAt c ds _ r = (r.destroyed ≡ opt_cons c ds) × (r.thread.context ≡ none)

abbrev pub Ended : Option ℕ → List ℕ → Sys → Type 0
Ended c ds r = EndedAt c ds r.stopper r

EndedAt-same :
    (c : Option ℕ) (ds : List ℕ) (p : Stopper) (r r' : Sys)
    → r'.thread ≡ r.thread
    → r'.destroyed ≡ r.destroyed
    → EndedAt c ds p r
    → EndedAt c ds p r'
EndedAt-same c ds guarding r r' t d h = ground arith
EndedAt-same c ds destroying r r' t d h = ground arith
EndedAt-same c ds nulling r r' t d h = ground arith
EndedAt-same c ds _ r r' t d h = ground arith

pub worker-Ended :
    (wakes : Bool) (c : Option ℕ) (ds : List ℕ) (r : Sys)
    → Ended c ds r
    → Ended c ds (take_turn r (of_worker wakes))
worker-Ended wakes c ds r h =
    let (thread, stopper, destroyed) = worker_keeps wakes r in
    subst (λ p. EndedAt c ds p (take_turn r (of_worker wakes))) (sym stopper)
      (EndedAt-same c ds r.stopper r (take_turn r (of_worker wakes)) thread destroyed h)

guarding-Ended :
    (c : Option ℕ) (ds : List ℕ) (r : Sys) (x : Option ℕ)
    → r.thread.context ≡ x
    → (r.destroyed ≡ ds) × (r.thread.context ≡ c)
    → Ended c ds (record r {
      stopper = elim x as (λ _. Stopper) [ none ↦ dropping_protocols | some _ ↦ destroying ];
    })
guarding-Ended c ds r none n (d, e) = (d ∙ ap (λ y. opt_cons y ds) (sym n ∙ e), n)
guarding-Ended c ds r (some a) n h = h

pub stopper-Ended :
    (c : Option ℕ) (ds : List ℕ) (r : Sys) → Ended c ds r → Ended c ds (take_turn r of_stopper)
unfolding take_turn
stopper-Ended c ds r h = go r.stopper h
  where
    go : (p : Stopper) → EndedAt c ds p r → Ended c ds (stopper_turn p r)
    go guarding h = guarding-Ended c ds r r.thread.context refl h
    go destroying (d, e) = (ap₂ opt_cons e d, e)
    go nulling h = (h.0, refl)
    go dropping_protocols h = h
    go emptying_pool h = h
    go clearing_flag h = h
    go finished h' = h

pub finished-Ended :
    (c : Option ℕ) (ds : List ℕ) (r : Sys)
    → r.stopper ≡ finished
    → Ended c ds r
    → r.destroyed ≡ opt_cons c ds
finished-Ended c ds r e h = (subst (λ p. EndedAt c ds p r) e h).0
