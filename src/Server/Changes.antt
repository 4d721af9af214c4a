-- ===== src/Server/Changes.antt =====
-- What the calls of the actor may change: the three steps that they are made of, and what many
-- calls leave behind.
pub mod History
use ff_http_lws.Base.{
  ℕ, zero, ◌+◌, ◌≡◌, refl, subst, Bool, true, false, Option, none, some, List, [], ◌∷◌, is_empty,
  Bool-cases, Option-cases, inl, inr, ◌==◌, if◌then◌else◌, arith,
}
use ff_http_lws.Engine.Map.{find, remove}
use ff_http_lws.Thread.{ServerSettings, HttpThread, toggle}
use ff_http_lws.Server.Lifetime.{started, start_named, stop_alive, stop_stuck, use_dead}
use ff_http_lws.Server.{
  Environment, Game, Outcome, ok, undefined_behaviour, never_returns, ◌>>=◌, ThreadCall, is_stuck,
  suspend_called, http_server_start, destroy_thread, http_server_stop, http_server_toggle,
  begin_play, end_play,
}
use ff_http_lws.Server.Returns.{null_stop, null_toggle, suspended_by, toggle_value}
use ff_http_lws.Server.Protocol.{
  Call, on_begin_play, call_start, call_stop, on_end_play, call_toggle, answer,
}

-- The game after some calls, one after the other.
unfoldable pub after_calls : Environment → List Call → Game → Outcome Game
unfolding answer
after_calls env [] g = ok g
after_calls env (c ∷ cs) g = do r ← answer env c g; after_calls env cs r.1

-- How many thread objects a call makes, and some calls.
abbrev pub starts : ServerSettings → Call → ℕ
starts s on_begin_play = if is_empty s.server_name then 0 else 1
starts s call_start = if is_empty s.server_name then 0 else 1
starts s call_stop = 0
starts s on_end_play = 0
starts s (call_toggle is_pause) = 0

abbrev pub all_starts : ServerSettings → List Call → ℕ
all_starts s [] = 0
all_starts s (c ∷ cs) = starts s c + all_starts s cs

-- What one call may do to the game: tell the engine of its threads, or make a thread object. The
-- number is that of the objects made.
pub data Quiet (env : Environment) (g : Game) : ℕ → Game → Type 0 where
  told : (calls : List ThreadCall) → Quiet env g 0 (record g { thread_calls = calls })
  launched : Quiet env g 1 (started env g)

-- Or else it deletes the object that the actor points to.
pub data Change (env : Environment) (g : Game) : ℕ → Game → Type 0 where
  quiet : {k : ℕ} {g' : Game} → Quiet env g k g' → Change env g k g'
  deleted :
      (a : ℕ) (t : HttpThread)
      → g.thread ≡ some a
      → find ◌==◌ a g.live ≡ some t
      → Change env g 0 (record (destroy_thread t g) { live = remove ◌==◌ a g.live })

-- The object whose destructor a call runs.
abbrev pub enters : Call → Game → Option ℕ
enters call_stop g = g.thread
enters on_end_play g = g.thread
enters _ g = none

-- A call that returns, with the game it leaves, has made such a change.
abbrev Changes : Environment → Game → ℕ → Outcome (Bool × Game) → Type 0
Changes env g k (ok r) = Change env g k r.1
Changes env g k undefined_behaviour = Unit
Changes env g k never_returns = Unit

abbrev Quiets : Environment → Game → ℕ → Outcome (Bool × Game) → Type 0
Quiets env g k (ok r) = Quiet env g k r.1
Quiets env g k undefined_behaviour = Unit
Quiets env g k never_returns = Unit

module _ (env : Environment) (g : Game) where
  start-Quiet :
      Quiet env g (if is_empty g.settings.server_name then 0 else 1) (http_server_start env g).1
  unfolding http_server_start
  start-Quiet = elim (Bool-cases (is_empty g.settings.server_name)) [
    | inl unnamed ↦ rw unnamed (told g.thread_calls)
    | inr named ↦ rw named launched
  ]

  stop-Changes : Changes env g 0 (do g' ← http_server_stop env g; ok (true, g'))
  stop-Changes = elim (Option-cases g.thread) [
    | inl unset ↦ rw (null_stop env g unset) (quiet (told g.thread_calls))
    | inr (a, pointed) ↦ elim (Option-cases (find ◌==◌ a g.live)) [
      | inl dead ↦ rw (use_dead env g a pointed dead).0 tt
      | inr (t, alive) ↦ elim (Bool-cases (is_stuck env t g)) [
        | inl stuck ↦ rw (stop_stuck env g a pointed t alive stuck) tt
        | inr free ↦ rw (stop_alive env g a pointed t alive free) (deleted a t pointed alive)
      ]
    ]
  ]

  suspended-Quiet : (o : Option ℕ) (is_pause : Bool) → Quiet env g 0 (suspended_by o is_pause g)
  suspended-Quiet none is_pause = told g.thread_calls
  suspended-Quiet (some r) is_pause = told (suspend_called r is_pause ∷ g.thread_calls)

  toggle-Quiets : (is_pause : Bool) → Quiets env g 0 (http_server_toggle is_pause g)
  toggle-Quiets is_pause = elim (Option-cases g.thread) [
    | inl unset ↦ rw (null_toggle g is_pause unset) (told g.thread_calls)
    | inr (a, pointed) ↦ elim (Option-cases (find ◌==◌ a g.live)) [
      | inl dead ↦ rw ((use_dead env g a pointed dead).1 is_pause) tt
      | inr (t, alive) ↦
          rw (toggle_value g a t is_pause pointed alive)
            (suspended-Quiet t.runnable_thread is_pause)
    ]
  ]

  Quiets-Changes : (k : ℕ) (o : Outcome (Bool × Game)) → Quiets env g k o → Changes env g k o
  Quiets-Changes k (ok r) h = quiet h
  Quiets-Changes k undefined_behaviour h = tt
  Quiets-Changes k never_returns h = tt

  answer-Changes : (c : Call) → Changes env g (starts g.settings c) (answer env c g)
  unfolding answer begin_play end_play
  answer-Changes on_begin_play = quiet start-Quiet
  answer-Changes call_start = quiet start-Quiet
  answer-Changes call_stop = stop-Changes
  answer-Changes on_end_play = stop-Changes
  answer-Changes (call_toggle is_pause) = Quiets-Changes 0 _ (toggle-Quiets is_pause)

  answer-Quiets :
      (c : Call) → enters c g ≡ none → Quiets env g (starts g.settings c) (answer env c g)
  unfolding answer begin_play end_play
  answer-Quiets on_begin_play h = start-Quiet
  answer-Quiets call_start h = start-Quiet
  answer-Quiets call_stop h = rw (null_stop env g h) (told g.thread_calls)
  answer-Quiets on_end_play h = rw (null_stop env g h) (told g.thread_calls)
  answer-Quiets (call_toggle is_pause) h = toggle-Quiets is_pause

  pub answer-Change :
      (c : Call) (r : Bool × Game) → answer env c g ≡ ok r → Change env g (starts g.settings c) r.1
  answer-Change c r returned =
      subst (Changes env g (starts g.settings c)) returned (answer-Changes c)

  -- A call that runs no destructor.
  pub answer-Quiet :
      (c : Call) (r : Bool × Game)
      → enters c g ≡ none
      → answer env c g ≡ ok r
      → Quiet env g (starts g.settings c) r.1
  answer-Quiet c r outside returned =
      subst (Quiets env g (starts g.settings c)) returned (answer-Quiets c outside)

pub enters-thread : (c : Call) (g : Game) (a : ℕ) → enters c g ≡ some a → g.thread ≡ some a
enters-thread call_stop g a h = h
enters-thread on_end_play g a h = h
enters-thread on_begin_play g a h = absurd (cc)
enters-thread call_start g a h = absurd (cc)
enters-thread (call_toggle is_pause) g a h = absurd (cc)

-- A call that runs a destructor is a stop.
answer-stops :
    (env : Environment) (c : Call) (g : Game) (o : Outcome Game) (a : ℕ)
    → enters c g ≡ some a
    → http_server_stop env g ≡ o
    → answer env c g ≡ (do g' ← o; ok (true, g'))
unfolding answer end_play
answer-stops env call_stop g o a h stopped = rw stopped refl
answer-stops env on_end_play g o a h stopped = rw stopped refl
answer-stops env on_begin_play g o a h stopped = absurd (cc)
answer-stops env call_start g o a h stopped = absurd (cc)
answer-stops env (call_toggle is_pause) g o a h stopped = absurd (cc)

pub answer-stop :
    (env : Environment) (c : Call) (g g' : Game) (a : ℕ)
    → enters c g ≡ some a
    → http_server_stop env g ≡ ok g'
    → answer env c g ≡ ok (true, g')
answer-stop env c g g' a h stopped = answer-stops env c g (ok g') a h stopped

-- If it returns, its object was live and its thread not paused.
pub answer-free :
    (env : Environment) (c : Call) (g : Game) (r : Bool × Game) (a : ℕ)
    → enters c g ≡ some a
    → answer env c g ≡ ok r
    → (t : HttpThread) × (find ◌==◌ a g.live ≡ some t) × (is_stuck env t g ≡ false)
answer-free env c g r a entered returned =
    let pointed = enters-thread c g a entered in
    elim (Option-cases (find ◌==◌ a g.live)) [
      | inl dead ↦
          let fault =
            answer-stops env c g undefined_behaviour a entered (use_dead env g a pointed dead).0 in
          absurd (ground (arith, fault, returned))
      | inr (t, alive) ↦ elim (Bool-cases (is_stuck env t g)) [
        | inr free ↦ (t, alive, free)
        | inl stuck ↦
            let fault =
              answer-stops env c g never_returns a entered
                (stop_stuck env g a pointed t alive stuck) in
            absurd (ground (arith, fault, returned))
      ]
    ]
