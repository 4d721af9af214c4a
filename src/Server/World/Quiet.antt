-- ===== src/Server/World/Quiet.antt =====
-- A call that runs no destructor keeps the invariant.
use ff_http_lws.Base.{
  ℕ, suc, ◌≡◌, refl, sym, ◌∙◌, subst, Bool, true, false, none, some, List, [], ◌∷◌, ◌++◌, ◌==◌,
  if◌then◌else◌, Bool-cases, Option-cases, inl, inr, arith,
}
use ff_http_lws.Engine.Map.{contains_key}
use ff_http_lws.Thread.{init, http_start}
use ff_http_lws.Thread.Race.{looping}
use ff_http_lws.Server.{
  Environment, Game, Outcome, ok, undefined_behaviour, never_returns, ◌>>=◌, launch,
}
use ff_http_lws.Server.Lifetime.{started, launch_runnable}
use ff_http_lws.Server.Protocol.{Call, answer}
use ff_http_lws.Server.Accounts.{Change-IsSound}
use ff_http_lws.Server.Changes.{Quiet, told, launched, quiet, after_calls, enters, answer-Quiet}
use ff_http_lws.Server.World.{idle, Runs, put, World, first_place, began}
use ff_http_lws.Server.World.Invariant.{Settled, AllSettled, AllOwned, Unborn, WorldInv, put_other}

same_result :
    {A B : Type 0} {b b' : B} (o : Outcome A) {f f' : A → Outcome B}
    → ((a : A) → f a ≡ ok b → f' a ≡ ok b')
    → (o >>= f) ≡ ok b
    → (o >>= f') ≡ ok b'
same_result (ok a) step e = step a e
same_result undefined_behaviour step e = absurd (cc)
same_result never_returns step e = absurd (cc)

-- One more call behind others.
pub after_calls-append :
    (env : Environment) (cs : List Call) (c : Call) (g h : Game) (r : Bool × Game)
    → after_calls env cs g ≡ ok h
    → answer env c h ≡ ok r
    → after_calls env (cs ++ c ∷ []) g ≡ ok r.1
unfolding after_calls
after_calls-append env [] c g h r before last =
    let value : ok g ≡ ok h = before in
    let same : g ≡ h = ground (arith, value) in rw (same, last) refl
after_calls-append env (d ∷ cs) c g h r before last =
    same_result (answer env d g) (λ x e. after_calls-append env cs c x.1 h r e last) before

launch_flag :
    (env : Environment) (g : Game) (r : ℕ)
    → env.create_thread g.next g.settings.server_name ≡ some r
    → (launch env g.settings g.next).start_thread ≡ true
unfolding launch init http_start
launch_flag env g r created = rw (launch, created) refl

-- A new thread object, and where its Run begins.
launch-Settled :
    (env : Environment) (g : Game)
    → Settled
        (launch env g.settings g.next)
        (first_place (env.create_thread g.next g.settings.server_name))
launch-Settled env g = elim (Option-cases (env.create_thread g.next g.settings.server_name)) [
  | inl failed ↦
      let unset = launch_runnable env g.settings g.next ∙ failed in
      record { threadless = λ _. rw failed refl; threaded = λ has. absurd (has unset) }
  | inr (r, created) ↦
      let set = launch_runnable env g.settings g.next ∙ created in
      record {
        threadless = λ unset. absurd (ground (arith, set, unset));
        threaded = λ has. (launch_flag env g r created, looping, rw created refl, λ e. absurd cc);
      }
]

abbrev began_by : Environment → ℕ → Game → Runs → Runs
began_by env k g runs =
    if k == 0
    then runs
    else put g.next (first_place (env.create_thread g.next g.settings.server_name)) runs

module _ {env : Environment} {g₀ : Game} (w : World) (h : WorldInv env g₀ w) where
  launched-AllSettled : AllSettled (started env w.game).live (began_by env 1 w.game w.runs)
  launched-AllSettled b u found = elim (Bool-cases (w.game.next == b)) [
    | inl same ↦
        let this : launch env w.game.settings w.game.next ≡ u = ground (arith, same, found) in
        rw same (
          subst
            (λ x.
              Settled x (first_place (env.create_thread w.game.next w.game.settings.server_name)))
            this (launch-Settled env w.game))
    | inr other ↦ rw other (h.settled b u (ground (arith, other, found)))
  ]

  launched-AllOwned : AllOwned (started env w.game).live (began_by env 1 w.game w.runs)
  launched-AllOwned b p at going = elim (Bool-cases (w.game.next == b)) [
    | inl same ↦ rw (contains_key, same) refl
    | inr other ↦
        let before : w.runs b ≡ some p = sym (put_other w.game.next b _ w.runs other) ∙ at in
        rw (contains_key, other) (h.owned b p before going)
  ]

  launched-Unborn : Unborn (suc w.game.next) (began_by env 1 w.game w.runs)
  launched-Unborn b fresh =
      let other : (w.game.next == b) ≡ false = ground (arith, fresh) in
      put_other w.game.next b _ w.runs other ∙ h.unborn b (omega (arith, fresh))

  Quiet-parts :
      {k : ℕ} {g' : Game}
      → Quiet env w.game k g'
      → AllSettled g'.live (began_by env k w.game w.runs)
        × AllOwned g'.live (began_by env k w.game w.runs)
        × Unborn g'.next (began_by env k w.game w.runs)
  Quiet-parts (told calls) = (h.settled, h.owned, h.unborn)
  Quiet-parts launched = (launched-AllSettled, launched-AllOwned, launched-Unborn)

  pub returns-WorldInv :
      (c : Call) (r : Bool × Game)
      → w.doing ≡ idle
      → enters c w.game ≡ none
      → answer env c w.game ≡ ok r
      → WorldInv env g₀
          (record w { game = r.1; runs = began env c w.game w.runs; calls = w.calls ++ c ∷ [] })
  returns-WorldInv c r nothing outside result =
      let change = answer-Quiet env w.game c r outside result in
      let (settled, owned, unborn) = Quiet-parts change in
      record {
        sound = Change-IsSound env (quiet change) h.sound;
        refines = after_calls-append env w.calls c g₀ w.game r h.refines result;
        settled = settled;
        owned = owned;
        unborn = unborn;
        doing = rw nothing tt;
      }
