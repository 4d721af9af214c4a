-- ===== src/Server/Owner.antt =====
-- Calls that start no server while there is one.
use ff_http_lws.Base.{
  ℕ, ◌≡◌, refl, sym, ◌∙◌, ap, subst, Bool, true, false, Option, none, some, List, [], ◌∷◌, is_empty,
  ◌==◌, ==_refl, Option-cases, inl, inr, arith,
}
use ff_http_lws.Engine.Map.{remove}
use ff_http_lws.Thread.{HttpThread}
use ff_http_lws.Server.{
  Environment, Game, ok, launch, http_server_start, destroy_thread, begin_play,
}
use ff_http_lws.Server.Lifetime.{start_named, stop_alive}
use ff_http_lws.Server.Returns.{destroy_thread-settings}
use ff_http_lws.Server.Protocol.{
  Call, on_begin_play, call_start, call_stop, on_end_play, call_toggle, answer,
}
use ff_http_lws.Server.Changes.{
  Quiet, told, launched, enters, starts, answer-Quiet, answer-free, answer-stop, after_calls,
}
use ff_http_lws.Server.Changes.History.{first_returned}

-- Whether the actor has a server after some calls, if it had one before; there is none to tell
-- if a server is started while there is one.
abbrev pub up_after_call : Bool → Call → Option Bool
up_after_call false on_begin_play = some true
up_after_call false call_start = some true
up_after_call true on_begin_play = none
up_after_call true call_start = none
up_after_call up call_stop = some false
up_after_call up on_end_play = some false
up_after_call up (call_toggle is_pause) = some up

abbrev pub up_after : Bool → List Call → Option Bool
up_after up [] = some up
up_after up (c ∷ cs) = elim (up_after_call up c) [ none ↦ none | some now ↦ up_after now cs ]

-- The one live thread object is the one that the actor points to, or there is none.
abbrev pub Only : Bool → Game → Type 0
Only false g = g.live ≡ []
Only true g = (a : ℕ) × (t : HttpThread) × (g.thread ≡ some a) × (g.live ≡ (a, t) ∷ [])

pub record IsOwner (up : Bool) (g : Game) : Type 0 where
  pub named : is_empty g.settings.server_name ≡ false
  pub only : Only up g

module _ (env : Environment) (g : Game) (r : Bool × Game) where
  start-IsOwner : IsOwner false g → IsOwner true (http_server_start env g).1
  start-IsOwner h =
      subst (λ (x : Bool × Game). IsOwner true x.1) (sym (start_named env g h.named))
        (record {
          named = h.named;
          only = (
            g.next,
            launch env g.settings g.next,
            refl,
            ap (◌∷◌ (g.next, launch env g.settings g.next)) h.only,
          );
        })

  -- A call that makes and destroys nothing.
  told_keeps :
      {k : ℕ} {g' : Game}
      → Quiet env g k g'
      → k ≡ 0
      → (g'.settings ≡ g.settings) × (g'.thread ≡ g.thread) × (g'.live ≡ g.live)
  told_keeps (told calls) zero = (refl, refl, refl)
  told_keeps launched zero = absurd (omega (arith, zero))

  idle-IsOwner :
      (up : Bool) {g' : Game}
      → (g'.settings ≡ g.settings) × (g'.thread ≡ g.thread) × (g'.live ≡ g.live)
      → IsOwner up g
      → IsOwner up g'
  idle-IsOwner false (settings, thread, live) h = record {
    named = rw settings h.named;
    only = live ∙ h.only;
  }
  idle-IsOwner true (settings, thread, live) h =
      let (a, t, pointed, only) = h.only in
      record { named = rw settings h.named; only = (a, t, thread ∙ pointed, live ∙ only) }

  stop-IsOwner :
      (up : Bool) (c : Call)
      → starts g.settings c ≡ 0
      → enters c g ≡ g.thread
      → answer env c g ≡ ok r
      → IsOwner up g
      → IsOwner false r.1
  stop-IsOwner false c makes_none stops result h = elim (Option-cases (enters c g)) [
    | inl outside ↦
        idle-IsOwner false (told_keeps (answer-Quiet env g c r outside result) makes_none) h
    | inr (a, entered) ↦
        let (t, alive, free) = answer-free env c g r a entered result in
        absurd (ground (arith, alive, h.only))
  ]
  stop-IsOwner true c makes_none stops result h =
      let (a, t, pointed, only) = h.only in
      let entered = stops ∙ pointed in
      let (u, alive, free) = answer-free env c g r a entered result in
      let whole =
        answer-stop env c g (record (destroy_thread u g) { live = remove ◌==◌ a g.live }) a entered
          (stop_alive env g a pointed u alive free) in
      let value = sym whole ∙ result in
      let same : record (destroy_thread u g) { live = remove ◌==◌ a g.live } ≡ r.1 =
        ground (arith, value) in
      subst (λ x. IsOwner false x) same
        (record {
          named = rw (destroy_thread-settings u g) h.named;
          only = ap (remove ◌==◌ a) only ∙ rw (==_refl a) refl;
        })

  after_start :
      {x : Bool × Game} {now : Bool}
      → some true ≡ some now
      → ok x ≡ ok r
      → x.1 ≡ (http_server_start env g).1
      → IsOwner false g
      → IsOwner now r.1
  after_start {x} {now} next result same h =
      let up : true ≡ now = ground (arith, next) in
      let last : (http_server_start env g).1 ≡ r.1 =
        sym same ∙ (let value : x ≡ r = ground (arith, result) in ap (λ y. y.1) value) in
      subst (λ b. IsOwner b r.1) up (subst (IsOwner true) last (start-IsOwner h))

  after_stop :
      (up : Bool) (c : Call) {now : Bool}
      → some false ≡ some now
      → starts g.settings c ≡ 0
      → enters c g ≡ g.thread
      → answer env c g ≡ ok r
      → IsOwner up g
      → IsOwner now r.1
  after_stop up c {now} next makes_none stops result h =
      let down : false ≡ now = ground (arith, next) in
      subst (λ b. IsOwner b r.1) down (stop-IsOwner up c makes_none stops result h)

  after_toggle :
      (up is_pause : Bool) {now : Bool}
      → some up ≡ some now
      → answer env (call_toggle is_pause) g ≡ ok r
      → IsOwner up g
      → IsOwner now r.1
  after_toggle up is_pause {now} next result h =
      let kept : up ≡ now = ground (arith, next) in
      subst (λ b. IsOwner b r.1) kept
        (idle-IsOwner up (told_keeps (answer-Quiet env g (call_toggle is_pause) r refl result) refl)
          h)

  call-IsOwner :
      (up now : Bool) (c : Call)
      → up_after_call up c ≡ some now
      → answer env c g ≡ ok r
      → IsOwner up g
      → IsOwner now r.1
  unfolding answer begin_play
  call-IsOwner false now on_begin_play next result h = after_start next result refl h
  call-IsOwner false now call_start next result h = after_start next result refl h
  call-IsOwner true now on_begin_play next result h = absurd (cc)
  call-IsOwner true now call_start next result h = absurd (cc)
  call-IsOwner false now call_stop next result h =
      after_stop false call_stop next refl refl result h
  call-IsOwner true now call_stop next result h = after_stop true call_stop next refl refl result h
  call-IsOwner false now on_end_play next result h =
      after_stop false on_end_play next refl refl result h
  call-IsOwner true now on_end_play next result h =
      after_stop true on_end_play next refl refl result h
  call-IsOwner false now (call_toggle is_pause) next result h =
      after_toggle false is_pause next result h
  call-IsOwner true now (call_toggle is_pause) next result h =
      after_toggle true is_pause next result h

pub calls-IsOwner :
    (env : Environment) (up now : Bool) (cs : List Call) (g g' : Game)
    → up_after up cs ≡ some now
    → after_calls env cs g ≡ ok g'
    → IsOwner up g
    → IsOwner now g'
unfolding after_calls
calls-IsOwner env up now [] g g' next result h =
    let kept : up ≡ now = ground (arith, next) in
    let value : ok g ≡ ok g' = result in
    let same : g ≡ g' = ground (arith, value) in
    subst (λ b. IsOwner b g') kept (subst (IsOwner up) same h)
calls-IsOwner env up now (c ∷ cs) g g' next result h = elim (Option-cases (up_after_call up c)) [
  | inl twice ↦ absurd (ground (arith, next, twice))
  | inr (then_up, first) ↦
      let (r, now_first, rest) =
        first_returned (answer env c g) (λ r. after_calls env cs r.1) g' result in
      let later : up_after then_up cs ≡ some now = ground (arith, next, first) in
      calls-IsOwner env then_up now cs r.1 g' later rest
        (call-IsOwner env g r up then_up c first now_first h)
]
