-- ===== src/Server/Changes/History.antt =====
-- Many calls as a sequence of changes.
use ff_http_lws.Base.{◌≡◌, refl, subst, List, [], ◌∷◌, arith}
use ff_http_lws.Server.{Environment, Game, Outcome, ok, undefined_behaviour, never_returns, ◌>>=◌}
use ff_http_lws.Server.Protocol.{Call, answer}
use ff_http_lws.Server.Changes.{Change, starts, answer-Change, after_calls}

-- The changes of some calls, one after the other.
pub data History (env : Environment) : Game → List Call → Game → Type 0 where
  no_calls : {g : Game} → History env g [] g
  called :
      {c : Call} {cs : List Call} {g h g' : Game}
      → Change env g (starts g.settings c) h
      → History env h cs g'
      → History env g (c ∷ cs) g'

pub first_returned :
    {A B : Type 0} (o : Outcome A) (f : A → Outcome B) (b : B)
    → (o >>= f) ≡ ok b
    → (a : A) × (o ≡ ok a) × (f a ≡ ok b)
first_returned (ok a) f b h = (a, refl, h)
first_returned undefined_behaviour f b h = absurd (cc)
first_returned never_returns f b h = absurd (cc)

pub after_calls-History :
    (env : Environment) (cs : List Call) (g g' : Game)
    → after_calls env cs g ≡ ok g'
    → History env g cs g'
unfolding after_calls
after_calls-History env [] g g' h =
    let value : ok g ≡ ok g' = h in
    let same : g ≡ g' = ground (arith, value) in subst (History env g []) same no_calls
after_calls-History env (c ∷ cs) g g' h =
    let (r, first, rest) = first_returned (answer env c g) (λ r. after_calls env cs r.1) g' h in
    called (answer-Change env g c r first) (after_calls-History env cs r.1 g' rest)
