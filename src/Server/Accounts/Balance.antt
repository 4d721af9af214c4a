-- ===== src/Server/Accounts/Balance.antt =====
-- The books over any sequence of calls.
use ff_http_lws.Base.{ℕ, ◌+◌, ◌≡◌, ap, Option, List, arith}
use ff_http_lws.Thread.{ServerSettings, HttpThread}
use ff_http_lws.Server.{Environment, Game, ok, launch, destroy_thread}
use ff_http_lws.Server.Protocol.{Call}
use ff_http_lws.Server.Changes.{Change, quiet, told, launched, deleted, all_starts, after_calls}
use ff_http_lws.Server.Changes.History.{History, no_calls, called, after_calls-History}
use ff_http_lws.Server.Accounts.{
  occurs, IsSound, held, made, IsAccount, occurs-opt_cons, threads-IsAccount, contexts-IsAccount,
  Change-IsSound, Change-next, balance, Change-balance,
}

module _ (env : Environment) where
  -- The objects of a change, then those of the changes behind it.
  made-Change :
      {j : ℕ} {g h : Game} (field : HttpThread → Option ℕ) (r k : ℕ)
      → Change env g j h
      → IsSound g
      → occurs r (made env g.settings field g.next (j + k))
        ≡ occurs r (made env g.settings field g.next j)
          + occurs r (made env h.settings field h.next k)
  made-Change {g = g} field r k (quiet (told calls)) s =
      let none_made : 0 + k ≡ k = omega arith in rw none_made (omega arith)
  made-Change {g = g} field r k (quiet launched) s =
      let one_made : 1 + k ≡ ℕ.suc k = omega arith in
      rw one_made (
        occurs-opt_cons r (field (launch env g.settings g.next))
          (made env g.settings field (ℕ.suc g.next) k))
  made-Change {g = g} field r k (deleted a t pointed alive) s =
      let (same, next) = Change-next env (deleted a t pointed alive) s in
      let none_made : 0 + k ≡ k = omega arith in
      let kept : (destroy_thread t g).next ≡ g.next = omega (arith, next) in
      rw (none_made, same, kept) (omega arith)

  History-next :
      {cs : List Call} {g g' : Game}
      → History env g cs g'
      → IsSound g
      → IsSound g' × (g'.next ≡ all_starts g.settings cs + g.next)
  History-next no_calls s = (s, omega arith)
  History-next (called {c} {cs} {g} {h} change rest) s =
      let (same, next) = Change-next env change s in
      let (sound, last) = History-next rest (Change-IsSound env change s) in
      (sound, rw (last, same) (omega (arith, next)))

  History-balance :
      {field : HttpThread → Option ℕ} {ended : Game → List ℕ} (account : IsAccount field ended)
      (r : ℕ) {cs : List Call} {g g' : Game}
      → History env g cs g'
      → IsSound g
      → balance env account r g'
        ≡ occurs r (made env g.settings field g.next (all_starts g.settings cs))
          + balance env account r g
  History-balance account r no_calls s = omega arith
  History-balance {field} account r (called {c} {cs} {g} {h} change rest) s =
      let (same, _) = Change-next env change s in
      let later = History-balance account r rest (Change-IsSound env change s) in
      let now = Change-balance env account r change s in
      let joined = made-Change field r (all_starts g.settings cs) change s in
      let kept =
        ap (λ (x : ServerSettings). occurs r (made env h.settings field h.next (all_starts x cs)))
          same in
      omega (arith, later, now, joined, kept)

-- From a game in which each address stands once and no live object has a context without a thread,
-- after any calls that return: as many thread objects were made as the calls started; and for every
-- handle, those that live thread objects hold and those that `Kill(true)` was called on are, counted
-- with their repetitions, exactly those of the game before and of the objects made, and so for the
-- contexts and `lws_context_destroy`. So no thread and no context is lost to the books or ended
-- twice: what is not ended is held by a live object.
pub after_calls-balance :
    (env : Environment) (cs : List Call) (g g' : Game)
    → IsSound g
    → after_calls env cs g ≡ ok g'
    → let k = all_starts g.settings cs in
      (g'.next ≡ k + g.next)
      × ((r : ℕ)
          → occurs r (held (λ t. t.runnable_thread) g'.live) + occurs r g'.killed
            ≡ occurs r (made env g.settings (λ t. t.runnable_thread) g.next k)
              + (occurs r (held (λ t. t.runnable_thread) g.live) + occurs r g.killed))
      × ((c : ℕ)
          → occurs c (held (λ t. t.context) g'.live) + occurs c g'.contexts_destroyed
            ≡ occurs c (made env g.settings (λ t. t.context) g.next k)
              + (occurs c (held (λ t. t.context) g.live) + occurs c g.contexts_destroyed))
after_calls-balance env cs g g' s returned =
    let history = after_calls-History env cs g g' returned in
    (
      (History-next env history s).1,
      λ r. History-balance env threads-IsAccount r history s,
      λ c. History-balance env contexts-IsAccount c history s,
    )
