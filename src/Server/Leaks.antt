-- ===== src/Server/Leaks.antt =====
-- A thread object that the actor no longer points to.
use ff_http_lws.Base.{
  ℕ, ◌<◌, ◌≡◌, ◌≢◌, refl, sym, ◌∙◌, false, some, List, [], ◌∷◌, ◌==◌, ==_refl, arith,
}
use ff_http_lws.Engine.Map.{TMap, find, remove}
use ff_http_lws.Thread.{HttpThread}
use ff_http_lws.Server.{Environment, Game, ok, launch}
use ff_http_lws.Server.Lifetime.{started, destroy_thread-thread}
use ff_http_lws.Server.Heap.{destroy_thread-next}
use ff_http_lws.Server.Protocol.{Call}
use ff_http_lws.Server.Changes.{Change, quiet, told, launched, deleted, after_calls}
use ff_http_lws.Server.Changes.History.{History, no_calls, called, after_calls-History}

-- The object at an address is live, and the actor does not point to it.
pub record IsLeaked (a : ℕ) (t : HttpThread) (g : Game) : Type 0 where
  pub alive : find ◌==◌ a g.live ≡ some t
  pub unpointed : g.thread ≢ some a
  -- `new` does not return its address again
  pub given_out : a < g.next

pub find-remove_other :
    (a b : ℕ) (live : TMap ℕ HttpThread)
    → (b == a) ≡ false
    → find ◌==◌ a (remove ◌==◌ b live) ≡ find ◌==◌ a live
find-remove_other a b [] h = refl
find-remove_other a b ((c, t) ∷ live) h = ground (arith, find-remove_other a b live h)

-- No call takes a leaked object back or touches it.
Change-IsLeaked :
    {env : Environment} {k a : ℕ} {t : HttpThread} {g g' : Game}
    → Change env g k g'
    → IsLeaked a t g
    → IsLeaked a t g'
Change-IsLeaked (quiet (told calls)) h = record {
  alive = h.alive;
  unpointed = h.unpointed;
  given_out = h.given_out;
}
Change-IsLeaked {a = a} {g = g} (quiet launched) h = record {
  alive = (let other : (g.next == a) ≡ false = ground (arith, h.given_out) in rw other h.alive);
  unpointed = λ same. ground (arith, h.given_out);
  given_out = omega (arith, h.given_out);
}
Change-IsLeaked {a = a} {g = g} (deleted b u pointed alive) h = record {
  alive =
      (let other : (b == a) ≡ false = ground (arith, pointed, h.unpointed) in
        find-remove_other a b g.live other ∙ h.alive);
  unpointed = λ same. h.unpointed (sym (destroy_thread-thread u g) ∙ same);
  given_out = omega (arith, h.given_out, destroy_thread-next u g);
}

History-IsLeaked :
    {env : Environment} {a : ℕ} {t : HttpThread} {cs : List Call} {g g' : Game}
    → History env g cs g'
    → IsLeaked a t g
    → IsLeaked a t g'
History-IsLeaked no_calls h = h
History-IsLeaked (called change rest) h = History-IsLeaked rest (Change-IsLeaked change h)

-- After a second start, whatever calls return.
pub lost_by_second_start :
    (env : Environment) (g : Game) (cs : List Call) (g' : Game)
    → after_calls env cs (started env (started env g)) ≡ ok g'
    → IsLeaked g.next (launch env g.settings g.next) g'
lost_by_second_start env g cs g' result =
    History-IsLeaked (after_calls-History env cs (started env (started env g)) g' result) (record {
      alive = rw (==_refl g.next) (ground arith);
      unpointed = λ same. ground arith;
      given_out = omega arith;
    })
