-- ===== src/Server/Heap.antt =====
-- The heap of thread objects: addresses are given out once.
use ff_http_lws.Base.{
  ℕ, suc, ◌<◌, ◌≡◌, refl, true, false, none, some, [], ◌∷◌, is_empty, ◌==◌, if◌then◌else◌,
  Option-cases, inl, inr, arith,
}
use ff_http_lws.Engine.Map.{TMap, find, remove}
use ff_http_lws.Thread.{HttpThread}
use ff_http_lws.Server.{
  Environment, Game, ok, launch, http_server_start, destroy_thread, http_server_stop,
}

-- Every live address is below a bound, and stands once.
abbrev pub Below : ℕ → TMap ℕ HttpThread → Type 0
Below n [] = Unit {0}
Below n ((a, t) ∷ live) = (a < n) × (find ◌==◌ a live ≡ none) × Below n live

-- The address that `new` returns next is fresh.
abbrev pub IsHeap : Game → Type 0
IsHeap g = Below g.next g.live

pub Below-suc : (n : ℕ) (live : TMap ℕ HttpThread) → Below n live → Below (suc n) live
Below-suc n [] h = tt
Below-suc n ((a, t) ∷ live) h = (omega arith, h.1, Below-suc n live h.2)

pub find-fresh : (n : ℕ) (live : TMap ℕ HttpThread) → Below n live → find ◌==◌ n live ≡ none
find-fresh n [] h = refl
find-fresh n ((a, t) ∷ live) h = ground (arith, find-fresh n live h.2)

pub remove-missing :
    (a : ℕ) (live : TMap ℕ HttpThread) → find ◌==◌ a live ≡ none → remove ◌==◌ a live ≡ live
remove-missing a [] h = refl
remove-missing a ((b, t) ∷ live) h = ground (arith, remove-missing a live)

pub find-remove :
    (a b : ℕ) (live : TMap ℕ HttpThread)
    → find ◌==◌ a live ≡ none
    → find ◌==◌ a (remove ◌==◌ b live) ≡ none
find-remove a b [] h = refl
find-remove a b ((c, t) ∷ live) h = ground (arith, find-remove a b live)

pub remove-Below :
    (n a : ℕ) (live : TMap ℕ HttpThread) → Below n live → Below n (remove ◌==◌ a live)
remove-Below n a [] h = tt
remove-Below n a ((b, t) ∷ live) h =
    ground (arith, remove-Below n a live h.2, find-remove b a live h.1)

-- In a well-formed heap, a start under a name that is not empty succeeds and points the actor at a new live thread object,
-- at an address that was not live, and leaves every other object as it was; the heap stays well
-- formed.
pub http_server_start_lem :
    (env : Environment) (g : Game) (a : ℕ)
    → IsHeap g
    → is_empty g.settings.server_name ≡ false
    → let g' = (http_server_start env g).1 in
      ((http_server_start env g).0 ≡ true)
      × (g'.thread ≡ some g.next)
      × (find ◌==◌ g.next g.live ≡ none)
      × (find ◌==◌ a g'.live
          ≡ (if g.next == a then some (launch env g.settings g.next) else find ◌==◌ a g.live))
      × IsHeap g'
unfolding http_server_start
http_server_start_lem env g a h named =
    let fresh = find-fresh g.next g.live h in
    rw named (refl, refl, fresh, ground arith, (omega arith, fresh, Below-suc g.next g.live h))

pub destroy_thread-next : (t : HttpThread) (g : Game) → (destroy_thread t g).next ≡ g.next
unfolding destroy_thread
destroy_thread-next t g = ground arith

-- A stop that succeeds, or does nothing, keeps the heap well formed.
pub http_server_stop-IsHeap :
    (env : Environment) (g g' : Game) → IsHeap g → http_server_stop env g ≡ ok g' → IsHeap g'
unfolding http_server_stop
http_server_stop-IsHeap env g g' h stopped = elim (Option-cases g.thread) [
  | inl unset ↦ ground (arith, unset)
  | inr (a, pointed) ↦ elim (Option-cases (find ◌==◌ a g.live)) [
    | inl dead ↦ absurd (ground (arith, pointed, dead))
    | inr (t, alive) ↦ ground (arith, pointed, alive, remove-Below g.next a g.live h)
  ]
]
