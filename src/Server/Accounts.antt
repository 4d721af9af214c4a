-- ===== src/Server/Accounts.antt =====
-- The books of threads and contexts over any calls of the actor: what is created is either still
-- held by a live thread object or was ended, once.
pub mod Balance
use ff_http_lws.Base.{
  ℕ, zero, suc, ◌+◌, ◌<◌, ◌≡◌, refl, sym, ◌∙◌, ap, subst, Bool, true, false, Option, none, some,
  List, [], ◌∷◌, opt_cons, ◌==◌, if◌then◌else◌, Bool-cases, inl, inr, arith,
}
use ff_http_lws.Engine.Map.{TMap, find, remove}
use ff_http_lws.Thread.{ServerSettings, HttpThread}
use ff_http_lws.Server.Heap.{Below, IsHeap, Below-suc, find-fresh, remove-missing, remove-Below}
use ff_http_lws.Server.Lifetime.{started, launch_context, destroy_thread_lem}
use ff_http_lws.Server.{Environment, Game, Outcome, ok, ThreadCall, launch, destroy_thread}
use ff_http_lws.Server.Protocol.{Call, answer}
use ff_http_lws.Server.Changes.{
  Change, quiet, told, launched, deleted, starts, all_starts, answer-Change, after_calls,
}

-- How often a number stands in a list.
abbrev pub occurs : ℕ → List ℕ → ℕ
occurs r [] = 0
occurs r (x ∷ xs) = if x == r then suc (occurs r xs) else occurs r xs

-- An object without a thread has no context.
abbrev pub IsWhole : HttpThread → Type 0
IsWhole t = t.runnable_thread ≡ none → t.context ≡ none

abbrev pub AllWhole : TMap ℕ HttpThread → Type 0
AllWhole [] = Unit {0}
AllWhole ((a, t) ∷ live) = IsWhole t × AllWhole live

pub find-IsWhole :
    (a : ℕ) (t : HttpThread) (live : TMap ℕ HttpThread)
    → AllWhole live
    → find ◌==◌ a live ≡ some t
    → IsWhole t
find-IsWhole a t [] h found = absurd (cc)
find-IsWhole a t ((b, u) ∷ live) h found = elim (Bool-cases (b == a)) [
  | inl same ↦ let this : u ≡ t = ground (arith, same, found) in subst IsWhole this h.0
  | inr other ↦ find-IsWhole a t live h.1 (ground (arith, other, found))
]

remove-AllWhole : (a : ℕ) (live : TMap ℕ HttpThread) → AllWhole live → AllWhole (remove ◌==◌ a live)
remove-AllWhole a [] h = tt
remove-AllWhole a ((b, t) ∷ live) h = elim (Bool-cases (b == a)) [
  | inl same ↦ rw same (remove-AllWhole a live h.1)
  | inr other ↦ rw other (h.0, remove-AllWhole a live h.1)
]

-- What the objects of a heap hold in a field.
abbrev pub held : (HttpThread → Option ℕ) → TMap ℕ HttpThread → List ℕ
held field [] = []
held field ((a, t) ∷ live) = opt_cons (field t) (held field live)

-- What new thread objects hold, as many as the last argument says, made one after the other.
abbrev pub made : Environment → ServerSettings → (HttpThread → Option ℕ) → ℕ → ℕ → List ℕ
made env s field a zero = []
made env s field a (suc k) = opt_cons (field (launch env s a)) (made env s field (suc a) k)

pub occurs-opt_cons :
    (r : ℕ) (o : Option ℕ) (xs : List ℕ)
    → occurs r (opt_cons o xs) ≡ occurs r (opt_cons o []) + occurs r xs
occurs-opt_cons r none xs = omega arith
occurs-opt_cons r (some x) xs = ground arith

held-remove :
    (field : HttpThread → Option ℕ) (r n a : ℕ) (t : HttpThread) (live : TMap ℕ HttpThread)
    → Below n live
    → find ◌==◌ a live ≡ some t
    → occurs r (held field live)
      ≡ occurs r (opt_cons (field t) []) + occurs r (held field (remove ◌==◌ a live))
held-remove field r n a t [] h found = absurd (cc)
held-remove field r n a t ((b, u) ∷ live) h found = elim (Bool-cases (b == a)) [
  | inl same ↦
      let fresh : find ◌==◌ a live ≡ none = ground (arith, same, h.1) in
      let this : u ≡ t = ground (arith, same, found) in
      rw (same, remove-missing a live fresh, this) (occurs-opt_cons r (field t) (held field live))
  | inr other ↦
      let rest = held-remove field r n a t live h.2 (ground (arith, other, found)) in
      rw other (
        omega (
          arith,
          rest,
          occurs-opt_cons r (field u) (held field live),
          occurs-opt_cons r (field u) (held field (remove ◌==◌ a live)),
        ))
]

-- What the actor starts from: each address stands once, and no live object has a context and no
-- thread.
pub record IsSound (g : Game) : Type 0 where
  pub heap : IsHeap g
  pub whole : AllWhole g.live

-- A field of the thread objects, with the list of what the destructor has ended of it.
pub record IsAccount (field : HttpThread → Option ℕ) (ended : Game → List ℕ) : Type 0 where
  pub ended_told :
      (g : Game) (calls : List ThreadCall) → ended (record g { thread_calls = calls }) ≡ ended g
  pub ended_started : (env : Environment) (g : Game) → ended (started env g) ≡ ended g
  pub ended_deleted :
      (g : Game) (t : HttpThread) (live : TMap ℕ HttpThread)
      → IsWhole t
      → ended (record (destroy_thread t g) { live = live }) ≡ opt_cons (field t) (ended g)

pub threads-IsAccount : IsAccount (λ t. t.runnable_thread) (λ g. g.killed)
threads-IsAccount = record {
  ended_told = λ g calls. refl;
  ended_started = λ env g. refl;
  ended_deleted = λ g t live whole. (destroy_thread_lem t g whole).2;
}

pub contexts-IsAccount : IsAccount (λ t. t.context) (λ g. g.contexts_destroyed)
contexts-IsAccount = record {
  ended_told = λ g calls. refl;
  ended_started = λ env g. refl;
  ended_deleted = λ g t live whole. (destroy_thread_lem t g whole).3;
}

module _ (env : Environment) where
  pub Change-IsSound : {k : ℕ} {g g' : Game} → Change env g k g' → IsSound g → IsSound g'
  Change-IsSound {g = g} (quiet (told calls)) s = record { heap = s.heap; whole = s.whole }
  Change-IsSound {g = g} (quiet launched) s = record {
    heap = (omega arith, find-fresh g.next g.live s.heap, Below-suc g.next g.live s.heap);
    whole = (launch_context env g.settings g.next, s.whole);
  }
  Change-IsSound {g = g} (deleted a t pointed alive) s =
      let after = destroy_thread_lem t g (find-IsWhole a t g.live s.whole alive) in
      record {
        heap = rw after.1 (remove-Below g.next a g.live s.heap);
        whole = remove-AllWhole a g.live s.whole;
      }

  -- A call keeps the settings, and gives out the addresses one by one.
  pub Change-next :
      {k : ℕ} {g g' : Game}
      → Change env g k g'
      → IsSound g
      → (g'.settings ≡ g.settings) × (g'.next ≡ k + g.next)
  Change-next {g = g} (quiet (told calls)) s = (refl, omega arith)
  Change-next {g = g} (quiet launched) s = (refl, omega arith)
  Change-next {g = g} (deleted a t pointed alive) s =
      let after = destroy_thread_lem t g (find-IsWhole a t g.live s.whole alive) in
      (after.0, omega (arith, after.1))

  module _ {field : HttpThread → Option ℕ} {ended : Game → List ℕ} (account : IsAccount field ended)
      (r : ℕ) where
    -- What is held or ended.
    abbrev pub balance : Game → ℕ
    balance g = occurs r (held field g.live) + occurs r (ended g)

    pub Change-balance :
        {k : ℕ} {g g' : Game}
        → Change env g k g'
        → IsSound g
        → balance g' ≡ occurs r (made env g.settings field g.next k) + balance g
    Change-balance {g = g} (quiet (told calls)) s = rw (account.ended_told g calls) (omega arith)
    Change-balance {g = g} (quiet launched) s = rw (account.ended_started env g) (
        omega (arith, occurs-opt_cons r (field (launch env g.settings g.next)) (held field g.live)))
    Change-balance {g = g} (deleted a t pointed alive) s =
        rw
          (account.ended_deleted g t (remove ◌==◌ a g.live) (find-IsWhole a t g.live s.whole alive))
          (omega (
            arith,
            occurs-opt_cons r (field t) (ended g),
            held-remove field r g.next a t g.live s.heap alive,
          ))
