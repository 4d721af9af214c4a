-- ===== src/Thread/Pool.antt =====
-- The request pool and `Callback_Return`.
use ff_http_lws.Base.{
  ℕ, ◌≡◌, refl, false, Option, none, some, List, [], ◌∷◌, pos, length, ◌==◌, if◌then◌else◌, ==_iff,
  arith, Bool-cases, inl, inr,
}
use ff_http_lws.Engine.{Unreal}
use ff_http_lws.Engine.Map.{TMap, find, remove, IsKeyTest, find-remove_self, find-remove_other}
use ff_http_lws.Lws.Structs.{LwsProtocols, LwsContextCreationInfo}
use ff_http_lws.Trace.{ULwsRequest}
use ff_http_lws.Thread.{
  ServerSettings, HttpThread, Uninit, construct, http_start, init, stop, callback_return,
}

nat_test : IsKeyTest ◌==◌
nat_test = record {
  same_refl = λ k. ground arith;
  same_sym = λ j k h. ground arith;
  same_trans = λ i j k g h. ground arith;
}

pub pool-ne :
    (pool : TMap ℕ (Option ULwsRequest)) (wsi : ℕ) {e : Option ULwsRequest}
    → find ◌==◌ wsi pool ≡ some e
    → (length pool == 0) ≡ false
pool-ne [] wsi h = cc
pool-ne (p ∷ pool) wsi h = ground arith

callback_return_found :
    (t : HttpThread) (wsi : ℕ) (r : ULwsRequest)
    → find ◌==◌ wsi t.request_pool ≡ some (some r)
    → callback_return t wsi
      ≡ (r.ret_val, record t { request_pool = remove ◌==◌ wsi t.request_pool })
unfolding callback_return
callback_return_found t wsi r h = rw (pool-ne t.request_pool wsi h, h)

pub callback_return_missing :
    (t : HttpThread) (wsi : ℕ)
    → find ◌==◌ wsi t.request_pool ≡ none
    → callback_return t wsi ≡ (pos 0, t)
unfolding callback_return
callback_return_missing t wsi h = elim (Bool-cases (length t.request_pool == 0)) [
  | inl empty ↦ rw empty
  | inr full ↦ rw (full, h)
]

-- A valid request that is in the pool is answered once: its stored result is returned, it leaves
-- the pool, every other request stays, and a second call for it returns 0.
pub callback_return_once :
    (t : HttpThread) (wsi other : ℕ) (r : ULwsRequest)
    → find ◌==◌ wsi t.request_pool ≡ some (some r)
    → let t' = (callback_return t wsi).1 in
      ((callback_return t wsi).0 ≡ r.ret_val)
      × (find ◌==◌ other t'.request_pool
          ≡ (if wsi == other then none else find ◌==◌ other t.request_pool))
      × ((callback_return t' wsi).0 ≡ pos 0)
callback_return_once t wsi other r found =
    let gone = find-remove_self nat_test wsi t.request_pool in
    rw (callback_return_found t wsi r found) (
      refl,
      elim (Bool-cases (wsi == other)) [
        | inl same ↦ ground (arith, gone, ==_iff wsi other)
        | inr differs ↦ rw differs (find-remove_other nat_test wsi other t.request_pool differs)
      ],
      rw (
          callback_return_missing (record t { request_pool = remove ◌==◌ wsi t.request_pool }) wsi
            gone),
    )

-- The operations that the engine, libwebsockets and the server actor call on a thread object.
pub data Op : Type 0 where
  do_init : LwsProtocols × LwsProtocols → (LwsContextCreationInfo → Option ℕ) → Op
  do_stop : Op
  do_return : ℕ → Op

pub apply : HttpThread → Op → HttpThread
apply t (do_init fresh create) = init t fresh create
apply t do_stop = (stop t).0
apply t (do_return wsi) = (callback_return t wsi).1

pub apply_all : HttpThread → List Op → HttpThread
apply_all t [] = t
apply_all t (op ∷ ops) = apply_all (apply t op) ops

empty_pool_returns :
    (t : HttpThread) (wsi : ℕ) → t.request_pool ≡ [] → callback_return t wsi ≡ (pos 0, t)
unfolding callback_return
empty_pool_returns t wsi empty = rw empty

apply_empty : (t : HttpThread) (op : Op) → t.request_pool ≡ [] → (apply t op).request_pool ≡ []
unfolding apply init stop
apply_empty t (do_init fresh create) h = unfold http_start in h
apply_empty t do_stop h = refl
apply_empty t (do_return wsi) h = rw (empty_pool_returns t wsi h, apply) h

apply_all_empty :
    (t : HttpThread) (ops : List Op) → t.request_pool ≡ [] → (apply_all t ops).request_pool ≡ []
unfolding apply_all
apply_all_empty t [] h = h
apply_all_empty t (op ∷ ops) h = apply_all_empty (apply t op) ops (apply_empty t op h)

-- No operation puts a request into the pool, so after any operations on a new thread object
-- `Callback_Return` finds nothing: it returns 0 for every connection and changes nothing.
pub callback_return_never :
    (ue : Unreal) (s : ServerSettings) (memory : Uninit) (self : ℕ) (runnable : Option ℕ)
    (ops : List Op) (wsi : ℕ)
    → let t = apply_all (construct ue s memory self runnable) ops in
      callback_return t wsi ≡ (pos 0, t)
callback_return_never ue s memory self runnable ops wsi =
    let t = construct ue s memory self runnable in
    empty_pool_returns (apply_all t ops) wsi (apply_all_empty t ops (unfold construct in refl))
