-- ===== src/Thread/Cached.antt =====
-- `Callback_Return` as it is built with USE_DISCARDABLE_CACHE other than 0, where a
-- TDiscardableKeyValueCache of the engine takes the place of the map.
use ff_http_lws.Base.{
  ℕ, ◌≡◌, refl, sym, ◌∙◌, ap, Option, none, some, ℤ, pos, length, ◌==◌, if◌then◌else◌, Bool-cases,
  Option-cases, ◌⊎◌, false, inl, inr,
}
use ff_http_lws.Engine.Map.{find}
use ff_http_lws.Trace.{ULwsRequest}
use ff_http_lws.Thread.{HttpThread, callback_return}
use ff_http_lws.Thread.Pool.{pool-ne, callback_return_missing, callback_return_once}

-- What the code asks of the cache: `Num`, and `Find`, which gives the value that is stored under a
-- key, a pointer that is valid or not.
pub record RequestCache : Type 0 where
  pub num : ℕ
  pub found : ℕ → Option (Option ULwsRequest)

-- `Callback_Return` with the cache.
pub callback_return_cached : RequestCache → ℕ → ℤ
callback_return_cached cache wsi = if cache.num == 0 then pos 0 else elim (cache.found wsi) [
  | none ↦ pos 0
  | some entry ↦ elim entry [ none ↦ pos 0 | some request ↦ request.ret_val ]
]

-- The cache holds what the map holds.
pub record IsSameStore (t : HttpThread) (cache : RequestCache) : Type 0 where
  pub same_num : cache.num ≡ length t.request_pool
  pub same_found : (wsi : ℕ) → cache.found wsi ≡ find ◌==◌ wsi t.request_pool

unanswered :
    (t : HttpThread) (wsi : ℕ)
    → find ◌==◌ wsi t.request_pool ≡ none ⊎ find ◌==◌ wsi t.request_pool ≡ some none
    → callback_return t wsi ≡ (pos 0, t)
unfolding callback_return
unanswered t wsi (inl missing) = callback_return_missing t wsi missing
unanswered t wsi (inr invalid) = rw (pool-ne t.request_pool wsi invalid, invalid) refl

cached_by :
    (cache : RequestCache) (wsi : ℕ) (o : Option (Option ULwsRequest))
    → (cache.num == 0) ≡ false
    → cache.found wsi ≡ o
    → callback_return_cached cache wsi ≡ elim o as (λ _. ℤ) [
      | none ↦ pos 0
      | some entry ↦ elim entry as (λ _. ℤ) [ none ↦ pos 0 | some request ↦ request.ret_val ]
    ]
unfolding callback_return_cached
cached_by cache wsi o full found = rw (full, found) refl

cached_missing :
    (cache : RequestCache) (wsi : ℕ)
    → cache.found wsi ≡ none
    → callback_return_cached cache wsi ≡ pos 0
unfolding callback_return_cached
cached_missing cache wsi missing = elim (Bool-cases (cache.num == 0)) [
  | inl empty ↦ rw empty refl
  | inr full ↦ cached_by cache wsi none full missing
]

-- Where the cache holds what the map holds, the two builds return the same for every connection, found
-- or not, valid or not; the build with the map then answers a second call for it with 0.
pub builds_agree :
    (t : HttpThread) (cache : RequestCache) (wsi : ℕ)
    → IsSameStore t cache
    → let (first, t') = callback_return t wsi in
      (callback_return_cached cache wsi ≡ first) × ((callback_return t' wsi).0 ≡ pos 0)
builds_agree t cache wsi h = elim (Option-cases (find ◌==◌ wsi t.request_pool)) [
  | inl missing ↦
      let none_left = unanswered t wsi (inl missing) in
      rw none_left (cached_missing cache wsi (h.same_found wsi ∙ missing), ap (λ x. x.0) none_left)
  | inr (entry, found) ↦
      let full : (cache.num == 0) ≡ false =
        ap (λ n. n == 0) h.same_num ∙ pool-ne t.request_pool wsi found in
      let cached = cached_by cache wsi (some entry) full (h.same_found wsi ∙ found) in
      elim (Option-cases entry) [
        | inl invalid ↦
            let none_left = unanswered t wsi (inr (found ∙ ap some invalid)) in
            rw none_left (cached ∙ rw invalid refl, ap (λ x. x.0) none_left)
        | inr (r, valid) ↦
            let (answer, _, again) = callback_return_once t wsi wsi r (found ∙ ap some valid) in
            (cached ∙ rw valid (sym answer), again)
      ]
]
