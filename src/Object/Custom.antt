-- ===== src/Object/Custom.antt =====
-- `GetCustomHeader` and `GetAllCustomHeaders` against the request that the client sent.
use ff_http_lws.Base.{
  ℕ, if◌then◌else◌, ◌≡◌, refl, ap, ◌∙◌, true, false, Option, none, some, List, [], ◌∷◌, ◌++◌, map,
  minus_one, Bytes, FString, codes,
}
use ff_http_lws.Engine.{Unreal, UnrealDocs}
use ff_http_lws.Engine.Map.{TMap, find, find-add}
use ff_http_lws.Lws.Headers.{LwsHeaders, LwsHeadersDocs}
use ff_http_lws.Object.Params.{FLwsParams}
use ff_http_lws.Object.Known.{key_test}
use ff_http_lws.Object.{wrong_reason, get_custom_header, custom_loop, get_all_custom_headers}

-- The name under which libwebsockets looks a custom header up.
abbrev pub custom_name : Unreal → FString → Bytes
custom_name ue key = ue.to_utf8 (key ++ codes ":")

-- The memory of the converted name is not used again before the last read through `HeaderKey`.
abbrev pub IsStillThere : Unreal → FString → Type 0
IsStillThere ue key = (n : ℕ) → ue.dangling n (key ++ codes ":") ≡ custom_name ue key

module _ {ue : Unreal} {lws : LwsHeaders} (e : UnrealDocs ue) (d : LwsHeadersDocs lws) where
  -- The value of a header, which for none is what the engine makes of a buffer with the count -1.
  abbrev pub custom_answer : Bytes → Option Bytes → FString
  custom_answer buffer none = ue.append_chars buffer minus_one
  custom_answer buffer (some v) = map e.widen v

module _ {ue : Unreal} (e : UnrealDocs ue) (lws : LwsHeaders) (p : FLwsParams) where
  abbrev pub custom_value : FString → FString
  custom_value key = (get_custom_header ue lws p [] key).1

  -- What a look-up of `k` finds once the keys are filed: the value of the last listed key that is
  -- the same as `k`, and else `old`.
  abbrev pub listed : FString → List FString → Option FString → Option FString
  listed k [] old = old
  listed k (j ∷ keys) old = listed k keys (if ue.same_key j k then some (custom_value j) else old)

  custom_loop_lem :
      (keys : List FString) (k : FString) (m : TMap FString FString)
      → find ue.same_key k (custom_loop ue lws p keys m) ≡ listed k keys (find ue.same_key k m)
  unfolding custom_loop
  custom_loop_lem [] k m = refl
  custom_loop_lem (j ∷ keys) k m =
      custom_loop_lem keys k _ ∙ ap (listed k keys) (find-add (key_test e) j k _ m)

  -- Under a served reason `GetAllCustomHeaders` succeeds, and a look-up in its result finds, for any
  -- name, what `GetCustomHeader` returns for the last listed key that is the same, and nothing if
  -- there is none: the old content of the out parameter is gone.
  pub get_all_custom_headers_lem :
      (keys : List FString) (out : TMap FString FString) (k : FString)
      → wrong_reason p ≡ false
      → ((get_all_custom_headers ue lws p keys out).0 ≡ true)
        × (find ue.same_key k (get_all_custom_headers ue lws p keys out).1 ≡ listed k keys none)
  unfolding get_all_custom_headers
  get_all_custom_headers_lem keys out k r = (rw r, rw r (custom_loop_lem keys k []))
