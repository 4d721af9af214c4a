-- ===== src/Info.antt =====
-- Source/FF_HTTP_LWS/Public/Objects/FF_HTTP_LWS_Info.h and Private/Objects/FF_HTTP_LWS_Info.cpp:
-- `ULwsInfos`, what a handler gets for a part of a request's body.
use ff_http_lws.Base.{
  ◌≤◌, ◌<◌, ◌^◌, ◌≡◌, ◌≢◌, ap, Bool, true, false, not, none, some, Bytes, FString, map, take,
  length, int32, pos, ◌%◌, ◌∙◌, ◌==◌, if◌then◌else◌, arith,
}
use ff_http_lws.Engine.{Unreal, UnrealDocs}
use ff_http_lws.Lws.Reasons.{callback_http_body}
use ff_http_lws.Trace.{ULwsInfos}

-- `GetBody`
pub get_body : Unreal → ULwsInfos → FString → Bool × FString
get_body ue i out_body =
    if not (i.params.reason == callback_http_body) then (false, out_body) else elim i.params.input [
      | none ↦ (false, out_body)
      | some body ↦ (true, ue.append_chars body (int32 i.params.len))
    ]

-- For a body part, `GetBody` returns as many of its bytes as the low 32 bits of the length say,
-- where these are below 2^31 and the part holds as many bytes: all of a part that is shorter than
-- 2^31, and only the beginning of one of 2^32 bytes or more.
pub get_body_lem :
    {ue : Unreal} (e : UnrealDocs ue) (i : ULwsInfos) (out : FString) (body : Bytes)
    → i.params.reason ≡ callback_http_body
    → i.params.input ≡ some body
    → i.params.len % 2 ^ 32 ≤ length body
    → i.params.len % 2 ^ 32 < 2 ^ 31
    → get_body ue i out ≡ (true, map e.widen (take (i.params.len % 2 ^ 32) body))
unfolding get_body
get_body_lem {ue} e i out body reason input fits small =
    let count : int32 i.params.len ≡ pos (i.params.len % 2 ^ 32) = ground (arith, small) in
    rw (reason, input, count)
      (ap (λ (t : FString). (true, t)) (e.append_chars_lem (i.params.len % 2 ^ 32) body fits))

-- All of a part that is shorter than 2^31.
pub get_body_whole :
    {ue : Unreal} (e : UnrealDocs ue) (i : ULwsInfos) (out : FString) (body : Bytes)
    → i.params.reason ≡ callback_http_body
    → i.params.input ≡ some body
    → i.params.len ≤ length body
    → i.params.len < 2 ^ 31
    → get_body ue i out ≡ (true, map e.widen (take i.params.len body))
get_body_whole e i out body reason input fits small =
    let same : i.params.len % 2 ^ 32 ≡ i.params.len = omega (arith, small) in
    get_body_lem e i out body reason input (omega (arith, same, fits)) (omega (arith, same, small))
    ∙ ap (λ n. (true, map e.widen (take n body))) same

-- Under another reason, or with a null pointer, it returns false and keeps the out parameter.
pub get_body_refuses :
    (ue : Unreal) (i : ULwsInfos) (out : FString)
    → (i.params.reason ≢ callback_http_body → get_body ue i out ≡ (false, out))
      × (i.params.input ≡ none → get_body ue i out ≡ (false, out))
unfolding get_body
get_body_refuses ue i out = (λ reason. ground arith, λ null. ground arith)
