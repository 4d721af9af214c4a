-- ===== src/EndToEnd/Wire.antt =====
-- The size of a response as the offset of `End`.
use ff_http_lws.Base.{◌^◌, ◌<◌, ◌≡◌, ◌∙◌, ap, int32, int32_small, pos, FString, arith}
use ff_http_lws.Engine.{Unreal, UnrealDocs}
use ff_http_lws.Engine.Map.{TMap}
use ff_http_lws.Lws.Headers.{LwsHeaders}
use ff_http_lws.Lws.Reply.{LwsReply, LwsReplyLines}
use ff_http_lws.Enums.{ELwsKnownHeaders, ELwsResponseStatus, ELwsContentType}
use ff_http_lws.Request.{calculcate_payload_size}
use ff_http_lws.Request.Payload.{payload_total, calculcate_payload_size_exact}

module _ {ue : Unreal} (e : UnrealDocs ue) (headers : LwsHeaders) {lws : LwsReply}
    (l : LwsReplyLines lws) (response : FString) (custom : TMap FString FString)
    (known : TMap ELwsKnownHeaders FString) (type : ELwsContentType)
    (wanted : ELwsResponseStatus) where
  pub size_lem :
      payload_total ue headers response custom known type < 2 ^ 31
      → int32 (calculcate_payload_size ue headers response custom known type wanted)
        ≡ pos (payload_total ue headers response custom known type)
  size_lem small =
      let (exact, _) =
        calculcate_payload_size_exact ue headers response custom known type wanted e small in
      int32_small (calculcate_payload_size ue headers response custom known type wanted)
        (omega (arith, exact, small))
      ∙ ap pos exact
