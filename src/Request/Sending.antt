-- ===== src/Request/Sending.antt =====
-- What `SendResponse` hands to libwebsockets.
use ff_http_lws.Base.{
  ℕ, zero, suc, ◌-◌, ◌≤◌, Bytes, take, take-rest, take-append, int32, Plain, sym, ◌∙◌, ◌≡◌, refl,
  ap, true, [], ◌∷◌, ◌++◌, FString, length, length-take, arith,
}
use ff_http_lws.Engine.{Unreal, UnrealDocs, Ascii}
use ff_http_lws.Engine.Map.{TMap}
use ff_http_lws.Lws.Reasons.{write_http, write_http_headers}
use ff_http_lws.Lws.Headers.{LwsHeaders}
use ff_http_lws.Lws.Reply.{LwsReply}
use ff_http_lws.Enums.{ELwsKnownHeaders, ELwsResponseStatus, ELwsContentType}
use ff_http_lws.Trace.{ULwsRequest, wrote, dummy_called, Trace}
use ff_http_lws.Request.{calculcate_payload_size, header_block, sent_body, send_response}

take_within : (n : ℕ) (a b : Bytes) → n ≤ length a → take n (a ++ b) ≡ take n a
take_within zero a b h = refl
take_within (suc n) [] b h = absurd (omega arith)
take_within (suc n) (c ∷ a) b h = ap (◌∷◌ c) (take_within n a b (omega arith))

module _ {ue : Unreal} (e : UnrealDocs ue) (headers : LwsHeaders) (lws : LwsReply) (r : ULwsRequest)
    (response : FString) (custom : TMap FString FString) (known : TMap ELwsKnownHeaders FString)
    (type : ELwsContentType) (trace : Trace) where
  -- The status that the caller asks for has no influence on anything that is sent or returned: any
  -- two of them give the same bytes, the same size and the same request.
  pub send_response-ignores_status :
      (s t : ELwsResponseStatus)
      → send_response ue headers lws r response custom known type s trace
        ≡ send_response ue headers lws r response custom known type t trace
  unfolding send_response
  send_response-ignores_status s t = refl

  -- The body of a response with no NUL that is written has exactly as many bytes as the response has
  -- characters, and is the beginning of its UTF-8 form; what is missing at its end is as long as the
  -- UTF-8 form has more bytes than the response has characters.
  pub sent_body_lem :
      Plain response
      → (rest : Bytes) × (ue.to_utf8 response ≡ sent_body ue response ++ rest)
        × (length (sent_body ue response) ≡ length response)
        × (length rest ≡ length (ue.to_utf8 response) - length response)
  sent_body_lem plain =
      let enough = e.le-to_utf8 response plain in
      let within =
        take_within (length response) (ue.to_utf8 response) (ue.behind_utf8 response) enough in
      let (rest, cut, left) = take-rest (length response) (ue.to_utf8 response) in
      (
        rest,
        cut ∙ ap (λ b. b ++ rest) (sym within),
        ap length within ∙ length-take (length response) (ue.to_utf8 response) enough,
        left,
      )

  -- An ASCII response with no NUL is sent whole: the effects are the header block, the response and the call of
  -- libwebsockets' own handler, in this order, and the handler's result is kept in the request.
  pub send_response-Ascii :
      (wanted : ELwsResponseStatus)
      → Ascii response
      → Plain response
      → let sent = send_response ue headers lws r response custom known type wanted trace in
        let end = int32 (calculcate_payload_size ue headers response custom known type wanted) in
        let block = header_block ue lws r.params.wsi end response custom known type in
        let written =
          trace
          ++ wrote r.params.wsi block write_http_headers
            ∷ wrote r.params.wsi response write_http
            ∷ [] in
        (sent.trace ≡ written ++ dummy_called r.params ∷ [])
        × (sent.request
            ≡ record { params = r.params; ret_val = lws.callback_http_dummy r.params written })
        × (sent.result ≡ true)
  unfolding send_response
  send_response-Ascii wanted ascii plain =
      let whole : sent_body ue response ≡ response =
        rw (e.to_utf8_ascii response ascii plain)
          (take-append response (ue.behind_utf8 response)) in
      (rw whole, rw whole, refl)
