-- ===== src/Request/Short.antt =====
-- What the size that `SendResponse` computes leaves for the headers.
use ff_http_lws.Base.{int32, ℕ, ◌+◌, ◌^◌, ◌≤◌, ◌<◌, ◌≡◌, [], FString, length, arith}
use ff_http_lws.Engine.{Unreal, UnrealDocs}
use ff_http_lws.Lws.Tokens.{
  http_content_type, http_content_length, http_access_control_allow_origin,
}
use ff_http_lws.Lws.Headers.{LwsHeaders}
use ff_http_lws.Lws.Reply.{LwsReply, LwsReplyDocs}
use ff_http_lws.Enums.{ELwsResponseStatus, ELwsContentType}
use ff_http_lws.Request.Payload.{payload_total}
use ff_http_lws.Request.Buffer.{send_in_bounds}
use ff_http_lws.Request.Payload.{calculcate_payload_size_exact}
use ff_http_lws.Request.{
  token_lenght, content_type_string, calculcate_payload_size, to_size, header_block,
}

-- The bytes of the names and values of the three headers that every response has, with no
-- separators, no status line and no final line.
abbrev pub names_and_values : Unreal → LwsHeaders → FString → ELwsContentType → ℕ
names_and_values ue headers response type =
    token_lenght headers http_access_control_allow_origin
    + 1
    + (token_lenght headers http_content_type + (content_type_string type).lenght)
    + (token_lenght headers http_content_length + length (ue.from_int (length response)))

-- A response of at most ten characters, sent with no extra headers, has no room for its headers:
-- whatever libwebsockets writes within `End` is shorter than the names and values of the three
-- headers alone. (The exact size is taken to be below 2^31.)
pub short_response_lacks_headers :
    {ue : Unreal} (e : UnrealDocs ue) (headers : LwsHeaders) {lws : LwsReply} (d : LwsReplyDocs lws)
    (wsi : ℕ) (response : FString) (type : ELwsContentType) (status : ELwsResponseStatus)
    → payload_total ue headers response [] [] type < 2 ^ 31
    → length response ≤ 10
    → let end = int32 (calculcate_payload_size ue headers response [] [] type status) in
      length (header_block ue lws wsi end response [] [] type)
      < names_and_values ue headers response type
short_response_lacks_headers {ue} e headers d wsi response type status small short =
    let (exact, room) =
      calculcate_payload_size_exact ue headers response [] [] type status e small in
    let n = calculcate_payload_size ue headers response [] [] type status in
    let kept : to_size n ≡ n = ground (arith, exact, small) in
    let fits = (send_in_bounds e headers d wsi response [] [] type status small).1 in
    omega (arith, exact, kept, fits, short)
