-- ===== src/Request.antt =====
-- Source/FF_HTTP_LWS/Public/Objects/FF_HTTP_LWS_Request.h and
-- Private/Objects/FF_HTTP_LWS_Request.cpp: `ULwsRequest`, which answers a request. An `int` that is
-- added up is kept as its 32 bits, and a `size_t` or a pointer offset as its 64 bits.
pub mod Codes
pub mod Tables
pub mod Uri
pub mod Payload
pub mod Order
pub mod Bags
pub mod Buffer
pub mod Short
pub mod Whole
pub mod Room
pub mod Sending
use ff_http_lws.Base.{
  ℕ, ◌+◌, ◌-◌, ◌%◌, ◌^◌, Bool, true, false, not, Option, none, some, List, [], ◌∷◌, ◌++◌, ℤ, int32,
  Bytes, FString, codes, strlen, take, length, ltb, ◌==◌, if◌then◌else◌,
}
use ff_http_lws.Engine.{Unreal}
use ff_http_lws.Engine.Map.{TMap}
use ff_http_lws.Lws.Reasons.{callback_http, http_status_ok, lws_pre, write_http, write_http_headers}
use ff_http_lws.Lws.Tokens.{
  LwsTokenIndexes, token, x_auth_token, http_authorization, http_www_authenticate,
  http_proxy_authenticate, http_proxy_authorization, http_accept, http_accept_encoding,
  http_content_type, http_content_length, host, origin, connection, http_user_agent,
  http_access_control_allow_origin,
}
use ff_http_lws.Lws.Headers.{LwsHeaders}
use ff_http_lws.Lws.Reply.{LwsReply}
use ff_http_lws.Enums.{
  ELwsKnownHeaders, no_header, header_x_auth_token, header_authorization, header_www_authorization,
  header_proxy_authenticate, header_proxy_authorization, header_accept, header_accept_encoding,
  header_content_type, header_content_lenght, header_host, header_origin, header_connection,
  header_user_agent, header_access_control_origin, ELwsResponseStatus, status_continue, status_ok,
  status_no_content, status_partial_content, status_bad_request, status_not_found,
  status_int_server_error, ELwsContentType, application_json, text_plain, text_html,
}
use ff_http_lws.Object.Params.{FLwsParams, chars_at}
use ff_http_lws.Trace.{ULwsRequest, Effect, wrote, dummy_called, Trace}
pub use Codes.{FLwsContentType}
unfoldable pub use Codes.{content_type_string, status_enum_to_int, bp_headers_to_lws}

-- The low 32 bits, as an `int` keeps them.
abbrev pub int_bits : ℕ → ℕ
int_bits n = n % 2 ^ 32

-- `TERMINATION`
abbrev pub termination : ℕ
termination = 2

-- the loop over `In_Custom_Headers` in `CalculcatePayloadSize`
pub custom_lenght : TMap FString FString → ℕ → ℕ
custom_lenght [] sum = sum
custom_lenght ((key, value) ∷ rest) sum =
    custom_lenght rest
      (int_bits (int_bits (sum + length (key ++ codes ":")) + (length value + termination)))

module _ (lws : LwsHeaders) where
  -- `strlen(lws_token_to_string(…))`
  abbrev pub token_lenght : LwsTokenIndexes → ℕ
  token_lenght t = strlen (lws.token_to_string (token t))

  -- the loop over `In_Known_Headers` in `CalculcatePayloadSize`
  pub known_lenght : TMap ELwsKnownHeaders FString → ℕ → ℕ
  known_lenght [] sum = sum
  known_lenght ((key, value) ∷ rest) sum = known_lenght rest (
      int_bits
        (int_bits (sum + token_lenght (bp_headers_to_lws key)) + (length value + termination)))

-- `CalculcatePayloadSize`
unfoldable pub calculcate_payload_size :
    Unreal
    → LwsHeaders
    → FString
    → TMap FString FString
    → TMap ELwsKnownHeaders FString
    → ELwsContentType
    → ELwsResponseStatus
    → ℕ
unfolding custom_lenght known_lenght content_type_string
calculcate_payload_size ue lws in_response in_custom in_known in_type in_status =
    let lenght_response = int_bits (
      token_lenght lws http_content_length
      + length (ue.from_int (length in_response))
      + length in_response
      + termination) in
    let lenght_headers_custom = custom_lenght in_custom 0 in
    let lenght_headers_known = known_lenght lws in_known 0 in
    let lenght_header_ao =
      int_bits
        (token_lenght lws http_access_control_allow_origin + strlen (codes "*") + termination) in
    let lenght_header_ct =
      int_bits (token_lenght lws http_content_type + (content_type_string in_type).lenght + 1) in
    int_bits (
      lenght_response + lenght_headers_custom + lenght_headers_known + lenght_header_ao
      + lenght_header_ct)

-- `GetUri`
pub get_uri : Unreal → LwsHeaders → ULwsRequest → FString → Bool × FString
get_uri ue lws r out_uri =
    if not (r.params.reason == callback_http) then (false, out_uri) else elim r.params.input [
      | none ↦ (false, out_uri)
      | some _ ↦
          let found = lws.http_get_uri_and_method r.params.wsi in
          (true, chars_at ue found.1 found.2)
    ]

-- An `int` converted to `size_t`: the sign is extended.
abbrev pub to_size : ℕ → ℕ
to_size n = if ltb n (2 ^ 31) then n else n + (2 ^ 64 - 2 ^ 32)

-- The size passed to `malloc`.
abbrev pub buffer_size : ℕ → ℕ
buffer_size payload_size = (to_size payload_size + lws_pre) % 2 ^ 64

-- `End = &Response_Buffer[Payload_Size]` is an offset that may be negative.
-- One call that appends to the buffer: `out` holds the bytes from `&Response_Buffer[LWS_PRE]` up to
-- `Position`, and the result of the call is dropped.
abbrev pub append : (ℕ → ℤ → ℤ × Bytes) → ℤ → Bytes → Bytes
append op end out = out ++ (op (lws_pre + length out) end).1

module _ (ue : Unreal) (lws : LwsReply) (wsi : ℕ) (end : ℤ) where
  -- the loop over `In_Custom_Headers` in `SendResponse`: `Header_Name` and `Header_Value` are read in a
  -- statement behind those in which `TCHAR_TO_UTF8` gives them
  pub add_custom : TMap FString FString → Bytes → Bytes
  add_custom [] out = out
  add_custom ((key, value) ∷ rest) out = add_custom rest (
      if ltb 0 (length value)
      then append
          (lws.add_http_header_by_name wsi (ue.dangling 0 (key ++ codes ":")) (ue.dangling 0 value)
            (length value))
          end out
      else out)

  -- the loop over `In_Known_Headers` in `SendResponse`
  pub add_known : TMap ELwsKnownHeaders FString → Bytes → Bytes
  unfolding bp_headers_to_lws
  add_known [] out = out
  add_known ((key, value) ∷ rest) out = add_known rest (
      if ltb 0 (length value)
      then append
          (lws.add_http_header_by_token wsi (bp_headers_to_lws key) (ue.dangling 0 value)
            (length value))
          end out
      else out)

  -- the header block, from the status to `lws_finalize_http_header`
  unfoldable pub header_block :
      FString → TMap FString FString → TMap ELwsKnownHeaders FString → ELwsContentType → Bytes
  unfolding add_custom add_known content_type_string
  header_block in_response in_custom in_known in_type =
      let started = append (lws.add_http_header_status wsi http_status_ok) end [] in
      let allowed =
        append (lws.add_http_header_by_token wsi http_access_control_allow_origin (codes "*") 1) end
          started in
      let content_type = content_type_string in_type in
      let typed =
        append
          (lws.add_http_header_by_token wsi http_content_type content_type.text content_type.lenght)
          end allowed in
      let sized = append (lws.add_http_header_content_length wsi (length in_response)) end typed in
      let filled = add_known in_known (add_custom in_custom sized) in
      append (lws.finalize_http_header wsi) end filled

-- The body handed to `lws_write`: as many bytes, from the start of the UTF-8 text, as the text has code
-- units; if that is more than the text up to its terminator has, what stands behind it is read too.
abbrev pub sent_body : Unreal → FString → Bytes
sent_body ue in_response =
    take (length in_response) (ue.to_utf8 in_response ++ ue.behind_utf8 in_response)

-- What a call of `SendResponse` leaves behind.
pub record Sent : Type 0 where
  pub result : Bool
  pub payload_size : ℕ
  pub request : ULwsRequest
  pub trace : Trace

-- `SendResponse`
pub send_response :
    Unreal
    → LwsHeaders
    → LwsReply
    → ULwsRequest
    → FString
    → TMap FString FString
    → TMap ELwsKnownHeaders FString
    → ELwsContentType
    → ELwsResponseStatus
    → Trace
    → Sent
unfolding calculcate_payload_size header_block
send_response ue headers lws r in_response in_custom in_known in_type in_status trace =
    let payload_size =
      calculcate_payload_size ue headers in_response in_custom in_known in_type in_status in
    let block =
      header_block ue lws r.params.wsi (int32 payload_size) in_response in_custom in_known
        in_type in
    let written =
      trace
      ++ wrote r.params.wsi block write_http_headers
        ∷ wrote r.params.wsi (sent_body ue in_response) write_http
        ∷ [] in
    record {
      result = true;
      payload_size = payload_size;
      request = record r { ret_val = lws.callback_http_dummy r.params written };
      trace = written ++ dummy_called r.params ∷ [];
    }
