-- ===== src/Request/Codes.antt =====
-- The tables of `ULwsRequest`: content types, status codes and header tokens.
use ff_http_lws.Base.{ℕ, Bytes, codes}
use ff_http_lws.Lws.Tokens.{
  LwsTokenIndexes, x_auth_token, http_authorization, http_www_authenticate, http_proxy_authenticate,
  http_proxy_authorization, http_accept, http_accept_encoding, http_content_type,
  http_content_length, host, origin, connection, http_user_agent, http_access_control_allow_origin,
}
use ff_http_lws.Enums.{
  ELwsKnownHeaders, no_header, header_x_auth_token, header_authorization, header_www_authorization,
  header_proxy_authenticate, header_proxy_authorization, header_accept, header_accept_encoding,
  header_content_type, header_content_lenght, header_host, header_origin, header_connection,
  header_user_agent, header_access_control_origin, ELwsResponseStatus, status_continue, status_ok,
  status_no_content, status_partial_content, status_bad_request, status_not_found,
  status_int_server_error, ELwsContentType, application_json, text_plain, text_html,
}

-- `FLwsContentType`
pub record FLwsContentType : Type 0 where
  pub text : Bytes
  pub lenght : ℕ

-- `ContentTypeString`
unfoldable pub content_type_string : ELwsContentType → FLwsContentType
content_type_string text_plain = record { text = codes "text/plain"; lenght = 10 }
content_type_string text_html = record { text = codes "text/html"; lenght = 9 }
content_type_string application_json = record { text = codes "application/json"; lenght = 16 }

-- `StatusEnumToInt`
unfoldable pub status_enum_to_int : ELwsResponseStatus → ℕ
status_enum_to_int status_continue = 100
status_enum_to_int status_ok = 200
status_enum_to_int status_no_content = 204
status_enum_to_int status_partial_content = 206
status_enum_to_int status_bad_request = 400
status_enum_to_int status_not_found = 404
status_enum_to_int status_int_server_error = 500

-- `BpHeadersToLws`; the last clause is the `default`.
unfoldable pub bp_headers_to_lws : ELwsKnownHeaders → LwsTokenIndexes
bp_headers_to_lws header_x_auth_token = x_auth_token
bp_headers_to_lws header_authorization = http_authorization
bp_headers_to_lws header_www_authorization = http_www_authenticate
bp_headers_to_lws header_proxy_authenticate = http_proxy_authenticate
bp_headers_to_lws header_proxy_authorization = http_proxy_authorization
bp_headers_to_lws header_accept = http_accept
bp_headers_to_lws header_accept_encoding = http_accept_encoding
bp_headers_to_lws header_content_type = http_content_type
bp_headers_to_lws header_content_lenght = http_content_length
bp_headers_to_lws header_host = host
bp_headers_to_lws header_origin = origin
bp_headers_to_lws header_connection = connection
bp_headers_to_lws header_user_agent = http_user_agent
bp_headers_to_lws header_access_control_origin = http_access_control_allow_origin
bp_headers_to_lws no_header = http_content_type
