-- ===== src/Request/Tables.antt =====
-- The tables of `ULwsRequest`.
use ff_http_lws.Base.{◌≤◌, ◌≡◌, ◌≢◌, refl, ap, sym, ◌∙◌, strlen, arith}
use ff_http_lws.Lws.Tokens.{
  LwsTokenIndexes, x_auth_token, http_authorization, http_www_authenticate, http_proxy_authenticate,
  http_proxy_authorization, http_accept, http_accept_encoding, http_content_type,
  http_content_length, host, origin, connection, http_user_agent, http_access_control_allow_origin,
}
use ff_http_lws.Enums.{
  ELwsKnownHeaders, no_header, header_x_auth_token, header_authorization, header_www_authorization,
  header_proxy_authenticate, header_proxy_authorization, header_accept, header_accept_encoding,
  header_content_type, header_content_lenght, header_host, header_origin, header_connection,
  header_user_agent, header_access_control_origin, ELwsContentType, application_json, text_plain,
  text_html,
}
use ff_http_lws.Request.{content_type_string, bp_headers_to_lws}

-- The enumerator that names a token.
enum_of_token : LwsTokenIndexes → ELwsKnownHeaders
enum_of_token x_auth_token = header_x_auth_token
enum_of_token http_authorization = header_authorization
enum_of_token http_www_authenticate = header_www_authorization
enum_of_token http_proxy_authenticate = header_proxy_authenticate
enum_of_token http_proxy_authorization = header_proxy_authorization
enum_of_token http_accept = header_accept
enum_of_token http_accept_encoding = header_accept_encoding
enum_of_token http_content_type = header_content_type
enum_of_token http_content_length = header_content_lenght
enum_of_token host = header_host
enum_of_token origin = header_origin
enum_of_token connection = header_connection
enum_of_token http_user_agent = header_user_agent
enum_of_token http_access_control_allow_origin = header_access_control_origin
enum_of_token _ = no_header

enum_of_token_lem : (h : ELwsKnownHeaders) → h ≢ no_header → enum_of_token (bp_headers_to_lws h) ≡ h
unfolding enum_of_token bp_headers_to_lws
enum_of_token_lem no_header n = absurd (n refl)
enum_of_token_lem _ n = refl

-- Two enumerators other than NONE that are mapped to one token are equal.
pub bp_headers_to_lws-injective :
    (g h : ELwsKnownHeaders)
    → g ≢ no_header
    → h ≢ no_header
    → bp_headers_to_lws g ≡ bp_headers_to_lws h
    → g ≡ h
bp_headers_to_lws-injective g h m n same =
    sym (enum_of_token_lem g m) ∙ ap enum_of_token same ∙ enum_of_token_lem h n

-- The length that is written out for each content type is the length of its text.
pub content_type_string-lenght :
    (t : ELwsContentType) → (content_type_string t).lenght ≡ strlen (content_type_string t).text
unfolding content_type_string
content_type_string-lenght application_json = refl
content_type_string-lenght _ = refl

pub content_type_string-bound : (t : ELwsContentType) → 9 ≤ (content_type_string t).lenght
unfolding content_type_string
content_type_string-bound application_json = omega arith
content_type_string-bound text_plain = omega arith
content_type_string-bound text_html = omega arith
