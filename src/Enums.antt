-- ===== src/Enums.antt =====
-- Source/FF_HTTP_LWS/Public/FF_HTTP_LWS_Enums.h
pub data ELwsKnownHeaders : Type 0 where
  no_header : ELwsKnownHeaders
  header_x_auth_token header_authorization header_www_authorization : ELwsKnownHeaders
  header_proxy_authenticate header_proxy_authorization : ELwsKnownHeaders
  header_accept header_accept_encoding : ELwsKnownHeaders
  header_content_type header_content_lenght : ELwsKnownHeaders
  header_host header_origin header_connection header_user_agent : ELwsKnownHeaders
  header_access_control_origin : ELwsKnownHeaders

pub data ELwsResponseStatus : Type 0 where
  status_continue status_ok status_no_content status_partial_content : ELwsResponseStatus
  status_bad_request status_not_found status_int_server_error : ELwsResponseStatus

pub data ELwsContentType : Type 0 where
  application_json text_plain text_html : ELwsContentType
