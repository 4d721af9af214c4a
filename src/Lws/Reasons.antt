-- ===== src/Lws/Reasons.antt =====
-- The other enumerations and constants of libwebsockets that the code names: callback reasons
-- (lws-callbacks.h), mount protocols (lws-context-vhost.h), write protocols (lws-write.h).
use ff_http_lws.Base.{ℕ}

-- `enum lws_callback_reasons`, by value: the code receives any of them and compares with three.
abbrev pub LwsCallbackReasons : Type 0
LwsCallbackReasons = ℕ

-- `LWS_CALLBACK_HTTP`
abbrev pub callback_http : LwsCallbackReasons
callback_http = 12

-- `LWS_CALLBACK_HTTP_BODY`
abbrev pub callback_http_body : LwsCallbackReasons
callback_http_body = 13

-- `LWS_CALLBACK_FILTER_HTTP_CONNECTION`
abbrev pub callback_filter_http_connection : LwsCallbackReasons
callback_filter_http_connection = 18

-- `enum lws_mount_protocols`
pub data LwsMountProtocols : Type 0 where
  mpro_http mpro_https mpro_file mpro_cgi mpro_redir_http mpro_redir_https : LwsMountProtocols
  mpro_callback mpro_no_mount : LwsMountProtocols

-- The kinds of `enum lws_write_protocol` that the code uses.
pub data LwsWriteProtocol : Type 0 where
  write_http write_http_headers : LwsWriteProtocol

-- `HTTP_STATUS_OK`
abbrev pub http_status_ok : ℕ
http_status_ok = 200

-- `LWS_PRE`: 4 + 10 + 2, which is already a multiple of the padding, 8 or 16.
abbrev pub lws_pre : ℕ
lws_pre = 16

-- `LWS_SERVER_OPTION_ALLOW_LISTEN_SHARE`: bit 23.
abbrev pub server_option_allow_listen_share : ℕ
server_option_allow_listen_share = 8388608
