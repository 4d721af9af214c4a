-- ===== src/Lws/Tokens.antt =====
-- `enum lws_token_indexes` of Source/LibWebSocket/Win64/include/libwebsockets/lws-http.h, the known
-- headers, as lws_config.h configures it: `LWS_ROLE_WS`, `LWS_ROLE_H2` and
-- `LWS_WITH_HTTP_UNCOMMON_HEADERS` are defined there, so no enumerator is left out.
use ff_http_lws.Base.{ℕ, ℤ, pos}

-- The enumerators up to `WSI_TOKEN_COUNT`, in the order of the header.
pub data LwsTokenIndexes : Type 0 where
  get_uri post_uri options_uri host connection upgrade origin draft challenge : LwsTokenIndexes
  extensions key1 key2 protocol accept nonce http http2_settings http_accept : LwsTokenIndexes
  http_ac_request_headers http_if_modified_since http_if_none_match : LwsTokenIndexes
  http_accept_encoding http_accept_language http_pragma http_cache_control : LwsTokenIndexes
  http_authorization http_cookie http_content_length http_content_type http_date : LwsTokenIndexes
  http_range http_referer key version sworigin http_colon_authority : LwsTokenIndexes
  http_colon_method http_colon_path http_colon_scheme http_colon_status : LwsTokenIndexes
  http_accept_charset http_accept_ranges http_access_control_allow_origin : LwsTokenIndexes
  http_age http_allow http_content_disposition http_content_encoding : LwsTokenIndexes
  http_content_language http_content_location http_content_range http_etag : LwsTokenIndexes
  http_expect http_expires http_from http_if_match http_if_range : LwsTokenIndexes
  http_if_unmodified_since http_last_modified http_link http_location : LwsTokenIndexes
  http_max_forwards http_proxy_authenticate http_proxy_authorization http_refresh : LwsTokenIndexes
  http_retry_after http_server http_set_cookie http_strict_transport_security : LwsTokenIndexes
  http_transfer_encoding http_user_agent http_vary http_via http_www_authenticate : LwsTokenIndexes
  patch_uri put_uri delete_uri http_uri_args proxy http_x_real_ip http1_0 : LwsTokenIndexes
  x_forwarded_for connect head_uri te replay_nonce colon_protocol x_auth_token : LwsTokenIndexes
  dss_signature client_sent_protocols client_peer_address client_uri client_host : LwsTokenIndexes
  client_origin client_method client_iface client_localport client_alpn : LwsTokenIndexes

-- The value of an enumerator.
unfoldable pub token_index : LwsTokenIndexes → ℕ
token_index get_uri = 0
token_index post_uri = 1
token_index options_uri = 2
token_index host = 3
token_index connection = 4
token_index upgrade = 5
token_index origin = 6
token_index draft = 7
token_index challenge = 8
token_index extensions = 9
token_index key1 = 10
token_index key2 = 11
token_index protocol = 12
token_index accept = 13
token_index nonce = 14
token_index http = 15
token_index http2_settings = 16
token_index http_accept = 17
token_index http_ac_request_headers = 18
token_index http_if_modified_since = 19
token_index http_if_none_match = 20
token_index http_accept_encoding = 21
token_index http_accept_language = 22
token_index http_pragma = 23
token_index http_cache_control = 24
token_index http_authorization = 25
token_index http_cookie = 26
token_index http_content_length = 27
token_index http_content_type = 28
token_index http_date = 29
token_index http_range = 30
token_index http_referer = 31
token_index key = 32
token_index version = 33
token_index sworigin = 34
token_index http_colon_authority = 35
token_index http_colon_method = 36
token_index http_colon_path = 37
token_index http_colon_scheme = 38
token_index http_colon_status = 39
token_index http_accept_charset = 40
token_index http_accept_ranges = 41
token_index http_access_control_allow_origin = 42
token_index http_age = 43
token_index http_allow = 44
token_index http_content_disposition = 45
token_index http_content_encoding = 46
token_index http_content_language = 47
token_index http_content_location = 48
token_index http_content_range = 49
token_index http_etag = 50
token_index http_expect = 51
token_index http_expires = 52
token_index http_from = 53
token_index http_if_match = 54
token_index http_if_range = 55
token_index http_if_unmodified_since = 56
token_index http_last_modified = 57
token_index http_link = 58
token_index http_location = 59
token_index http_max_forwards = 60
token_index http_proxy_authenticate = 61
token_index http_proxy_authorization = 62
token_index http_refresh = 63
token_index http_retry_after = 64
token_index http_server = 65
token_index http_set_cookie = 66
token_index http_strict_transport_security = 67
token_index http_transfer_encoding = 68
token_index http_user_agent = 69
token_index http_vary = 70
token_index http_via = 71
token_index http_www_authenticate = 72
token_index patch_uri = 73
token_index put_uri = 74
token_index delete_uri = 75
token_index http_uri_args = 76
token_index proxy = 77
token_index http_x_real_ip = 78
token_index http1_0 = 79
token_index x_forwarded_for = 80
token_index connect = 81
token_index head_uri = 82
token_index te = 83
token_index replay_nonce = 84
token_index colon_protocol = 85
token_index x_auth_token = 86
token_index dss_signature = 87
token_index client_sent_protocols = 88
token_index client_peer_address = 89
token_index client_uri = 90
token_index client_host = 91
token_index client_origin = 92
token_index client_method = 93
token_index client_iface = 94
token_index client_localport = 95
token_index client_alpn = 96

-- `WSI_TOKEN_COUNT`
abbrev pub token_count : ℕ
token_count = 97

-- An enumerator as the `int` that the calls of the library pass.
unfoldable pub token : LwsTokenIndexes → ℤ
unfolding token_index
token t = pos (token_index t)
