-- ===== src/Lws/Structs.antt =====
-- The structures of libwebsockets that the server fills: `lws_http_mount` and
-- `lws_context_creation_info` (lws-context-vhost.h), `lws_protocols` (lws-protocols-plugins.h).
-- A pointer to text is the text, or `none` if it is null.
use ff_http_lws.Base.{ℕ, Option, none, ℤ, pos, Bytes}
use ff_http_lws.Lws.Reasons.{LwsMountProtocols, mpro_http}

-- The addresses of the two mounts, which are members of the server's thread object.
pub data MountRef : Type 0 where
  to_static to_dynamic : MountRef

-- `struct lws_http_mount`
pub record LwsHttpMount : Type 0 where
  pub mount_next : Option MountRef
  pub mountpoint : Option Bytes
  pub origin : Option Bytes
  pub def : Option Bytes
  pub protocol : Option Bytes
  pub cgienv : Option ℕ
  pub extra_mimetypes : Option ℕ
  pub interpret : Option ℕ
  pub cgi_timeout : ℤ
  pub cache_max_age : ℤ
  pub auth_mask : ℕ
  pub cache_reusable : ℕ
  pub cache_revalidate : ℕ
  pub cache_intermediaries : ℕ
  pub cache_no : ℕ
  pub origin_protocol : LwsMountProtocols
  -- an `unsigned char`
  pub mountpoint_len : ℕ
  pub basic_auth_login_file : Option Bytes

-- A mount after `memset(…, 0, …)`.
abbrev pub zero_mount : LwsHttpMount
zero_mount = record {
  mount_next = none;
  mountpoint = none;
  origin = none;
  def = none;
  protocol = none;
  cgienv = none;
  extra_mimetypes = none;
  interpret = none;
  cgi_timeout = pos 0;
  cache_max_age = pos 0;
  auth_mask = 0;
  cache_reusable = 0;
  cache_revalidate = 0;
  cache_intermediaries = 0;
  cache_no = 0;
  origin_protocol = mpro_http;
  mountpoint_len = 0;
  basic_auth_login_file = none;
}

-- The functions that a protocol's `callback` points to.
pub data Callback : Type 0 where
  to_callback_http : Callback

-- `struct lws_protocols`
pub record LwsProtocols : Type 0 where
  pub name : Option Bytes
  pub callback : Option Callback
  pub per_session_data_size : ℕ
  pub rx_buffer_size : ℕ
  pub id : ℕ
  pub user : Option ℕ
  pub tx_packet_size : ℕ

-- The fields of `struct lws_context_creation_info` that the code sets; the others are zero.
pub record LwsContextCreationInfo : Type 0 where
  pub error_document_404 : Option Bytes
  pub mounts : Option MountRef
  pub port : ℤ
  -- the array that `protocols` points to
  pub protocols : Option (LwsProtocols × LwsProtocols)
  -- whether `user` points to the server's thread object
  pub user : Option ℕ
  pub gid : ℤ
  pub uid : ℤ
  pub options : ℕ

-- After `memset(…, 0, …)`.
abbrev pub zero_info : LwsContextCreationInfo
zero_info = record {
  error_document_404 = none;
  mounts = none;
  port = pos 0;
  protocols = none;
  user = none;
  gid = pos 0;
  uid = pos 0;
  options = 0;
}
