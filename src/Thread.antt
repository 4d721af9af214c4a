-- ===== src/Thread.antt =====
-- Source/FF_HTTP_LWS/Public/FF_HTTP_LWS_Thread.h and Private/FF_HTTP_LWS_Thread.cpp:
-- `FHTTP_Thread_LibWebSocket`, the object that owns the libwebsockets context. Its operations are
-- here one by one; Run against Stop is in Thread/Race.antt, Callback_HTTP in Thread/Callback.antt.
pub mod State
pub mod Address
pub mod Mounts
pub mod Pool
pub mod Cached
pub mod Callback
pub mod Race
use ff_http_lws.Base.{
  ℕ, ◌+◌, ◌%◌, ◌^◌, Bool, true, false, Option, none, some, List, [], ◌∷◌, ◌++◌, ℤ, pos, minus_one,
  Bytes, FString, codes, strlen, length, is_empty, ◌==◌, if◌then◌else◌,
}
use ff_http_lws.Engine.{Unreal}
use ff_http_lws.Engine.Map.{TMap, find, contains_key, remove}
use ff_http_lws.Lws.Reasons.{mpro_callback, mpro_file, server_option_allow_listen_share}
use ff_http_lws.Lws.Structs.{
  to_static, to_dynamic, LwsHttpMount, zero_mount, to_callback_http, LwsProtocols,
  LwsContextCreationInfo, zero_info,
}
use ff_http_lws.Trace.{ULwsRequest}
pub use State.{ServerSettings, LwsPoints, no_points, HttpThread, Uninit}

-- `ConvertAddress`
unfoldable pub convert_address : Unreal → FString → Bool → LwsPoints
convert_address ue address make_platform_filename =
    let address' = if make_platform_filename then ue.make_platform_filename address else address in
    let data_size = strlen address' + 1 in
    record { data_points = some (ue.wcstombs data_size address'); lenght = length address' }

-- The constructor, up to `FRunnableThread::Create`, whose result is `runnable`.
unfoldable pub construct : Unreal → ServerSettings → Uninit → ℕ → Option ℕ → HttpThread
unfolding convert_address
construct ue s memory self runnable = record {
  self = self;
  port_http = s.port_http;
  port_https = s.port_https;
  origin =
      if is_empty s.server_path_root then no_points else convert_address ue s.server_path_root true;
  mount_point = convert_address ue (codes "/") false;
  page_default = convert_address ue (codes "index.html") false;
  page_error =
      if is_empty s.server_path_404
      then no_points
      else convert_address ue (codes "/" ++ s.server_path_404) false;
  api_uri = if is_empty s.api_uri then no_points else convert_address ue s.api_uri false;
  runnable_thread = runnable;
  start_thread = false;
  mount_static = memory.mount_static;
  mount_dynamic = memory.mount_dynamic;
  protocols = none;
  info = memory.info;
  context = none;
  request_pool = [];
}

-- An `int32` stored in an `unsigned char`.
abbrev pub byte : ℕ → ℕ
byte n = n % 2 ^ 8

-- `Init_DynamicMount`
unfoldable pub init_dynamic_mount : HttpThread → HttpThread
init_dynamic_mount t = record t {
  mount_dynamic = record zero_mount {
    mount_next = none;
    mountpoint_len = byte t.api_uri.lenght;
    mountpoint = t.api_uri.data_points;
    def = none;
    protocol = some (codes "http");
    origin = none;
    origin_protocol = mpro_callback;
    basic_auth_login_file = none;
    extra_mimetypes = none;
    interpret = none;
    cgienv = none;
    cgi_timeout = pos 0;
    cache_max_age = pos 0;
    cache_reusable = 0;
    cache_revalidate = 0;
    cache_intermediaries = 0;
  };
}

-- `Init_StaticMount`
unfoldable pub init_static_mount : HttpThread → HttpThread
init_static_mount t = record t {
  mount_static = record zero_mount {
    mount_next = some to_dynamic;
    mountpoint_len = byte t.mount_point.lenght;
    mountpoint = t.mount_point.data_points;
    def = t.page_default.data_points;
    protocol = none;
    origin = t.origin.data_points;
    origin_protocol = mpro_file;
    auth_mask = 0;
    basic_auth_login_file = none;
    extra_mimetypes = none;
    interpret = none;
    cgienv = none;
    cgi_timeout = pos 0;
    cache_max_age = pos 0;
    cache_reusable = 0;
    cache_revalidate = 0;
    cache_intermediaries = 0;
  };
}

-- `Init_Protocols`; the second argument is what `new lws_protocols[2]` finds in its memory.
unfoldable pub init_protocols : HttpThread → LwsProtocols × LwsProtocols → HttpThread
init_protocols t memory = record t {
  protocols = some (
    record memory.0 {
      name = some (codes "http");
      callback = some to_callback_http;
      rx_buffer_size = 0;
      per_session_data_size = 0;
    },
    record memory.1 { name = none; callback = none; per_session_data_size = 0 },
  );
}

-- `Init_Info`
unfoldable pub init_info : HttpThread → HttpThread
init_info t = record t {
  info = record zero_info {
    error_document_404 = t.page_error.data_points;
    mounts = some to_static;
    port = t.port_http;
    protocols = t.protocols;
    user = some t.self;
    gid = minus_one;
    uid = minus_one;
    options = server_option_allow_listen_share;
  };
}

-- `HTTP_Start`; the last argument is `lws_create_context`.
unfoldable pub http_start :
    HttpThread → LwsProtocols × LwsProtocols → (LwsContextCreationInfo → Option ℕ) → HttpThread
unfolding init_dynamic_mount init_static_mount init_protocols init_info
http_start t memory create_context =
    let ready = init_info (init_protocols (init_static_mount (init_dynamic_mount t)) memory) in
    record ready { context = create_context ready.info }

-- `Init`
unfoldable pub init :
    HttpThread → LwsProtocols × LwsProtocols → (LwsContextCreationInfo → Option ℕ) → HttpThread
unfolding http_start
init t memory create_context = record (http_start t memory create_context) { start_thread = true }

-- `HTTP_Stop`, with the context that it destroys.
unfoldable pub http_stop : HttpThread → HttpThread × Option ℕ
http_stop t = (record t { context = none; protocols = none; request_pool = [] }, t.context)

-- `Stop`
unfoldable pub stop : HttpThread → HttpThread × Option ℕ
unfolding http_stop
stop t = let (t', destroyed) = http_stop t in (record t' { start_thread = false }, destroyed)

-- `Toggle`, with the call of `Suspend` that it makes.
unfoldable pub toggle : HttpThread → Bool → Bool × Option (ℕ × Bool)
toggle t is_pause = elim t.runnable_thread [
  | none ↦ (false, none)
  | some runnable ↦ (true, some (runnable, is_pause))
]

-- `Callback_Return`; `*Find(wsi)` follows a successful `Contains(wsi)`.
unfoldable pub callback_return : HttpThread → ℕ → ℤ × HttpThread
callback_return t wsi =
    if length t.request_pool == 0 then (pos 0, t) else elim (find ◌==◌ wsi t.request_pool) [
      | none ↦ (pos 0, t)
      | some entry ↦ elim entry [
        | none ↦ (pos 0, t)
        | some request ↦
            (request.ret_val, record t { request_pool = remove ◌==◌ wsi t.request_pool })
      ]
    ]
