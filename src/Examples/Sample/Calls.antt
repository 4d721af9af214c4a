-- ===== src/Examples/Sample/Calls.antt =====
-- Calls of the callback, and a thread object and a server actor that receive them.
use ff_http_lws.Base.{
  suc, ◌≡◌, Bool, false, List, ◌==◌, ==_refl, if◌then◌else◌, arith, ℕ, Option, none, some, [], ◌∷◌,
  pos, codes, length,
}
use ff_http_lws.Lws.Reasons.{
  LwsCallbackReasons, callback_http, callback_http_body, callback_filter_http_connection,
}
use ff_http_lws.Lws.Structs.{zero_mount, LwsProtocols, zero_info, LwsContextCreationInfo}
use ff_http_lws.Object.Params.{FLwsParams}
use ff_http_lws.Trace.{ULwsRequest}
use ff_http_lws.Thread.{ServerSettings, HttpThread, Uninit, construct}
use ff_http_lws.Server.{
  Environment, EnvironmentDocs, ThreadCall, thread_created, suspend_called, Game, default_settings,
}
use ff_http_lws.Examples.Sample.Engine.{sample_engine}

abbrev pub call : LwsCallbackReasons → FLwsParams
call reason =
    let text = codes "/api/lws/v1/a" in
    record { wsi = 1; input = some text; user = 0; reason = reason; len = length text }

abbrev pub http_call : FLwsParams
http_call = call callback_http

abbrev pub body_call : FLwsParams
body_call = call callback_http_body

abbrev pub filter_call : FLwsParams
filter_call = call callback_filter_http_connection

abbrev pub request : ULwsRequest
request = record { params = http_call; ret_val = pos 7 }

abbrev pub settings : ServerSettings
settings = default_settings

abbrev pub memory : Uninit
memory = record { mount_static = zero_mount; mount_dynamic = zero_mount; info = zero_info }

abbrev pub new_protocol : LwsProtocols
new_protocol = record {
  name = none;
  callback = none;
  per_session_data_size = 1;
  rx_buffer_size = 2;
  id = 3;
  user = none;
  tx_packet_size = 4;
}

abbrev pub create : LwsContextCreationInfo → Option ℕ
create info = some 9

abbrev pub thread : HttpThread
thread = construct sample_engine settings memory 5 (some 6)

-- A thread object whose pool holds the requests of the connections 1 and 2.
abbrev pub pooled : HttpThread
pooled = record thread {
  request_pool =
      (1, some request) ∷ (2, some (record { params = body_call; ret_val = pos 8 })) ∷ [];
}

-- The latest call for a thread tells whether it is paused.
abbrev latest_pause : ℕ → List ThreadCall → Bool
latest_pause r [] = false
latest_pause r (thread_created q ∷ calls) = if q == r then false else latest_pause r calls
latest_pause r (suspend_called q pause ∷ calls) = if q == r then pause else latest_pause r calls

abbrev pub environment : Environment
environment = record {
  ue = sample_engine;
  memory = λ self. memory;
  fresh_protocols = λ self. (new_protocol, new_protocol);
  create_thread = λ self name. some (suc self);
  is_paused = latest_pause;
  create_context = create;
}

latest_pause_created :
    (r : ℕ) (calls : List ThreadCall) → latest_pause r (thread_created r ∷ calls) ≡ false
latest_pause_created r calls = ground (arith, ==_refl r)

latest_pause_suspend :
    (r : ℕ) (pause : Bool) (calls : List ThreadCall)
    → latest_pause r (suspend_called r pause ∷ calls) ≡ pause
latest_pause_suspend r pause calls = ground (arith, ==_refl r)

pub environment-docs : EnvironmentDocs environment
environment-docs = record {
  is_paused_created = latest_pause_created;
  is_paused_suspend = latest_pause_suspend;
}

-- Before the first start.
abbrev pub fresh_game : Game
fresh_game = record {
  settings = settings;
  thread = none;
  next = 5;
  live = [];
  thread_calls = [];
  killed = [];
  contexts_destroyed = [];
}

-- The actor points to a live thread object.
abbrev pub playing : Game
playing = record fresh_game { thread = some 5; next = 6; live = (5, thread) ∷ [] }
