-- ===== src/Thread/State.antt =====
-- The state of `FHTTP_Thread_LibWebSocket`, and the settings that its constructor copies.
use ff_http_lws.Base.{ℕ, Bool, Option, none, ℤ, Bytes, FString}
use ff_http_lws.Engine.Map.{TMap}
use ff_http_lws.Lws.Structs.{LwsHttpMount, LwsProtocols, LwsContextCreationInfo}
use ff_http_lws.Trace.{ULwsRequest}

-- What the server actor is configured with (Public/FF_HTTP_LWS_Server.h).
pub record ServerSettings : Type 0 where
  pub server_path_root : FString
  pub server_path_404 : FString
  pub port_http : ℤ
  pub port_https : ℤ
  pub api_uri : FString
  pub server_name : FString

-- `LwsPoints`
pub record LwsPoints : Type 0 where
  pub data_points : Option Bytes
  pub lenght : ℕ

abbrev pub no_points : LwsPoints
no_points = record { data_points = none; lenght = 0 }

-- `FHTTP_Thread_LibWebSocket`. An entry of the pool is `none` where `IsValid` fails.
pub record HttpThread : Type 0 where
  -- the object's own address
  pub self : ℕ
  pub port_http : ℤ
  pub port_https : ℤ
  pub origin : LwsPoints
  pub mount_point : LwsPoints
  pub page_default : LwsPoints
  pub page_error : LwsPoints
  pub api_uri : LwsPoints
  pub runnable_thread : Option ℕ
  pub start_thread : Bool
  pub mount_static : LwsHttpMount
  pub mount_dynamic : LwsHttpMount
  pub protocols : Option (LwsProtocols × LwsProtocols)
  pub info : LwsContextCreationInfo
  pub context : Option ℕ
  pub request_pool : TMap ℕ (Option ULwsRequest)

-- What the memory of members with no initialiser holds.
pub record Uninit : Type 0 where
  pub mount_static : LwsHttpMount
  pub mount_dynamic : LwsHttpMount
  pub info : LwsContextCreationInfo
