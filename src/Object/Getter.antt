-- ===== src/Object/Getter.antt =====
-- Source/FF_HTTP_LWS/Public/Objects/FF_HTTP_LWS_Object.h: the getters of `ULwsObject` as one family,
-- and how they use their out parameters.
pub mod Contract
use ff_http_lws.Base.{Bool, true, false, Option, none, some, List, ℤ, FString}
use ff_http_lws.Engine.{Unreal}
use ff_http_lws.Engine.Map.{TMap}
use ff_http_lws.Lws.Headers.{LwsHeaders}
use ff_http_lws.Enums.{ELwsKnownHeaders}
use ff_http_lws.Object.Params.{FLwsParams, FLwsKnownHeaders}
use ff_http_lws.Object.{
  get_method, get_custom_header, get_all_custom_headers, get_known_header_int,
  get_known_header_enum, get_all_known_headers, get_all_url_parameters, get_url_param,
}

-- What a handler may ask of a request: a method of `ULwsObject` with its arguments.
pub data Getter : Type 0 where
  ask_method : Getter
  ask_custom_header : (key : FString) → Getter
  ask_all_custom_headers : (in_headers : List FString) → Getter
  ask_known_header_enum : (key : ELwsKnownHeaders) → Getter
  ask_known_header_int : (key : ℤ) → Getter
  ask_all_known_headers : Getter
  ask_all_url_parameters : Getter
  ask_url_param : (key : FString) (buffer_size : ℤ) → Getter

-- Its out parameter.
abbrev pub Out : Getter → Type 0
Out ask_method = FString
Out (ask_custom_header key) = FString
Out (ask_all_custom_headers in_headers) = TMap FString FString
Out (ask_known_header_enum key) = FString
Out (ask_known_header_int key) = FString
Out ask_all_known_headers = TMap FString FLwsKnownHeaders
Out ask_all_url_parameters = TMap FString FString
Out (ask_url_param key buffer_size) = FString

module _ (ue : Unreal) (lws : LwsHeaders) (p : FLwsParams) where
  -- The call, with what the out parameter holds.
  pub ask : (g : Getter) → Out g → Bool × Out g
  ask ask_method out = get_method lws p out
  ask (ask_custom_header key) out = get_custom_header ue lws p out key
  ask (ask_all_custom_headers in_headers) out = get_all_custom_headers ue lws p in_headers out
  ask (ask_known_header_enum key) out = get_known_header_enum ue lws p out key
  ask (ask_known_header_int key) out = get_known_header_int ue lws p out key
  ask ask_all_known_headers out = get_all_known_headers ue lws p out
  ask ask_all_url_parameters out = get_all_url_parameters ue lws p out
  ask (ask_url_param key buffer_size) out = get_url_param ue lws p out key buffer_size

-- A getter that answers, or does not, over what the out parameter held.
abbrev pub written : {A : Type 0} → A → Option A → Bool × A
written out none = (false, out)
written out (some value) = (true, value)
