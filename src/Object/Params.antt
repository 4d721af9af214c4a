-- ===== src/Object/Params.antt =====
-- The structures of Source/FF_HTTP_LWS/Public/Objects/FF_HTTP_LWS_Object.h, and the conversion of
-- callback text that Callback_HTTP, GetBody and GetUri share.
use ff_http_lws.Base.{ℕ, Option, none, some, [], ℤ, Bytes, FString}
use ff_http_lws.Engine.{Unreal}
use ff_http_lws.Lws.Reasons.{LwsCallbackReasons}
use ff_http_lws.Enums.{ELwsKnownHeaders}

-- `FLwsParams`, the arguments of a callback. `wsi` and `user` are addresses; `input` is the memory
-- behind the pointer `in`, if it is not null.
pub record FLwsParams : Type 0 where
  pub wsi : ℕ
  pub input : Option Bytes
  pub user : ℕ
  pub reason : LwsCallbackReasons
  pub len : ℕ

-- `FLwsKnownHeaders`
pub record FLwsKnownHeaders : Type 0 where
  pub string : FString
  pub index : ℕ
  pub header_enum : ELwsKnownHeaders

-- `AppendChars((const char*)ptr, count)` on an empty text.
abbrev pub chars_at : Unreal → Option Bytes → ℤ → FString
chars_at ue none count = ue.append_chars [] count
chars_at ue (some bytes) count = ue.append_chars bytes count
