-- ===== src/Trace.antt =====
-- What the code does to the outside, in order: bytes handed to `lws_write`, and requests handed to
-- libwebsockets' own handler. The objects that handlers receive (`ULwsRequest`, `ULwsInfos`) stand
-- here, since the events name them.
use ff_http_lws.Base.{ℕ, List, ℤ, Bytes, FString}
use ff_http_lws.Lws.Reasons.{LwsWriteProtocol}
use ff_http_lws.Object.Params.{FLwsParams}

-- The fields of `ULwsRequest`.
pub record ULwsRequest : Type 0 where
  pub params : FLwsParams
  pub ret_val : ℤ

-- The fields of `ULwsInfos`.
pub record ULwsInfos : Type 0 where
  pub params : FLwsParams

pub data Effect : Type 0 where
  -- `lws_write(wsi, buf, len, protocol)`, with the `len` bytes at `buf`
  wrote : ℕ → Bytes → LwsWriteProtocol → Effect
  -- `lws_callback_http_dummy` with these arguments
  dummy_called : FLwsParams → Effect
  -- a broadcast of `DelegateLwsHttp`, `DelegateLwsBody`, `DelegateLwsFilter`
  broadcast_http : ULwsRequest → Effect
  broadcast_body : ULwsInfos → Effect
  broadcast_filter : FString → Effect
  -- a call of `OnLwsHttp`, `OnLwsBody`, `OnLwsFilter`
  on_lws_http : ULwsRequest → Effect
  on_lws_body : ULwsInfos → Effect
  on_lws_filter : FString → Effect

abbrev pub Trace : Type 0
Trace = List Effect
