-- ===== src/Object/Guards.antt =====
-- The guard that the getters of `ULwsObject` begin with, by the callback reason.
use ff_http_lws.Base.{◌≡◌, ◌≢◌, true, false, ◌||◌, arith, ◌==◌}
use ff_http_lws.Lws.Reasons.{callback_http, callback_http_body}
use ff_http_lws.Object.Params.{FLwsParams}
use ff_http_lws.Object.{wrong_reason}

-- The guard fails for exactly two reasons.
pub wrong_reason_lem :
    (p : FLwsParams)
    → p.reason ≢ callback_http
    → p.reason ≢ callback_http_body
    → wrong_reason p ≡ true
unfolding wrong_reason
wrong_reason_lem p h b = ground arith

pub right_reason :
    (p : FLwsParams)
    → (p.reason == callback_http || p.reason == callback_http_body) ≡ true
    → wrong_reason p ≡ false
unfolding wrong_reason
right_reason p h = ground arith
