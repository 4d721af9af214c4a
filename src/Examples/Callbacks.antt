-- ===== src/Examples/Callbacks.antt =====
-- The callbacks of the sample thread object, with handlers that do nothing.
use ff_http_lws.Base.{◌+◌, ◌^◌, true, ◌≡◌, refl, some, [], ◌∷◌, pos, codes, arith}
use ff_http_lws.Trace.{broadcast_http, on_lws_http}
use ff_http_lws.Thread.Callback.{Handlers, IsSilent, callback_http_lws, callbacks}
use ff_http_lws.Server.{launch}
use ff_http_lws.Object.Params.{FLwsParams}
use ff_http_lws.Info.{get_body, get_body_lem}
use ff_http_lws.EndToEnd.Routing.{requests_routed}
use ff_http_lws.EndToEnd.Body.{received, body_reassembled}
use ff_http_lws.Examples.Sample.Engine.{sample_engine, sample_engine-docs}
use ff_http_lws.Examples.Sample.Reply.{sample_reply}
use ff_http_lws.Examples.Sample.Calls.{
  http_call, body_call, filter_call, settings, thread, environment,
}

abbrev silent : Handlers
silent = record {
  delegate_lws_http = λ r t. (r, t);
  handle_lws_http = λ r t. (r, t);
  delegate_lws_body = λ i t. t;
  handle_lws_body = λ i t. t;
  delegate_lws_filter = λ u t. t;
  handle_lws_filter = λ u t. t;
}

silent-IsSilent : IsSilent silent
silent-IsSilent = record {
  delegate_http = λ r t. refl;
  on_http = λ r t. refl;
  delegate_body = λ i t. refl;
  on_body = λ i t. refl;
  delegate_filter = λ u t. refl;
  on_filter = λ u t. refl;
}

-- Two parts of the body of the connection 1, with a part for the connection 2 and a new connection
-- between them.
abbrev first_part : FLwsParams
first_part = record body_call { input = some (codes "ab"); len = 2 }

abbrev other_part : FLwsParams
other_part = record body_call { wsi = 2; input = some (codes "x"); len = 1 }

abbrev last_part : FLwsParams
last_part = record body_call { input = some (codes "c"); len = 1 }

-- A part whose length is 2 in its low 32 bits.
get_body_example :
    get_body sample_engine
      (record { params = record body_call { input = some (codes "abc"); len = 2 ^ 32 + 2 } })
      []
    ≡ (true, codes "ab")
unfolding sample_engine-docs
get_body_example =
    get_body_lem sample_engine-docs
      (record { params = record body_call { input = some (codes "abc"); len = 2 ^ 32 + 2 } }) []
      (codes "abc") refl refl (omega arith) (omega arith)

body_reassembled_example :
    received sample_engine 1 (
      callbacks sample_engine sample_reply silent thread
        (first_part ∷ other_part ∷ filter_call ∷ last_part ∷ [])
        [])
    ≡ codes "abc"
unfolding sample_engine-docs
body_reassembled_example =
    body_reassembled sample_engine-docs 1 thread sample_reply
      (first_part ∷ other_part ∷ filter_call ∷ last_part ∷ []) silent-IsSilent
      (
        λ r. (codes "ab", refl, refl, omega arith),
        (
          λ r. (codes "x", refl, refl, omega arith),
          (λ r. absurd (omega (arith, r)), (λ r. (codes "c", refl, refl, omega arith), tt)),
        ),
      )

requests_routed_example :
    callback_http_lws sample_engine sample_reply silent
      (some (launch environment settings 5))
      http_call
      []
    ≡ (
      pos 0,
      broadcast_http (record { params = http_call; ret_val = pos 0 })
          ∷ on_lws_http (record { params = http_call; ret_val = pos 0 })
          ∷ [],
    )
requests_routed_example =
    requests_routed environment sample_engine-docs sample_reply settings 5 http_call
      (codes "/api/lws/v1/a") [] silent-IsSilent refl (ground arith) (ground arith) refl refl refl
      (omega arith) (ground arith)
