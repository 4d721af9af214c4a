-- ===== src/Thread/Callback.antt =====
-- `Callback_HTTP`, the function that libwebsockets calls on the server's thread, and what it hands to
-- the actor's delegates and events.
use ff_http_lws.Base.{
  ◌≡◌, refl, sym, ◌∙◌, append_assoc, Bool, true, not, ◌&&◌, Option, none, some, List, [], ◌∷◌, ◌++◌,
  append-nil, ℤ, pos, int32, FString, ◌==◌, if◌then◌else◌, arith, Bool-cases, inl, inr,
}
use ff_http_lws.Engine.{Unreal}
use ff_http_lws.Lws.Reasons.{callback_http, callback_http_body, callback_filter_http_connection}
use ff_http_lws.Lws.Reply.{LwsReply}
use ff_http_lws.Object.Params.{FLwsParams, chars_at}
use ff_http_lws.Trace.{
  ULwsRequest, ULwsInfos, Effect, Trace, dummy_called, broadcast_http, broadcast_body,
  broadcast_filter, on_lws_http, on_lws_body, on_lws_filter,
}
use ff_http_lws.Thread.{HttpThread}

-- What is bound to the actor's delegates, and its Blueprint events. A handler may answer the request
-- and change the object that it is given.
pub record Handlers : Type 0 where
  pub delegate_lws_http : ULwsRequest → Trace → ULwsRequest × Trace
  pub handle_lws_http : ULwsRequest → Trace → ULwsRequest × Trace
  pub delegate_lws_body : ULwsInfos → Trace → Trace
  pub handle_lws_body : ULwsInfos → Trace → Trace
  pub delegate_lws_filter : FString → Trace → Trace
  pub handle_lws_filter : FString → Trace → Trace

module _ (ue : Unreal) (lws : LwsReply) (handlers : Handlers) where
  -- `RequestUri`
  abbrev pub request_uri : FLwsParams → FString
  request_uri p = chars_at ue p.input (int32 p.len)

  -- `RequestUri.Contains(Owner->ApiUri.Data)`
  abbrev pub is_api_call : HttpThread → FLwsParams → Bool
  is_api_call owner p = ue.contains (request_uri p) (ue.from_ansi owner.api_uri.data_points)

  -- `lws_callback_http_dummy(wsi, reason, user, in, len)`
  call_dummy : FLwsParams → Trace → ℤ × Trace
  call_dummy p trace = (lws.callback_http_dummy p trace, trace ++ dummy_called p ∷ [])

  -- the case LWS_CALLBACK_HTTP, behind its guard
  serve_http : FLwsParams → Trace → ℤ × Trace
  serve_http p trace =
      let request : ULwsRequest = record { params = p; ret_val = pos 0 } in
      let told = handlers.delegate_lws_http request (trace ++ broadcast_http request ∷ []) in
      let handled = handlers.handle_lws_http told.0 (told.1 ++ on_lws_http told.0 ∷ []) in
      (pos 0, handled.1)

  -- the case LWS_CALLBACK_HTTP_BODY
  serve_body : FLwsParams → Trace → ℤ × Trace
  serve_body p trace =
      let info : ULwsInfos = record { params = p } in
      let told = handlers.delegate_lws_body info (trace ++ broadcast_body info ∷ []) in
      (pos 0, handlers.handle_lws_body info (told ++ on_lws_body info ∷ []))

  -- the case LWS_CALLBACK_FILTER_HTTP_CONNECTION
  serve_filter : FLwsParams → Trace → ℤ × Trace
  serve_filter p trace =
      let uri = request_uri p in
      let told = handlers.delegate_lws_filter uri (trace ++ broadcast_filter uri ∷ []) in
      (pos 0, handlers.handle_lws_filter uri (told ++ on_lws_filter uri ∷ []))

  -- `Callback_HTTP`; the first argument is what `lws_context_user` returns.
  unfoldable pub callback_http_lws : Option HttpThread → FLwsParams → Trace → ℤ × Trace
  unfolding call_dummy serve_http serve_body serve_filter
  callback_http_lws none p trace = call_dummy p trace
  callback_http_lws (some owner) p trace =
      if p.reason == callback_http
      then (if not (is_api_call owner p) then call_dummy p trace else serve_http p trace)
      else if p.reason == callback_http_body
      then serve_body p trace
      else if p.reason == callback_filter_http_connection
      then serve_filter p trace
      else (pos 0, trace)

  -- The calls that libwebsockets' own handler answers: those with no owner, and requests for a URI
  -- that does not hold the API URI.
  abbrev pub is_forwarded : Option HttpThread → FLwsParams → Bool
  is_forwarded none p = true
  is_forwarded (some owner) p = p.reason == callback_http && not (is_api_call owner p)

  -- A forwarded call has the result of libwebsockets' own handler. Every other call returns 0,
  -- whatever the handlers did and whatever result they left in the request.
  pub callback_http_lws_result :
      (owner : Option HttpThread) (p : FLwsParams) (trace : Trace)
      → (callback_http_lws owner p trace).0
        ≡ (if is_forwarded owner p then lws.callback_http_dummy p trace else pos 0)
  unfolding callback_http_lws
  callback_http_lws_result none p trace = refl
  callback_http_lws_result (some owner) p trace = ground arith

-- Handlers that do nothing.
pub record IsSilent (handlers : Handlers) : Type 0 where
  pub delegate_http : (r : ULwsRequest) (t : Trace) → handlers.delegate_lws_http r t ≡ (r, t)
  pub on_http : (r : ULwsRequest) (t : Trace) → handlers.handle_lws_http r t ≡ (r, t)
  pub delegate_body : (i : ULwsInfos) (t : Trace) → handlers.delegate_lws_body i t ≡ t
  pub on_body : (i : ULwsInfos) (t : Trace) → handlers.handle_lws_body i t ≡ t
  pub delegate_filter : (u : FString) (t : Trace) → handlers.delegate_lws_filter u t ≡ t
  pub on_filter : (u : FString) (t : Trace) → handlers.handle_lws_filter u t ≡ t

-- What one call has the actor see.
abbrev pub seen : Unreal → HttpThread → FLwsParams → List Effect
seen ue owner p =
    if p.reason == callback_http
    then (if ue.contains (chars_at ue p.input (int32 p.len))
          (ue.from_ansi owner.api_uri.data_points)
        then broadcast_http (record { params = p; ret_val = pos 0 })
          ∷ on_lws_http (record { params = p; ret_val = pos 0 })
          ∷ []
        else dummy_called p ∷ [])
    else if p.reason == callback_http_body
    then broadcast_body (record { params = p }) ∷ on_lws_body (record { params = p }) ∷ []
    else if p.reason == callback_filter_http_connection
    then broadcast_filter (chars_at ue p.input (int32 p.len))
      ∷ on_lws_filter (chars_at ue p.input (int32 p.len))
      ∷ []
    else []

-- With handlers that do nothing, the effects of a call are exactly those of its reason: the broadcast
-- and then the event, each once and with the same object; a request outside the API is forwarded;
-- any other reason has no effect.
pub callback_http_lws-seen :
    (ue : Unreal) (lws : LwsReply) {handlers : Handlers}
    → IsSilent handlers
    → (owner : HttpThread) (p : FLwsParams) (trace : Trace)
    → (callback_http_lws ue lws handlers (some owner) p trace).1 ≡ trace ++ seen ue owner p
unfolding callback_http_lws
callback_http_lws-seen ue lws {handlers} silent owner p trace =
    elim (Bool-cases (p.reason == callback_http)) [
      | inl http ↦ rw http (elim (Bool-cases (is_api_call ue lws handlers owner p)) [
        | inl api ↦ rw api (simp (silent.delegate_http, silent.on_http, append_assoc))
        | inr other ↦ rw other
      ])
      | inr not_http ↦ rw not_http (elim (Bool-cases (p.reason == callback_http_body)) [
        | inl body ↦ rw body (simp (silent.delegate_body, silent.on_body, append_assoc))
        | inr not_body ↦
            rw not_body (elim (Bool-cases (p.reason == callback_filter_http_connection)) [
              | inl filter ↦
                  rw filter (simp (silent.delegate_filter, silent.on_filter, append_assoc))
              | inr none_of_them ↦ rw none_of_them (simp append-nil)
            ])
      ])
    ]

-- A sequence of callbacks, as libwebsockets makes them on the server's thread.
unfoldable pub callbacks :
    Unreal → LwsReply → Handlers → HttpThread → List FLwsParams → Trace → Trace
unfolding callback_http_lws
callbacks ue lws handlers owner [] trace = trace
callbacks ue lws handlers owner (p ∷ ps) trace =
    callbacks ue lws handlers owner ps (callback_http_lws ue lws handlers (some owner) p trace).1

abbrev pub all_seen : Unreal → HttpThread → List FLwsParams → List Effect
all_seen ue owner [] = []
all_seen ue owner (p ∷ ps) = seen ue owner p ++ all_seen ue owner ps

-- With handlers that do nothing, any sequence of callbacks has exactly the effects of its calls, one
-- call after the other: for an API request or a part of a body the broadcast and then the event, each
-- once and with the same object; for a new connection the same with its URI; for a request outside
-- the API the call of libwebsockets' own handler; nothing for any other reason.
pub callbacks-seen :
    (ue : Unreal) (lws : LwsReply) {handlers : Handlers}
    → IsSilent handlers
    → (owner : HttpThread) (ps : List FLwsParams) (trace : Trace)
    → callbacks ue lws handlers owner ps trace ≡ trace ++ all_seen ue owner ps
unfolding callbacks
callbacks-seen ue lws silent owner [] trace = sym (append-nil trace)
callbacks-seen ue lws silent owner (p ∷ ps) trace =
    rw (callback_http_lws-seen ue lws silent owner p trace) (
      callbacks-seen ue lws silent owner ps (trace ++ seen ue owner p)
      ∙ append_assoc trace (seen ue owner p) (all_seen ue owner ps))
