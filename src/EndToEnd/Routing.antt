-- ===== src/EndToEnd/Routing.antt =====
-- Which requests reach the actor: the API URI from the actor's settings through the constructor and
-- ConvertAddress to Callback_HTTP.
use ff_http_lws.Base.{
  ◌<◌, ◌^◌, ◌≡◌, refl, ◌∙◌, ap, ap₂, true, false, some, [], ◌∷◌, ◌++◌, append_assoc, map, pos, ℕ,
  FString, Bytes, Plain, is_empty, length, int32, int32_small, take-length, ◌==◌, if◌then◌else◌,
  arith, Bool-cases, inl, inr,
}
use ff_http_lws.Engine.{Unreal, UnrealDocs, Ascii}
use ff_http_lws.Lws.Reasons.{callback_http}
use ff_http_lws.Lws.Reply.{LwsReply}
use ff_http_lws.Object.Params.{FLwsParams, chars_at}
use ff_http_lws.Trace.{Trace, dummy_called, broadcast_http, on_lws_http}
use ff_http_lws.Thread.{ServerSettings}
use ff_http_lws.Thread.Callback.{Handlers, IsSilent, is_api_call, callback_http_lws}
use ff_http_lws.Server.{Environment, launch}
use ff_http_lws.Server.Lifetime.{launch_uri}

map-widen : {ue : Unreal} (e : UnrealDocs ue) (s : FString) → Ascii s → map e.widen s ≡ s
map-widen e [] h = refl
map-widen e (c ∷ s) h = ap₂ ◌∷◌ (e.widen_ascii c h.0) (map-widen e s h.1)

-- The text of an ASCII request.
request_uri-Ascii :
    {ue : Unreal} (e : UnrealDocs ue) (p : FLwsParams) (uri : Bytes)
    → p.input ≡ some uri
    → p.len ≡ length uri
    → length uri < 2 ^ 31
    → Ascii uri
    → chars_at ue p.input (int32 p.len) ≡ uri
request_uri-Ascii {ue} e p uri input len small ascii =
    rw (input, len, int32_small (length uri) small)
      (e.append_chars_lem (length uri) uri (omega arith)
        ∙ rw (take-length uri) (map-widen e uri ascii))

module _ (env : Environment) (e : UnrealDocs env.ue) (lws : LwsReply) {handlers : Handlers}
    (s : ServerSettings) (a : ℕ) where
  -- A started server passes a request for an ASCII URI to the actor exactly if it holds the API URI of
  -- the settings: then the actor sees the broadcast and the event, and the callback returns 0; any
  -- other request goes to libwebsockets' own handler alone, with its result. (The API URI is ASCII,
  -- not empty and without NUL, and the handlers do nothing themselves.)
  pub requests_routed :
      (p : FLwsParams) (uri : Bytes) (trace : Trace)
      → IsSilent handlers
      → is_empty s.api_uri ≡ false
      → Ascii s.api_uri
      → Plain s.api_uri
      → p.reason ≡ callback_http
      → p.input ≡ some uri
      → p.len ≡ length uri
      → length uri < 2 ^ 31
      → Ascii uri
      → callback_http_lws env.ue lws handlers (some (launch env s a)) p trace ≡ (
          if env.ue.contains uri s.api_uri
          then (
            pos 0,
            trace
                ++ broadcast_http (record { params = p; ret_val = pos 0 })
                  ∷ on_lws_http (record { params = p; ret_val = pos 0 })
                  ∷ [],
          )
          else (lws.callback_http_dummy p trace, trace ++ dummy_called p ∷ []))
  unfolding callback_http_lws
  requests_routed p uri trace silent full ascii plain reason input len small text =
      let owner = launch env s a in
      let known : env.ue.from_ansi owner.api_uri.data_points ≡ s.api_uri =
        ap env.ue.from_ansi (launch_uri env e s a full ascii plain)
        ∙ e.from_ansi_ascii s.api_uri ascii plain in
      let asked = request_uri-Ascii e p uri input len small text in
      let served : (p.reason == callback_http) ≡ true = ground arith in
      let api : is_api_call env.ue lws handlers owner p ≡ env.ue.contains uri s.api_uri =
        ap₂ env.ue.contains asked known in
      rw (served, api)
        (elim (Bool-cases (env.ue.contains uri s.api_uri)) [
          | inl holds ↦ rw holds (simp (silent.delegate_http, silent.on_http, append_assoc))
          | inr other ↦ rw other
        ])
