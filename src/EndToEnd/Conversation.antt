-- ===== src/EndToEnd/Conversation.antt =====
-- Many requests, of several connections: what each connection is sent when every request is
-- answered from inside its event, with a text made from the request.
use ff_http_lws.Base.{
  ℕ, ◌+◌, ◌^◌, ◌≤◌, ◌<◌, ◌≡◌, refl, sym, ◌∙◌, ap, Bool, true, ◌&&◌, some, List, [], ◌∷◌, ◌++◌,
  append_assoc, append-nil, pos, int32, Bytes, FString, All, Plain, length, ◌==◌, if◌then◌else◌,
  Bool-cases, inl, inr,
}
use ff_http_lws.Engine.{Unreal, UnrealDocs, Ascii}
use ff_http_lws.Engine.Map.{TMap}
use ff_http_lws.Lws.Reasons.{
  lws_pre, callback_http, callback_http_body, callback_filter_http_connection, write_http,
  write_http_headers,
}
use ff_http_lws.Lws.Headers.{LwsHeaders}
use ff_http_lws.Lws.Reply.{LwsReply, LwsReplyLines}
use ff_http_lws.Enums.{ELwsKnownHeaders, ELwsResponseStatus, ELwsContentType}
use ff_http_lws.Object.Params.{FLwsParams, chars_at}
use ff_http_lws.Trace.{
  ULwsRequest, Effect, Trace, wrote, dummy_called, broadcast_http, broadcast_body, broadcast_filter,
  on_lws_http, on_lws_body, on_lws_filter,
}
use ff_http_lws.Request.{send_response}
use ff_http_lws.Request.Payload.{payload_total}
use ff_http_lws.Request.Whole.{all_lines, header_block-lines}
use ff_http_lws.Request.Sending.{send_response-Ascii}
use ff_http_lws.Thread.{HttpThread}
use ff_http_lws.Thread.Callback.{Handlers, callback_http_lws, callbacks}
use ff_http_lws.EndToEnd.Wire.{size_lem}

-- Handlers of which the event OnLwsHttp answers each request once, and the others do nothing.
abbrev pub answering :
    Unreal
    → LwsHeaders
    → LwsReply
    → (FLwsParams → FString)
    → TMap FString FString
    → TMap ELwsKnownHeaders FString
    → ELwsContentType
    → ELwsResponseStatus
    → Handlers
answering ue headers lws reply custom known type wanted = record {
  delegate_lws_http = λ r t. (r, t);
  handle_lws_http = λ r t.
      let sent = send_response ue headers lws r (reply r.params) custom known type wanted t in
      (sent.request, sent.trace);
  delegate_lws_body = λ i t. t;
  handle_lws_body = λ i t. t;
  delegate_lws_filter = λ u t. t;
  handle_lws_filter = λ u t. t;
}

-- A request whose URI holds the API URI.
abbrev pub is_api_request : Unreal → HttpThread → FLwsParams → Bool
is_api_request ue owner p =
    p.reason == callback_http
    && ue.contains (chars_at ue p.input (int32 p.len)) (ue.from_ansi owner.api_uri.data_points)

-- The bytes that the plugin hands to `lws_write` for one connection, in order. What libwebsockets' own
-- handler sends is not among them.
abbrev pub written_to : ℕ → Trace → Bytes
written_to w [] = []
written_to w (wrote v bytes protocol ∷ effects) =
    (if v == w then bytes else []) ++ written_to w effects
written_to w (_ ∷ effects) = written_to w effects

written_to-append : (w : ℕ) (s t : Trace) → written_to w (s ++ t) ≡ written_to w s ++ written_to w t
written_to-append w [] t = refl
written_to-append w (wrote v bytes protocol ∷ s) t =
    let first = if v == w then bytes else [] in
    ap (◌++◌ first) (written_to-append w s t)
    ∙ sym (append_assoc first (written_to w s) (written_to w t))
written_to-append w (_ ∷ s) t = written_to-append w s t

module _ {ue : Unreal} (e : UnrealDocs ue) (headers : LwsHeaders) {lws : LwsReply}
    (l : LwsReplyLines lws) (reply : FLwsParams → FString) (custom : TMap FString FString)
    (known : TMap ELwsKnownHeaders FString) (type : ELwsContentType) (wanted : ELwsResponseStatus)
    (owner : HttpThread) where
  abbrev size_of : FLwsParams → ℕ
  size_of p = payload_total ue headers (reply p) custom known type

  -- The header lines and the text of the answer to one request.
  abbrev pub response_lines : FLwsParams → Bytes
  response_lines p = all_lines l ue p.wsi (size_of p) (reply p) custom known type

  -- The answer to an API request is ASCII with no NUL, its exact size is below 2^31 and leaves room for
  -- its header lines and the slack behind them.
  abbrev pub IsAnswerable : FLwsParams → Type 0
  IsAnswerable p =
      is_api_request ue owner p ≡ true
      → Ascii (reply p)
        × Plain (reply p)
        × (size_of p < 2 ^ 31)
        × (lws_pre + length (response_lines p) + l.slack ≤ size_of p)

  -- The answers to the API requests of one connection, in the order of the requests.
  abbrev pub answers_to : ℕ → List FLwsParams → Bytes
  answers_to w [] = []
  answers_to w (p ∷ ps) =
      (if is_api_request ue owner p && p.wsi == w then response_lines p ++ reply p else [])
      ++ answers_to w ps

  -- The effects of one call.
  abbrev answered : FLwsParams → List Effect
  answered p =
      let r : ULwsRequest = record { params = p; ret_val = pos 0 } in
      if is_api_request ue owner p
      then broadcast_http r
        ∷ on_lws_http r
        ∷ wrote p.wsi (response_lines p) write_http_headers
        ∷ wrote p.wsi (reply p) write_http
        ∷ dummy_called p
        ∷ []
      else if p.reason == callback_http
      then dummy_called p ∷ []
      else if p.reason == callback_http_body
      then broadcast_body (record { params = p }) ∷ on_lws_body (record { params = p }) ∷ []
      else if p.reason == callback_filter_http_connection
      then broadcast_filter (chars_at ue p.input (int32 p.len))
        ∷ on_lws_filter (chars_at ue p.input (int32 p.len))
        ∷ []
      else []

  call_answered :
      (p : FLwsParams) (trace : Trace)
      → IsAnswerable p
      → (callback_http_lws ue lws
          (answering ue headers lws reply custom known type wanted)
          (some owner)
          p
          trace).1
        ≡ trace ++ answered p
  unfolding callback_http_lws
  call_answered p trace answerable = elim (Bool-cases (p.reason == callback_http)) [
    | inl http ↦
        elim (Bool-cases (
          ue.contains (chars_at ue p.input (int32 p.len))
            (ue.from_ansi owner.api_uri.data_points))) [
              | inl api ↦
                  let (ascii, plain, small, room) = answerable (rw (http, api) refl) in
                  let r : ULwsRequest = record { params = p; ret_val = pos 0 } in
                  let told = (trace ++ broadcast_http r ∷ []) ++ on_lws_http r ∷ [] in
                  let (sent, _, _) =
                    send_response-Ascii e headers lws r (reply p) custom known type told wanted
                      ascii plain in
                  let lines =
                    header_block-lines l ue p.wsi (size_of p) (reply p) custom known type room in
                  rw
                    (
                      http,
                      api,
                      sent,
                      size_lem e headers l (reply p) custom known type wanted small,
                      lines,
                    )
                    (simp append_assoc)
              | inr other ↦ rw (http, other) refl
            ]
    | inr not_http ↦ rw not_http (elim (Bool-cases (p.reason == callback_http_body)) [
      | inl body ↦ rw body (simp append_assoc)
      | inr not_body ↦
          rw not_body (elim (Bool-cases (p.reason == callback_filter_http_connection)) [
            | inl filter ↦ rw filter (simp append_assoc)
            | inr none_of_them ↦ rw none_of_them (simp append-nil)
          ])
    ])
  ]

  call_sent :
      (w : ℕ) (p : FLwsParams)
      → written_to w (answered p)
        ≡ (if is_api_request ue owner p && p.wsi == w then response_lines p ++ reply p else [])
  call_sent w p = elim (Bool-cases (is_api_request ue owner p)) [
    | inl api ↦ rw api (elim (Bool-cases (p.wsi == w)) [
      | inl mine ↦ rw mine (ap (◌++◌ (response_lines p)) (append-nil (reply p)))
      | inr other ↦ rw other refl
    ])
    | inr not_api ↦ rw not_api (elim (Bool-cases (p.reason == callback_http)) [
      | inl http ↦ rw http refl
      | inr not_http ↦ rw not_http (elim (Bool-cases (p.reason == callback_http_body)) [
        | inl body ↦ rw body refl
        | inr not_body ↦
            rw not_body (elim (Bool-cases (p.reason == callback_filter_http_connection)) [
              | inl filter ↦ rw filter refl
              | inr none_of_them ↦ rw none_of_them refl
            ])
      ])
    ])
  ]

  -- Where every API request is answered from inside its event, with an ASCII text with no NUL made from
  -- the request whose exact size is below 2^31 and leaves room for the header lines and the slack
  -- behind them: over any sequence of callbacks, of any connections and for any reasons, what the
  -- plugin hands to lws_write for each connection are the header lines and the text of the answer to
  -- each of its own API requests, whole, and in the order of these requests. What libwebsockets' own
  -- handler sends beside that is not counted. (The names and values in the header lines are what the
  -- freed memory behind the pointers of TCHAR_TO_UTF8 holds when they are read.)
  pub connections_answered :
      (w : ℕ) (ps : List FLwsParams) (trace : Trace)
      → All IsAnswerable ps
      → written_to w (
          callbacks ue lws (answering ue headers lws reply custom known type wanted) owner ps trace)
        ≡ written_to w trace ++ answers_to w ps
  unfolding callbacks
  connections_answered w [] trace h = sym (append-nil (written_to w trace))
  connections_answered w (p ∷ ps) trace h = rw (call_answered p trace h.0) (
      connections_answered w ps (trace ++ answered p) h.1
      ∙ ap (λ x. x ++ answers_to w ps) (written_to-append w trace (answered p))
      ∙ append_assoc (written_to w trace) (written_to w (answered p)) (answers_to w ps)
      ∙ ap (λ x. written_to w trace ++ (x ++ answers_to w ps)) (call_sent w p))
