-- ===== src/EndToEnd/Body.antt =====
-- A body that arrives in parts, among the callbacks of other connections: Callback_HTTP, OnLwsBody
-- and GetBody together.
use mathlib.Core.List.{map-append}
use ff_http_lws.Base.{
  pos, ℕ, ◌<◌, ◌^◌, ◌≡◌, refl, sym, ◌∙◌, ap, ap₂, Bool, true, false, ◌&&◌, none, some, List, [],
  ◌∷◌, ◌++◌, map, append_assoc, append-nil, Bytes, FString, All, length, take-length, int32, ◌==◌,
  if◌then◌else◌, arith, Bool-cases, inl, inr,
}
use ff_http_lws.Engine.{Unreal, UnrealDocs}
use ff_http_lws.Lws.Reasons.{callback_http, callback_http_body, callback_filter_http_connection}
use ff_http_lws.Lws.Reply.{LwsReply}
use ff_http_lws.Object.Params.{FLwsParams, chars_at}
use ff_http_lws.Trace.{Trace, dummy_called, broadcast_http, on_lws_http, on_lws_body}
use ff_http_lws.Info.{get_body, get_body_whole}
use ff_http_lws.Thread.{HttpThread}
use ff_http_lws.Thread.Callback.{Handlers, IsSilent, callbacks, seen, all_seen, callbacks-seen}

-- The bytes of the body of the connection `w` that one call brings.
abbrev pub body_part : ℕ → FLwsParams → Bytes
body_part w p =
    if p.reason == callback_http_body && p.wsi == w
    then elim p.input [ none ↦ [] | some bytes ↦ bytes ]
    else []

abbrev pub body_sent : ℕ → List FLwsParams → Bytes
body_sent w [] = []
body_sent w (p ∷ ps) = body_part w p ++ body_sent w ps

-- A body part is its `len` bytes, fewer than 2^31.
abbrev pub IsPart : FLwsParams → Type 0
IsPart p =
    p.reason ≡ callback_http_body
    → (bytes : Bytes) × (p.input ≡ some bytes) × (p.len ≡ length bytes) × (p.len < 2 ^ 31)

-- What `GetBody` gives in the event OnLwsBody for the connection `w`, one event after the other.
abbrev pub received : Unreal → ℕ → Trace → FString
received ue w [] = []
received ue w (on_lws_body i ∷ effects) =
    (if i.params.wsi == w then (get_body ue i []).1 else []) ++ received ue w effects
received ue w (_ ∷ effects) = received ue w effects

received-append :
    (ue : Unreal) (w : ℕ) (s t : Trace)
    → received ue w (s ++ t) ≡ received ue w s ++ received ue w t
received-append ue w [] t = refl
received-append ue w (on_lws_body i ∷ s) t =
    let first = if i.params.wsi == w then (get_body ue i []).1 else [] in
    ap (◌++◌ first) (received-append ue w s t)
    ∙ sym (append_assoc first (received ue w s) (received ue w t))
received-append ue w (_ ∷ s) t = received-append ue w s t

module _ {ue : Unreal} (e : UnrealDocs ue) (w : ℕ) (owner : HttpThread) where
  part_lem :
      (p : FLwsParams)
      → IsPart p
      → p.reason ≡ callback_http_body
      → (get_body ue (record { params = p }) []).1
        ≡ map e.widen (elim p.input as (λ _. Bytes) [ none ↦ [] | some bytes ↦ bytes ])
  part_lem p part reason =
      let (bytes, input, len, small) = part reason in
      ap (λ (x : Bool × FString). x.1)
        (get_body_whole e (record { params = p }) [] bytes reason input (omega (arith, len)) small)
      ∙ ap (map e.widen) (rw (input, len) (take-length bytes))

  -- A call that is no part of the body of `w` gives it nothing.
  other_lem :
      (p : FLwsParams)
      → (p.reason == callback_http_body) ≡ false
      → received ue w (seen ue owner p) ≡ []
  other_lem p other = elim (Bool-cases (p.reason == callback_http)) [
    | inl http ↦ rw http (
        go (
          ue.contains (chars_at ue p.input (int32 p.len)) (ue.from_ansi owner.api_uri.data_points)))
    | inr not_http ↦
        rw (not_http, other)
          (elim (Bool-cases (p.reason == callback_filter_http_connection)) [
            | inl filter ↦ rw filter
            | inr none_of_them ↦ rw none_of_them
          ])
  ]
    where
      go :
          (b : Bool)
          → received ue w (
              if b
              then broadcast_http (record { params = p; ret_val = pos 0 })
                ∷ on_lws_http (record { params = p; ret_val = pos 0 })
                ∷ []
              else dummy_called p ∷ [])
            ≡ []
      go true = refl
      go false = refl

  seen-received :
      (p : FLwsParams) → IsPart p → received ue w (seen ue owner p) ≡ map e.widen (body_part w p)
  seen-received p part = elim (Bool-cases (p.reason == callback_http_body)) [
    | inl body ↦
        let reason : p.reason ≡ callback_http_body = ground arith in
        let not_http : (p.reason == callback_http) ≡ false = ground arith in
        rw (not_http, body)
          (elim (Bool-cases (p.wsi == w)) [
            | inl mine ↦ rw mine (append-nil _ ∙ part_lem p part reason)
            | inr other ↦ rw other
          ])
    | inr other ↦ other_lem p other ∙ rw other
  ]

  all_seen-received :
      (ps : List FLwsParams)
      → All IsPart ps
      → received ue w (all_seen ue owner ps) ≡ map e.widen (body_sent w ps)
  all_seen-received [] h = refl
  all_seen-received (p ∷ ps) h =
      received-append ue w (seen ue owner p) (all_seen ue owner ps)
      ∙ ap₂ (◌++◌) (seen-received p h.0) (all_seen-received ps h.1)
      ∙ sym (map-append e.widen (body_part w p) (body_sent w ps))

  -- A body that libwebsockets brings in parts is whole again when the texts that GetBody gives, one
  -- in each event OnLwsBody of a connection, are joined in the order of the events: whatever other
  -- calls, of other connections and for other reasons, come in between, and with handlers that do
  -- nothing themselves. (Each part is taken to hold its bytes, fewer than 2^31.)
  pub body_reassembled :
      (lws : LwsReply) {handlers : Handlers} (ps : List FLwsParams)
      → IsSilent handlers
      → All IsPart ps
      → received ue w (callbacks ue lws handlers owner ps []) ≡ map e.widen (body_sent w ps)
  body_reassembled lws ps silent h =
      ap (received ue w) (callbacks-seen ue lws silent owner ps []) ∙ all_seen-received ps h
