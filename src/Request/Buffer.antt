-- ===== src/Request/Buffer.antt =====
-- Memory safety of `SendResponse`: no header is written past the end of the buffer.
use ff_http_lws.Base.{
  ℕ, ◌+◌, ◌^◌, ◌≤◌, ◌<◌, ◌≡◌, Bool, true, false, [], ◌∷◌, ℤ, pos, int32, int32_small, sym, ◌∙◌, ap,
  subst, Bytes, FString, codes, length, length-append, ltb, if◌then◌else◌, arith,
}
use ff_http_lws.Engine.{Unreal, UnrealDocs}
use ff_http_lws.Engine.Map.{TMap}
use ff_http_lws.Lws.Reasons.{lws_pre, http_status_ok}
use ff_http_lws.Lws.Tokens.{LwsTokenIndexes, http_content_type, http_access_control_allow_origin}
use ff_http_lws.Lws.Headers.{LwsHeaders}
use ff_http_lws.Lws.Reply.{LwsReply, LwsReplyDocs}
use ff_http_lws.Enums.{ELwsKnownHeaders, ELwsResponseStatus, ELwsContentType}
use ff_http_lws.Request.Payload.{payload_total, calculcate_payload_size_exact}
use ff_http_lws.Request.{
  bp_headers_to_lws, content_type_string, calculcate_payload_size, to_size, buffer_size, append,
  add_custom, add_known, header_block,
}

-- Some bytes, written from `LWS_PRE` on, stop at the end of the buffer.
abbrev pub Fits : ℕ → Bytes → Type 0
Fits end out = lws_pre + length out ≤ end

append-Fits :
    (op : ℕ → ℤ → ℤ × Bytes) (end : ℕ) (out : Bytes)
    → ((p : ℕ) → p ≤ end → p + length (op p (pos end)).1 ≤ end)
    → Fits end out
    → Fits end (append op (pos end) out)
append-Fits op end out safe h =
    let p = lws_pre + length out in omega (arith, length-append out (op p (pos end)).1, safe p h)

module _ {lws : LwsReply} (d : LwsReplyDocs lws) (ue : Unreal) (wsi end : ℕ) where
  by_token-Fits :
      (t : LwsTokenIndexes) (value : Bytes) (len : ℕ) (out : Bytes)
      → Fits end out
      → Fits end (append (lws.add_http_header_by_token wsi t value len) (pos end) out)
  by_token-Fits t value len out =
      append-Fits (lws.add_http_header_by_token wsi t value len) end out
        (λ p. d.by_token_in_bounds wsi t value len p end)

  by_name-Fits :
      (name value : Bytes) (len : ℕ) (out : Bytes)
      → Fits end out
      → Fits end (append (lws.add_http_header_by_name wsi name value len) (pos end) out)
  by_name-Fits name value len out =
      append-Fits (lws.add_http_header_by_name wsi name value len) end out
        (λ p. d.by_name_in_bounds wsi name value len p end)

  if-Fits : (b : Bool) (x y : Bytes) → Fits end x → Fits end y → Fits end (if b then x else y)
  if-Fits true x y hx hy = hx
  if-Fits false x y hx hy = hy

  add_custom-Fits :
      (m : TMap FString FString) (out : Bytes)
      → Fits end out
      → Fits end (add_custom ue lws wsi (pos end) m out)
  unfolding add_custom
  add_custom-Fits [] out h = h
  add_custom-Fits ((key, value) ∷ rest) out h =
      add_custom-Fits rest _
        (if-Fits (ltb 0 (length value)) _ out (by_name-Fits _ _ (length value) out h) h)

  add_known-Fits :
      (m : TMap ELwsKnownHeaders FString) (out : Bytes)
      → Fits end out
      → Fits end (add_known ue lws wsi (pos end) m out)
  unfolding add_known
  add_known-Fits [] out h = h
  add_known-Fits ((key, value) ∷ rest) out h = add_known-Fits rest _ (
      if-Fits (ltb 0 (length value)) _ out
        (by_token-Fits (bp_headers_to_lws key) _ (length value) out h) h)

  pub header_block-Fits :
      (response : FString) (custom : TMap FString FString) (known : TMap ELwsKnownHeaders FString)
      (type : ELwsContentType)
      → lws_pre ≤ end
      → Fits end (header_block ue lws wsi (pos end) response custom known type)
  unfolding header_block
  header_block-Fits response custom known type room =
      let started =
        append-Fits (lws.add_http_header_status wsi http_status_ok) end []
          (λ p. d.status_in_bounds wsi http_status_ok p end) (omega arith) in
      let allowed = by_token-Fits http_access_control_allow_origin (codes "*") 1 _ started in
      let content_type = content_type_string type in
      let typed = by_token-Fits http_content_type content_type.text content_type.lenght _ allowed in
      let sized =
        append-Fits (lws.add_http_header_content_length wsi (length response)) end _
          (λ p. d.content_length_in_bounds wsi (length response) p end) typed in
      append-Fits (lws.finalize_http_header wsi) end _ (λ p. d.finalize_in_bounds wsi p end)
        (add_known-Fits known _ (add_custom-Fits custom _ sized))

-- Where the exact size is below 2^31: `End` is the size behind the start of the
-- buffer, the headers start inside the buffer, they stop at `End`, and `End` is not behind the end
-- of the allocation.
pub send_in_bounds :
    {ue : Unreal} (e : UnrealDocs ue) (headers : LwsHeaders) {lws : LwsReply} (d : LwsReplyDocs lws)
    (wsi : ℕ) (response : FString) (custom : TMap FString FString)
    (known : TMap ELwsKnownHeaders FString) (type : ELwsContentType) (status : ELwsResponseStatus)
    → payload_total ue headers response custom known type < 2 ^ 31
    → let n = calculcate_payload_size ue headers response custom known type status in
      let end = to_size n in
      (int32 n ≡ pos end)
      × (lws_pre + length (header_block ue lws wsi (int32 n) response custom known type) ≤ end)
      × (end + lws_pre ≡ buffer_size n)
send_in_bounds {ue} e headers {lws} d wsi response custom known type status small =
    let (exact, room) =
      calculcate_payload_size_exact ue headers response custom known type status e small in
    let n = calculcate_payload_size ue headers response custom known type status in
    let kept : to_size n ≡ n = ground (arith, exact, small) in
    let offset : int32 n ≡ pos (to_size n) =
      int32_small n (omega (arith, exact, small)) ∙ ap pos (sym kept) in
    (
      offset,
      subst
          (λ i. lws_pre + length (header_block ue lws wsi i response custom known type) ≤ to_size n)
          (sym offset)
          (header_block-Fits d ue wsi (to_size n) response custom known type
            (omega (arith, room, kept))),
      omega (arith, exact, small, kept),
    )
