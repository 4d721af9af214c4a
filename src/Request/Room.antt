-- ===== src/Request/Room.antt =====
-- When the buffer of `SendResponse` has room for all its headers, and how large it is when the size
-- wraps around.
use ff_http_lws.Base.{
  ℕ, ◌+◌, ◌-◌, ◌^◌, ◌≤◌, ◌<◌, ◌≡◌, ◌≢◌, ◌⊎◌, inl, inr, Bool-cases, leb, ap, ◌∙◌, pos, int32,
  int32_small, subst, FString, length, ltb, if◌then◌else◌, arith,
}
use ff_http_lws.Engine.{Unreal, UnrealDocs}
use ff_http_lws.Engine.Map.{TMap}
use ff_http_lws.Lws.Reasons.{lws_pre}
use ff_http_lws.Lws.Headers.{LwsHeaders}
use ff_http_lws.Lws.Reply.{LwsReply, LwsReplyDocs, LwsReplyLines}
use ff_http_lws.Enums.{ELwsKnownHeaders, ELwsResponseStatus, ELwsContentType}
use ff_http_lws.Request.Payload.{
  payload_total, calculcate_payload_size_lem, calculcate_payload_size_exact,
}
use ff_http_lws.Request.Buffer.{Fits, header_block-Fits}
use ff_http_lws.Request.Whole.{all_lines, header_block-lines}
use ff_http_lws.Request.{int_bits, calculcate_payload_size, buffer_size, header_block}

leb-cases : (m n : ℕ) → (m ≤ n) ⊎ (n < m)
leb-cases m n = elim (Bool-cases (leb m n)) [
  | inl le ↦ inl (ground (arith, le))
  | inr gt ↦ inr (ground (arith, gt))
]

module _ {lws : LwsReply} (d : LwsReplyDocs lws) (l : LwsReplyLines lws) (ue : Unreal)
    (wsi : ℕ) where
  -- The header block that `SendResponse` writes is the line of status 200,
  -- access-control-allow-origin with "*", the content type, the content length, the custom headers,
  -- then the known headers, those with an empty value left out, each in the order of its map, and the
  -- end of the headers, if these lines, the `LWS_PRE` bytes before them and the slack that
  -- libwebsockets wants behind a line are no more than the size that it computes; and it is not that
  -- block if the lines and the `LWS_PRE` bytes are more than this size. (The exact size is taken to be
  -- below 2^31. The names and values of the headers are what the freed memory behind the pointers of
  -- TCHAR_TO_UTF8 holds when they are read.)
  pub send_complete :
      (e : UnrealDocs ue) (headers : LwsHeaders) (response : FString)
      (custom : TMap FString FString) (known : TMap ELwsKnownHeaders FString)
      (type : ELwsContentType) (status : ELwsResponseStatus)
      → payload_total ue headers response custom known type < 2 ^ 31
      → let total = payload_total ue headers response custom known type in
        let n = calculcate_payload_size ue headers response custom known type status in
        let block = header_block ue lws wsi (int32 n) response custom known type in
        let lines = all_lines l ue wsi total response custom known type in
        ((block ≡ lines) ⊎ (total < lws_pre + length lines + l.slack))
        × ((block ≢ lines) ⊎ (lws_pre + length lines ≤ total))
  send_complete e headers response custom known type status small =
      let total = payload_total ue headers response custom known type in
      let (exact, room) =
        calculcate_payload_size_exact ue headers response custom known type status e small in
      let n = calculcate_payload_size ue headers response custom known type status in
      let offset : int32 n ≡ pos total =
        int32_small n (omega (arith, exact, small)) ∙ ap pos exact in
      let lines = all_lines l ue wsi total response custom known type in
      let starts : lws_pre ≤ total = omega (arith, room, exact) in
      rw offset (
        elim (leb-cases (lws_pre + length lines + l.slack) total) [
          | inl enough ↦ inl (header_block-lines l ue wsi total response custom known type enough)
          | inr short ↦ inr short
        ],
        elim (leb-cases (lws_pre + length lines) total) [
          | inl fits ↦ inr fits
          | inr longer ↦ inl (λ same. absurd (
              omega (
                arith,
                longer,
                subst (Fits total) same
                    (header_block-Fits d ue wsi total response custom known type starts),
              )))
        ],
      )

-- What `SendResponse` asks `malloc` for, whatever the exact size of the response is: by the low 32
-- bits of that size, `LWS_PRE` more than they are where they are below 2^31; otherwise nearly 2^64
-- bytes, or, in the last sixteen cases, fewer than sixteen.
pub buffer_size_lem :
    (ue : Unreal) (headers : LwsHeaders) (response : FString) (custom : TMap FString FString)
    (known : TMap ELwsKnownHeaders FString) (type : ELwsContentType) (status : ELwsResponseStatus)
    → let bits = int_bits (payload_total ue headers response custom known type) in
      buffer_size (calculcate_payload_size ue headers response custom known type status) ≡ (
        if ltb bits (2 ^ 31)
        then bits + 16
        else if ltb bits (2 ^ 32 - 16)
        then 2 ^ 64 - 2 ^ 32 + bits + 16
        else bits + 16 - 2 ^ 32)
buffer_size_lem ue headers response custom known type status =
    rw (calculcate_payload_size_lem ue headers response custom known type status)
      (go (payload_total ue headers response custom known type))
  where
    go :
        (total : ℕ)
        → buffer_size (int_bits total) ≡ (
            if ltb (int_bits total) (2 ^ 31)
            then int_bits total + 16
            else if ltb (int_bits total) (2 ^ 32 - 16)
            then 2 ^ 64 - 2 ^ 32 + int_bits total + 16
            else int_bits total + 16 - 2 ^ 32)
    go total = ground arith
