-- ===== src/Lws/Reply.antt =====
-- The functions of lws-http.h and lws-writeable.h that answer a request. A function that appends to
-- a buffer is given the offsets of `*p` and `end` in it, that of `end` below 0 if it lies before the
-- buffer, and returns its result with the bytes that
-- it wrote at `*p`, past which it moves `*p`.
use ff_http_lws.Base.{ℕ, ◌+◌, ◌≤◌, ◌≡◌, ℤ, pos, Bytes, length}
use ff_http_lws.Lws.Tokens.{LwsTokenIndexes}
use ff_http_lws.Object.Params.{FLwsParams}
use ff_http_lws.Trace.{Trace}

pub record LwsReply : Type 0 where
  -- `lws_add_http_header_status(wsi, code, p, end)`
  pub add_http_header_status : ℕ → ℕ → ℕ → ℤ → ℤ × Bytes
  -- `lws_add_http_header_by_name(wsi, name, value, length, p, end)`
  pub add_http_header_by_name : ℕ → Bytes → Bytes → ℕ → ℕ → ℤ → ℤ × Bytes
  -- `lws_add_http_header_by_token(wsi, token, value, length, p, end)`
  pub add_http_header_by_token : ℕ → LwsTokenIndexes → Bytes → ℕ → ℕ → ℤ → ℤ × Bytes
  -- `lws_add_http_header_content_length(wsi, content_length, p, end)`
  pub add_http_header_content_length : ℕ → ℕ → ℕ → ℤ → ℤ × Bytes
  -- `lws_finalize_http_header(wsi, p, end)`
  pub finalize_http_header : ℕ → ℕ → ℤ → ℤ × Bytes
  -- `lws_callback_http_dummy`, after these effects
  pub callback_http_dummy : FLwsParams → Trace → ℤ

-- "They each append to a buffer taking care about the buffer end" (lws-http.h).
pub record LwsReplyDocs (lws : LwsReply) : Type 0 where
  pub status_in_bounds :
      (w code p end : ℕ)
      → p ≤ end
      → p + length (lws.add_http_header_status w code p (pos end)).1 ≤ end
  pub by_name_in_bounds :
      (w : ℕ) (name value : Bytes) (len p end : ℕ)
      → p ≤ end
      → p + length (lws.add_http_header_by_name w name value len p (pos end)).1 ≤ end
  pub by_token_in_bounds :
      (w : ℕ) (t : LwsTokenIndexes) (value : Bytes) (len p end : ℕ)
      → p ≤ end
      → p + length (lws.add_http_header_by_token w t value len p (pos end)).1 ≤ end
  pub content_length_in_bounds :
      (w len p end : ℕ)
      → p ≤ end
      → p + length (lws.add_http_header_content_length w len p (pos end)).1 ≤ end
  pub finalize_in_bounds :
      (w p end : ℕ) → p ≤ end → p + length (lws.finalize_http_header w p (pos end)).1 ≤ end

-- "They can run out of space and fail with nonzero return" (lws-http.h). The headers do not say how much
-- space a call wants beyond its line: `slack` bytes are enough. Where there is that much room, each
-- call appends its line, which depends on nothing but its arguments.
pub record LwsReplyLines (lws : LwsReply) : Type 0 where
  pub slack : ℕ
  pub status_line : ℕ → ℕ → Bytes
  pub name_line : ℕ → Bytes → Bytes → ℕ → Bytes
  pub token_line : ℕ → LwsTokenIndexes → Bytes → ℕ → Bytes
  pub length_line : ℕ → ℕ → Bytes
  pub end_line : ℕ → Bytes
  pub status_room :
      (w code p end : ℕ)
      → p + length (status_line w code) + slack ≤ end
      → lws.add_http_header_status w code p (pos end) ≡ (pos 0, status_line w code)
  pub name_room :
      (w : ℕ) (name value : Bytes) (len p end : ℕ)
      → p + length (name_line w name value len) + slack ≤ end
      → lws.add_http_header_by_name w name value len p (pos end)
        ≡ (pos 0, name_line w name value len)
  pub token_room :
      (w : ℕ) (t : LwsTokenIndexes) (value : Bytes) (len p end : ℕ)
      → p + length (token_line w t value len) + slack ≤ end
      → lws.add_http_header_by_token w t value len p (pos end) ≡ (pos 0, token_line w t value len)
  pub length_room :
      (w len p end : ℕ)
      → p + length (length_line w len) + slack ≤ end
      → lws.add_http_header_content_length w len p (pos end) ≡ (pos 0, length_line w len)
  pub end_room :
      (w p end : ℕ)
      → p + length (end_line w) + slack ≤ end
      → lws.finalize_http_header w p (pos end) ≡ (pos 0, end_line w)
