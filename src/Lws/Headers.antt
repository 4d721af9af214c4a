-- ===== src/Lws/Headers.antt =====
-- The functions of lws-http.h that read a received request. They are taken at the moment of one
-- callback, in which the request does not change. A buffer that such a function fills is returned
-- as the characters that it holds afterwards.
use ff_http_lws.Base.{ℕ, ◌<◌, ◌≡◌, Option, none, some, ◌++◌, ℤ, pos, minus_one, Bytes, length}

pub record LwsHeaders : Type 0 where
  -- `lws_hdr_total_length(wsi, h)`
  pub hdr_total_length : ℕ → ℤ → ℤ
  -- `lws_hdr_copy(wsi, dest, len, h)`: the result and `dest`
  pub hdr_copy : ℕ → ℤ → ℤ → ℤ × Bytes
  -- `lws_hdr_custom_length(wsi, name, nlen)`
  pub hdr_custom_length : ℕ → Bytes → ℕ → ℤ
  -- `lws_hdr_custom_copy(wsi, dst, len, name, nlen)`: the result and `dst`
  pub hdr_custom_copy : ℕ → ℤ → Bytes → ℕ → ℤ × Bytes
  -- `lws_get_urlarg_by_name_safe(wsi, name, buf, len)`: the result and `buf`
  pub get_urlarg_by_name_safe : ℕ → Bytes → ℤ → ℤ × Bytes
  -- `lws_http_get_uri_and_method(wsi, &ptr, &len)`: the result, the URI's memory (if `ptr` was
  -- set) and `len`
  pub http_get_uri_and_method : ℕ → ℤ × Option Bytes × ℤ
  -- `lws_token_to_string(token)`, taken to return text for every token
  pub token_to_string : ℤ → Bytes

-- What lws-http.h documents of them, over what the client sent.
pub record LwsHeadersDocs (lws : LwsHeaders) : Type 0 where
  -- the value of a known header, empty if the request has none
  pub header : ℕ → ℤ → Bytes
  -- the value of an unknown header, by its name and colon
  pub custom : ℕ → Bytes → Option Bytes
  -- the value of a URL argument, by its name and `=`
  pub urlarg : ℕ → Bytes → Option Bytes
  -- the URI of the request line
  pub uri : ℕ → Option Bytes
  pub hdr_total_length_lem : (w : ℕ) (t : ℤ) → lws.hdr_total_length w t ≡ pos (length (header w t))
  pub hdr_copy_lem :
      (w : ℕ) (t : ℤ) (n : ℕ)
      → length (header w t) < n
      → (rest : Bytes) × (lws.hdr_copy w (pos n) t
          ≡ (pos (length (header w t)), header w t ++ rest))
  pub hdr_custom_length_none :
      (w : ℕ) (name : Bytes) (n : ℕ)
      → custom w name ≡ none
      → lws.hdr_custom_length w name n ≡ minus_one
  pub hdr_custom_length_some :
      (w : ℕ) (name v : Bytes)
      → custom w name ≡ some v
      → lws.hdr_custom_length w name (length name) ≡ pos (length v)
  pub hdr_custom_copy_none :
      (w : ℕ) (n : ℤ) (name : Bytes) (k : ℕ)
      → custom w name ≡ none
      → (lws.hdr_custom_copy w n name k).0 ≡ minus_one
  pub hdr_custom_copy_some :
      (w n : ℕ) (name v : Bytes)
      → custom w name ≡ some v
      → length v < n
      → (rest : Bytes) × (lws.hdr_custom_copy w (pos n) name (length name)
          ≡ (pos (length v), v ++ rest))
  pub get_urlarg_none :
      (w : ℕ) (name : Bytes) (n : ℤ)
      → urlarg w name ≡ none
      → (lws.get_urlarg_by_name_safe w name n).0 ≡ minus_one
  pub get_urlarg_some :
      (w n : ℕ) (name v : Bytes)
      → urlarg w name ≡ some v
      → length v < n
      → (rest : Bytes) × (lws.get_urlarg_by_name_safe w name (pos n) ≡ (pos (length v), v ++ rest))
  pub http_get_uri_none :
      (w : ℕ) → uri w ≡ none → lws.http_get_uri_and_method w ≡ (minus_one, none, pos 0)
  pub http_get_uri_some :
      (w : ℕ) (u : Bytes)
      → uri w ≡ some u
      → (method : ℕ) × (rest : Bytes) × (lws.http_get_uri_and_method w
          ≡ (pos method, some (u ++ rest), pos (length u)))
