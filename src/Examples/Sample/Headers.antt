-- ===== src/Examples/Sample/Headers.antt =====
-- A library that received `GET /api/lws/v1/a`, with a query and one custom header; the sample's query
-- is `x=1&flag&y=2`.
use ff_http_lws.Base.{
  ℕ, ◌<◌, ◌≡◌, refl, Option, none, some, [], ◌∷◌, ◌++◌, ℤ, pos, negsuc, minus_one, Bytes, codes,
  length, ltb, text_eq, ◌==◌, if◌then◌else◌, arith,
}
use ff_http_lws.Lws.Headers.{LwsHeaders, LwsHeadersDocs}
use ff_http_lws.Examples.Sample.Engine.{from_int}

abbrev pub target : Bytes
target = codes "/api/lws/v1/a"

abbrev pub args : Bytes
args = codes "x=1&flag&y=2"

-- by the numbers of WSI_TOKEN_GET_URI and WSI_TOKEN_HTTP_URI_ARGS
abbrev header_by_index : Bytes → ℕ → Bytes
header_by_index query n = if n == 0 then target else if n == 76 then query else []

abbrev header : Bytes → ℕ → ℤ → Bytes
header query w (pos n) = header_by_index query n
header query w (negsuc n) = []

abbrev pub custom : ℕ → Bytes → Option Bytes
custom w name = if text_eq name (codes "x-token:") then some (codes "secret") else none

abbrev pub urlarg : ℕ → Bytes → Option Bytes
urlarg w name = if text_eq name (codes "x=") then some (codes "1") else none

abbrev length_of : Option Bytes → ℤ
length_of none = minus_one
length_of (some v) = pos (length v)

abbrev copy_of : Option Bytes → ℤ → ℤ × Bytes
copy_of none n = (minus_one, [])
copy_of (some v) (negsuc n) = (minus_one, [])
copy_of (some v) (pos n) =
    if ltb (length v) n then (pos (length v), v ++ 0 ∷ []) else (minus_one, [])

abbrev name_of : ℤ → Bytes
name_of (pos n) = codes "h" ++ from_int n
name_of (negsuc n) = []

abbrev pub receiving : Bytes → LwsHeaders
receiving query = record {
  hdr_total_length = λ w t. pos (length (header query w t));
  hdr_copy = λ w n t. copy_of (some (header query w t)) n;
  hdr_custom_length = λ w name n. length_of (custom w name);
  hdr_custom_copy = λ w n name k. copy_of (custom w name) n;
  get_urlarg_by_name_safe = λ w name n. copy_of (urlarg w name) n;
  http_get_uri_and_method = λ w. (pos 0, some (target ++ 0 ∷ []), pos (length target));
  token_to_string = name_of;
}

pub copy_of-some :
    (v : Bytes) (n : ℕ)
    → length v < n
    → (rest : Bytes) × (copy_of (some v) (pos n) ≡ (pos (length v), v ++ rest))
copy_of-some v n h = (0 ∷ [], ground arith)

copy_of-none : (n : ℤ) → (copy_of none n).0 ≡ minus_one
copy_of-none n = refl

unfoldable pub receiving-docs : (query : Bytes) → LwsHeadersDocs (receiving query)
receiving-docs query = record {
  header = header query;
  custom = custom;
  urlarg = urlarg;
  uri = λ w. some target;
  hdr_total_length_lem = λ w t. refl;
  hdr_copy_lem = λ w t n h. copy_of-some (header query w t) n h;
  hdr_custom_length_none = λ w name n missing. rw missing;
  hdr_custom_length_some = λ w name v sent. rw sent;
  hdr_custom_copy_none = λ w n name k missing. rw missing;
  hdr_custom_copy_some = λ w n name v sent h. rw sent (copy_of-some v n h);
  get_urlarg_none = λ w name n missing. rw missing;
  get_urlarg_some = λ w n name v sent h. rw sent (copy_of-some v n h);
  http_get_uri_none = λ w missing. cc;
  http_get_uri_some = λ w u sent. (0, 0 ∷ [], cc);
}

abbrev pub sample_headers : LwsHeaders
sample_headers = receiving args

unfoldable pub sample_headers-docs : LwsHeadersDocs sample_headers
unfolding receiving-docs
sample_headers-docs = receiving-docs args
