-- ===== src/Object/Method.antt =====
-- `GetMethod` against the request line that the client sent.
use ff_http_lws.Base.{
  ℕ, ◌≡◌, refl, Bool, true, false, Option, none, some, List, [], ◌∷◌, FString, codes, is_empty,
  is_pos, pos, length, arith, ◌==◌, if◌then◌else◌,
}
use ff_http_lws.Lws.Reasons.{callback_http}
use ff_http_lws.Lws.Tokens.{
  LwsTokenIndexes, get_uri, post_uri, put_uri, patch_uri, delete_uri, head_uri, options_uri, token,
}
use ff_http_lws.Lws.Headers.{LwsHeaders, LwsHeadersDocs}
use ff_http_lws.Object.Params.{FLwsParams}
use ff_http_lws.Object.{get_method, has_header}

-- The methods, in the order of preference, with the token that libwebsockets fills for each.
abbrev pub methods : List (LwsTokenIndexes × FString)
methods =
    (get_uri, codes "GET")
    ∷ (post_uri, codes "POST")
    ∷ (put_uri, codes "PUT")
    ∷ (patch_uri, codes "PATCH")
    ∷ (delete_uri, codes "DELETE")
    ∷ (head_uri, codes "HEAD")
    ∷ (options_uri, codes "OPTIONS")
    ∷ []

module _ {lws : LwsHeaders} (d : LwsHeadersDocs lws) where
  -- The first method of a table whose URI the client sent.
  abbrev pub first_sent : ℕ → List (LwsTokenIndexes × FString) → Option FString
  first_sent wsi [] = none
  first_sent wsi ((t, name) ∷ rest) =
      if is_empty (d.header wsi (token t)) then first_sent wsi rest else some name

  is_pos-length : (b : List ℕ) → is_pos (pos (length b)) ≡ (if is_empty b then false else true)
  is_pos-length [] = refl
  is_pos-length (c ∷ b) = ground arith

  has_header_lem :
      (wsi : ℕ) (t : LwsTokenIndexes)
      → has_header lws wsi t ≡ (if is_empty (d.header wsi (token t)) then false else true)
  unfolding has_header
  has_header_lem wsi t = rw (d.hdr_total_length_lem wsi (token t)) (is_pos-length _)

abbrev pub found : FString → Option FString → Bool × FString
found out none = (false, out)
found out (some name) = (true, name)

-- Under LWS_CALLBACK_HTTP the method is the first of GET, POST, PUT, PATCH, DELETE, HEAD and OPTIONS
-- whose URI the client sent; without any, and under any other reason, the call returns false and
-- keeps the out parameter.
pub get_method_lem :
    {lws : LwsHeaders} (d : LwsHeadersDocs lws) (p : FLwsParams) (out : FString)
    → get_method lws p out
      ≡ (if p.reason == callback_http then found out (first_sent d p.wsi methods) else (false, out))
unfolding get_method
get_method_lem d p out = ground (
  arith,
  has_header_lem d p.wsi get_uri,
  has_header_lem d p.wsi post_uri,
  has_header_lem d p.wsi put_uri,
  has_header_lem d p.wsi patch_uri,
  has_header_lem d p.wsi delete_uri,
  has_header_lem d p.wsi head_uri,
  has_header_lem d p.wsi options_uri,
)
