-- ===== src/Object.antt =====
-- Source/FF_HTTP_LWS/Public/Objects/FF_HTTP_LWS_Object.h and Private/Objects/FF_HTTP_LWS_Object.cpp:
-- `ULwsObject`, what a handler can read of a request. A getter with an out parameter takes its old
-- value and returns the result with the new one. Buffers are taken to be allocated (`malloc` is not
-- modelled). A pointer that the code keeps beyond the statement in which `TCHAR_TO_UTF8` gives it is
-- read as whatever the memory holds then.
pub mod Params
pub mod Guards
pub mod Getter
pub mod Method
pub mod Known
pub mod Custom
pub mod Url
use ff_http_lws.Base.{
  ℕ, zero, suc, ◌+◌, Bool, true, false, not, ◌&&◌, List, [], ◌∷◌, ◌++◌, ℤ, pos, is_pos, is_zero,
  add_one, Bytes, FString, codes, strlen, take, length, ◌==◌, if◌then◌else◌,
}
use ff_http_lws.Engine.{Unreal}
use ff_http_lws.Engine.Map.{TMap, add}
use ff_http_lws.Lws.Reasons.{callback_http, callback_http_body}
use ff_http_lws.Lws.Tokens.{
  LwsTokenIndexes, get_uri, post_uri, put_uri, patch_uri, delete_uri, head_uri, options_uri,
  http_uri_args, token, token_count,
}
use ff_http_lws.Lws.Headers.{LwsHeaders}
use ff_http_lws.Enums.{ELwsKnownHeaders, no_header}
use Params.{FLwsParams, FLwsKnownHeaders}

-- `ConvertBpHeader`
pub convert_bp_header : ℤ → ELwsKnownHeaders
convert_bp_header header_type = no_header

-- `ConvertLwsHeader`: `lws_token_indexes()` is the enumerator 0.
pub convert_lws_header : ELwsKnownHeaders → ℤ
convert_lws_header header_type = pos 0

-- The guard of every getter but `GetMethod`.
pub wrong_reason : FLwsParams → Bool
wrong_reason p = not (p.reason == callback_http) && not (p.reason == callback_http_body)

module _ (lws : LwsHeaders) where
  -- `lws_hdr_total_length(…) > 0`
  pub has_header : ℕ → LwsTokenIndexes → Bool
  has_header wsi t = is_pos (lws.hdr_total_length wsi (token t))

  -- `GetMethod`
  pub get_method : FLwsParams → FString → Bool × FString
  get_method p out_method =
      if not (p.reason == callback_http)
      then (false, out_method)
      else if has_header p.wsi get_uri
      then (true, codes "GET")
      else if has_header p.wsi post_uri
      then (true, codes "POST")
      else if has_header p.wsi put_uri
      then (true, codes "PUT")
      else if has_header p.wsi patch_uri
      then (true, codes "PATCH")
      else if has_header p.wsi delete_uri
      then (true, codes "DELETE")
      else if has_header p.wsi head_uri
      then (true, codes "HEAD")
      else if has_header p.wsi options_uri
      then (true, codes "OPTIONS")
      else (false, out_method)

module _ (ue : Unreal) where
  -- `if (Sections.Num() == 2) Temp_Params.Add(Sections[0], Sections[1])`
  pub add_sections : List FString → TMap FString FString → TMap FString FString
  add_sections (k ∷ v ∷ []) temp = add ue.same_key k v temp
  add_sections _ temp = temp

  -- the loop of `GetAllUrlParameters`
  pub pairs_loop : List FString → TMap FString FString → TMap FString FString
  unfolding add_sections
  pairs_loop [] temp = temp
  pairs_loop (pair ∷ pairs) temp =
      pairs_loop pairs (add_sections (ue.parse_into_array pair (codes "=")) temp)

module _ (ue : Unreal) (lws : LwsHeaders) where
  -- `GetCustomHeader`. `HeaderKey` is read in three statements behind its own. A missing header has length -1, so the buffer's length is 0 then.
  unfoldable pub get_custom_header : FLwsParams → FString → FString → Bool × FString
  unfolding wrong_reason
  get_custom_header p value key =
      if wrong_reason p
      then (false, value)
      else (let header_key = λ (n : ℕ). ue.dangling n (key ++ codes ":") in
          let header_key_lenght = strlen (header_key 0) in
          let value_lenght =
            add_one (lws.hdr_custom_length p.wsi (header_key 1) (strlen (header_key 1))) in
          let copied = lws.hdr_custom_copy p.wsi value_lenght (header_key 2) header_key_lenght in
          (true, ue.append_chars copied.1 copied.0))

  -- the loop of `GetAllCustomHeaders`
  pub custom_loop : FLwsParams → List FString → TMap FString FString → TMap FString FString
  custom_loop p [] temp = temp
  custom_loop p (key ∷ keys) temp =
      custom_loop p keys (add ue.same_key key (get_custom_header p [] key).1 temp)

  -- `GetAllCustomHeaders`
  pub get_all_custom_headers :
      FLwsParams → List FString → TMap FString FString → Bool × TMap FString FString
  unfolding wrong_reason
  get_all_custom_headers p in_headers out_headers =
      if wrong_reason p then (false, out_headers) else (true, custom_loop p in_headers [])

  -- `GetKnownHeader_Int`
  pub get_known_header_int : FLwsParams → FString → ℤ → Bool × FString
  unfolding wrong_reason
  get_known_header_int p value key =
      if wrong_reason p
      then (false, value)
      else if is_pos (lws.hdr_total_length p.wsi key)
      then (let copied = lws.hdr_copy p.wsi (add_one (lws.hdr_total_length p.wsi key)) key in
          (true, ue.append_chars copied.1 copied.0))
      else (false, value)

  -- `GetKnownHeader_Enum`
  unfoldable pub get_known_header_enum : FLwsParams → FString → ELwsKnownHeaders → Bool × FString
  unfolding wrong_reason convert_lws_header
  get_known_header_enum p value key =
      if wrong_reason p
      then (false, value)
      else (let header_token = convert_lws_header key in
          if is_pos (lws.hdr_total_length p.wsi header_token)
          then (let copied =
                lws.hdr_copy p.wsi (add_one (lws.hdr_total_length p.wsi header_token))
                  header_token in
              (true, ue.append_chars copied.1 copied.0))
          else (false, value))

  -- the key under which `GetAllKnownHeaders` files a header
  pub header_key : ℕ → FString
  header_key index =
      let key = lws.token_to_string (pos index) in ue.append_chars key (pos (strlen key))

  -- the value that `GetAllKnownHeaders` files
  pub header_entry : ℕ → ℕ → FLwsKnownHeaders
  unfolding convert_bp_header
  header_entry wsi index =
      let copied = lws.hdr_copy wsi (add_one (lws.hdr_total_length wsi (pos index))) (pos index) in
      record {
        string = ue.append_chars copied.1 copied.0;
        index = index;
        header_enum = convert_bp_header (pos index);
      }

  -- the loop of `GetAllKnownHeaders`: rounds left, and `Index_Header`
  pub known_loop : ℕ → ℕ → ℕ → TMap FString FLwsKnownHeaders → TMap FString FLwsKnownHeaders
  known_loop wsi zero index temp = temp
  known_loop wsi (suc rounds) index temp = known_loop wsi rounds (index + 1) (
      if is_pos (lws.hdr_total_length wsi (pos index))
      then add ue.same_key (header_key index) (header_entry wsi index) temp
      else temp)

  -- `GetAllKnownHeaders`
  pub get_all_known_headers :
      FLwsParams → TMap FString FLwsKnownHeaders → Bool × TMap FString FLwsKnownHeaders
  unfolding wrong_reason
  get_all_known_headers p out_headers =
      if wrong_reason p then (false, out_headers) else (true, known_loop p.wsi token_count 0 [])

  -- `GetAllUrlParameters`
  pub get_all_url_parameters : FLwsParams → TMap FString FString → Bool × TMap FString FString
  unfolding wrong_reason
  get_all_url_parameters p out_params =
      if wrong_reason p
      then (false, out_params)
      else (let argument_lenght = lws.hdr_total_length p.wsi (token http_uri_args) in
          if is_zero argument_lenght
          then (false, out_params)
          else (let copied = lws.hdr_copy p.wsi (add_one argument_lenght) (token http_uri_args) in
              if is_zero copied.0
              then (false, out_params)
              else (let argument = ue.append_chars copied.1 copied.0 in
                  (true, pairs_loop ue (ue.parse_into_array argument (codes "&")) []))))

  -- `GetUrlParam`
  unfoldable pub get_url_param : FLwsParams → FString → FString → ℤ → Bool × FString
  unfolding wrong_reason
  get_url_param p value key buffer_size =
      if wrong_reason p
      then (false, value)
      else (let size = if is_pos buffer_size then buffer_size else pos 1024 in
          let found = lws.get_urlarg_by_name_safe p.wsi (ue.to_utf8 (key ++ codes "=")) size in
          if is_zero found.0 then (false, value) else (true, ue.append_chars found.1 found.0))
