-- ===== src/Object/Known.antt =====
-- `GetKnownHeader_Int`, `GetKnownHeader_Enum` and `GetAllKnownHeaders` against the request that the
-- client sent.
use native.Mathlib.Numerals.{add-one}
use ff_http_lws.Base.{
  ℕ, zero, suc, ◌+◌, ◌≡◌, refl, ap, ◌∙◌, true, false, Option, none, some, [], ◌∷◌, ◌++◌, map, ℤ,
  pos, is_pos, add_one, Bytes, FString, is_empty, length, length-append, take-append, arith,
  if◌then◌else◌, Bool-cases, inl, inr,
}
use ff_http_lws.Engine.{Unreal, UnrealDocs}
use ff_http_lws.Engine.Map.{TMap, find, add, find-add, IsKeyTest}
use ff_http_lws.Lws.Tokens.{get_uri, token, token_count}
use ff_http_lws.Lws.Headers.{LwsHeaders, LwsHeadersDocs}
use ff_http_lws.Enums.{ELwsKnownHeaders, no_header}
use ff_http_lws.Object.Params.{FLwsParams, FLwsKnownHeaders}
use ff_http_lws.Object.{
  wrong_reason, get_known_header_int, get_known_header_enum, header_key, header_entry, known_loop,
  get_all_known_headers,
}

-- The header asked for has no influence: for every key `GetKnownHeader_Enum` answers as
-- `GetKnownHeader_Int` does for WSI_TOKEN_GET_URI.
get_known_header_enum-ignores_key :
    (ue : Unreal) (lws : LwsHeaders) (p : FLwsParams) (value : FString) (key : ELwsKnownHeaders)
    → get_known_header_enum ue lws p value key ≡ get_known_header_int ue lws p value (token get_uri)
unfolding get_known_header_enum get_known_header_int token
get_known_header_enum-ignores_key ue lws p value key = refl

pub key_test : {ue : Unreal} → UnrealDocs ue → IsKeyTest ue.same_key
key_test e = record {
  same_refl = e.same_key_refl;
  same_sym = e.same_key_sym;
  same_trans = e.same_key_trans;
}

-- A buffer that begins with `v`, of which as many characters are appended.
pub append_chars-prefix :
    {ue : Unreal} (e : UnrealDocs ue) (v rest : Bytes)
    → ue.append_chars (v ++ rest) (pos (length v)) ≡ map e.widen v
append_chars-prefix e v rest =
    e.append_chars_lem (length v) (v ++ rest) (omega (arith, length-append v rest))
    ∙ ap (map e.widen) (take-append v rest)

module _ {ue : Unreal} {lws : LwsHeaders} (e : UnrealDocs ue) (d : LwsHeadersDocs lws) where
  -- the text of a known header
  abbrev pub header_text : ℕ → ℤ → FString
  header_text w t = map e.widen (d.header w t)

  pub copied_lem :
      (w : ℕ) (t : ℤ)
      → let copied = lws.hdr_copy w (add_one (lws.hdr_total_length w t)) t in
        ue.append_chars copied.1 copied.0 ≡ header_text w t
  copied_lem w t =
      let (rest, copied) = d.hdr_copy_lem w t (length (d.header w t) + 1) (omega arith) in
      rw (d.hdr_total_length_lem w t, copied) (append_chars-prefix e (d.header w t) rest)

  pub present_lem :
      (w : ℕ) (t : ℤ)
      → is_pos (lws.hdr_total_length w t) ≡ (if is_empty (d.header w t) then false else true)
  present_lem w t = rw (d.hdr_total_length_lem w t) (go (d.header w t))
    where
      go : (b : Bytes) → is_pos (pos (length b)) ≡ (if is_empty b then false else true)
      go [] = refl
      go (c ∷ b) = ground arith

  -- Under a served reason `GetKnownHeader_Int` returns exactly the header that the client sent; a
  -- header that is absent or empty gives false and keeps the out parameter.
  pub get_known_header_int_lem :
      (p : FLwsParams) (value : FString) (key : ℤ)
      → wrong_reason p ≡ false
      → get_known_header_int ue lws p value key
        ≡ (if is_empty (d.header p.wsi key) then (false, value) else (true, header_text p.wsi key))
  unfolding get_known_header_int
  get_known_header_int_lem p value key r =
      rw (r, present_lem p.wsi key, copied_lem p.wsi key) (ground arith)

  -- Under a served reason `GetKnownHeader_Enum` answers, whatever header it is asked for, with the URI
  -- of a GET request; for any other request it returns false and keeps the out parameter.
  pub get_known_header_enum_lem :
      (p : FLwsParams) (value : FString) (key : ELwsKnownHeaders)
      → wrong_reason p ≡ false
      → get_known_header_enum ue lws p value key ≡ (
          if is_empty (d.header p.wsi (token get_uri))
          then (false, value)
          else (true, header_text p.wsi (token get_uri)))
  get_known_header_enum_lem p value key r =
      get_known_header_enum-ignores_key ue lws p value key
      ∙ get_known_header_int_lem p value (token get_uri) r

  -- The entry that a look-up of `k` finds once the tokens below `n` are filed: that of the highest
  -- token that the client sent and whose name is `k`.
  abbrev pub filed : ℕ → ℕ → FString → Option FLwsKnownHeaders
  filed w zero k = none
  filed w (suc n) k =
      let rest = filed w n k in
      if is_empty (d.header w (pos n))
      then rest
      else if ue.same_key (header_key ue lws n) k
      then some (record { string = header_text w (pos n); index = n; header_enum = no_header })
      else rest

  entry_lem :
      (w n : ℕ)
      → header_entry ue lws w n
        ≡ record { string = header_text w (pos n); index = n; header_enum = no_header }
  unfolding header_entry
  entry_lem w n = rw (copied_lem w (pos n))

  round_lem :
      (w n : ℕ) (k : FString) (m : TMap FString FLwsKnownHeaders)
      → find ue.same_key k m ≡ filed w n k
      → find ue.same_key k (
          if is_pos (lws.hdr_total_length w (pos n))
          then add ue.same_key (header_key ue lws n) (header_entry ue lws w n) m
          else m)
        ≡ filed w (suc n) k
  round_lem w n k m h =
      rw (present_lem w (pos n), entry_lem w n)
        (elim (Bool-cases (is_empty (d.header w (pos n)))) [
          | inl absent ↦ rw absent h
          | inr sent ↦ rw (sent, find-add (key_test e) (header_key ue lws n) k _ m, h)
        ])

  known_loop_lem :
      (w rounds n j : ℕ) (k : FString) (m : TMap FString FLwsKnownHeaders)
      → n + rounds ≡ j
      → find ue.same_key k m ≡ filed w n k
      → find ue.same_key k (known_loop ue lws w rounds n m) ≡ filed w j k
  unfolding known_loop
  known_loop_lem w zero n j k m q h = let q' : n ≡ j = omega arith in rw (← q') h
  known_loop_lem w (suc rounds) n j k m q h =
      known_loop_lem w rounds (n + 1) j k _ (omega arith) (rw (add-one n) (round_lem w n k m h))

  -- Under a served reason `GetAllKnownHeaders` succeeds, and a look-up in its result finds, at every
  -- name, the highest token below WSI_TOKEN_COUNT of that name whose header the client sent, with
  -- its text and its index, and nothing if there is none. The enumeration is NONE in every entry.
  pub get_all_known_headers_lem :
      (p : FLwsParams) (out : TMap FString FLwsKnownHeaders) (k : FString)
      → wrong_reason p ≡ false
      → ((get_all_known_headers ue lws p out).0 ≡ true)
        × (find ue.same_key k (get_all_known_headers ue lws p out).1 ≡ filed p.wsi token_count k)
  unfolding get_all_known_headers
  get_all_known_headers_lem p out k r =
      (rw r, rw r (known_loop_lem p.wsi token_count 0 token_count k [] refl refl))
