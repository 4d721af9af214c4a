-- ===== src/Request/Payload.antt =====
-- `CalculcatePayloadSize` against the sum that it means to compute.
use ff_http_lws.Base.{
  ℕ, ◌+◌, ◌^◌, ◌≤◌, ◌<◌, ◌≡◌, ◌∙◌, [], ◌∷◌, FString, codes, length, length-append, arith,
}
use ff_http_lws.Engine.{Unreal, UnrealDocs}
use ff_http_lws.Engine.Map.{TMap}
use ff_http_lws.Lws.Tokens.{
  http_content_type, http_content_length, http_access_control_allow_origin,
}
use ff_http_lws.Lws.Headers.{LwsHeaders}
use ff_http_lws.Enums.{ELwsKnownHeaders, ELwsResponseStatus, ELwsContentType}
use ff_http_lws.Request.Tables.{content_type_string-bound}
use ff_http_lws.Request.{
  content_type_string, bp_headers_to_lws, int_bits, token_lenght, custom_lenght, known_lenght,
  calculcate_payload_size,
}

-- The bytes of the custom headers: name, colon, value and two more for each.
abbrev pub custom_total : TMap FString FString → ℕ
custom_total [] = 0
custom_total ((key, value) ∷ rest) = length key + 1 + length value + 2 + custom_total rest

module _ (lws : LwsHeaders) where
  -- The bytes of the known headers: name, value and two more for each.
  abbrev pub known_total : TMap ELwsKnownHeaders FString → ℕ
  known_total [] = 0
  known_total ((key, value) ∷ rest) =
      token_lenght lws (bp_headers_to_lws key) + length value + 2 + known_total rest

  known_lenght_lem :
      (m : TMap ELwsKnownHeaders FString) (sum : ℕ)
      → int_bits (known_lenght lws m sum) ≡ int_bits (sum + known_total m)
  unfolding known_lenght
  known_lenght_lem [] sum = omega arith
  known_lenght_lem ((key, value) ∷ rest) sum = known_lenght_lem rest _ ∙ omega arith

custom_lenght_lem :
    (m : TMap FString FString) (sum : ℕ)
    → int_bits (custom_lenght m sum) ≡ int_bits (sum + custom_total m)
unfolding custom_lenght
custom_lenght_lem [] sum = omega arith
custom_lenght_lem ((key, value) ∷ rest) sum =
    custom_lenght_lem rest _ ∙ omega (arith, length-append key (codes ":"))

module _ (ue : Unreal) (lws : LwsHeaders) where
  -- The size without any wrap-around: the body with its content-length header, the other headers,
  -- and the two that are always sent.
  abbrev pub payload_total :
      FString → TMap FString FString → TMap ELwsKnownHeaders FString → ELwsContentType → ℕ
  payload_total response custom known type =
      token_lenght lws http_content_length
      + length (ue.from_int (length response))
      + length response
      + 2
      + custom_total custom
      + known_total lws known
      + (token_lenght lws http_access_control_allow_origin + 1 + 2)
      + (token_lenght lws http_content_type + (content_type_string type).lenght + 1)

  module _ (response : FString) (custom : TMap FString FString)
      (known : TMap ELwsKnownHeaders FString) (type : ELwsContentType)
      (status : ELwsResponseStatus) where
    -- The 32 bits that `CalculcatePayloadSize` returns are those of the exact sum: the wrap-arounds
    -- of the partial sums cancel.
    pub calculcate_payload_size_lem :
        calculcate_payload_size ue lws response custom known type status
        ≡ int_bits (payload_total response custom known type)
    unfolding calculcate_payload_size
    calculcate_payload_size_lem =
        omega (arith, custom_lenght_lem custom 0, known_lenght_lem lws known 0)

    -- A sum below 2^31 is returned exactly, and it is at least `LWS_PRE`.
    pub calculcate_payload_size_exact :
        UnrealDocs ue
        → payload_total response custom known type < 2 ^ 31
        → (calculcate_payload_size ue lws response custom known type status
            ≡ payload_total response custom known type)
          × (16 ≤ calculcate_payload_size ue lws response custom known type status)
    calculcate_payload_size_exact e small = (
      omega (arith, calculcate_payload_size_lem),
      omega (
        arith,
        calculcate_payload_size_lem,
        e.from_int_nonempty (length response),
        content_type_string-bound type,
      ),
    )
