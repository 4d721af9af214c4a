-- ===== src/Examples/Objects.antt =====
-- What the getters of a request return for the sample request.
use ff_http_lws.Base.{◌≡◌, refl, true, some, [], ◌∷◌, codes, arith}
use ff_http_lws.Engine.Map.{find}
use ff_http_lws.Lws.Tokens.{token, token_count}
use ff_http_lws.Enums.{header_host}
use ff_http_lws.Object.{
  get_method, get_custom_header, get_all_custom_headers, get_known_header_enum,
  get_all_known_headers, get_all_url_parameters,
}
use ff_http_lws.Base.{Option, FString}
use ff_http_lws.Object.Guards.{right_reason}
use ff_http_lws.Object.Getter.{ask_method, ask, written}
use ff_http_lws.Object.Getter.Contract.{ask-written}
use ff_http_lws.Object.Method.{get_method_lem}
use ff_http_lws.Object.Known.{get_known_header_enum_lem, get_all_known_headers_lem, filed}
use ff_http_lws.Object.Custom.{get_all_custom_headers_lem}
use ff_http_lws.Object.Url.{get_all_url_parameters_lem}
use ff_http_lws.Object.Url.Roundtrip.{get_all_url_parameters-query}
use ff_http_lws.Object.Url.Parts.{pair, bare}
use ff_http_lws.Examples.Sample.Engine.{sample_engine, sample_engine-docs}
use ff_http_lws.Examples.Sample.Headers.{
  receiving, receiving-docs, sample_headers, sample_headers-docs,
}
use ff_http_lws.Examples.Sample.Calls.{http_call}

get_method_example : get_method sample_headers http_call [] ≡ (true, codes "GET")
unfolding sample_headers-docs token
get_method_example = get_method_lem sample_headers-docs http_call []

ask-written_example :
    (r : Option FString) × ((out : FString)
      → ask sample_engine sample_headers http_call ask_method out ≡ written out r)
ask-written_example = ask-written sample_engine sample_headers http_call ask_method

get_known_header_enum_example :
    get_known_header_enum sample_engine sample_headers http_call [] header_host
    ≡ (true, codes "/api/lws/v1/a")
unfolding sample_engine-docs sample_headers-docs token
get_known_header_enum_example =
    get_known_header_enum_lem sample_engine-docs sample_headers-docs http_call [] header_host
      (right_reason http_call refl)

get_all_known_headers_example :
    ((get_all_known_headers sample_engine sample_headers http_call []).0 ≡ true)
    × (find sample_engine.same_key
          (codes "h76")
          (get_all_known_headers sample_engine sample_headers http_call []).1
        ≡ filed sample_engine-docs sample_headers-docs http_call.wsi token_count (codes "h76"))
unfolding sample_engine-docs sample_headers-docs
get_all_known_headers_example =
    get_all_known_headers_lem sample_engine-docs sample_headers-docs http_call [] (codes "h76")
      (right_reason http_call refl)

get_all_custom_headers_example :
    ((get_all_custom_headers sample_engine sample_headers http_call (codes "x-token" ∷ []) []).0
      ≡ true)
    × (find sample_engine.same_key
          (codes "x-token")
          (get_all_custom_headers sample_engine sample_headers http_call
            (codes "x-token" ∷ [])
            []).1
        ≡ some (get_custom_header sample_engine sample_headers http_call [] (codes "x-token")).1)
unfolding sample_engine-docs
get_all_custom_headers_example =
    get_all_custom_headers_lem sample_engine-docs sample_headers http_call (codes "x-token" ∷ []) []
      (codes "x-token") (right_reason http_call refl)

get_all_url_parameters_example :
    get_all_url_parameters sample_engine sample_headers http_call []
    ≡ (true, (codes "x", codes "1") ∷ (codes "y", codes "2") ∷ [])
unfolding sample_engine-docs sample_headers-docs token
get_all_url_parameters_example =
    get_all_url_parameters_lem sample_engine-docs sample_headers-docs http_call []
      (pair (codes "x") (codes "1")) (bare (codes "flag") ∷ pair (codes "y") (codes "2") ∷ [])
      (right_reason http_call refl) (ground arith) refl

get_all_url_parameters-query_example :
    get_all_url_parameters sample_engine
      (receiving (codes "x=1&y=2"))
      http_call
      ((codes "old", codes "0") ∷ [])
    ≡ (true, (codes "x", codes "1") ∷ (codes "y", codes "2") ∷ [])
unfolding sample_engine-docs receiving-docs token
get_all_url_parameters-query_example =
    get_all_url_parameters-query sample_engine-docs (receiving-docs (codes "x=1&y=2")) http_call
      ((codes "old", codes "0") ∷ []) (codes "x") (codes "1") ((codes "y", codes "2") ∷ [])
      (right_reason http_call refl) (ground arith) (ground arith) refl
