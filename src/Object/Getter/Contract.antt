-- ===== src/Object/Getter/Contract.antt =====
-- What every getter does with its out parameter.
use ff_http_lws.Base.{
  ◌≡◌, ◌≢◌, refl, Bool, true, false, Option, none, some, not, if◌then◌else◌, arith, ◌==◌, codes,
  is_zero, add_one,
}
use ff_http_lws.Engine.{Unreal}
use ff_http_lws.Lws.Reasons.{callback_http, callback_http_body}
use ff_http_lws.Lws.Headers.{LwsHeaders}
use ff_http_lws.Object.Params.{FLwsParams}
use ff_http_lws.Lws.Tokens.{
  get_uri, post_uri, put_uri, patch_uri, delete_uri, head_uri, options_uri, http_uri_args, token,
}
use ff_http_lws.Object.{
  has_header, wrong_reason, get_method, get_custom_header, get_all_custom_headers,
  get_known_header_int, get_known_header_enum, get_all_known_headers, get_all_url_parameters,
  get_url_param,
}
use ff_http_lws.Object.Guards.{wrong_reason_lem}
use ff_http_lws.Object.Getter.{
  Getter, ask_method, ask_custom_header, ask_all_custom_headers, ask_known_header_enum,
  ask_known_header_int, ask_all_known_headers, ask_all_url_parameters, ask_url_param, Out, ask,
  written,
}

-- The call answers, or not, whatever the out parameter holds.
abbrev Answers : {A : Type 0} → (A → Bool × A) → Type 0
Answers {A} call = (r : Option A) × ((out : A) → call out ≡ written out r)

refuses : {A : Type 0} → Answers (λ (out : A). (false, out))
refuses = (none, λ out. refl)

gives : {A : Type 0} (value : A) → Answers (λ (out : A). (true, value))
gives value = (some value, λ out. refl)

either :
    {A : Type 0} {f g : A → Bool × A} (b : Bool)
    → Answers f
    → Answers g
    → Answers (λ out. if b then f out else g out)
either true f g = f
either false f g = g

module _ (ue : Unreal) (lws : LwsHeaders) (p : FLwsParams) where
  -- Every getter, on any arguments and under any reason, either answers with a value that has nothing
  -- to do with what its out parameter held, or returns false and leaves it as it was; which of the two
  -- does not depend on the out parameter.
  pub ask-written :
      (g : Getter) → (r : Option (Out g)) × ((out : Out g) → ask ue lws p g out ≡ written out r)
  unfolding ask get_method get_custom_header get_all_custom_headers get_known_header_enum
      get_known_header_int get_all_known_headers get_all_url_parameters get_url_param
  ask-written ask_method =
      let is = has_header lws p.wsi in
      either (not (p.reason == callback_http)) refuses (
        either (is get_uri) (gives (codes "GET")) (
          either (is post_uri) (gives (codes "POST")) (
            either (is put_uri) (gives (codes "PUT")) (
              either (is patch_uri) (gives (codes "PATCH")) (
                either (is delete_uri) (gives (codes "DELETE")) (
                  either (is head_uri) (gives (codes "HEAD"))
                    (either (is options_uri) (gives (codes "OPTIONS")) refuses)))))))
  ask-written (ask_custom_header key) = either _ refuses (gives _)
  ask-written (ask_all_custom_headers in_headers) = either _ refuses (gives _)
  ask-written (ask_known_header_enum key) = either _ refuses (either _ (gives _) refuses)
  ask-written (ask_known_header_int key) = either _ refuses (either _ (gives _) refuses)
  ask-written ask_all_known_headers = either _ refuses (gives _)
  ask-written ask_all_url_parameters =
      let size = lws.hdr_total_length p.wsi (token http_uri_args) in
      let copied = lws.hdr_copy p.wsi (add_one size) (token http_uri_args) in
      either (wrong_reason p) refuses
        (either (is_zero size) refuses (either (is_zero copied.0) refuses (gives _)))
  ask-written (ask_url_param key buffer_size) = either _ refuses (either _ refuses (gives _))

  -- Outside LWS_CALLBACK_HTTP and LWS_CALLBACK_HTTP_BODY every getter returns false and leaves its
  -- out parameter as it was.
  pub getters_refuse :
      (g : Getter) (out : Out g)
      → p.reason ≢ callback_http
      → p.reason ≢ callback_http_body
      → ask ue lws p g out ≡ (false, out)
  unfolding ask get_method get_custom_header get_all_custom_headers get_known_header_enum
      get_known_header_int get_all_known_headers get_all_url_parameters get_url_param
  getters_refuse ask_method out h b = ground arith
  getters_refuse (ask_custom_header key) out h b = rw (wrong_reason_lem p h b) refl
  getters_refuse (ask_all_custom_headers in_headers) out h b = rw (wrong_reason_lem p h b) refl
  getters_refuse (ask_known_header_enum key) out h b = rw (wrong_reason_lem p h b) refl
  getters_refuse (ask_known_header_int key) out h b = rw (wrong_reason_lem p h b) refl
  getters_refuse ask_all_known_headers out h b = rw (wrong_reason_lem p h b) refl
  getters_refuse ask_all_url_parameters out h b = rw (wrong_reason_lem p h b) refl
  getters_refuse (ask_url_param key buffer_size) out h b = rw (wrong_reason_lem p h b) refl
