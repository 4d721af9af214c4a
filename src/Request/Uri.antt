-- ===== src/Request/Uri.antt =====
-- `GetUri` against the request line that the client sent.
use ff_http_lws.Base.{
  Bool-cases, Option-cases, inl, inr, if◌then◌else◌, ℕ, zero, ◌≡◌, ap, true, false, Option, none,
  some, [], map, Bytes, FString, ◌==◌, arith,
}
use ff_http_lws.Engine.{Unreal, UnrealDocs}
use ff_http_lws.Lws.Reasons.{callback_http}
use ff_http_lws.Lws.Headers.{LwsHeaders, LwsHeadersDocs}
use ff_http_lws.Object.Known.{append_chars-prefix}
use ff_http_lws.Object.Params.{chars_at}
use ff_http_lws.Trace.{ULwsRequest}
use ff_http_lws.Request.{get_uri}

-- the URI of the request line as text, empty if libwebsockets has none
abbrev pub uri_text : {ue : Unreal} → UnrealDocs ue → Option Bytes → FString
uri_text e none = []
uri_text e (some u) = map e.widen u

uri_found :
    {ue : Unreal} (e : UnrealDocs ue) {lws : LwsHeaders} (d : LwsHeadersDocs lws) (wsi : ℕ)
    → let found = lws.http_get_uri_and_method wsi in
      chars_at ue found.1 found.2 ≡ uri_text e (d.uri wsi)
uri_found {ue} e {lws} d wsi = elim (Option-cases (d.uri wsi)) [
  | inl missing ↦
      rw (d.http_get_uri_none wsi missing, missing) (e.append_chars_lem zero [] (omega arith))
  | inr (u, sent) ↦
      let (method, rest, found) = d.http_get_uri_some wsi u sent in
      rw (found, sent) (append_chars-prefix e u rest)
]

-- Under LWS_CALLBACK_HTTP, with a pointer that is not null, `GetUri` returns the URI that the client
-- sent, and it reports success with the empty text where libwebsockets has none. Under another
-- reason, or with a null pointer, it returns false and keeps the out parameter.
pub get_uri_lem :
    {ue : Unreal} (e : UnrealDocs ue) {lws : LwsHeaders} (d : LwsHeadersDocs lws) (r : ULwsRequest)
    (out : FString)
    → get_uri ue lws r out ≡ (
        if r.params.reason == callback_http
        then (elim r.params.input [
          | none ↦ (false, out)
          | some text ↦ (true, uri_text e (d.uri r.params.wsi))
        ])
        else (false, out))
unfolding get_uri
get_uri_lem {ue} e {lws} d r out = elim (Option-cases r.params.input) [
  | inl null ↦ rw null (ground arith)
  | inr (text, given) ↦ elim (Bool-cases (r.params.reason == callback_http)) [
    | inl http ↦ rw (given, http) (ap (λ (t : FString). (true, t)) (uri_found e d r.params.wsi))
    | inr other ↦ rw (given, other)
  ]
]
