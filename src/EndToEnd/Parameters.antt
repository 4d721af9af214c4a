-- ===== src/EndToEnd/Parameters.antt =====
-- From a query string to the response: GetAllUrlParameters in the event, and SendResponse with a text
-- made from the map that it gives.
use ff_http_lws.Base.{◌≡◌, ◌∙◌, ap, true, false, [], ◌∷◌, ◌++◌, append-nil, FString, ==_refl}
use ff_http_lws.Engine.{Unreal, UnrealDocs}
use ff_http_lws.Engine.Map.{TMap}
use ff_http_lws.Lws.Headers.{LwsHeaders, LwsHeadersDocs}
use ff_http_lws.Lws.Reply.{LwsReply, LwsReplyLines}
use ff_http_lws.Enums.{ELwsKnownHeaders, ELwsResponseStatus, ELwsContentType}
use ff_http_lws.Object.{wrong_reason, get_all_url_parameters}
use ff_http_lws.Object.Params.{FLwsParams}
use ff_http_lws.Object.Url.{query_text}
use ff_http_lws.Object.Url.Parts.{pair, query}
use ff_http_lws.Object.Url.Roundtrip.{Distinct, items_of, IsSendable, get_all_url_parameters-query}
use ff_http_lws.Thread.{HttpThread}
use ff_http_lws.Thread.Callback.{callbacks}
use ff_http_lws.EndToEnd.Conversation.{
  answering, is_api_request, written_to, response_lines, IsAnswerable, connections_answered,
}

-- The answer of an event that makes a text from the parameters of its request.
abbrev pub from_parameters :
    Unreal → LwsHeaders → (TMap FString FString → FString) → FLwsParams → FString
from_parameters ue headers render p = render (get_all_url_parameters ue headers p []).1

-- An API request with a query string `k=v&k=v…`, whose names and values are not empty and hold no `&`
-- or `=` and whose names are all different, and whose event makes a text from the map that
-- GetAllUrlParameters gives and answers with it: what the plugin hands to lws_write for the
-- connection are the header lines and the text that is made from the map that the client has written
-- out, in its order. (That text is ASCII with no NUL, and its exact size is below 2^31 and leaves room
-- for the header lines and the slack behind them.)
pub parameters_answered :
    {ue : Unreal} (e : UnrealDocs ue) {headers : LwsHeaders} (d : LwsHeadersDocs headers)
    {lws : LwsReply} (l : LwsReplyLines lws) (render : TMap FString FString → FString)
    (custom : TMap FString FString) (known : TMap ELwsKnownHeaders FString) (type : ELwsContentType)
    (wanted : ELwsResponseStatus) (owner : HttpThread) (p : FLwsParams) (k v : FString)
    (m : TMap FString FString)
    → let reply = from_parameters ue headers render in
      wrong_reason p ≡ false
      → is_api_request ue owner p ≡ true
      → IsSendable ((k, v) ∷ m)
      → Distinct ue.same_key ((k, v) ∷ m)
      → query_text e d p ≡ query (pair k v) (items_of m)
      → IsAnswerable e headers l reply custom known type wanted owner p
      → written_to p.wsi (
          callbacks ue lws
            (answering ue headers lws reply custom known type wanted)
            owner
            (p ∷ [])
            [])
        ≡ response_lines e headers l reply custom known type wanted owner p ++ render ((k, v) ∷ m)
parameters_answered {ue} e {headers} d l render custom known type wanted owner p k v m served api
      sendable distinct sent answerable =
    let reply = from_parameters ue headers render in
    let read = get_all_url_parameters-query e d p [] k v m served sendable distinct sent in
    let text : reply p ≡ render ((k, v) ∷ m) = ap (λ x. render x.1) read in
    connections_answered e headers l reply custom known type wanted owner p.wsi (p ∷ []) []
      (answerable, tt)
    ∙ rw (api, ==_refl p.wsi)
        (append-nil _
          ∙ ap (◌++◌ (response_lines e headers l reply custom known type wanted owner p)) text)
