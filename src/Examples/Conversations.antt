-- ===== src/Examples/Conversations.antt =====
-- The sample thread object in a conversation with two clients, and a client that sends parameters.
use ff_http_lws.Base.{
  ◌+◌, ◌≤◌, ◌<◌, ◌^◌, ◌≡◌, refl, ap, sym, subst, length, Plain, false, [], ◌∷◌, ◌++◌, FString,
  codes, replicate, ◌==◌, if◌then◌else◌, arith,
}
use ff_http_lws.Engine.{Ascii}
use ff_http_lws.Lws.Reasons.{lws_pre}
use ff_http_lws.Request.Payload.{payload_total}
use ff_http_lws.Request.Whole.{all_lines}
use ff_http_lws.Engine.Map.{TMap, find}
use ff_http_lws.Lws.Tokens.{token, token_index}
use ff_http_lws.Enums.{ELwsKnownHeaders, header_accept, status_ok, text_plain}
use ff_http_lws.Object.{wrong_reason}
use ff_http_lws.Object.Guards.{right_reason}
use ff_http_lws.Object.Url.Roundtrip.{get_all_url_parameters-query}
use ff_http_lws.Object.Params.{FLwsParams}
use ff_http_lws.Request.{content_type_string, bp_headers_to_lws}
use ff_http_lws.Thread.{construct}
use ff_http_lws.Thread.Callback.{callbacks}
use ff_http_lws.Thread.Cached.{RequestCache}
use ff_http_lws.EndToEnd.Conversation.{
  answering, written_to, answers_to, response_lines, IsAnswerable, connections_answered,
}
use ff_http_lws.EndToEnd.Parameters.{from_parameters, parameters_answered}
use ff_http_lws.Examples.Sample.Engine.{sample_engine, sample_engine-docs}
use ff_http_lws.Examples.Sample.Headers.{sample_headers, receiving, receiving-docs}
use ff_http_lws.Examples.Sample.Reply.{sample_reply, sample_reply-lines}
use ff_http_lws.Examples.Sample.Calls.{http_call, body_call, thread, pooled}

abbrev pub known : TMap ELwsKnownHeaders FString
known = (header_accept, codes "text") ∷ []

abbrev pub other_call : FLwsParams
other_call = record http_call { wsi = 2 }

-- The answer depends on the connection.
abbrev pub reply : FLwsParams → FString
reply p = replicate 150 (if p.wsi == 1 then 97 else 98)

connections_answered_example :
    written_to 1 (
      callbacks sample_engine sample_reply
        (answering sample_engine sample_headers sample_reply reply [] known text_plain status_ok)
        thread
        (http_call ∷ other_call ∷ body_call ∷ http_call ∷ [])
        [])
    ≡ answers_to sample_engine-docs sample_headers sample_reply-lines reply [] known text_plain
        status_ok thread 1
        (http_call ∷ other_call ∷ body_call ∷ http_call ∷ [])
unfolding construct sample_reply-lines content_type_string bp_headers_to_lws token token_index
connections_answered_example =
    connections_answered sample_engine-docs sample_headers sample_reply-lines reply [] known
      text_plain status_ok thread 1 (http_call ∷ other_call ∷ body_call ∷ http_call ∷ []) []
      (
        (λ api. (ground arith, ground arith, omega arith, omega arith)),
        (
          (λ api. (ground arith, ground arith, omega arith, omega arith)),
          (
            (λ api. absurd cc),
            ((λ api. (ground arith, ground arith, omega arith, omega arith)), tt),
          ),
        ),
      )

-- A line for each parameter, and some text.
abbrev render : TMap FString FString → FString
render [] = replicate 150 97
render ((k, v) ∷ m) = k ++ codes "=" ++ v ++ codes ";" ++ render m

served_call : wrong_reason http_call ≡ false
served_call = right_reason http_call refl

abbrev answer : FLwsParams → FString
answer = from_parameters sample_engine (receiving (codes "x=1&y=2")) render

answer_text : answer http_call ≡ codes "x=1;y=2;" ++ replicate 150 97
unfolding sample_engine-docs receiving-docs token
answer_text =
    ap (λ x. render x.1)
      (get_all_url_parameters-query sample_engine-docs (receiving-docs (codes "x=1&y=2")) http_call
        [] (codes "x") (codes "1") ((codes "y", codes "2") ∷ []) served_call (ground arith)
        (ground arith) refl)

abbrev TextFits : FString → Type 0
TextFits text =
    let size = payload_total sample_engine (receiving (codes "x=1&y=2")) text [] known text_plain in
    Ascii text
    × Plain text
    × (size < 2 ^ 31)
    × (lws_pre
          + length (all_lines sample_reply-lines sample_engine 1 size text [] known text_plain)
          + sample_reply-lines.slack
        ≤ size)

text_fits : TextFits (codes "x=1;y=2;" ++ replicate 150 97)
unfolding sample_reply-lines content_type_string bp_headers_to_lws token token_index
text_fits = (ground arith, ground arith, omega arith, omega arith)

answer_fits :
    IsAnswerable sample_engine-docs
      (receiving (codes "x=1&y=2"))
      sample_reply-lines
      answer
      []
      known
      text_plain
      status_ok
      thread
      http_call
answer_fits api = subst TextFits (sym answer_text) text_fits

parameters_answered_example :
    let headers = receiving (codes "x=1&y=2") in
    written_to 1 (
      callbacks sample_engine sample_reply
        (answering sample_engine headers sample_reply answer [] known text_plain status_ok)
        thread
        (http_call ∷ [])
        [])
    ≡ response_lines sample_engine-docs headers sample_reply-lines answer [] known text_plain
        status_ok thread http_call
      ++ (codes "x=1;y=2;" ++ replicate 150 97)
unfolding construct sample_reply-lines sample_engine-docs receiving-docs content_type_string
    bp_headers_to_lws token token_index
parameters_answered_example =
    parameters_answered sample_engine-docs (receiving-docs (codes "x=1&y=2")) sample_reply-lines
      render [] known text_plain status_ok thread http_call (codes "x") (codes "1")
      ((codes "y", codes "2") ∷ []) served_call refl (ground arith) (ground arith) refl answer_fits

abbrev cache : RequestCache
cache = record { num = 2; found = λ wsi. find ◌==◌ wsi pooled.request_pool }
