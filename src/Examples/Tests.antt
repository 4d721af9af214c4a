-- ===== src/Examples/Tests.antt =====
-- Runs of the definitions on the sample calls.
use ff_http_lws.Base.{◌≡◌, refl, true, some, [], ◌∷◌, ◌^◌, int32, pos, codes, length}
use ff_http_lws.Lws.Tokens.{token, token_index}
use ff_http_lws.Enums.{status_ok, status_not_found, text_plain, header_host}
use ff_http_lws.Object.{get_custom_header, get_url_param, get_known_header_enum}
use ff_http_lws.Trace.{dummy_called}
use ff_http_lws.Request.{status_enum_to_int, calculcate_payload_size, header_block, sent_body}
use ff_http_lws.Thread.{construct}
use ff_http_lws.Thread.Callback.{callback_http_lws}
use ff_http_lws.EndToEnd.Conversation.{answering}
use ff_http_lws.Examples.Sample.Engine.{sample_engine}
use ff_http_lws.Examples.Sample.Headers.{sample_headers}
use ff_http_lws.Examples.Sample.Reply.{sample_reply}
use ff_http_lws.Examples.Sample.Calls.{http_call, thread}

not_found_code : status_enum_to_int status_not_found ≡ 404
unfolding status_enum_to_int
not_found_code = refl

-- A header that the client did not send.
custom_missing :
    get_custom_header sample_engine sample_headers http_call (codes "old") (codes "x-none")
    ≡ (true, [])
unfolding get_custom_header
custom_missing = refl

-- An argument that the client did not send.
param_missing :
    get_url_param sample_engine sample_headers http_call (codes "old") (codes "z") (pos 0)
    ≡ (true, [])
unfolding get_url_param
param_missing = refl

-- The host that is asked for is not the text that comes back.
host_is_uri :
    get_known_header_enum sample_engine sample_headers http_call [] header_host
    ≡ (true, codes "/api/lws/v1/a")
unfolding get_known_header_enum
host_is_uri = refl

size_of_hello :
    calculcate_payload_size sample_engine sample_headers
      (codes "hello")
      ((codes "x-a", codes "1") ∷ [])
      []
      text_plain
      status_ok
    ≡ 38
unfolding calculcate_payload_size token token_index
size_of_hello = refl

-- The header block of a response of five characters, for which `CalculcatePayloadSize` returns 31:
-- the status line alone fits before `End`.
short_block :
    length (header_block sample_engine sample_reply 1 (pos 31) (codes "hello") [] [] text_plain)
    ≡ 14
unfolding header_block
short_block = refl

-- A request for a favicon is forwarded.
favicon_forwarded :
    callback_http_lws sample_engine sample_reply
      (answering sample_engine sample_headers sample_reply
        (λ p. codes "hello")
        []
        []
        text_plain
        status_ok)
      (some thread)
      (record http_call { input = some (codes "/favicon.ico"); len = 12 })
      []
    ≡ (
      pos 1,
      dummy_called (record http_call { input = some (codes "/favicon.ico"); len = 12 }) ∷ [],
    )
unfolding callback_http_lws construct
favicon_forwarded = refl

-- For a size with bit 31 set `End` lies before the buffer.
end_before_buffer :
    header_block sample_engine sample_reply 1 (int32 (2 ^ 31)) (codes "hello") [] [] text_plain ≡ []
unfolding header_block
end_before_buffer = refl

-- A text with a NUL is read beyond its terminator.
over_read : sent_body sample_engine (97 ∷ 0 ∷ 98 ∷ []) ≡ 97 ∷ 0 ∷ []
over_read = refl
