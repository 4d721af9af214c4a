-- ===== src/Examples/Requests.antt =====
-- What a response and its headers look like for the sample request.
use ff_http_lws.Base.{
  Bytes, ◌++◌, ◌+◌, ◌≤◌, ◌-◌, ◌^◌, ◌⊎◌, ◌<◌, ◌≢◌, int32, ltb, if◌then◌else◌, ◌≡◌, refl, true, [],
  ◌∷◌, pos, FString, codes, length, arith, replicate,
}
use ff_http_lws.Engine.Map.{TMap}
use ff_http_lws.Lws.Reasons.{lws_pre}
use ff_http_lws.Lws.Tokens.{token, token_index}
use ff_http_lws.Enums.{ELwsKnownHeaders, ELwsResponseStatus, header_accept, status_ok, text_plain}
use ff_http_lws.Request.{
  calculcate_payload_size, to_size, buffer_size, header_block, sent_body, get_uri, int_bits,
  content_type_string, bp_headers_to_lws,
}
use ff_http_lws.Request.Payload.{payload_total, calculcate_payload_size_lem}
use mathlib.Core.List.{Permᴰ}
use mathlib.Core.Quot
use ff_http_lws.Engine.Map.{TMap}
use ff_http_lws.Request.Order.{custom_weight, known_weight}
use ff_http_lws.Request.Bags.{HeaderBag, bag_of, put_custom, put_known, bag_size, bag_size_lem}
use ff_http_lws.Request.Buffer.{send_in_bounds}
use ff_http_lws.Request.Sending.{sent_body_lem}
use ff_http_lws.Request.Whole.{all_lines}
use ff_http_lws.Request.Room.{send_complete, buffer_size_lem}
use ff_http_lws.Request.Uri.{get_uri_lem}
use ff_http_lws.Examples.Sample.Engine.{sample_engine, sample_engine-docs}
use ff_http_lws.Examples.Sample.Headers.{sample_headers, sample_headers-docs}
use ff_http_lws.Examples.Sample.Reply.{sample_reply, sample_reply-docs, sample_reply-lines}
use ff_http_lws.Examples.Sample.Calls.{request}

abbrev custom : TMap FString FString
custom = (codes "x-a", codes "1") ∷ (codes "x-b", []) ∷ []

abbrev known : TMap ELwsKnownHeaders FString
known = (header_accept, codes "text") ∷ []

abbrev response : FString
response = codes "hello"

-- é, which takes two bytes
abbrev accented : FString
accented = 233 ∷ []

calculcate_payload_size_example :
    calculcate_payload_size sample_engine sample_headers response custom known text_plain status_ok
    ≡ int_bits (payload_total sample_engine sample_headers response custom known text_plain)
calculcate_payload_size_example =
    calculcate_payload_size_lem sample_engine sample_headers response custom known text_plain
      status_ok

send_in_bounds_example :
    let size =
      calculcate_payload_size sample_engine sample_headers response custom known text_plain
        status_ok in
    let block =
      header_block sample_engine sample_reply 1 (int32 size) response custom known text_plain in
    (int32 size ≡ pos (to_size size))
    × (lws_pre + length block ≤ to_size size)
    × (to_size size + lws_pre ≡ buffer_size size)
unfolding token token_index content_type_string bp_headers_to_lws
send_in_bounds_example =
    send_in_bounds sample_engine-docs sample_headers sample_reply-docs 1 response custom known
      text_plain status_ok (ground arith)

send_complete_example :
    let total = payload_total sample_engine sample_headers response custom known text_plain in
    let size =
      calculcate_payload_size sample_engine sample_headers response custom known text_plain
        status_ok in
    let block =
      header_block sample_engine sample_reply 1 (int32 size) response custom known text_plain in
    let lines =
      all_lines sample_reply-lines sample_engine 1 total response custom known text_plain in
    ((block ≡ lines) ⊎ (total < lws_pre + length lines + sample_reply-lines.slack))
    × ((block ≢ lines) ⊎ (lws_pre + length lines ≤ total))
unfolding token token_index content_type_string bp_headers_to_lws
send_complete_example =
    send_complete sample_reply-docs sample_reply-lines sample_engine 1 sample_engine-docs
      sample_headers response custom known text_plain status_ok (ground arith)

buffer_size_example :
    let bits =
      int_bits (payload_total sample_engine sample_headers response custom known text_plain) in
    buffer_size (
      calculcate_payload_size sample_engine sample_headers response custom known text_plain
        status_ok)
    ≡ (if ltb bits (2 ^ 31)
        then bits + 16
        else if ltb bits (2 ^ 32 - 16)
        then 2 ^ 64 - 2 ^ 32 + bits + 16
        else bits + 16 - 2 ^ 32)
buffer_size_example =
    buffer_size_lem sample_engine sample_headers response custom known text_plain status_ok

get_uri_example : get_uri sample_engine sample_headers request [] ≡ (true, codes "/api/lws/v1/a")
unfolding sample_engine-docs sample_headers-docs
get_uri_example = get_uri_lem sample_engine-docs sample_headers-docs request []

bag_size_lem_example :
    ((custom : TMap FString FString) (known : TMap ELwsKnownHeaders FString)
        (status : ELwsResponseStatus)
      → calculcate_payload_size sample_engine sample_headers response custom known text_plain status
        ≡ bag_size sample_engine sample_headers response text_plain (bag_of custom known))
    × ((header : FString × FString) (b : HeaderBag)
        → bag_size sample_engine sample_headers response text_plain (put_custom header b)
          ≡ int_bits
              (custom_weight header + bag_size sample_engine sample_headers response text_plain b))
    × ((header : ELwsKnownHeaders × FString) (b : HeaderBag)
        → bag_size sample_engine sample_headers response text_plain (put_known header b)
          ≡ int_bits (
              known_weight sample_engine sample_headers header
              + bag_size sample_engine sample_headers response text_plain b))
bag_size_lem_example = bag_size_lem sample_engine sample_headers response text_plain

-- The two custom headers in the other order.
two_orders : bag_of custom known ≡ bag_of ((codes "x-b", []) ∷ (codes "x-a", codes "1") ∷ []) known
two_orders = Quot.sound (∣ Permᴰ.swap refl refl ∣₁, ∣ Permᴰ.cons refl Permᴰ.nil ∣₁)

-- A response with room for the header lines.
abbrev long_response : FString
long_response = replicate 150 97

sent_body_example :
    (rest : Bytes) × (sample_engine.to_utf8 accented ≡ sent_body sample_engine accented ++ rest)
    × (length (sent_body sample_engine accented) ≡ 1)
    × (length rest ≡ 1)
sent_body_example =
    sent_body_lem sample_engine-docs sample_headers sample_reply request accented custom known
      text_plain [] (ground arith)
