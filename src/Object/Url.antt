-- ===== src/Object/Url.antt =====
-- `GetUrlParam` and `GetAllUrlParameters` against the query string that the client sent.
pub mod Parts
pub mod Roundtrip
use ff_http_lws.Base.{
  ℕ, ◌+◌, ◌<◌, ◌≡◌, ◌≢◌, refl, ap, ap₂, ◌∙◌, sym, Bool, true, false, Option, none, some, List, [],
  ◌∷◌, ◌++◌, map, ℤ, pos, minus_one, is_pos, is_zero, add_one, Bytes, FString, codes, All, length,
  length-map, is_empty, arith, if◌then◌else◌, ◌==◌,
}
use ff_http_lws.Engine.{Unreal, UnrealDocs, split_rest, cull_empty}
use ff_http_lws.Engine.Map.{TMap, add}
use ff_http_lws.Lws.Tokens.{http_uri_args, token}
use ff_http_lws.Lws.Headers.{LwsHeaders, LwsHeadersDocs}
use ff_http_lws.Object.Params.{FLwsParams}
use ff_http_lws.Object.Known.{copied_lem}
use ff_http_lws.Object.{wrong_reason, get_all_url_parameters, pairs_loop, add_sections}
use Parts.{
  Item, pair, bare, valueless, item_text, query, IsItem, query_parts, item_sections, sections,
  query-ne-nil,
}

-- The name under which libwebsockets looks an argument up.
abbrev pub argument_name : Unreal → FString → Bytes
argument_name ue key = ue.to_utf8 (key ++ codes "=")

-- `BufferSize`, or 1024 where it is not positive.
abbrev pub argument_buffer : ℤ → ℤ
argument_buffer size = if is_pos size then size else pos 1024

module _ {ue : Unreal} {lws : LwsHeaders} (e : UnrealDocs ue) (d : LwsHeadersDocs lws) where
  is_zero-length : (b : Bytes) → is_zero (pos (length b)) ≡ is_empty b
  is_zero-length [] = refl
  is_zero-length (c ∷ b) = ground arith

  -- An argument of the client is shorter than the buffer, or not there.
  abbrev pub FitsIn : ℕ → Option Bytes → Type 0
  FitsIn room none = Unit {0}
  FitsIn room (some v) = length v < room

  -- The value of an argument, which for none is what the engine makes of a buffer with the count -1.
  abbrev pub argument_answer : FString → Bytes → Option Bytes → Bool × FString
  argument_answer value buffer none = (true, ue.append_chars buffer minus_one)
  argument_answer value buffer (some v) =
      if is_empty v then (false, value) else (true, map e.widen v)

  -- What the items of a query put into a map: the pairs, in order.
  abbrev pub add_items : List Item → TMap FString FString → TMap FString FString
  add_items [] m = m
  add_items (pair k v ∷ items) m = add_items items (add ue.same_key k v m)
  add_items (bare k ∷ items) m = add_items items m
  add_items (valueless k ∷ items) m = add_items items m

  cut_item :
      (item : Item) → IsItem item → ue.parse_into_array (item_text item) (codes "=") ≡ sections item
  cut_item item h = e.parse_into_array_lem (item_text item) b'=' ∙ item_sections item h

  pairs_loop_lem :
      (items : List Item) (m : TMap FString FString)
      → All IsItem items
      → pairs_loop ue (map item_text items) m ≡ add_items items m
  unfolding pairs_loop
  pairs_loop_lem [] m h = refl
  pairs_loop_lem (pair k v ∷ items) m h =
      rw (pairs_loop, cut_item (pair k v) h.0, pairs_loop) (pairs_loop_lem items _ h.1)
  pairs_loop_lem (bare k ∷ items) m h =
      rw (pairs_loop, cut_item (bare k) h.0, pairs_loop) (pairs_loop_lem items _ h.1)
  pairs_loop_lem (valueless k ∷ items) m h =
      rw (pairs_loop, cut_item (valueless k) h.0, pairs_loop) (pairs_loop_lem items _ h.1)

  -- the query string that the client sent, as text
  abbrev pub query_text : FLwsParams → FString
  query_text p = map e.widen (d.header p.wsi (token http_uri_args))

  header_ne_nil :
      (p : FLwsParams) → query_text p ≢ [] → is_empty (d.header p.wsi (token http_uri_args)) ≡ false
  header_ne_nil p h = go (d.header p.wsi (token http_uri_args)) h
    where
      go : (b : Bytes) → map e.widen b ≢ [] → is_empty b ≡ false
      go [] h = absurd (h refl)
      go (c ∷ b) h = refl

  length_lem :
      (p : FLwsParams)
      → (lws.hdr_copy p.wsi
          (add_one (lws.hdr_total_length p.wsi (token http_uri_args)))
          (token http_uri_args)).0
        ≡ pos (length (d.header p.wsi (token http_uri_args)))
  length_lem p =
      let (rest, copied) =
        d.hdr_copy_lem p.wsi (token http_uri_args)
          (length (d.header p.wsi (token http_uri_args)) + 1) (omega arith) in
      rw (d.hdr_total_length_lem p.wsi (token http_uri_args), copied)

  -- Under a served reason, from a query string of items `k=v`, `k` and `k=` between `&`, with names
  -- and values that are not empty and hold no `&` or `=`, `GetAllUrlParameters` gets the pairs, in
  -- order, a later pair of the same key replacing an earlier one; the other items are skipped.
  pub get_all_url_parameters_lem :
      (p : FLwsParams) (out : TMap FString FString) (item : Item) (items : List Item)
      → wrong_reason p ≡ false
      → All IsItem (item ∷ items)
      → query_text p ≡ query item items
      → get_all_url_parameters ue lws p out ≡ (true, add_items (item ∷ items) [])
  unfolding get_all_url_parameters
  get_all_url_parameters_lem p out item items r h sent =
      let full = header_ne_nil p (λ empty. query-ne-nil item items h.0 (sym sent ∙ empty)) in
      rw
        (
          r,
          copied_lem e d p.wsi (token http_uri_args),
          length_lem p,
          d.hdr_total_length_lem p.wsi (token http_uri_args),
          is_zero-length (d.header p.wsi (token http_uri_args)),
          full,
          sent,
          e.parse_into_array_lem (query item items) b'&',
          query_parts item items h,
        )
        (ap (λ (m : TMap FString FString). (true, m)) (pairs_loop_lem (item ∷ items) [] h))

  -- With no query string it returns false and keeps the out parameter.
  pub get_all_url_parameters_none :
      (p : FLwsParams) (out : TMap FString FString)
      → wrong_reason p ≡ false
      → d.header p.wsi (token http_uri_args) ≡ []
      → get_all_url_parameters ue lws p out ≡ (false, out)
  unfolding get_all_url_parameters
  get_all_url_parameters_none p out r none_sent =
      rw (r, d.hdr_total_length_lem p.wsi (token http_uri_args), none_sent)
