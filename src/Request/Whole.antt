-- ===== src/Request/Whole.antt =====
-- The header block of `SendResponse` where the buffer has room for it.
use ff_http_lws.Base.{
  ℕ, ◌+◌, ◌≤◌, ◌≡◌, sym, ◌∙◌, Bool, true, false, [], ◌∷◌, ◌++◌, append-nil, append_assoc, ℤ, pos,
  Bytes, FString, codes, length, length-append, ltb, if◌then◌else◌, arith,
}
use ff_http_lws.Engine.{Unreal}
use ff_http_lws.Engine.Map.{TMap}
use ff_http_lws.Lws.Reasons.{lws_pre, http_status_ok}
use ff_http_lws.Lws.Tokens.{http_content_type, http_access_control_allow_origin}
use ff_http_lws.Lws.Reply.{LwsReply, LwsReplyLines}
use ff_http_lws.Enums.{ELwsKnownHeaders, ELwsContentType}
use ff_http_lws.Request.{
  bp_headers_to_lws, content_type_string, append, add_custom, add_known, header_block,
}

-- Some bytes, written from `LWS_PRE` on, leave this many bytes before `End`.
abbrev pub HasRoom : ℕ → ℕ → Bytes → Type 0
HasRoom slack end out = lws_pre + length out + slack ≤ end

HasRoom-prefix : (slack end : ℕ) (a b : Bytes) → HasRoom slack end (a ++ b) → HasRoom slack end a
HasRoom-prefix slack end a b h = omega (arith, length-append a b, h)

append-line :
    (op : ℕ → ℤ → ℤ × Bytes) (slack end : ℕ) (out line : Bytes)
    → ((p : ℕ) → p + length line + slack ≤ end → op p (pos end) ≡ (pos 0, line))
    → HasRoom slack end (out ++ line)
    → append op (pos end) out ≡ out ++ line
append-line op slack end out line room h =
    rw (room (lws_pre + length out) (omega (arith, length-append out line, h)))

-- A header with an empty value is skipped.
append_if-line :
    (b : Bool) (op : ℕ → ℤ → ℤ × Bytes) (slack end : ℕ) (out line : Bytes)
    → ((p : ℕ) → p + length line + slack ≤ end → op p (pos end) ≡ (pos 0, line))
    → HasRoom slack end (out ++ (if b then line else []))
    → (if b then append op (pos end) out else out) ≡ out ++ (if b then line else [])
append_if-line true op slack end out line room h = append-line op slack end out line room h
append_if-line false op slack end out line room h = sym (append-nil out)

module _ {lws : LwsReply} (l : LwsReplyLines lws) (ue : Unreal) (wsi end : ℕ) where
  abbrev pub custom_line : FString → FString → Bytes
  custom_line key value =
      if ltb 0 (length value)
      then l.name_line wsi (ue.dangling 0 (key ++ codes ":")) (ue.dangling 0 value) (length value)
      else []

  abbrev pub known_line : ELwsKnownHeaders → FString → Bytes
  known_line key value =
      if ltb 0 (length value)
      then l.token_line wsi (bp_headers_to_lws key) (ue.dangling 0 value) (length value)
      else []

  abbrev pub custom_lines : TMap FString FString → Bytes
  custom_lines [] = []
  custom_lines ((key, value) ∷ rest) = custom_line key value ++ custom_lines rest

  abbrev pub known_lines : TMap ELwsKnownHeaders FString → Bytes
  known_lines [] = []
  known_lines ((key, value) ∷ rest) = known_line key value ++ known_lines rest

  add_custom-lines :
      (m : TMap FString FString) (out : Bytes)
      → HasRoom l.slack end (out ++ custom_lines m)
      → add_custom ue lws wsi (pos end) m out ≡ out ++ custom_lines m
  unfolding add_custom
  add_custom-lines [] out h = sym (append-nil out)
  add_custom-lines ((key, value) ∷ rest) out h =
      let name = ue.dangling 0 (key ++ codes ":") in
      let text = ue.dangling 0 value in
      let line = custom_line key value in
      let fits : HasRoom l.slack end ((out ++ line) ++ custom_lines rest) =
        rw (append_assoc out line (custom_lines rest)) h in
      rw
        (append_if-line (ltb 0 (length value))
          (lws.add_http_header_by_name wsi name text (length value)) l.slack end out
          (l.name_line wsi name text (length value))
          (λ p. l.name_room wsi name text (length value) p end)
          (HasRoom-prefix l.slack end (out ++ line) (custom_lines rest) fits))
        (add_custom-lines rest (out ++ line) fits ∙ append_assoc out line (custom_lines rest))

  add_known-lines :
      (m : TMap ELwsKnownHeaders FString) (out : Bytes)
      → HasRoom l.slack end (out ++ known_lines m)
      → add_known ue lws wsi (pos end) m out ≡ out ++ known_lines m
  unfolding add_known
  add_known-lines [] out h = sym (append-nil out)
  add_known-lines ((key, value) ∷ rest) out h =
      let t = bp_headers_to_lws key in
      let text = ue.dangling 0 value in
      let line = known_line key value in
      let fits : HasRoom l.slack end ((out ++ line) ++ known_lines rest) =
        rw (append_assoc out line (known_lines rest)) h in
      rw
        (append_if-line (ltb 0 (length value))
          (lws.add_http_header_by_token wsi t text (length value)) l.slack end out
          (l.token_line wsi t text (length value))
          (λ p. l.token_room wsi t text (length value) p end)
          (HasRoom-prefix l.slack end (out ++ line) (known_lines rest) fits))
        (add_known-lines rest (out ++ line) fits ∙ append_assoc out line (known_lines rest))

  -- The lines that stand before the headers of the caller.
  abbrev pub fixed_lines : FString → ELwsContentType → Bytes
  fixed_lines response type =
      ((l.status_line wsi http_status_ok
          ++ l.token_line wsi http_access_control_allow_origin (codes "*") 1)
        ++ l.token_line wsi http_content_type (content_type_string type).text
            (content_type_string type).lenght)
      ++ l.length_line wsi (length response)

  abbrev pub all_lines :
      FString → TMap FString FString → TMap ELwsKnownHeaders FString → ELwsContentType → Bytes
  all_lines response custom known type =
      ((fixed_lines response type ++ custom_lines custom) ++ known_lines known) ++ l.end_line wsi

  -- Where all the lines fit between the start of the headers and `End`, and the slack behind them, the header block is exactly
  -- the line of status 200, access-control-allow-origin with "*", the content type, the content
  -- length, the custom headers, then the known headers, those with an empty value left out, each in
  -- the order of its map, and the end of the headers.
  pub header_block-lines :
      (response : FString) (custom : TMap FString FString) (known : TMap ELwsKnownHeaders FString)
      (type : ELwsContentType)
      → HasRoom l.slack end (all_lines response custom known type)
      → header_block ue lws wsi (pos end) response custom known type
        ≡ all_lines response custom known type
  unfolding header_block
  header_block-lines response custom known type h =
      let c = content_type_string type in
      let s = l.status_line wsi http_status_ok in
      let a = l.token_line wsi http_access_control_allow_origin (codes "*") 1 in
      let t = l.token_line wsi http_content_type c.text c.lenght in
      let n = l.length_line wsi (length response) in
      let f = fixed_lines response type in
      let h₆ =
        HasRoom-prefix l.slack end ((f ++ custom_lines custom) ++ known_lines known)
          (l.end_line wsi) h in
      let h₅ = HasRoom-prefix l.slack end (f ++ custom_lines custom) (known_lines known) h₆ in
      let h₄ = HasRoom-prefix l.slack end f (custom_lines custom) h₅ in
      let h₃ = HasRoom-prefix l.slack end ((s ++ a) ++ t) n h₄ in
      let h₂ = HasRoom-prefix l.slack end (s ++ a) t h₃ in
      let h₁ = HasRoom-prefix l.slack end s a h₂ in
      rw (
        append-line (lws.add_http_header_status wsi http_status_ok) l.slack end [] s
            (λ p. l.status_room wsi http_status_ok p end) h₁,
        append-line
            (lws.add_http_header_by_token wsi http_access_control_allow_origin (codes "*") 1)
            l.slack end s a
            (λ p. l.token_room wsi http_access_control_allow_origin (codes "*") 1 p end) h₂,
        append-line (lws.add_http_header_by_token wsi http_content_type c.text c.lenght) l.slack end
            (s ++ a) t (λ p. l.token_room wsi http_content_type c.text c.lenght p end) h₃,
        append-line (lws.add_http_header_content_length wsi (length response)) l.slack end
            ((s ++ a) ++ t) n (λ p. l.length_room wsi (length response) p end) h₄,
        add_custom-lines custom f h₅,
        add_known-lines known (f ++ custom_lines custom) h₆,
        append-line (lws.finalize_http_header wsi) l.slack end
            ((f ++ custom_lines custom) ++ known_lines known) (l.end_line wsi)
            (λ p. l.end_room wsi p end) h,
      )
