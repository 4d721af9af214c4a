-- ===== src/Engine.antt =====
-- Unreal Engine as the code sees it. The engine is not in the repository: its text functions are
-- the parameter `Unreal`, and what the code relies on is `UnrealDocs`. Its containers are data:
-- `TArray` is a list, and `TMap` an association list (Engine/Map.antt).
pub mod Map
use ff_http_lws.Base.{
  ℕ, ◌<◌, ◌≤◌, ◌≡◌, Bool, true, Option, some, Plain, List, [], ◌∷◌, ◌++◌, map, ℤ, pos, Bytes,
  FString, All, length, take, is_empty, if◌then◌else◌, ◌==◌,
}

-- The engine's and the C runtime's text functions.
pub record Unreal : Type 0 where
  -- what `AppendChars(const ANSICHAR*, int32)` appends
  pub append_chars : Bytes → ℤ → FString
  -- `FString(const ANSICHAR*)`, of a null pointer too
  pub from_ansi : Option Bytes → FString
  -- `TCHAR_TO_UTF8`, up to its terminator, read within the statement that it stands in
  pub to_utf8 : FString → Bytes
  -- what stands in memory behind these bytes
  pub behind_utf8 : FString → Bytes
  -- what a pointer that `TCHAR_TO_UTF8` gave points to once the statement is over and the temporary that
  -- owns the text is gone, by the number of the later statement that reads it
  pub dangling : ℕ → FString → Bytes
  -- `FString::FromInt`
  pub from_int : ℕ → FString
  -- `Contains`: the first text holds the second
  pub contains : FString → FString → Bool
  -- `ParseIntoArray` with a delimiter, empty parts culled (its default)
  pub parse_into_array : FString → FString → List FString
  -- the key comparison of a `TMap<FString, …>`
  pub same_key : FString → FString → Bool
  -- `FPaths::MakePlatformFilename`
  pub make_platform_filename : FString → FString
  -- `wcstombs_s` with `_TRUNCATE`: the characters stored in a buffer of this size
  pub wcstombs : ℕ → FString → Bytes

abbrev pub Ascii : List ℕ → Type 0
Ascii = All (λ c. c < 128)

-- The parts of a text between delimiters: the current part, and those behind it.
abbrev pub split_rest : ℕ → FString → FString → List FString
split_rest d cur [] = cur ∷ []
split_rest d cur (c ∷ s) = elim (c == d) [
  | true ↦ cur ∷ split_rest d [] s
  | _ ↦ split_rest d (cur ++ c ∷ []) s
]

abbrev pub cull_empty : List FString → List FString
cull_empty [] = []
cull_empty (p ∷ ps) = if is_empty p then cull_empty ps else p ∷ cull_empty ps

-- What the engine documents of these functions.
pub record UnrealDocs (ue : Unreal) : Type 0 where
  -- the conversion of one `ANSICHAR`
  pub widen : ℕ → ℕ
  pub widen_ascii : (c : ℕ) → c < 128 → widen c ≡ c
  pub append_chars_lem :
      (n : ℕ) (b : Bytes) → n ≤ length b → ue.append_chars b (pos n) ≡ map widen (take n b)
  pub from_ansi_ascii : (s : FString) → Ascii s → Plain s → ue.from_ansi (some s) ≡ s
  pub to_utf8_ascii : (s : FString) → Ascii s → Plain s → ue.to_utf8 s ≡ s
  pub le-to_utf8 : (s : FString) → Plain s → length s ≤ length (ue.to_utf8 s)
  pub from_int_nonempty : (n : ℕ) → 0 < length (ue.from_int n)
  pub parse_into_array_lem :
      (s : FString) (d : ℕ) → ue.parse_into_array s (d ∷ []) ≡ cull_empty (split_rest d [] s)
  pub same_key_refl : (k : FString) → ue.same_key k k ≡ true
  pub same_key_sym : (j k : FString) → ue.same_key j k ≡ true → ue.same_key k j ≡ true
  pub same_key_trans :
      (i j k : FString) → ue.same_key i j ≡ true → ue.same_key j k ≡ true → ue.same_key i k ≡ true
  pub wcstombs_ascii :
      (n : ℕ) (s : FString) → Ascii s → Plain s → length s < n → ue.wcstombs n s ≡ s
  pub wcstombs_fits : (n : ℕ) (s : FString) → 0 < n → length (ue.wcstombs n s) < n
