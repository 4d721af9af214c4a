-- ===== src/Examples/Sample/Engine.antt =====
-- An engine: text is copied, `TCHAR_TO_UTF8` writes two bytes from 128 on, keys are compared exactly.
use Prim.Native.Nat.{◌/◌, ◌-◌}
use ff_http_lws.Base.{
  ℕ, zero, suc, ◌+◌, ◌%◌, ◌≤◌, ◌≡◌, refl, ap, Bool, true, false, ◌||◌, ◌&&◌, Option, none, some,
  List, [], ◌∷◌, map, ℤ, pos, negsuc, Bytes, FString, Plain, length, take, ltb, text_eq, ◌==◌,
  if◌then◌else◌, arith,
}
use ff_http_lws.Engine.{Unreal, UnrealDocs, Ascii, split_rest, cull_empty}

abbrev append_chars : Bytes → ℤ → FString
append_chars b (pos n) = take n b
append_chars b (negsuc n) = []

abbrev from_ansi : Option Bytes → FString
from_ansi none = []
from_ansi (some b) = b

abbrev to_utf8 : FString → Bytes
to_utf8 [] = []
to_utf8 (c ∷ s) =
    if c == 0
    then []
    else if ltb c 128
    then c ∷ to_utf8 s
    else (192 + c / 64) ∷ (128 + c % 64) ∷ to_utf8 s

abbrev tens : ℕ → ℕ → Bytes → Bytes
tens zero n out = out
tens (suc fuel) n out = elim (n == 0) [
  | true ↦ out
  | false ↦ tens fuel (n / 10) ((48 + n % 10) ∷ out)
]

abbrev pub from_int : ℕ → FString
from_int n = tens 10 (n / 10) ((48 + n % 10) ∷ [])

abbrev begins : FString → FString → Bool
begins s [] = true
begins [] (d ∷ t) = false
begins (c ∷ s) (d ∷ t) = c == d && begins s t

abbrev contains : FString → FString → Bool
contains [] t = begins [] t
contains (c ∷ s) t = begins (c ∷ s) t || contains s t

abbrev parse_into_array : FString → FString → List FString
parse_into_array s [] = s ∷ []
parse_into_array s (d ∷ t) = cull_empty (split_rest d [] s)

abbrev pub sample_engine : Unreal
sample_engine = record {
  append_chars = append_chars;
  from_ansi = from_ansi;
  to_utf8 = to_utf8;
  behind_utf8 = λ s. 0 ∷ [];
  dangling = λ n. to_utf8;
  from_int = from_int;
  contains = contains;
  parse_into_array = parse_into_array;
  same_key = text_eq;
  make_platform_filename = λ s. s;
  wcstombs = λ n s. take (n - 1) s;
}

pub map-id : (s : FString) → s ≡ map (λ c. c) s
map-id [] = refl
map-id (c ∷ s) = ap (◌∷◌ c) (map-id s)

pub to_utf8-Ascii : (s : FString) → Ascii s → Plain s → to_utf8 s ≡ s
to_utf8-Ascii [] h plain = refl
to_utf8-Ascii (c ∷ s) h plain = ground (arith, to_utf8-Ascii s h.1 plain.1, plain.0)

pub le-to_utf8 : (s : FString) → Plain s → length s ≤ length (to_utf8 s)
le-to_utf8 [] plain = omega arith
le-to_utf8 (c ∷ s) plain = ground (arith, le-to_utf8 s plain.1, plain.0)

pub le-tens : (fuel n : ℕ) (out : Bytes) → length out ≤ length (tens fuel n out)
le-tens zero n out = omega arith
le-tens (suc fuel) n out = ground (arith, le-tens fuel (n / 10) ((48 + n % 10) ∷ out))

pub text_eq_refl : (s : FString) → text_eq s s ≡ true
text_eq_refl [] = refl
text_eq_refl (c ∷ s) = ground (arith, text_eq_refl s)

text_eq_sound : (s t : FString) → text_eq s t ≡ true → s ≡ t
text_eq_sound [] [] h = refl
text_eq_sound [] (d ∷ t) h = cc
text_eq_sound (c ∷ s) [] h = cc
text_eq_sound (c ∷ s) (d ∷ t) h = ground (arith, text_eq_sound s t)

pub text_eq_sym : (s t : FString) → text_eq s t ≡ true → text_eq t s ≡ true
text_eq_sym s t h = rw (text_eq_sound s t h) (text_eq_refl t)

pub text_eq_trans : (r s t : FString) → text_eq r s ≡ true → text_eq s t ≡ true → text_eq r t ≡ true
text_eq_trans r s t h k = rw (text_eq_sound r s h) k

pub take-all : (n : ℕ) (s : FString) → length s ≤ n → take n s ≡ s
take-all zero [] h = refl
take-all zero (c ∷ s) h = absurd (omega arith)
take-all (suc n) [] h = refl
take-all (suc n) (c ∷ s) h = ap (◌∷◌ c) (take-all n s (omega arith))

pub length-take-le : (n : ℕ) (s : FString) → length (take n s) ≤ n
length-take-le zero s = omega arith
length-take-le (suc n) [] = omega arith
length-take-le (suc n) (c ∷ s) = omega (arith, length-take-le n s)

unfoldable pub sample_engine-docs : UnrealDocs sample_engine
sample_engine-docs = record {
  widen = λ c. c;
  widen_ascii = λ c h. refl;
  append_chars_lem = λ n b h. map-id (take n b);
  from_ansi_ascii = λ s ascii plain. refl;
  to_utf8_ascii = to_utf8-Ascii;
  le-to_utf8 = le-to_utf8;
  from_int_nonempty = λ n. le-tens 10 (n / 10) ((48 + n % 10) ∷ []);
  parse_into_array_lem = λ s d. refl;
  same_key_refl = text_eq_refl;
  same_key_sym = text_eq_sym;
  same_key_trans = text_eq_trans;
  wcstombs_ascii = λ n s ascii plain h. take-all (n - 1) s (omega arith);
  wcstombs_fits = λ n s h. omega (arith, length-take-le (n - 1) s);
}
