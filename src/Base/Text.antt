-- ===== src/Base/Text.antt =====
-- Text as lists of code units, and the C string functions that the code calls.
use Prim.Native.Nat.{ℕ, suc, ◌≤◌}
use Prim.Native.Char.{code}
use Prim.Native.String.{String}
use mathlib.Core.Path.{◌≡◌, refl}
use mathlib.Core.Logic.{◌≢◌}
use mathlib.Core.Bool.{Bool, true, false, ◌&&◌}
use mathlib.Core.List.{List, [], ◌∷◌}
use native.Mathlib.Omega.{arith}
use ff_http_lws.Base.Tests.{◌==◌, if◌then◌else◌}
use ff_http_lws.Base.Lists.{length, All}

-- The characters of a C buffer.
abbrev pub Bytes : Type 0
Bytes = List ℕ

-- The code units of an `FString`, without its terminator.
abbrev pub FString : Type 0
FString = List ℕ

-- The code units of a literal.
abbrev pub codes : String → List ℕ
codes String.[] = []
codes (String.◌∷◌ c s) = code c ∷ codes s

-- `strlen`: the number of characters before the first NUL.
abbrev pub strlen : Bytes → ℕ
strlen [] = 0
strlen (c ∷ s) = if c == 0 then 0 else suc (strlen s)

-- Exact comparison of two texts.
abbrev pub text_eq : List ℕ → List ℕ → Bool
text_eq [] [] = true
text_eq [] (d ∷ t) = false
text_eq (c ∷ s) [] = false
text_eq (c ∷ s) (d ∷ t) = c == d && text_eq s t

-- No character is NUL.
abbrev pub Plain : List ℕ → Type 0
Plain = All (λ c. c ≢ 0)

pub strlen-length : (s : Bytes) → Plain s → strlen s ≡ length s
strlen-length [] h = refl
strlen-length (c ∷ s) h = ground (arith, strlen-length s h.1)

pub strlen-le-length : (s : Bytes) → strlen s ≤ length s
strlen-le-length [] = omega arith
strlen-le-length (c ∷ s) = ground (arith, strlen-le-length s)
