-- ===== src/Request/Order.antt =====
-- The order of the header maps, which `TMap` does not promise, and the size.
use mathlib.Core.List.{Perm, Permᴰ}
use mathlib.Core.Logic.{∥∥₁_elim}
use native.Mathlib.Nat.{ℕ_set}
use ff_http_lws.Base.{ℕ, ◌+◌, ◌≡◌, refl, sym, ◌∙◌, ap, List, [], ◌∷◌, FString, length, arith}
use ff_http_lws.Engine.{Unreal}
use ff_http_lws.Engine.Map.{TMap}
use ff_http_lws.Lws.Headers.{LwsHeaders}
use ff_http_lws.Enums.{ELwsKnownHeaders, ELwsResponseStatus, ELwsContentType}
use ff_http_lws.Request.Payload.{
  custom_total, known_total, payload_total, calculcate_payload_size_lem,
}
use ff_http_lws.Request.{bp_headers_to_lws, token_lenght, int_bits, calculcate_payload_size}

-- The sum of what the items of a list weigh.
abbrev total : {A : Type 0} → (A → ℕ) → List A → ℕ
total weight [] = 0
total weight (x ∷ xs) = weight x + total weight xs

module _ {A : Type 0} (weight : A → ℕ) where
  Permᴰ-total : {xs ys : List A} → Permᴰ xs ys → total weight xs ≡ total weight ys
  Permᴰ-total Permᴰ.nil = refl
  Permᴰ-total (Permᴰ.cons e p) = omega (arith, ap weight e, Permᴰ-total p)
  Permᴰ-total (Permᴰ.swap e f) = omega (arith, ap weight e, ap weight f)
  Permᴰ-total (Permᴰ.trans p q) = Permᴰ-total p ∙ Permᴰ-total q

  Perm-total : {xs ys : List A} → Perm xs ys → total weight xs ≡ total weight ys
  Perm-total p = ∥∥₁_elim p (ℕ_set _ _) Permᴰ-total

abbrev pub custom_weight : FString × FString → ℕ
custom_weight (key, value) = length key + 1 + length value + 2

custom_total-weight : (m : TMap FString FString) → custom_total m ≡ total custom_weight m
custom_total-weight [] = refl
custom_total-weight ((key, value) ∷ rest) = omega (arith, custom_total-weight rest)

module _ (ue : Unreal) (lws : LwsHeaders) where
  abbrev pub known_weight : ELwsKnownHeaders × FString → ℕ
  known_weight (key, value) = token_lenght lws (bp_headers_to_lws key) + length value + 2

  known_total-weight :
      (m : TMap ELwsKnownHeaders FString) → known_total lws m ≡ total known_weight m
  known_total-weight [] = refl
  known_total-weight ((key, value) ∷ rest) = omega (arith, known_total-weight rest)

  -- The order in which `TMap` walks the custom and the known headers has no influence on the size,
  -- nor has the status asked for.
  pub calculcate_payload_size-Perm :
      (response : FString) {custom custom' : TMap FString FString}
      {known known' : TMap ELwsKnownHeaders FString} (type : ELwsContentType)
      (status status' : ELwsResponseStatus)
      → Perm custom custom'
      → Perm known known'
      → calculcate_payload_size ue lws response custom known type status
        ≡ calculcate_payload_size ue lws response custom' known' type status'
  calculcate_payload_size-Perm response {custom} {custom'} {known} {known'} type status status' c
        k =
      let same : payload_total ue lws response custom known type
          ≡ payload_total ue lws response custom' known' type =
        omega (
          arith,
          custom_total-weight custom,
          custom_total-weight custom',
          known_total-weight known,
          known_total-weight known',
          Perm-total custom_weight c,
          Perm-total known_weight k,
        ) in
      calculcate_payload_size_lem ue lws response custom known type status
      ∙ ap int_bits same
      ∙ sym (calculcate_payload_size_lem ue lws response custom' known' type status')
