-- ===== src/Request/Bags.antt =====
-- The headers of a response without an order, and the size of the response.
use mathlib.Core.List.Perm
use mathlib.Core.List.{Perm}
use mathlib.Core.Quot
use mathlib.Core.Quot.{Quot, Quot-set}
use native.Mathlib.Nat.{ℕ_set}
use ff_http_lws.Base.{ℕ, ◌+◌, ◌≡◌, ◌∷◌, FString, arith}
use ff_http_lws.Engine.{Unreal}
use ff_http_lws.Engine.Map.{TMap}
use ff_http_lws.Lws.Headers.{LwsHeaders}
use ff_http_lws.Enums.{ELwsKnownHeaders, ELwsResponseStatus, status_ok, ELwsContentType}
use ff_http_lws.Request.Payload.{calculcate_payload_size_lem}
use ff_http_lws.Request.Order.{custom_weight, known_weight, calculcate_payload_size-Perm}
use ff_http_lws.Request.{int_bits, calculcate_payload_size}

-- The two header maps of a response.
abbrev pub HeaderMaps : Type 0
HeaderMaps = TMap FString FString × TMap ELwsKnownHeaders FString

abbrev SameHeaders : HeaderMaps → HeaderMaps → Type 0
SameHeaders (custom, known) (custom', known') = Perm custom custom' × Perm known known'

-- The custom and the known headers of a response, whatever the order of the maps.
abbrev pub HeaderBag : Type 0
HeaderBag = Quot SameHeaders

abbrev pub bag_of : TMap FString FString → TMap ELwsKnownHeaders FString → HeaderBag
bag_of custom known = Quot.mk (custom, known)

pub put_custom : FString × FString → HeaderBag → HeaderBag
put_custom header =
    Quot.lift Quot-set (λ m. bag_of (header ∷ m.0) m.1)
      (λ m m' same. Quot.sound (Perm.cons header same.0, same.1))

pub put_known : ELwsKnownHeaders × FString → HeaderBag → HeaderBag
put_known header =
    Quot.lift Quot-set (λ m. bag_of m.0 (header ∷ m.1))
      (λ m m' same. Quot.sound (same.0, Perm.cons header same.1))

module _ (ue : Unreal) (lws : LwsHeaders) (response : FString) (type : ELwsContentType) where
  -- The size that the code computes, from the headers without their order.
  pub bag_size : HeaderBag → ℕ
  bag_size =
      Quot.lift ℕ_set (λ m. calculcate_payload_size ue lws response m.0 m.1 type status_ok)
        (λ m m' same.
          calculcate_payload_size-Perm ue lws response type status_ok status_ok same.0 same.1)

  -- One more header of either kind, at the front of its map.
  longer_custom :
      (header : FString × FString) (custom : TMap FString FString)
      (known : TMap ELwsKnownHeaders FString)
      → calculcate_payload_size ue lws response (header ∷ custom) known type status_ok
        ≡ int_bits (
            custom_weight header
            + calculcate_payload_size ue lws response custom known type status_ok)
  longer_custom header custom known = omega (
    arith,
    calculcate_payload_size_lem ue lws response (header ∷ custom) known type status_ok,
    calculcate_payload_size_lem ue lws response custom known type status_ok,
  )

  longer_known :
      (header : ELwsKnownHeaders × FString) (custom : TMap FString FString)
      (known : TMap ELwsKnownHeaders FString)
      → calculcate_payload_size ue lws response custom (header ∷ known) type status_ok
        ≡ int_bits (
            known_weight ue lws header
            + calculcate_payload_size ue lws response custom known type status_ok)
  longer_known header custom known = omega (
    arith,
    calculcate_payload_size_lem ue lws response custom (header ∷ known) type status_ok,
    calculcate_payload_size_lem ue lws response custom known type status_ok,
  )

  -- The size that CalculcatePayloadSize returns is a function of the response, the content type and
  -- the headers without their order, whatever the status asked for and the order in which TMap walks
  -- the two maps; and one more header of either kind adds the size of its line to it, in 32 bits.
  pub bag_size_lem :
      ((custom : TMap FString FString) (known : TMap ELwsKnownHeaders FString)
          (status : ELwsResponseStatus)
        → calculcate_payload_size ue lws response custom known type status
          ≡ bag_size (bag_of custom known))
      × ((header : FString × FString) (b : HeaderBag)
          → bag_size (put_custom header b) ≡ int_bits (custom_weight header + bag_size b))
      × ((header : ELwsKnownHeaders × FString) (b : HeaderBag)
          → bag_size (put_known header b) ≡ int_bits (known_weight ue lws header + bag_size b))
  unfolding bag_size put_custom put_known
  bag_size_lem = (
    λ custom known status.
        calculcate_payload_size-Perm ue lws response type status status_ok (Perm.refl custom)
          (Perm.refl known),
    λ header. Quot.ind (λ b. ℕ_set _ _) (λ m. longer_custom header m.0 m.1),
    λ header. Quot.ind (λ b. ℕ_set _ _) (λ m. longer_known header m.0 m.1),
  )
