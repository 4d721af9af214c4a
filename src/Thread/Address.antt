-- ===== src/Thread/Address.antt =====
-- `ConvertAddress`: the C text behind each `LwsPoints`, and its length.
use ff_http_lws.Base.{
  ◌+◌, ◌<◌, ◌≡◌, refl, false, some, Bytes, FString, strlen, strlen-length, Plain, length, arith,
}
use ff_http_lws.Engine.{Unreal, UnrealDocs, Ascii}
use ff_http_lws.Thread.{convert_address}

pub wcstombs_whole :
    {ue : Unreal} (e : UnrealDocs ue) (address : FString)
    → Ascii address
    → Plain address
    → ue.wcstombs (strlen address + 1) address ≡ address
wcstombs_whole e address ascii plain =
    e.wcstombs_ascii (strlen address + 1) address ascii plain
      (omega (arith, strlen-length address plain))

-- An ASCII address with no NUL, converted without `MakePlatformFilename`, is kept whole, and its length is that of the C text.
pub convert_address-Ascii :
    {ue : Unreal} (e : UnrealDocs ue) (address : FString)
    → Ascii address
    → Plain address
    → (convert_address ue address false
        ≡ record { data_points = some address; lenght = length address })
      × ((convert_address ue address false).lenght ≡ strlen address)
unfolding convert_address
convert_address-Ascii {ue} e address ascii plain =
    (rw (wcstombs_whole e address ascii plain), omega (arith, strlen-length address plain))

-- Whatever the address, the buffer holds at most its `strlen` characters and the terminator.
pub convert_address_fits :
    {ue : Unreal} (e : UnrealDocs ue) (address : FString)
    → (text : Bytes) × ((convert_address ue address false).data_points ≡ some text)
      × (length text < strlen address + 1)
unfolding convert_address
convert_address_fits {ue} e address = (
  ue.wcstombs (strlen address + 1) address,
  refl,
  e.wcstombs_fits (strlen address + 1) address (omega arith),
)
