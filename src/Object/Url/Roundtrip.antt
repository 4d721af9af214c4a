-- ===== src/Object/Url/Roundtrip.antt =====
-- A map sent as a query string, read back by `GetAllUrlParameters`.
use ff_http_lws.Base.{
  ◌≡◌, refl, ap, sym, ◌∙◌, subst, Bool, true, false, List, [], ◌∷◌, ◌++◌, append_assoc, append-nil,
  FString, All,
}
use ff_http_lws.Engine.{Unreal, UnrealDocs}
use ff_http_lws.Engine.Map.{TMap, add, Pairs}
use ff_http_lws.Lws.Headers.{LwsHeaders, LwsHeadersDocs}
use ff_http_lws.Object.{wrong_reason, get_all_url_parameters}
use ff_http_lws.Object.Params.{FLwsParams}
use ff_http_lws.Object.Url.Parts.{Item, pair, query, IsItem, IsWord}
use ff_http_lws.Object.Url.{add_items, query_text, get_all_url_parameters_lem}

-- No two keys of the map are the same.
abbrev pub Distinct : {K V : Type 0} → (K → K → Bool) → TMap K V → Type 0
Distinct same [] = Unit
Distinct same ((k, v) ∷ m) = Pairs same (λ j w. same k j ≡ false) m × Distinct same m

module _ {K V : Type 0} (same : K → K → Bool) where
  Pairs-head :
      (P : K → V → Type 0) (a : TMap K V) (k : K) (v : V) (m : TMap K V)
      → Pairs same P (a ++ (k, v) ∷ m)
      → P k v
  Pairs-head P [] k v m h = h.0
  Pairs-head P (x ∷ a) k v m h = Pairs-head P a k v m h.1

  -- A key that is the same as none before it is added at the end.
  add-Distinct :
      (a : TMap K V) (k : K) (v : V) (m : TMap K V)
      → Distinct same (a ++ (k, v) ∷ m)
      → add same k v a ≡ a ++ (k, v) ∷ []
  add-Distinct [] k v m h = refl
  add-Distinct ((j, w) ∷ a) k v m h =
      rw (Pairs-head (λ i u. same j i ≡ false) a k v m h.0)
        (ap (◌∷◌ (j, w)) (add-Distinct a k v m h.1))

-- The map as the items of a query.
abbrev pub items_of : TMap FString FString → List Item
items_of [] = []
items_of ((k, v) ∷ m) = pair k v ∷ items_of m

-- Names and values are not empty and hold no delimiter.
abbrev pub IsSendable : TMap FString FString → Type 0
IsSendable [] = Unit
IsSendable ((k, v) ∷ m) = (IsWord k × IsWord v) × IsSendable m

IsSendable-items : (m : TMap FString FString) → IsSendable m → All IsItem (items_of m)
IsSendable-items [] h = tt
IsSendable-items ((k, v) ∷ m) h = (h.0, IsSendable-items m h.1)

module _ {ue : Unreal} {lws : LwsHeaders} (e : UnrealDocs ue) (d : LwsHeadersDocs lws) where
  add_items-Distinct :
      (m a : TMap FString FString)
      → Distinct ue.same_key (a ++ m)
      → add_items e d (items_of m) a ≡ a ++ m
  add_items-Distinct [] a h = sym (append-nil a)
  add_items-Distinct ((k, v) ∷ m) a h =
      let same = append_assoc a ((k, v) ∷ []) m in
      ap (add_items e d (items_of m)) (add-Distinct ue.same_key a k v m h)
      ∙ add_items-Distinct m (a ++ (k, v) ∷ []) (subst (Distinct ue.same_key) (sym same) h)
      ∙ same

  -- A map that is not empty and whose keys are all different, with names and values that are not
  -- empty and hold no `&` or `=`, written out as a query string `k=v&k=v…` and sent under a served
  -- reason, is read back by `GetAllUrlParameters` as exactly that map, in its order, whatever the
  -- out parameter held.
  pub get_all_url_parameters-query :
      (p : FLwsParams) (out : TMap FString FString) (k v : FString) (m : TMap FString FString)
      → wrong_reason p ≡ false
      → IsSendable ((k, v) ∷ m)
      → Distinct ue.same_key ((k, v) ∷ m)
      → query_text e d p ≡ query (pair k v) (items_of m)
      → get_all_url_parameters ue lws p out ≡ (true, (k, v) ∷ m)
  get_all_url_parameters-query p out k v m r h distinct sent =
      get_all_url_parameters_lem e d p out (pair k v) (items_of m) r
        (IsSendable-items ((k, v) ∷ m) h) sent
      ∙ ap (λ (x : TMap FString FString). (true, x)) (add_items-Distinct ((k, v) ∷ m) [] distinct)
