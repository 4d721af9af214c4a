-- ===== src/Engine/Map.antt =====
-- `TMap`: an association list, in the order in which `for (TPair …)` walks it. `Add` overwrites the
-- pair of an equal key in its place; `Remove` takes it out.
use ff_http_lws.Base.{
  ◌≡◌, refl, inl, inr, Bool, true, false, Option, none, some, List, [], ◌∷◌, arith, if◌then◌else◌,
  Bool-cases,
}

abbrev pub TMap {ℓ κ} : Type ℓ → Type κ → Type (ℓ ⊔ κ)
TMap K V = List (K × V)

module _ {ℓ κ} {K : Type ℓ} {V : Type κ} (same : K → K → Bool) where
  abbrev pub find : K → TMap K V → Option V
  find k [] = none
  find k ((j, v) ∷ m) = if same j k then some v else find k m

  abbrev pub contains_key : K → TMap K V → Bool
  contains_key k m = elim (find k m) [ none ↦ false | some v ↦ true ]

  abbrev pub add : K → V → TMap K V → TMap K V
  add k v [] = (k, v) ∷ []
  add k v ((j, w) ∷ m) = if same j k then (k, v) ∷ m else (j, w) ∷ add k v m

  abbrev pub remove : K → TMap K V → TMap K V
  remove k [] = []
  remove k ((j, w) ∷ m) = let rest = remove k m in if same j k then rest else (j, w) ∷ rest

  -- Every pair of the map has a property.
  abbrev pub Pairs {μ} : (K → V → Type μ) → TMap K V → Type μ
  Pairs P [] = Unit
  Pairs P ((k, v) ∷ m) = P k v × Pairs P m

  pub add-Pairs {μ} :
      (P : K → V → Type μ) (k : K) (v : V) (m : TMap K V) → P k v → Pairs P m → Pairs P (add k v m)
  add-Pairs P k v [] p h = (p, tt)
  add-Pairs P k v ((j, w) ∷ m) p h = elim (Bool-cases (same j k)) [
    | inl e ↦ rw e (p, h.1)
    | inr e ↦ rw e (h.0, add-Pairs P k v m p h.1)
  ]

-- The comparison is an equivalence.
pub record IsKeyTest {ℓ} {K : Type ℓ} (same : K → K → Bool) : Type ℓ where
  pub same_refl : (k : K) → same k k ≡ true
  pub same_sym : (j k : K) → same j k ≡ true → same k j ≡ true
  pub same_trans : (i j k : K) → same i j ≡ true → same j k ≡ true → same i k ≡ true

module _ {ℓ κ} {K : Type ℓ} {V : Type κ} {same : K → K → Bool} (t : IsKeyTest same) where
  pub find-add_self : (k : K) (v : V) (m : TMap K V) → find same k (add same k v m) ≡ some v
  find-add_self k v [] = rw (t.same_refl k)
  find-add_self k v ((j, w) ∷ m) = ground (arith, t.same_refl k, find-add_self k v m)

  pub find-add_other :
      (k j : K) (v : V) (m : TMap K V)
      → same k j ≡ false
      → find same j (add same k v m) ≡ find same j m
  find-add_other k j v [] h = rw h
  find-add_other k j v ((i, w) ∷ m) h =
      ground (arith, find-add_other k j v m h, t.same_sym i k, t.same_trans k i j)

  -- What a later look-up finds, at any key.
  pub find-add :
      (k j : K) (v : V) (m : TMap K V)
      → find same j (add same k v m) ≡ (if same k j then some v else find same j m)
  find-add k j v [] = refl
  find-add k j v ((i, w) ∷ m) = ground (
    arith,
    find-add k j v m,
    t.same_sym i k,
    t.same_sym k j,
    t.same_trans k i j,
    t.same_trans i j k,
  )

  pub find-remove_self : (k : K) (m : TMap K V) → find same k (remove same k m) ≡ none
  find-remove_self k [] = refl
  find-remove_self k ((j, w) ∷ m) = ground (arith, find-remove_self k m)

  pub find-remove_other :
      (k j : K) (m : TMap K V) → same k j ≡ false → find same j (remove same k m) ≡ find same j m
  find-remove_other k j [] h = refl
  find-remove_other k j ((i, w) ∷ m) h =
      ground (arith, find-remove_other k j m h, t.same_sym i k, t.same_trans k i j)
