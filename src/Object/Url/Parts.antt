-- ===== src/Object/Url/Parts.antt =====
-- Query strings as lists of items, and what cutting them at `&` and `=` gives.
use mathlib.Core.List.{cons-ne-nil}
use ff_http_lws.Base.{
  ℕ, ◌≡◌, ◌≢◌, refl, ap, false, List, [], ◌∷◌, ◌++◌, map, append_assoc, append-nil, FString, All,
  is_empty, arith, ==_refl,
}
use ff_http_lws.Engine.{split_rest, cull_empty}

-- `k=v`, `k` and `k=`
pub data Item : Type 0 where
  pair : FString → FString → Item
  bare : FString → Item
  valueless : FString → Item

abbrev pub item_text : Item → FString
item_text (pair k v) = k ++ b'=' ∷ v
item_text (bare k) = k
item_text (valueless k) = k ++ b'=' ∷ []

-- The items, with `&` between them.
abbrev pub query : Item → List Item → FString
query item [] = item_text item
query item (next ∷ rest) = item_text item ++ b'&' ∷ query next rest

-- A name or value: not empty, and without the two delimiters.
abbrev pub IsWord : FString → Type 0
IsWord s = (is_empty s ≡ false) × All (λ c. c ≢ b'&') s × All (λ c. c ≢ b'=') s

abbrev pub IsItem : Item → Type 0
IsItem (pair k v) = IsWord k × IsWord v
IsItem (bare k) = IsWord k
IsItem (valueless k) = IsWord k

abbrev Lacks : ℕ → FString → Type 0
Lacks d = All (λ c. c ≢ d)

split_rest_end : (d : ℕ) (cur s : FString) → Lacks d s → split_rest d cur s ≡ (cur ++ s) ∷ []
split_rest_end d cur [] h = ap (λ (t : FString). t ∷ []) (ground (arith, append-nil cur))
split_rest_end d cur (c ∷ s) h =
    ground (arith, split_rest_end d (cur ++ c ∷ []) s h.1, append_assoc cur (c ∷ []) s)

split_rest_cut :
    (d : ℕ) (cur s t : FString)
    → Lacks d s
    → split_rest d cur (s ++ d ∷ t) ≡ (cur ++ s) ∷ split_rest d [] t
split_rest_cut d cur [] t h = ground (arith, append-nil cur, ==_refl d)
split_rest_cut d cur (c ∷ s) t h =
    ground (arith, split_rest_cut d (cur ++ c ∷ []) s t h.1, append_assoc cur (c ∷ []) s)

Lacks-append : (d : ℕ) (s t : FString) → Lacks d s → Lacks d t → Lacks d (s ++ t)
Lacks-append d [] t hs ht = ht
Lacks-append d (c ∷ s) t hs ht = (hs.0, Lacks-append d s t hs.1 ht)

item-Lacks : (item : Item) → IsItem item → Lacks b'&' (item_text item)
item-Lacks (pair k v) h = Lacks-append b'&' k (b'=' ∷ v) h.0.1 (omega arith, h.1.1)
item-Lacks (bare k) h = h.1
item-Lacks (valueless k) h = Lacks-append b'&' k (b'=' ∷ []) h.1 (omega arith, tt)

word-append : (k s : FString) → is_empty k ≡ false → is_empty (k ++ s) ≡ false
word-append [] s h = cc
word-append (c ∷ k) s h = refl

item-ne : (item : Item) → IsItem item → is_empty (item_text item) ≡ false
item-ne (pair k v) h = word-append k _ h.0.0
item-ne (bare k) h = h.0
item-ne (valueless k) h = word-append k _ h.0

ne_nil : (s : FString) → is_empty s ≡ false → s ≢ []
ne_nil [] h = cc
ne_nil (c ∷ s) h = cons-ne-nil c s

pub query-ne-nil : (item : Item) (items : List Item) → IsItem item → query item items ≢ []
query-ne-nil item [] h = ne_nil _ (item-ne item h)
query-ne-nil item (next ∷ rest) h = ne_nil _ (word-append (item_text item) _ (item-ne item h))

-- Cutting a query at `&` gives the texts of its items.
pub query_parts :
    (item : Item) (items : List Item)
    → All IsItem (item ∷ items)
    → cull_empty (split_rest b'&' [] (query item items)) ≡ map item_text (item ∷ items)
query_parts item [] h =
    rw (split_rest_end b'&' [] (item_text item) (item-Lacks item h.0), item-ne item h.0)
query_parts item (next ∷ rest) h =
    rw
      (
        split_rest_cut b'&' [] (item_text item) (query next rest) (item-Lacks item h.0),
        item-ne item h.0,
      )
      (ap (◌∷◌ (item_text item)) (query_parts next rest h.1))

abbrev pub sections : Item → List FString
sections (pair k v) = k ∷ v ∷ []
sections (bare k) = k ∷ []
sections (valueless k) = k ∷ []

-- Cutting an item at `=` gives its name, and its value if it has one.
pub item_sections :
    (item : Item) → IsItem item → cull_empty (split_rest b'=' [] (item_text item)) ≡ sections item
item_sections (pair k v) h =
    rw (split_rest_cut b'=' [] k v h.0.2, split_rest_end b'=' [] v h.1.2, h.0.0, h.1.0)
item_sections (bare k) h = rw (split_rest_end b'=' [] k h.2, h.0)
item_sections (valueless k) h = rw (split_rest_cut b'=' [] k [] h.2, h.0)
