-- ===== src/Nvs/Order.antt =====
-- cmd_nvs/nvs_backup.c: the order of entries (entry_cmp, item_cmp), and what is done along it.
pub mod Laws
use Prim.Native.Nat.{compare, Ordering}
use esp_console_kit.Prelude.{Bool, true, false, ◌||◌, List, [], ◌∷◌, Bytes, if◌then◌else◌}

-- strcmp, by its sign
unfoldable pub str_cmp : Bytes → Bytes → Ordering
str_cmp [] [] = Ordering.eq
str_cmp [] (y ∷ ys) = Ordering.lt
str_cmp (x ∷ xs) [] = Ordering.gt
str_cmp (x ∷ xs) (y ∷ ys) = elim (compare x y) [
  | Ordering.lt ↦ Ordering.lt
  | Ordering.gt ↦ Ordering.gt
  | Ordering.eq ↦ str_cmp xs ys
]

-- item_cmp and entry_cmp, of a namespace and a key each
unfoldable pub place_cmp : Bytes → Bytes → Bytes → Bytes → Ordering
place_cmp ns key ns' key' = elim (str_cmp ns ns') [
  | Ordering.lt ↦ Ordering.lt
  | Ordering.gt ↦ Ordering.gt
  | Ordering.eq ↦ str_cmp key key'
]

abbrev pub is_eq : Ordering → Bool
is_eq Ordering.eq = true
is_eq Ordering.lt = false
is_eq Ordering.gt = false

-- qsort with one of these; where two compare as equal, either order will do
module _ {A : Type 0} (cmp : A → A → Ordering) where
  unfoldable pub insert : A → List A → List A
  insert x [] = x ∷ []
  insert x (y ∷ ys) = elim (cmp x y) [
    | Ordering.gt ↦ y ∷ insert x ys
    | Ordering.lt ↦ x ∷ y ∷ ys
    | Ordering.eq ↦ x ∷ y ∷ ys
  ]

  unfoldable pub sort : List A → List A
  sort [] = []
  sort (x ∷ xs) = insert x (sort xs)

  dedupe_from : A → List A → List A
  dedupe_from x [] = x ∷ []
  dedupe_from x (y ∷ ys) =
      let same = dedupe_from x ys in
      let other = dedupe_from y ys in if is_eq (cmp x y) then same else x ∷ other

  -- One of each run of equals, the first: the loop of collect.
  unfoldable pub dedupe : List A → List A
  unfolding dedupe_from
  dedupe [] = []
  dedupe (x ∷ xs) = dedupe_from x xs

  -- Two neighbours compare as equal: the loop of check.
  unfoldable pub has_twins : List A → Bool
  has_twins [] = false
  has_twins (x ∷ []) = false
  has_twins (x ∷ y ∷ ys) = is_eq (cmp x y) || has_twins (y ∷ ys)
