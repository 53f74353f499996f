-- ===== src/Nvs/Check/Places.antt =====
-- cmd_nvs/nvs_backup.c: what check makes of the items' places: each is named once.
use Prim.Native.Nat.{Ordering}
use esp_console_kit.Prelude.{
  ℕ, ◌+◌, ◌≡◌, refl, ap, ◌∙◌, Bool, true, false, Bool-cases, inl, inr, List, [], ◌∷◌, ◌++◌, Bytes,
  bytes_eq_iff, ltb, arith,
}
use esp_console_kit.Nvs.Store.{same_place}
use esp_console_kit.Nvs.Order.{place_cmp, insert, sort, has_twins}
use esp_console_kit.Nvs.Order.Laws.{
  place_cmp_refl, place_cmp_flip, place_cmp_trans, IsOrder, has_twins_split, ordered, sort-ordered,
  AllAbove, ordered-AllAbove,
}
use esp_console_kit.Nvs.Plan.{Planned, item_cmp}

pub item_cmp-IsOrder : IsOrder item_cmp
item_cmp-IsOrder = record {
  flip = λ x y. place_cmp_flip x.item.ns x.item.key y.item.ns y.item.key;
  trans = λ x y z. place_cmp_trans x.item.ns x.item.key y.item.ns y.item.key z.item.ns z.item.key;
}

pub same_place_sound : (a k b l : Bytes) → same_place a k b l ≡ true → (a ≡ b) × (k ≡ l)
same_place_sound a k b l h =
    ((bytes_eq_iff a b).0 (ground (arith, h)), (bytes_eq_iff k l).0 (ground (arith, h)))

same_place-place_cmp :
    (a k b l c m : Bytes)
    → same_place a k c m ≡ true
    → same_place b l c m ≡ true
    → place_cmp a k b l ≡ Ordering.eq
same_place-place_cmp a k b l c m h g =
    let (ac, km) = same_place_sound a k c m h in
    let (bc, lm) = same_place_sound b l c m g in rw (ac, km, bc, lm) (place_cmp_refl c m)

abbrev pub one_if : Bool → ℕ
one_if true = 1
one_if false = 0

module _ (f : Planned → Bool) where
  -- How many items pass a test.
  abbrev pub tally : List Planned → ℕ
  tally [] = 0
  tally (x ∷ xs) = one_if (f x) + tally xs

  tally-insert : (x : Planned) (ys : List Planned) → tally (insert item_cmp x ys) ≡ tally (x ∷ ys)
  unfolding insert
  tally-insert x [] = refl
  tally-insert x (y ∷ ys) = ground (arith, tally-insert x ys)

  pub tally-sort : (xs : List Planned) → tally (sort item_cmp xs) ≡ tally xs
  unfolding sort
  tally-sort [] = refl
  tally-sort (x ∷ xs) =
      tally-insert x (sort item_cmp xs) ∙ ap (λ t. one_if (f x) + t) (tally-sort xs)

  pub tally-append : (xs ys : List Planned) → tally (xs ++ ys) ≡ tally xs + tally ys
  tally-append [] ys = ground arith
  tally-append (x ∷ xs) ys = ground (arith, tally-append xs ys)

-- How many items name this place.
abbrev pub places : Bytes → Bytes → List Planned → ℕ
places ns key = tally (λ x. same_place x.item.ns x.item.key ns key)

module _ (ns key : Bytes) where
  -- Nothing above an item at this place is at it.
  above_apart :
      (x y : Planned)
      → same_place x.item.ns x.item.key ns key ≡ true
      → item_cmp x y ≡ Ordering.lt
      → same_place y.item.ns y.item.key ns key ≡ false
  above_apart x y h lt = elim (Bool-cases (same_place y.item.ns y.item.key ns key)) [
    | inr e ↦ e
    | inl e ↦
        absurd (cc (same_place-place_cmp x.item.ns x.item.key y.item.ns y.item.key ns key h e, lt))
  ]

  places-AllAbove :
      (x : Planned) (ys : List Planned)
      → same_place x.item.ns x.item.key ns key ≡ true
      → AllAbove item_cmp x ys
      → places ns key ys ≡ 0
  places-AllAbove x [] h k = refl
  places-AllAbove x (y ∷ ys) h k = ground (arith, above_apart x y h k.0, places-AllAbove x ys h k.1)

  pub places-has_twins :
      (xs : List Planned)
      → ordered item_cmp xs ≡ true
      → has_twins item_cmp xs ≡ false
      → ltb (places ns key xs) 2 ≡ true
  places-has_twins [] h k = refl
  places-has_twins (x ∷ []) h k = ground arith
  places-has_twins (x ∷ y ∷ ys) h k =
      let (_, rest) = has_twins_split item_cmp x y ys k in
      let ih = places-has_twins (y ∷ ys) (ground (arith, h)) rest in
      let above = ordered-AllAbove item_cmp item_cmp-IsOrder x (y ∷ ys) h k in
      elim (Bool-cases (same_place x.item.ns x.item.key ns key)) [
        | inl e ↦
            let none_there = places-AllAbove x (y ∷ ys) e above in ground (arith, e, none_there)
        | inr e ↦ ground (arith, e, ih)
      ]

  -- Of the items as check leaves them where it goes on.
  pub places-sort :
      (xs : List Planned)
      → has_twins item_cmp (sort item_cmp xs) ≡ false
      → ltb (places ns key (sort item_cmp xs)) 2 ≡ true
  places-sort xs k =
      places-has_twins (sort item_cmp xs) (sort-ordered item_cmp item_cmp-IsOrder xs) k
