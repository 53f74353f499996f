-- ===== src/Nvs/Order/Laws.antt =====
-- cmd_nvs/nvs_backup.c: strcmp and item_cmp are orders, and qsort by one sorts.
use Prim.Native.Nat.{Ordering}
use esp_console_kit.Prelude.{
  ◌≡◌, refl, ap, Bool, true, false, not, ◌&&◌, List, [], ◌∷◌, Bytes, arith,
}
use esp_console_kit.Nvs.Order.{str_cmp, place_cmp, is_eq, insert, sort, has_twins}

str_cmp_refl : (x : Bytes) → str_cmp x x ≡ Ordering.eq
unfolding str_cmp
str_cmp_refl [] = refl
str_cmp_refl (x ∷ xs) = ground (arith, str_cmp_refl xs)

str_cmp_sound : (x y : Bytes) → str_cmp x y ≡ Ordering.eq → x ≡ y
unfolding str_cmp
str_cmp_sound [] [] h = refl
str_cmp_sound [] (y ∷ ys) h = absurd (cc h)
str_cmp_sound (x ∷ xs) [] h = absurd (cc h)
str_cmp_sound (x ∷ xs) (y ∷ ys) h = ground (arith, str_cmp_sound xs ys)

str_cmp_flip : (x y : Bytes) → str_cmp x y ≡ Ordering.gt → str_cmp y x ≡ Ordering.lt
unfolding str_cmp
str_cmp_flip [] [] h = absurd (cc h)
str_cmp_flip [] (y ∷ ys) h = absurd (cc h)
str_cmp_flip (x ∷ xs) [] h = refl
str_cmp_flip (x ∷ xs) (y ∷ ys) h = ground (arith, str_cmp_flip xs ys)

str_cmp_trans :
    (x y z : Bytes)
    → str_cmp x y ≡ Ordering.lt
    → str_cmp y z ≡ Ordering.lt
    → str_cmp x z ≡ Ordering.lt
unfolding str_cmp
str_cmp_trans [] [] z h k = absurd (cc h)
str_cmp_trans [] (y ∷ ys) [] h k = absurd (cc k)
str_cmp_trans [] (y ∷ ys) (z ∷ zs) h k = refl
str_cmp_trans (x ∷ xs) [] z h k = absurd (cc h)
str_cmp_trans (x ∷ xs) (y ∷ ys) [] h k = absurd (cc k)
str_cmp_trans (x ∷ xs) (y ∷ ys) (z ∷ zs) h k = ground (arith, str_cmp_trans xs ys zs)

-- The laws of a comparison that sorting relies on.
pub record IsOrder {A : Type 0} (cmp : A → A → Ordering) : Type 0 where
  pub flip : (x y : A) → cmp x y ≡ Ordering.gt → cmp y x ≡ Ordering.lt
  pub trans : (x y z : A) → cmp x y ≡ Ordering.lt → cmp y z ≡ Ordering.lt → cmp x z ≡ Ordering.lt

str_cmp_same : (x y : Bytes) → str_cmp x y ≡ Ordering.eq → str_cmp y x ≡ Ordering.eq
str_cmp_same x y h = rw (str_cmp_sound x y h) (str_cmp_refl y)

str_cmp_eq_on : (x y z : Bytes) → str_cmp x y ≡ Ordering.eq → str_cmp x z ≡ str_cmp y z
str_cmp_eq_on x y z h = ap (λ t. str_cmp t z) (str_cmp_sound x y h)

str_cmp_on_eq : (x y z : Bytes) → str_cmp y z ≡ Ordering.eq → str_cmp x y ≡ str_cmp x z
str_cmp_on_eq x y z h = ap (str_cmp x) (str_cmp_sound y z h)

pub place_cmp_refl : (ns key : Bytes) → place_cmp ns key ns key ≡ Ordering.eq
unfolding place_cmp
place_cmp_refl ns key = ground (arith, str_cmp_refl ns, str_cmp_refl key)

pub place_cmp_flip :
    (a k b l : Bytes) → place_cmp a k b l ≡ Ordering.gt → place_cmp b l a k ≡ Ordering.lt
unfolding place_cmp
place_cmp_flip a k b l h = ground (arith, str_cmp_same a b, str_cmp_flip a b, str_cmp_flip k l, h)

pub place_cmp_trans :
    (a k b l c m : Bytes)
    → place_cmp a k b l ≡ Ordering.lt
    → place_cmp b l c m ≡ Ordering.lt
    → place_cmp a k c m ≡ Ordering.lt
unfolding place_cmp
place_cmp_trans a k b l c m h g = ground (
  arith,
  str_cmp_eq_on a b c,
  str_cmp_on_eq a b c,
  str_cmp_trans a b c,
  str_cmp_trans k l m,
  h,
  g,
)

abbrev pub is_gt : Ordering → Bool
is_gt Ordering.gt = true
is_gt Ordering.lt = false
is_gt Ordering.eq = false

is_lt_of : (o : Ordering) → is_gt o ≡ false → is_eq o ≡ false → o ≡ Ordering.lt
is_lt_of Ordering.lt g e = refl
is_lt_of Ordering.gt g e = absurd (cc g)
is_lt_of Ordering.eq g e = absurd (cc e)

module _ {A : Type 0} (cmp : A → A → Ordering) where
  -- No neighbour is above the next.
  abbrev pub ordered : List A → Bool
  ordered [] = true
  ordered (x ∷ []) = true
  ordered (x ∷ y ∷ ys) = not (is_gt (cmp x y)) && ordered (y ∷ ys)

  insert-ordered :
      IsOrder cmp → (x : A) (ys : List A) → ordered ys ≡ true → ordered (insert cmp x ys) ≡ true
  unfolding insert
  insert-ordered law x [] h = refl
  insert-ordered law x (y ∷ []) h = ground (arith, law.flip x y)
  insert-ordered law x (y ∷ z ∷ zs) h = ground (arith, law.flip x y, insert-ordered law x (z ∷ zs))

  pub sort-ordered : IsOrder cmp → (xs : List A) → ordered (sort cmp xs) ≡ true
  unfolding sort
  sort-ordered law [] = refl
  sort-ordered law (x ∷ xs) = insert-ordered law x (sort cmp xs) (sort-ordered law xs)

  -- Each is above `x`.
  abbrev pub AllAbove : A → List A → Type 0
  AllAbove x [] = Unit {0}
  AllAbove x (y ∷ ys) = (cmp x y ≡ Ordering.lt) × AllAbove x ys

  AllAbove-trans :
      IsOrder cmp → (x y : A) (ys : List A) → cmp x y ≡ Ordering.lt → AllAbove y ys → AllAbove x ys
  AllAbove-trans law x y [] h k = tt
  AllAbove-trans law x y (z ∷ zs) h k = (law.trans x y z h k.0, AllAbove-trans law x y zs h k.1)

  pub has_twins_split :
      (x y : A) (ys : List A)
      → has_twins cmp (x ∷ y ∷ ys) ≡ false
      → (is_eq (cmp x y) ≡ false) × (has_twins cmp (y ∷ ys) ≡ false)
  unfolding has_twins
  has_twins_split x y ys k = (ground (arith, k), ground (arith, k))

  -- Sorted and without neighbours that compare as equal, each is above all before it.
  pub ordered-AllAbove :
      IsOrder cmp
      → (x : A) (ys : List A) → ordered (x ∷ ys) ≡ true
      → has_twins cmp (x ∷ ys) ≡ false
      → AllAbove x ys
  ordered-AllAbove law x [] h k = tt
  ordered-AllAbove law x (y ∷ ys) h k =
      let (apart, rest) = has_twins_split x y ys k in
      let below : cmp x y ≡ Ordering.lt = is_lt_of (cmp x y) (ground (arith, h)) apart in
      (below, AllAbove-trans law x y ys below (ordered-AllAbove law y ys (ground (arith, h)) rest))
