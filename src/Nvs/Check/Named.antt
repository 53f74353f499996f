-- ===== src/Nvs/Check/Named.antt =====
-- cmd_nvs/nvs_backup.c: an item of the file, on its way through check.
use esp_console_kit.Prelude.{
  ◌≡◌, refl, sym, ap, ◌∙◌, ◌⊎◌, true, false, inl, inr, if_intro, List, [], ◌∷◌, ◌++◌,
}
use esp_console_kit.Nvs.Parse.{Item}
use esp_console_kit.Nvs.Order.{insert, sort}
use esp_console_kit.Nvs.Plan.{Act, same, Planned, item_cmp}
use esp_console_kit.Nvs.Rules.{Rule, is_excluded}
use esp_console_kit.Nvs.Check.{all_planned, mark_excluded, is_act_excluded}
use Prim.Native.Nat.{Ordering}

-- The item is one of these.
abbrev pub Among : Item → List Item → Type 0
Among it [] = ⊥
Among it (x ∷ xs) = (x ≡ it) ⊎ Among it xs

module _ (it : Item) where
  -- One of these is the item, and what will be done to it is as `P` says.
  abbrev pub Has : (Act → Type 0) → List Planned → Type 0
  Has P [] = ⊥
  Has P (x ∷ xs) = ((x.item ≡ it) × P x.act) ⊎ Has P xs

  pub Has-all_planned :
      (items : List Item) → Among it items → Has (λ act. act ≡ same) (all_planned items)
  unfolding all_planned
  Has-all_planned [] h = h
  Has-all_planned (x ∷ xs) (inl e) = inl (e, refl)
  Has-all_planned (x ∷ xs) (inr h) = inr (Has-all_planned xs h)

  module _ (P : Act → Type 0) where
    swap_front :
        (x y : Planned) (ys zs : List Planned)
        → Has P (x ∷ y ∷ ys)
        → (Has P (x ∷ ys) → Has P zs)
        → Has P (y ∷ zs)
    swap_front x y ys zs (inl here) ih = inr (ih (inl here))
    swap_front x y ys zs (inr (inl next)) ih = inl next
    swap_front x y ys zs (inr (inr h)) ih = inr (ih (inr h))

    Has-insert : (x : Planned) (ys : List Planned) → Has P (x ∷ ys) → Has P (insert item_cmp x ys)
    unfolding insert
    Has-insert x [] h = h
    Has-insert x (y ∷ ys) h = go (item_cmp x y) (Has-insert x ys)
      where
        go :
            (o : Ordering)
            → (Has P (x ∷ ys) → Has P (insert item_cmp x ys))
            → Has P (elim o [
              | Ordering.gt ↦ y ∷ insert item_cmp x ys
              | Ordering.lt ↦ x ∷ y ∷ ys
              | Ordering.eq ↦ x ∷ y ∷ ys
            ])
        go Ordering.lt ih = h
        go Ordering.eq ih = h
        go Ordering.gt ih = swap_front x y ys (insert item_cmp x ys) h ih

    pub Has-sort : (xs : List Planned) → Has P xs → Has P (sort item_cmp xs)
    unfolding sort
    Has-sort [] h = h
    Has-sort (x ∷ xs) (inl h) = Has-insert x (sort item_cmp xs) (inl h)
    Has-sort (x ∷ xs) (inr h) = Has-insert x (sort item_cmp xs) (inr (Has-sort xs h))

    pub Has-append : (xs ys : List Planned) → Has P xs → Has P (xs ++ ys)
    Has-append [] ys h = absurd h
    Has-append (x ∷ xs) ys (inl h) = inl h
    Has-append (x ∷ xs) ys (inr h) = inr (Has-append xs ys h)

  -- Behind mark_excluded: the registry has it, or it is open to diff.
  abbrev pub Marked : List Rule → List Rule → Act → Type 0
  Marked kit app act = (is_excluded kit app it.ns it.key ≡ true) ⊎ (is_act_excluded act ≡ false)

  pub Has-mark_excluded :
      (kit app : List Rule) (xs : List Planned)
      → Has (λ act. act ≡ same) xs
      → Has (Marked kit app) (mark_excluded kit app xs)
  unfolding mark_excluded is_act_excluded
  Has-mark_excluded kit app [] h = h
  Has-mark_excluded kit app (x ∷ xs) (inl (e, a)) = inl (
      if_intro (λ (y : Planned). (y.item ≡ it) × Marked kit app y.act)
        (is_excluded kit app x.item.ns x.item.key) _ _
        (λ h. (e, inl (ap (λ t. is_excluded kit app t.ns t.key) (sym e) ∙ h)))
        (λ _. (e, inr (ap is_act_excluded a ∙ refl))))
  Has-mark_excluded kit app (x ∷ xs) (inr h) = inr (Has-mark_excluded kit app xs h)
