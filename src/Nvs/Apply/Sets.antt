-- ===== src/Nvs/Apply/Sets.antt =====
-- cmd_nvs/nvs_backup.c: what apply writes is there when it returns ESP_OK.
use mathlib.Core.Path.{subst}
use esp_console_kit.Prelude.{
  ◌≡◌, refl, sym, ◌∙◌, ◌⊎◌, Bool, true, false, not, ◌&&◌, ◌||◌, Bool-cases, inl, inr, if_intro,
  Option, none, some, List, [], ◌∷◌, Bytes, if◌then◌else◌, arith,
}
use esp_console_kit.Prelude.Errors.{is_ok, EspErr}
use esp_console_kit.Nvs.Rules.{Rule, is_excluded}
use esp_console_kit.Nvs.Store.{Nvs, IsNvs, same_place}
use esp_console_kit.Nvs.Plan.{Planned, Report, is_open_on}
use esp_console_kit.Nvs.Check.{writes}
use esp_console_kit.Nvs.Apply.{
  Applying, Progress, at, returned, write_item, switch_item, apply_item, apply_items, committed,
  last_commit, concluded, apply,
}
use esp_console_kit.Nvs.Apply.Keeps.{all_spare, apply_items-Keeps, Keeps}
use esp_console_kit.Nvs.Apply.Landed.{wanted, Landed, write_item-Landed, switch_item-Landed}

first_ok : (err c : EspErr) → is_ok (if is_ok err then c else err) ≡ true → is_ok err ≡ true
first_ok err c h = ground (arith, h)

-- The item is to be written, and the registry lets it.
abbrev pub is_due : List Rule → List Rule → Planned → Bool
is_due kit app x = writes x.act && not (is_excluded kit app x.item.ns x.item.key)

-- No two items have one place.
abbrev pub elsewhere : Bytes → Bytes → List Planned → Bool
elsewhere ns key [] = true
elsewhere ns key (x ∷ xs) = not (same_place x.item.ns x.item.key ns key) && elsewhere ns key xs

abbrev pub distinct : List Planned → Bool
distinct [] = true
distinct (x ∷ xs) = elsewhere x.item.ns x.item.key xs && distinct xs

pub elsewhere-all_spare :
    (kit app : List Rule) (ns key : Bytes) (xs : List Planned)
    → elsewhere ns key xs ≡ true
    → all_spare kit app ns key xs ≡ true
elsewhere-all_spare kit app ns key [] h = refl
elsewhere-all_spare kit app ns key (x ∷ xs) h =
    ground (arith, elsewhere-all_spare kit app ns key xs)

module _ {S : Type 0} (n : Nvs S) (kit app : List Rule) where
  -- Each item that is due is in its place.
  abbrev pub Holds : S → Planned → Type 0
  Holds s x = (is_due kit app x ≡ false) ⊎ (n.view s x.item.ns x.item.key ≡ wanted x.act x)

  abbrev pub AllHold : S → List Planned → Type 0
  AllHold s [] = Unit {0}
  AllHold s (x ∷ xs) = Holds s x × AllHold s xs

  -- Each that is due and has its place to itself from there on is in it.
  abbrev pub Sure : S → List Planned → Type 0
  Sure s [] = Unit {0}
  Sure s (x ∷ xs) = (elsewhere x.item.ns x.item.key xs ≡ true → Holds s x) × Sure s xs

  Sure-AllHold : (s : S) (xs : List Planned) → distinct xs ≡ true → Sure s xs → AllHold s xs
  Sure-AllHold s [] d h = tt
  Sure-AllHold s (x ∷ xs) d h = (h.0 (ground arith), Sure-AllHold s xs (ground arith) h.1)

  module _ (law : IsNvs n) where
    abbrev ItemHolds : Planned → Progress S → Type 0
    ItemHolds x (at err b) = is_ok err ≡ true → Holds b.store x
    ItemHolds x (returned err b) = is_ok err ≡ false

    Landed-ItemHolds :
        (x : Planned) (p : Progress S) → Landed n law x (wanted x.act x) p → ItemHolds x p
    Landed-ItemHolds x (at err b) h = λ e. inr (h e)
    Landed-ItemHolds x (returned err b) h = h

    apply_item-ItemHolds : (x : Planned) (a : Applying S) → ItemHolds x (apply_item n kit app x a)
    unfolding apply_item
    apply_item-ItemHolds x a =
        if_intro (ItemHolds x) (not (writes x.act) || is_excluded kit app x.item.ns x.item.key) _ _
          (λ e. λ _. inl (ground (arith, e)))
          (λ _.
            if_intro (ItemHolds x) (is_open_on a.opened x.item.ns) _ _
              (λ _.
                Landed-ItemHolds x (write_item n x.act x a)
                  (write_item-Landed n law x x.act a refl))
              (λ _.
                Landed-ItemHolds x (switch_item n a.opened x a)
                  (switch_item-Landed n law x a.opened a)))

    abbrev LoopHolds : List Planned → Progress S → Type 0
    LoopHolds xs (at err b) = is_ok err ≡ true → Sure b.store xs
    LoopHolds xs (returned err b) = is_ok err ≡ false

    -- Items that do not touch the place of `x` leave it so.
    kept_through :
        (x : Planned) (xs : List Planned) (b : Applying S)
        → Holds b.store x
        → (p : Progress S) → p ≡ apply_items n kit app xs b
        → LoopHolds xs p
        → LoopHolds (x ∷ xs) p
    kept_through x xs b (inl idle) (at err c) e h = λ k. (λ _. inl idle, h k)
    kept_through x xs b (inr held) (at err c) e h = λ k. (
      λ apart. inr (
          let keeps =
            apply_items-Keeps n law x.item.ns x.item.key (wanted x.act x) kit app xs b
              (elsewhere-all_spare kit app x.item.ns x.item.key xs apart) held in
          subst (Keeps n law x.item.ns x.item.key (wanted x.act x)) (sym e) keeps),
      h k,
    )
    kept_through x xs b held (returned err c) e h = h

    apply_items-LoopHolds :
        (xs : List Planned) (a : Applying S) → LoopHolds xs (apply_items n kit app xs a)
    apply_items-LoopHolds [] a = unfold apply_items in λ _. tt
    apply_items-LoopHolds (x ∷ xs) a =
        go (apply_item n kit app x a) refl (apply_item-ItemHolds x a)
          (λ b. apply_items-LoopHolds xs b)
      where
        go :
            (p : Progress S)
            → apply_item n kit app x a ≡ p
            → ItemHolds x p
            → ((b : Applying S) → LoopHolds xs (apply_items n kit app xs b))
            → LoopHolds (x ∷ xs) (apply_items n kit app (x ∷ xs) a)
        go (returned err b) e h ih = unfold apply_items in rw (e, apply_items) h
        go (at err b) e h ih = elim (Bool-cases (is_ok err)) [
          | inl k ↦
              unfold apply_items in
              rw (e, apply_items)
                (rw k (kept_through x xs b (h k) (apply_items n kit app xs b) refl (ih b)))
          | inr k ↦ unfold apply_items in rw (e, apply_items) (rw k (λ q. absurd (cc (q, k))))
        ]

    Sure-view :
        (s t : S) (xs : List Planned)
        → ((ns key : Bytes) → n.view t ns key ≡ n.view s ns key)
        → Sure s xs
        → Sure t xs
    Sure-view s t [] f h = tt
    Sure-view s t (x ∷ xs) f h = (
      λ apart. elim (h.0 apart) [
        | inl idle ↦ inl idle
        | inr held ↦ inr (f x.item.ns x.item.key ∙ held)
      ],
      Sure-view s t xs f h.1,
    )

    abbrev Concluded : List Planned → EspErr × S × Report → Type 0
    Concluded xs (err, s, r) = is_ok err ≡ true → Sure s xs

    last_commit-Concluded :
        (xs : List Planned) (o : Option Bytes) (err : EspErr) (a : Applying S)
        → (is_ok err ≡ true → Sure a.store xs)
        → Concluded xs (last_commit n kit app err o a)
    unfolding last_commit committed
    last_commit-Concluded xs none err a h = h
    last_commit-Concluded xs (some ns) err a h = λ k.
        Sure-view a.store (n.commit a.store).1 xs (law.commit_view a.store)
          (h (first_ok err (n.commit a.store).0 k))

    concluded-Concluded :
        (xs : List Planned) (p : Progress S) → LoopHolds xs p → Concluded xs (concluded n kit app p)
    unfolding concluded
    concluded-Concluded xs (returned err a) h = λ k. absurd (cc (h, k))
    concluded-Concluded xs (at err a) h = last_commit-Concluded xs a.opened err a h

    pub apply-Sure :
        (xs : List Planned) (s : S) (r : Report)
        → is_ok (apply n kit app xs s r).0 ≡ true
        → Sure (apply n kit app xs s r).1 xs
    unfolding apply
    apply-Sure xs s r k =
        let a : Applying S = record { store = s; opened = none; report = r } in
        concluded-Concluded xs (apply_items n kit app xs a) (apply_items-LoopHolds xs a) k

    -- Where apply of items with one place each returns ESP_OK, each that is due holds.
    pub apply-AllHold :
        (xs : List Planned) (s : S) (r : Report)
        → distinct xs ≡ true
        → is_ok (apply n kit app xs s r).0 ≡ true
        → AllHold (apply n kit app xs s r).1 xs
    apply-AllHold xs s r d k = Sure-AllHold (apply n kit app xs s r).1 xs d (apply-Sure xs s r k)
