-- ===== src/Nvs/Apply/Keeps.antt =====
-- cmd_nvs/nvs_backup.c: what apply leaves alone.
use esp_console_kit.Prelude.{
  ◌≡◌, refl, ap, ◌∙◌, Bool, true, false, not, ◌&&◌, ◌||◌, Bool-cases, inl, inr, if_intro, Option,
  none, some, List, [], ◌∷◌, Bytes, bytes_eq_iff, arith,
}
use esp_console_kit.Prelude.Errors.{is_ok, EspErr, esp_ok, nvs_not_found}
use esp_console_kit.Nvs.Rules.{Rule, is_excluded}
use esp_console_kit.Nvs.Store.{Stored, Nvs, IsNvs, same_place}
use esp_console_kit.Nvs.Plan.{Act, retype, remove, Planned, Report, is_open_on}
use esp_console_kit.Nvs.Check.{writes}
use esp_console_kit.Nvs.Apply.{
  Applying, Progress, at, returned, set_counted, set_item, after_erase, erase_counted, erase_item,
  write_item, write_opened, open_item, close_then, switch_item, apply_item, apply_items, committed,
  last_commit, concluded, apply,
}

-- An item that does not write to this place.
abbrev pub spares : List Rule → List Rule → Bytes → Bytes → Planned → Bool
spares kit app ns key x =
    not (writes x.act)
    || is_excluded kit app x.item.ns x.item.key
    || not (same_place x.item.ns x.item.key ns key)

abbrev pub all_spare : List Rule → List Rule → Bytes → Bytes → List Planned → Bool
all_spare kit app ns key [] = true
all_spare kit app ns key (x ∷ xs) = spares kit app ns key x && all_spare kit app ns key xs

module _ {S : Type 0} (n : Nvs S) (law : IsNvs n) (ns key : Bytes) (v : Option Stored) where
  -- The place holds what it held.
  abbrev pub Keeps : Progress S → Type 0
  Keeps (at err a) = n.view a.store ns key ≡ v
  Keeps (returned err a) = n.view a.store ns key ≡ v

  module _ (x : Planned) (apart : same_place x.item.ns x.item.key ns key ≡ false) where
    set_counted-Keeps :
        (p : EspErr × S) (a : Applying S) → n.view p.1 ns key ≡ v → Keeps (set_counted n p a)
    unfolding set_counted
    set_counted-Keeps (esp_ok, s) a h = h
    set_counted-Keeps (_, s) a h = h

    set_item-Keeps : (a : Applying S) → n.view a.store ns key ≡ v → Keeps (set_item n x a)
    set_item-Keeps a h =
        set_counted-Keeps (n.set a.store x.item.ns x.item.key x.item.kind x.item.value) a
          (law.set_view a.store x.item.ns x.item.key ns key x.item.kind x.item.value apart ∙ h)

    after_erase-Keeps :
        (act : Act) (a : Applying S) → n.view a.store ns key ≡ v → Keeps (after_erase n act x a)
    unfolding after_erase
    after_erase-Keeps retype a h = set_item-Keeps a h
    after_erase-Keeps _ a h = h

    erase_counted-Keeps :
        (p : EspErr × S) (a : Applying S) → n.view p.1 ns key ≡ v → Keeps (erase_counted n p x a)
    unfolding erase_counted
    erase_counted-Keeps (esp_ok, s) a h = after_erase-Keeps x.act _ h
    erase_counted-Keeps (nvs_not_found, s) a h = after_erase-Keeps x.act _ h
    erase_counted-Keeps (_, s) a h = h

    erase_item-Keeps : (a : Applying S) → n.view a.store ns key ≡ v → Keeps (erase_item n x a)
    erase_item-Keeps a h =
        erase_counted-Keeps (n.erase a.store x.item.ns x.item.key) a
          (law.erase_view a.store x.item.ns x.item.key ns key apart ∙ h)

    write_item-Keeps :
        (act : Act) (a : Applying S) → n.view a.store ns key ≡ v → Keeps (write_item n act x a)
    unfolding write_item
    write_item-Keeps remove a h = erase_item-Keeps a h
    write_item-Keeps retype a h = erase_item-Keeps a h
    write_item-Keeps _ a h = set_item-Keeps a h

    write_opened-Keeps :
        (p : EspErr × S) (a : Applying S) → n.view p.1 ns key ≡ v → Keeps (write_opened n p x a)
    unfolding write_opened
    write_opened-Keeps (esp_ok, s) a h = write_item-Keeps x.act _ h
    write_opened-Keeps (_, s) a h = h

    open_item-Keeps : (a : Applying S) → n.view a.store ns key ≡ v → Keeps (open_item n x a)
    unfolding open_item
    open_item-Keeps a h =
        write_opened-Keeps (n.open_rw a.store x.item.ns) _
          (law.open_view a.store x.item.ns ns key ∙ h)

    close_then-Keeps :
        (p : EspErr × S) (a : Applying S) → n.view p.1 ns key ≡ v → Keeps (close_then n p x a)
    unfolding close_then
    close_then-Keeps (esp_ok, s) a h = open_item-Keeps _ h
    close_then-Keeps (_, s) a h = h

    switch_item-Keeps :
        (o : Option Bytes) (a : Applying S)
        → n.view a.store ns key ≡ v
        → Keeps (switch_item n o x a)
    unfolding switch_item
    switch_item-Keeps none a h = open_item-Keeps a h
    switch_item-Keeps (some open_ns) a h =
        close_then-Keeps (n.commit a.store) a (law.commit_view a.store ns key ∙ h)

  module _ (kit app : List Rule) where
    apply_item-Keeps :
        (x : Planned) (a : Applying S)
        → spares kit app ns key x ≡ true
        → n.view a.store ns key ≡ v
        → Keeps (apply_item n kit app x a)
    unfolding apply_item
    apply_item-Keeps x a sp h =
        if_intro Keeps (not (writes x.act) || is_excluded kit app x.item.ns x.item.key) _ _ (λ _. h)
          (λ e.
            let apart : same_place x.item.ns x.item.key ns key ≡ false = ground (arith, e, sp) in
            if_intro Keeps (is_open_on a.opened x.item.ns) _ _
              (λ _. write_item-Keeps x apart x.act a h)
              (λ _. switch_item-Keeps x apart a.opened a h))

    pub apply_items-Keeps :
        (xs : List Planned) (a : Applying S)
        → all_spare kit app ns key xs ≡ true
        → n.view a.store ns key ≡ v
        → Keeps (apply_items n kit app xs a)
    unfolding apply_items
    apply_items-Keeps [] a sp h = h
    apply_items-Keeps (x ∷ xs) a sp h =
        go (apply_item n kit app x a) (apply_item-Keeps x a (ground arith) h)
          (λ b. apply_items-Keeps xs b (ground arith))
      where
        go :
            (p : Progress S)
            → Keeps p
            → ((b : Applying S) → n.view b.store ns key ≡ v → Keeps (apply_items n kit app xs b))
            → Keeps (elim p [
              | returned err b ↦ returned err b
              | at err b ↦ elim (is_ok err) [ true ↦ apply_items n kit app xs b | false ↦ at err b ]
            ])
        go (returned err b) k ih = k
        go (at err b) k ih = stop (is_ok err)
          where
            stop :
                (ok : Bool)
                → Keeps (elim ok [ true ↦ apply_items n kit app xs b | false ↦ at err b ])
            stop true = ih b k
            stop false = k

    pub last_commit-view :
        (err : EspErr) (o : Option Bytes) (a : Applying S)
        → n.view a.store ns key ≡ v
        → n.view (last_commit n kit app err o a).1 ns key ≡ v
    unfolding last_commit committed
    last_commit-view err none a h = h
    last_commit-view err (some open_ns) a h = law.commit_view a.store ns key ∙ h

    concluded-view : (p : Progress S) → Keeps p → n.view (concluded n kit app p).1 ns key ≡ v
    unfolding concluded
    concluded-view (returned err a) h = h
    concluded-view (at err a) h = last_commit-view err a.opened a h

    pub apply-view :
        (xs : List Planned) (s : S) (r : Report)
        → all_spare kit app ns key xs ≡ true
        → n.view s ns key ≡ v
        → n.view (apply n kit app xs s r).1 ns key ≡ v
    unfolding apply
    apply-view xs s r sp h =
        concluded-view (apply_items n kit app xs _) (apply_items-Keeps xs _ sp h)

-- The registry is asked at each write.
pub all_spare_excluded :
    (kit app : List Rule) (ns key : Bytes) (xs : List Planned)
    → is_excluded kit app ns key ≡ true
    → all_spare kit app ns key xs ≡ true
all_spare_excluded kit app ns key [] h = refl
all_spare_excluded kit app ns key (x ∷ xs) h =
    elim (Bool-cases (same_place x.item.ns x.item.key ns key)) [
      | inr apart ↦ ground (arith, apart, all_spare_excluded kit app ns key xs h)
      | inl here ↦
          let e = (bytes_eq_iff x.item.ns ns).0 (ground (arith, here)) in
          let f = (bytes_eq_iff x.item.key key).0 (ground (arith, here)) in
          let k : is_excluded kit app x.item.ns x.item.key ≡ true =
            ap (λ t. is_excluded kit app t x.item.key) e ∙ ap (is_excluded kit app ns) f ∙ h in
          ground (arith, k, all_spare_excluded kit app ns key xs h)
    ]
