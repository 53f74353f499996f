-- ===== src/Nvs/Apply/Starts.antt =====
-- cmd_nvs/nvs_backup.c: nothing is written before `started` is set, and it stays set.
use esp_console_kit.Prelude.{
  ◌≡◌, refl, ◌⊎◌, Bool, true, false, not, ◌||◌, if_intro, inl, inr, Option, none, some, List, [],
  ◌∷◌, Bytes,
}
use esp_console_kit.Prelude.Errors.{is_ok, EspErr, esp_ok, nvs_not_found}
use esp_console_kit.Nvs.Rules.{Rule, is_excluded}
use esp_console_kit.Nvs.Store.{Nvs}
use esp_console_kit.Nvs.Plan.{Act, retype, remove, Planned, Report, is_open_on}
use esp_console_kit.Nvs.Check.{writes}
use esp_console_kit.Nvs.Apply.{
  Applying, Progress, at, returned, set_counted, set_item, after_erase, erase_counted, write_item,
  write_opened, open_item, close_then, switch_item, apply_item, apply_items, committed, last_commit,
  concluded, apply,
}

module _ {S : Type 0} (n : Nvs S) where
  abbrev IsStarted : Progress S → Type 0
  IsStarted (at err a) = a.report.started ≡ true
  IsStarted (returned err a) = a.report.started ≡ true

  module _ (x : Planned) where
    set_counted-IsStarted :
        (p : EspErr × S) (a : Applying S) → a.report.started ≡ true → IsStarted (set_counted n p a)
    unfolding set_counted
    set_counted-IsStarted (esp_ok, s) a h = h
    set_counted-IsStarted (_, s) a h = h

    set_item-IsStarted : (a : Applying S) → a.report.started ≡ true → IsStarted (set_item n x a)
    set_item-IsStarted a h =
        set_counted-IsStarted (n.set a.store x.item.ns x.item.key x.item.kind x.item.value) a h

    after_erase-IsStarted :
        (act : Act) (a : Applying S) → a.report.started ≡ true → IsStarted (after_erase n act x a)
    unfolding after_erase
    after_erase-IsStarted retype a h = set_item-IsStarted a h
    after_erase-IsStarted _ a h = h

    erase_counted-IsStarted :
        (p : EspErr × S) (a : Applying S)
        → a.report.started ≡ true
        → IsStarted (erase_counted n p x a)
    unfolding erase_counted
    erase_counted-IsStarted (esp_ok, s) a h = after_erase-IsStarted x.act _ h
    erase_counted-IsStarted (nvs_not_found, s) a h = after_erase-IsStarted x.act _ h
    erase_counted-IsStarted (_, s) a h = h

    write_item-IsStarted :
        (act : Act) (a : Applying S) → a.report.started ≡ true → IsStarted (write_item n act x a)
    unfolding write_item
    write_item-IsStarted remove a h =
        erase_counted-IsStarted (n.erase a.store x.item.ns x.item.key) a h
    write_item-IsStarted retype a h =
        erase_counted-IsStarted (n.erase a.store x.item.ns x.item.key) a h
    write_item-IsStarted _ a h = set_item-IsStarted a h

    write_opened-IsStarted :
        (p : EspErr × S) (a : Applying S)
        → a.report.started ≡ true
        → IsStarted (write_opened n p x a)
    unfolding write_opened
    write_opened-IsStarted (esp_ok, s) a h = write_item-IsStarted x.act _ h
    write_opened-IsStarted (_, s) a h = h

    open_item-IsStarted : (a : Applying S) → IsStarted (open_item n x a)
    unfolding open_item
    open_item-IsStarted a = write_opened-IsStarted (n.open_rw a.store x.item.ns) _ refl

  -- Either writing has started, or nothing has been touched.
  abbrev Untouched : S → Applying S → Type 0
  Untouched s a = (a.report.started ≡ true) ⊎ ((a.store ≡ s) × (a.opened ≡ none))

  abbrev UntouchedBy : S → Progress S → Type 0
  UntouchedBy s (at err a) = Untouched s a
  UntouchedBy s (returned err a) = a.report.started ≡ true

  started-UntouchedBy : (s : S) (p : Progress S) → IsStarted p → UntouchedBy s p
  started-UntouchedBy s (at err a) h = inl h
  started-UntouchedBy s (returned err a) h = h

  close_then-IsStarted :
      (p : EspErr × S) (x : Planned) (a : Applying S)
      → a.report.started ≡ true
      → IsStarted (close_then n p x a)
  unfolding close_then
  close_then-IsStarted (esp_ok, s) x a h = open_item-IsStarted x _
  close_then-IsStarted (_, s) x a h = h

  module _ (s : S) where
    opened_means :
        (a : Applying S) (ns : Bytes) → a.opened ≡ some ns → Untouched s a → a.report.started ≡ true
    opened_means a ns e (inl h) = h
    opened_means a ns e (inr h) = absurd (cc (e, h.1))

    switch_item-UntouchedBy :
        (o : Option Bytes) (x : Planned) (a : Applying S)
        → a.opened ≡ o
        → Untouched s a
        → UntouchedBy s (switch_item n o x a)
    unfolding switch_item
    switch_item-UntouchedBy none x a e h =
        started-UntouchedBy s (open_item n x a) (open_item-IsStarted x a)
    switch_item-UntouchedBy (some ns) x a e h =
        started-UntouchedBy s (close_then n (n.commit a.store) x a)
          (close_then-IsStarted (n.commit a.store) x a (opened_means a ns e h))

    open_on_means :
        (o : Option Bytes) (ns : Bytes) → is_open_on o ns ≡ true → (t : Bytes) × (o ≡ some t)
    open_on_means none ns h = absurd (cc h)
    open_on_means (some t) ns h = (t, refl)

    module _ (kit app : List Rule) where
      apply_item-UntouchedBy :
          (x : Planned) (a : Applying S) → Untouched s a → UntouchedBy s (apply_item n kit app x a)
      unfolding apply_item
      apply_item-UntouchedBy x a h =
          if_intro (UntouchedBy s) (not (writes x.act) || is_excluded kit app x.item.ns x.item.key)
            _ _ (λ _. h)
            (λ _.
              if_intro (UntouchedBy s) (is_open_on a.opened x.item.ns) _ _
                (λ e.
                  let (t, q) = open_on_means a.opened x.item.ns e in
                  started-UntouchedBy s (write_item n x.act x a)
                    (write_item-IsStarted x x.act a (opened_means a t q h)))
                (λ _. switch_item-UntouchedBy a.opened x a refl h))

      apply_items-UntouchedBy :
          (xs : List Planned) (a : Applying S)
          → Untouched s a
          → UntouchedBy s (apply_items n kit app xs a)
      unfolding apply_items
      apply_items-UntouchedBy [] a h = h
      apply_items-UntouchedBy (x ∷ xs) a h =
          go (apply_item n kit app x a) (apply_item-UntouchedBy x a h)
            (λ b. apply_items-UntouchedBy xs b)
        where
          go :
              (p : Progress S)
              → UntouchedBy s p
              → ((b : Applying S) → Untouched s b → UntouchedBy s (apply_items n kit app xs b))
              → UntouchedBy s (elim p [
                | returned err b ↦ returned err b
                | at err b ↦ elim (is_ok err) [
                  | true ↦ apply_items n kit app xs b
                  | false ↦ at err b
                ]
              ])
          go (returned err b) k ih = k
          go (at err b) k ih = stop (is_ok err)
            where
              stop :
                  (ok : Bool)
                  → UntouchedBy s (elim ok [ true ↦ apply_items n kit app xs b | false ↦ at err b ])
              stop true = ih b k
              stop false = k

      abbrev pub Intact : EspErr × S × Report → Type 0
      Intact (err, t, r) = (r.started ≡ true) ⊎ (t ≡ s)

      last_commit-Intact :
          (err : EspErr) (o : Option Bytes) (a : Applying S)
          → a.opened ≡ o
          → Untouched s a
          → Intact (last_commit n kit app err o a)
      unfolding last_commit committed
      last_commit-Intact err none a e (inl h) = inl h
      last_commit-Intact err none a e (inr h) = inr h.0
      last_commit-Intact err (some ns) a e h = inl (opened_means a ns e h)

      concluded-Intact : (p : Progress S) → UntouchedBy s p → Intact (concluded n kit app p)
      unfolding concluded
      concluded-Intact (returned err a) h = inl h
      concluded-Intact (at err a) h = last_commit-Intact err a.opened a refl h

      pub apply-Intact : (xs : List Planned) (r : Report) → Intact (apply n kit app xs s r)
      unfolding apply
      apply-Intact xs r =
          let a : Applying S = record { store = s; opened = none; report = r } in
          concluded-Intact (apply_items n kit app xs a)
            (apply_items-UntouchedBy xs a (inr (refl, refl)))
