-- ===== src/Nvs/Apply/Landed.antt =====
-- cmd_nvs/nvs_backup.c: what one item of apply leaves in its place.
use esp_console_kit.Prelude.{◌≡◌, refl, ◌⊎◌, true, false, inl, inr, Option, none, some, Bytes}
use esp_console_kit.Prelude.Errors.{is_ok, EspErr, esp_ok, nvs_not_found}
use esp_console_kit.Nvs.Store.{Stored, Nvs, IsNvs}
use esp_console_kit.Nvs.Plan.{Act, same, change, add, retype, excluded, remove, Planned}
use esp_console_kit.Nvs.Apply.{
  Applying, Progress, at, returned, set_counted, set_item, after_erase, erase_counted, erase_item,
  write_item, write_opened, open_item, close_then, switch_item,
}

-- What an item leaves in its place.
abbrev pub wanted : Act → Planned → Option Stored
wanted remove x = none
wanted _ x = some (record { kind = x.item.kind; value = x.item.value })

module _ {S : Type 0} (n : Nvs S) (law : IsNvs n) (x : Planned) where
  -- Where the writes of the item went well, its place holds what it should.
  abbrev pub Landed : Option Stored → Progress S → Type 0
  Landed w (at err a) = is_ok err ≡ true → n.view a.store x.item.ns x.item.key ≡ w
  Landed w (returned err a) = is_ok err ≡ false

  abbrev given : Option Stored
  given = some (record { kind = x.item.kind; value = x.item.value })

  set_counted-Landed :
      (p : EspErr × S) (a : Applying S)
      → (p.0 ≡ esp_ok → n.view p.1 x.item.ns x.item.key ≡ given)
      → Landed given (set_counted n p a)
  unfolding set_counted is_ok
  set_counted-Landed (esp_ok, s) a h = λ _. h refl
  set_counted-Landed (_, s) a h = λ e. absurd (cc e)

  set_item-Landed : (a : Applying S) → Landed given (set_item n x a)
  set_item-Landed a =
      set_counted-Landed (n.set a.store x.item.ns x.item.key x.item.kind x.item.value) a
        (law.set_ok a.store x.item.ns x.item.key x.item.kind x.item.value)

  after_erase-Landed :
      (act : Act) (a : Applying S)
      → (act ≡ remove) ⊎ (act ≡ retype)
      → n.view a.store x.item.ns x.item.key ≡ none
      → Landed (wanted act x) (after_erase n act x a)
  unfolding after_erase
  after_erase-Landed retype a q h = set_item-Landed a
  after_erase-Landed remove a q h = λ _. h
  after_erase-Landed same a q h = absurd (elim q [ inl e ↦ cc e | inr e ↦ cc e ])
  after_erase-Landed change a q h = absurd (elim q [ inl e ↦ cc e | inr e ↦ cc e ])
  after_erase-Landed add a q h = absurd (elim q [ inl e ↦ cc e | inr e ↦ cc e ])
  after_erase-Landed excluded a q h = absurd (elim q [ inl e ↦ cc e | inr e ↦ cc e ])

  erase_counted-Landed :
      (p : EspErr × S) (a : Applying S)
      → (x.act ≡ remove) ⊎ (x.act ≡ retype)
      → (p.0 ≡ esp_ok → n.view p.1 x.item.ns x.item.key ≡ none)
      → (p.0 ≡ nvs_not_found → n.view p.1 x.item.ns x.item.key ≡ none)
      → Landed (wanted x.act x) (erase_counted n p x a)
  unfolding erase_counted is_ok
  erase_counted-Landed (esp_ok, s) a q h k = after_erase-Landed x.act _ q (h refl)
  erase_counted-Landed (nvs_not_found, s) a q h k = after_erase-Landed x.act _ q (k refl)
  erase_counted-Landed (_, s) a q h k = λ e. absurd (cc e)

  erase_item-Landed :
      (a : Applying S)
      → (x.act ≡ remove) ⊎ (x.act ≡ retype)
      → Landed (wanted x.act x) (erase_item n x a)
  erase_item-Landed a q =
      erase_counted-Landed (n.erase a.store x.item.ns x.item.key) a q
        (law.erase_ok a.store x.item.ns x.item.key) (law.erase_absent a.store x.item.ns x.item.key)

  pub write_item-Landed :
      (act : Act) (a : Applying S) → x.act ≡ act → Landed (wanted x.act x) (write_item n act x a)
  unfolding write_item
  write_item-Landed remove a q = erase_item-Landed a (inl q)
  write_item-Landed retype a q = erase_item-Landed a (inr q)
  write_item-Landed same a q = rw q (set_item-Landed a)
  write_item-Landed change a q = rw q (set_item-Landed a)
  write_item-Landed add a q = rw q (set_item-Landed a)
  write_item-Landed excluded a q = rw q (set_item-Landed a)

  write_opened-Landed :
      (p : EspErr × S) (a : Applying S) → Landed (wanted x.act x) (write_opened n p x a)
  unfolding write_opened is_ok
  write_opened-Landed (esp_ok, s) a = write_item-Landed x.act _ refl
  write_opened-Landed (_, s) a = λ e. absurd (cc e)

  open_item-Landed : (a : Applying S) → Landed (wanted x.act x) (open_item n x a)
  unfolding open_item
  open_item-Landed a = write_opened-Landed (n.open_rw a.store x.item.ns) _

  close_then-Landed :
      (p : EspErr × S) (a : Applying S) → Landed (wanted x.act x) (close_then n p x a)
  unfolding close_then is_ok
  close_then-Landed (esp_ok, s) a = open_item-Landed _
  close_then-Landed (_, s) a = refl

  pub switch_item-Landed :
      (o : Option Bytes) (a : Applying S) → Landed (wanted x.act x) (switch_item n o x a)
  unfolding switch_item
  switch_item-Landed none a = open_item-Landed a
  switch_item-Landed (some ns) a = close_then-Landed (n.commit a.store) a
