-- ===== src/Nvs/Apply.antt =====
-- cmd_nvs/nvs_backup.c: the writes of an import (apply, nvs_backup_import).
pub mod Cleared
pub mod Done
pub mod Keeps
pub mod Landed
pub mod Lands
pub mod Sets
pub mod Starts
pub mod Whole
use esp_console_kit.Prelude.{
  ℕ, ◌+◌, Bool, true, false, not, ◌&&◌, ◌||◌, Option, none, some, List, [], ◌∷◌, Bytes, length,
  take, ltb, ◌==◌, if◌then◌else◌,
}
use esp_console_kit.Prelude.Errors.{is_ok, EspErr, esp_ok, invalid_size, nvs_not_found}
use esp_console_kit.Nvs.Rules.{Rule, is_excluded}
use esp_console_kit.Nvs.Lines.{max_file, Header}
use esp_console_kit.Nvs.Parse.{Item, Parsed, parsed, refused, parse}
use esp_console_kit.Nvs.Store.{Nvs}
use esp_console_kit.Nvs.Trailer.{Seal, accepted, truncated, mismatch, check_crc}
use esp_console_kit.Prelude.Errors.{invalid_crc}
use esp_console_kit.Nvs.Plan.{
  Act, same, change, add, retype, excluded, remove, Planned, Options, Report, blank_report,
  is_open_on,
}
use esp_console_kit.Nvs.Check.{writes, Diffed, diffed, undiffed, check}

-- The locals of apply beside the partition: the namespace that is open for writing, if one is.
pub record Applying (S : Type 0) : Type 0 where
  pub store : S
  pub opened : Option Bytes
  pub report : Report

-- How the loop stands behind an item: `err` so far, or returned at once.
pub data Progress (S : Type 0) : Type 0 where
  at : EspErr → Applying S → Progress S
  returned : EspErr → Applying S → Progress S

abbrev pub count_written : Report → Report
count_written r = record r { written = r.written + 1 }

module _ {S : Type 0} (n : Nvs S) where
  -- nvs_set_* of an item, and r->written
  unfoldable pub set_counted : EspErr × S → Applying S → Progress S
  set_counted (esp_ok, s) a = at esp_ok (record a { store = s; report = count_written a.report })
  set_counted (err, s) a = at err (record a { store = s })

  abbrev pub set_item : Planned → Applying S → Progress S
  set_item x a = set_counted (n.set a.store x.item.ns x.item.key x.item.kind x.item.value) a

  -- What follows an erase: a retype is set, unless the erase failed.
  unfoldable pub after_erase : Act → Planned → Applying S → Progress S
  after_erase retype x a = set_item x a
  after_erase act x a = at esp_ok a

  unfoldable pub erase_counted : EspErr × S → Planned → Applying S → Progress S
  erase_counted (esp_ok, s) x a =
      after_erase x.act x (record a { store = s; report = count_written a.report })
  erase_counted (nvs_not_found, s) x a = after_erase x.act x (record a { store = s })
  erase_counted (err, s) x a = at err (record a { store = s })

  abbrev pub erase_item : Planned → Applying S → Progress S
  erase_item x a = erase_counted (n.erase a.store x.item.ns x.item.key) x a

  unfoldable pub write_item : Act → Planned → Applying S → Progress S
  write_item remove x a = erase_item x a
  write_item retype x a = erase_item x a
  write_item act x a = set_item x a

  unfoldable pub write_opened : EspErr × S → Planned → Applying S → Progress S
  write_opened (esp_ok, s) x a =
      write_item x.act x (record a { store = s; opened = some (x.item.ns) })
  write_opened (err, s) x a = at err (record a { store = s })

  -- The namespace opened for writing.
  unfoldable pub open_item : Planned → Applying S → Progress S
  open_item x a =
      let started : Applying S = record a {
        opened = none;
        report = record (a.report) { started = true };
      } in
      write_opened (n.open_rw a.store x.item.ns) x started

  unfoldable pub close_then : EspErr × S → Planned → Applying S → Progress S
  close_then (esp_ok, s) x a = open_item x (record a { store = s })
  close_then (err, s) x a = returned err (record a { store = s })

  -- Another namespace is open: it is committed first.
  unfoldable pub switch_item : Option Bytes → Planned → Applying S → Progress S
  switch_item none x a = open_item x a
  switch_item (some ns) x a = close_then (n.commit a.store) x a

  module _ (kit app : List Rule) where
    unfoldable pub apply_item : Planned → Applying S → Progress S
    apply_item x a =
        if not (writes x.act) || is_excluded kit app x.item.ns x.item.key
        then at esp_ok a
        else if is_open_on a.opened x.item.ns
        then write_item x.act x a
        else switch_item a.opened x a

    -- The loop, which goes on while err is ESP_OK.
    unfoldable pub apply_items : List Planned → Applying S → Progress S
    apply_items [] a = at esp_ok a
    apply_items (x ∷ xs) a = elim (apply_item x a) [
      | returned err b ↦ returned err b
      | at err b ↦ elim (is_ok err) [ true ↦ apply_items xs b | false ↦ at err b ]
    ]

    abbrev pub first_error : EspErr → EspErr → EspErr
    first_error err c = if is_ok err then c else err

    unfoldable pub committed : EspErr → EspErr × S → Applying S → EspErr × S × Report
    committed err (c, s) a = (first_error err c, s, a.report)

    unfoldable pub last_commit : EspErr → Option Bytes → Applying S → EspErr × S × Report
    last_commit err none a = (err, a.store, a.report)
    last_commit err (some ns) a = committed err (n.commit a.store) a

    unfoldable pub concluded : Progress S → EspErr × S × Report
    concluded (returned err a) = (err, a.store, a.report)
    concluded (at err a) = last_commit err a.opened a

    -- apply
    unfoldable pub apply : List Planned → S → Report → EspErr × S × Report
    apply xs s r = concluded (apply_items xs (record { store = s; opened = none; report = r }))

    -- Behind the checks: the snapshot, whose answer is `snap`, and the writes.
    unfoldable pub snapshot_then : EspErr × Bool → List Planned → S → Report → EspErr × S × Report
    snapshot_then (esp_ok, taken) xs s r = apply xs s (record r { snapshot = taken })
    snapshot_then (err, taken) xs s r = (err, s, r)

    abbrev pub todo : Report → ℕ
    todo r = r.changed + r.added + r.retyped + r.removed

    unfoldable pub import_checked : Options → EspErr × Bool → S → Diffed → EspErr × S × Report
    import_checked o snap s (undiffed err r) = (err, s, r)
    import_checked o snap s (diffed r xs) =
        if not o.dry_run && not (todo r == 0)
        then snapshot_then (if o.no_snapshot then (esp_ok, false) else snap) xs s r
        else (esp_ok, s, r)

    unfoldable pub import_parsed :
        Options → Option Bytes → EspErr × Bool → S → Parsed → EspErr × S × Report
    import_parsed o mac snap s (refused err line why) = (err, s, blank_report)
    import_parsed o mac snap s (parsed h items) =
        import_checked o snap s (check kit app n s o mac h items blank_report)

    unfoldable pub import_sealed :
        Options → Option Bytes → EspErr × Bool → S → Bytes → Seal → EspErr × S × Report
    import_sealed o mac snap s file (accepted body) =
        import_parsed o mac snap s (parse (take body file))
    import_sealed o mac snap s file seal = (invalid_crc, s, blank_report)

    -- nvs_backup_import of a file; `mac` is what esp_read_mac answers, and `snap` what snapshot
    -- does, with whether it took one.
    unfoldable pub import :
        (Bytes → ℕ) → Options → Option Bytes → EspErr × Bool → S → Bytes → EspErr × S × Report
    import crc o mac snap s file =
        if ltb max_file (length file)
        then (invalid_size, s, blank_report)
        else import_sealed o mac snap s file (check_crc crc file)
