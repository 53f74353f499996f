-- ===== src/Nvs/Apply/Cleared.antt =====
-- cmd_nvs/nvs_backup.c: what an import of a file must have come through before it writes.
use esp_console_kit.Prelude.{
  ℕ, ◌≡◌, ◌≤◌, ◌⊎◌, Bool, true, false, ◌||◌, Option, List, Bytes, length, take, ◌==◌,
}
use esp_console_kit.Prelude.Errors.{EspErr, is_ok}
use esp_console_kit.Nvs.Rules.{Rule}
use esp_console_kit.Nvs.Lines.{max_file}
use esp_console_kit.Nvs.Parse.{Parsed, parsed, refused, parse}
use esp_console_kit.Nvs.Store.{Nvs}
use esp_console_kit.Nvs.Trailer.{Seal, accepted, truncated, mismatch, check_crc}
use esp_console_kit.Nvs.Plan.{Options, Report, blank_report}
use esp_console_kit.Nvs.Check.{Diffed, diffed, undiffed, check}
use esp_console_kit.Nvs.Apply.{todo}

module _ {S : Type 0} (n : Nvs S) (kit app : List Rule) (crc : Bytes → ℕ) (o : Options)
    (mac : Option Bytes) (snap : EspErr × Bool) (s : S) where
  -- The check lets it through, and finds something to write.
  abbrev pub Checks : Diffed → Type 0
  Checks (undiffed err r) = ⊥
  Checks (diffed r xs) = (todo n kit app r == 0) ≡ false

  -- The body parses, and its items pass the check.
  abbrev pub Parses : Parsed → Type 0
  Parses (refused err line why) = ⊥
  Parses (parsed h items) = Checks (check kit app n s o mac h items blank_report)

  -- The trailer's CRC is the body's, and so on.
  abbrev pub Sealed : Bytes → Seal → Type 0
  Sealed file (accepted body) = Parses (parse (take body file))
  Sealed file truncated = ⊥
  Sealed file mismatch = ⊥

  -- No dry run, and a snapshot is taken unless it was told not to.
  abbrev pub Wet : Type 0
  Wet = (o.dry_run ≡ false) × ((o.no_snapshot || is_ok snap.0) ≡ true)

  abbrev pub Cleared : Bytes → Type 0
  Cleared file = (length file ≤ max_file) × Sealed file (check_crc crc file) × Wet

  -- Either nothing was written, or the report says so and G holds.
  abbrev pub OnlyIf : Type 0 → EspErr × S × Report → Type 0
  OnlyIf G (err, t, r) = ((r.started ≡ true) × G) ⊎ (t ≡ s)
