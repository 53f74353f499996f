-- ===== src/Nvs/Apply/Whole.antt =====
-- cmd_nvs/nvs_backup.c: nvs_backup_import as a whole: what it leaves alone.
use esp_console_kit.Prelude.{
  ℕ, ◌≡◌, refl, Bool, true, false, not, ◌&&◌, if_intro, Option, List, Bytes, length, take, ltb,
  ◌==◌, if◌then◌else◌, arith,
}
use esp_console_kit.Prelude.Errors.{EspErr, esp_ok, invalid_crc, invalid_size}
use esp_console_kit.Nvs.Rules.{Rule, is_excluded}
use esp_console_kit.Nvs.Lines.{max_file}
use esp_console_kit.Nvs.Parse.{Parsed, parsed, refused, parse}
use esp_console_kit.Nvs.Store.{Nvs, IsNvs}
use esp_console_kit.Nvs.Trailer.{Seal, accepted, truncated, mismatch, check_crc}
use esp_console_kit.Nvs.Plan.{Planned, Options, Report, blank_report}
use esp_console_kit.Nvs.Check.{Diffed, diffed, undiffed, check}
use esp_console_kit.Nvs.Apply.{
  apply, snapshot_then, todo, import_checked, import_parsed, import_sealed, import,
}
use esp_console_kit.Nvs.Apply.Keeps.{all_spare_excluded, apply-view}

module _ {S : Type 0} (n : Nvs S) (kit app : List Rule) (crc : Bytes → ℕ) (o : Options)
    (mac : Option Bytes) (snap : EspErr × Bool) (s : S) where
  -- What holds of a result that leaves the partition, and of any that apply gives, holds of the
  -- import. Under a dry run, apply is never reached.
  module _ (P : EspErr × S × Report → Type 0) (left : (err : EspErr) (r : Report) → P (err, s, r))
      (applied : o.dry_run ≡ false
        → (xs : List Planned) (r : Report) → P (apply n kit app xs s r)) where
    snapshot_then_intro :
        (q : EspErr × Bool) (xs : List Planned) (r : Report)
        → o.dry_run ≡ false
        → P (snapshot_then n kit app q xs s r)
    unfolding snapshot_then
    snapshot_then_intro (esp_ok, taken) xs r wet = applied wet xs _
    snapshot_then_intro (err, taken) xs r wet = left err r

    import_checked_intro : (d : Diffed) → P (import_checked n kit app o snap s d)
    unfolding import_checked
    import_checked_intro (undiffed err r) = left err r
    import_checked_intro (diffed r xs) =
        if_intro P (not o.dry_run && not (todo n kit app r == 0)) _ _
          (λ h.
            snapshot_then_intro (if o.no_snapshot then (esp_ok, false) else snap) xs r
              (ground (arith, h)))
          (λ _. left esp_ok r)

    import_parsed_intro : (p : Parsed) → P (import_parsed n kit app o mac snap s p)
    unfolding import_parsed
    import_parsed_intro (refused err line why) = left err blank_report
    import_parsed_intro (parsed h items) =
        import_checked_intro (check kit app n s o mac h items blank_report)

    import_sealed_intro :
        (file : Bytes) (seal : Seal) → P (import_sealed n kit app o mac snap s file seal)
    unfolding import_sealed
    import_sealed_intro file (accepted body) = import_parsed_intro (parse (take body file))
    import_sealed_intro file truncated = left invalid_crc blank_report
    import_sealed_intro file mismatch = left invalid_crc blank_report

    import_intro : (file : Bytes) → P (import n kit app crc o mac snap s file)
    unfolding import
    import_intro file =
        if_intro P (ltb max_file (length file)) _ _ (λ _. left invalid_size blank_report)
          (λ _. import_sealed_intro file (check_crc crc file))

-- A dry run leaves the partition as it was, whatever the file.
import_dry :
    {S : Type 0} (n : Nvs S) (kit app : List Rule) (crc : Bytes → ℕ) (o : Options)
    (mac : Option Bytes) (snap : EspErr × Bool) (s : S) (file : Bytes)
    → o.dry_run ≡ true
    → (import n kit app crc o mac snap s file).1 ≡ s
import_dry {S} n kit app crc o mac snap s file dry =
    import_intro n kit app crc o mac snap s (λ (r : EspErr × S × Report). r.1 ≡ s) (λ err r. refl)
      (λ wet xs r. absurd (cc (wet, dry))) file

-- Where NVS behaves as documented, no import of any file, with any options and however it ends,
-- changes what stands under an excluded namespace and key.
pub import-is_excluded :
    {S : Type 0} (n : Nvs S) (kit app : List Rule) (crc : Bytes → ℕ) (o : Options)
    (mac : Option Bytes) (snap : EspErr × Bool) (s : S) (file ns key : Bytes)
    → IsNvs n
    → is_excluded kit app ns key ≡ true
    → n.view (import n kit app crc o mac snap s file).1 ns key ≡ n.view s ns key
import-is_excluded {S} n kit app crc o mac snap s file ns key law h =
    import_intro n kit app crc o mac snap s
      (λ (r : EspErr × S × Report). n.view r.1 ns key ≡ n.view s ns key) (λ err r. refl)
      (λ _ xs r.
        apply-view n law ns key (n.view s ns key) kit app xs s r
          (all_spare_excluded kit app ns key xs h) refl)
      file
