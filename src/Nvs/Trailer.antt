-- ===== src/Nvs/Trailer.antt =====
-- cmd_nvs/nvs_backup.c: the last line of a file, "# crc32 xxxxxxxx" (check_crc). The CRC itself,
-- esp_rom_crc32_le, is a parameter.
pub mod Trips
use esp_console_kit.Prelude.{
  ℕ, ◌+◌, ◌*◌, ◌%◌, ◌^◌, Bool, ◌&&◌, Option, none, some, [], ◌∷◌, Bytes, codes, length, drop, ◌==◌,
  if◌then◌else◌,
}
use esp_console_kit.Ascii.{hex_value}
use esp_console_kit.Nvs.Rules.{is_prefix}

-- CRC_PREFIX and CRC_LINE_LEN
abbrev pub crc_prefix : Bytes
crc_prefix = codes "# crc32 "

abbrev pub crc_line_len : ℕ
crc_line_len = 16

pub data Seal : Type 0 where
  accepted : ℕ → Seal
  truncated mismatch : Seal

-- text[0 .. end): a final line end is left off.
unfoldable pub trimmed : Bytes → Bytes
trimmed [] = []
trimmed (c ∷ []) = if c == 10 then [] else c ∷ []
trimmed (c ∷ d ∷ ds) = c ∷ trimmed (d ∷ ds)

abbrev pub before_line : ℕ → Bytes × Bytes → Bytes × Bytes
before_line c ([], line) = if c == 10 then (c ∷ [], line) else ([], c ∷ line)
before_line c (b ∷ bs, line) = (c ∷ b ∷ bs, line)

-- What stands up to the last line end, and the line behind it.
unfoldable pub cut_last : Bytes → Bytes × Bytes
cut_last [] = ([], [])
cut_last (c ∷ cs) = before_line c (cut_last cs)

abbrev pub next_hex : ℕ → Option ℕ → Option ℕ
next_hex want none = none
next_hex want (some d) = some ((want * 16 + d) % 2 ^ 32)

-- The loop, with `want` so far.
unfoldable pub read_hex : ℕ → Bytes → Option ℕ
read_hex want [] = some want
read_hex want (c ∷ cs) = elim (next_hex want (hex_value c)) [ none ↦ none | some w ↦ read_hex w cs ]

unfoldable pub sealed_by : (Bytes → ℕ) → Bytes × Bytes → Seal
sealed_by crc (body, line) =
    if length line == crc_line_len && is_prefix crc_prefix line
    then elim (read_hex 0 (drop 8 line)) [
      | none ↦ truncated
      | some want ↦ if crc body == want then accepted (length body) else mismatch
    ]
    else truncated

-- check_crc, with the length of the body where it accepts
unfoldable pub check_crc : (Bytes → ℕ) → Bytes → Seal
check_crc crc text = sealed_by crc (cut_last (trimmed text))
