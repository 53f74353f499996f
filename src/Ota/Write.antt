-- ===== src/Ota/Write.antt =====
-- cmd_fs/ota_core.c: ota_core_write, with the check of an image's head.
use esp_console_kit.Prelude.{
  ℕ, ◌+◌, ◌-◌, Bool, true, not, ◌&&◌, Option, none, some, ◌++◌, Bytes, bytes_eq, length, take, drop,
  min, ltb, leb, ◌==◌, if◌then◌else◌,
}
use esp_console_kit.Prelude.Errors.{
  is_ok, EspErr, esp_ok, invalid_size, invalid_state, validate_failed,
}
use esp_console_kit.Ota.State.{
  Why, cancelled, not_an_image, other_chip, no_description, other_project, not_written,
  more_than_announced, larger_than_slot, Partition, AppDesc, head_len, Core, Board,
}
use esp_console_kit.Ota.Session.{set_failed, release}

-- check_head: why the head is refused (each with ESP_ERR_OTA_VALIDATE_FAILED), or the descriptor.
pub data HeadVerdict : Type 0 where
  good : AppDesc → HeadVerdict
  refused : Why → HeadVerdict

unfoldable pub check_head : Board → Bool → Bytes → HeadVerdict
check_head b any_project head =
    let h = b.decode head in
    if not (h.magic == b.image_magic)
    then refused not_an_image
    else if not (h.chip == b.chip_id)
    then refused other_chip
    else if not (h.desc.magic_word == b.desc_magic)
    then refused no_description
    else if not any_project && not (bytes_eq h.desc.project b.project)
    then refused other_project
    else good h.desc

-- memcpy(s_head + before, data, n)
abbrev pub splice : Bytes → ℕ → Bytes → Bytes
splice head before piece = take before head ++ (piece ++ drop (before + length piece) head)

abbrev pub part_size : Option Partition → ℕ
part_size none = 0
part_size (some p) = p.size

-- The tests before anything is written; none is ESP_OK.
unfoldable pub refusal : Core → ℕ → Option (EspErr × Why)
refusal c len =
    if c.cancel
    then some (invalid_state, cancelled)
    else if not (c.session.total == 0) && ltb c.session.total (c.session.bytes + len)
    then some (invalid_size, more_than_announced c.session.total)
    else if ltb (part_size c.part) (c.session.bytes + len)
    then some (invalid_size, larger_than_slot (part_size c.part))
    else none

-- The head as far as these bytes fill it, checked once it is whole.
unfoldable pub take_head : Board → Core → Bytes → Option (EspErr × Why) × Core
take_head b c bytes =
    let before = c.session.bytes in
    let n = if ltb before head_len then min (head_len - before) (length bytes) else 0 in
    let filled : Core = record c { head = splice c.head before (take n bytes) } in
    if c.head_checked
    then (none, c)
    else if leb head_len (before + n)
    then elim (check_head b c.any_project filled.head) [
      | refused why ↦ (some (validate_failed, why), record filled { head_checked = true })
      | good desc ↦ (
        none,
        record filled { head_checked = true; session = record (c.session) { app = some desc } },
      )
    ]
    else (none, filled)

-- esp_ota_write, where a handle is open
unfoldable pub write_flash : Core → EspErr → Bytes → Option (EspErr × Why) × Core
write_flash c answer bytes =
    if c.is_open
    then (if is_ok answer
        then (none, record c { flash = c.flash ++ bytes })
        else (some (answer, not_written answer), c))
    else (none, c)

abbrev pub fail_write : ℕ → EspErr × Why → Core → EspErr × Core
fail_write now (err, why) c = (err, set_failed now why (release c))

abbrev pub accept : Core → Bytes → Core
accept c bytes = record c {
  hashed = c.hashed ++ bytes;
  session = record (c.session) { bytes = c.session.bytes + length bytes };
}

unfoldable pub after_flash : ℕ → Option (EspErr × Why) × Core → Bytes → EspErr × Core
after_flash now (some r, c) bytes = fail_write now r c
after_flash now (none, c) bytes = (esp_ok, accept c bytes)

unfoldable pub after_head : ℕ → EspErr → Option (EspErr × Why) × Core → Bytes → EspErr × Core
after_head now answer (some r, c) bytes = fail_write now r c
after_head now answer (none, c) bytes = after_flash now (write_flash c answer bytes) bytes

-- ota_core_write; `answer` is esp_ota_write's
unfoldable pub write : Board → Core → ℕ → EspErr → Bytes → EspErr × Core
write b c now answer bytes = elim (refusal c (length bytes)) [
  | some r ↦ fail_write now r c
  | none ↦ after_head now answer (take_head b c bytes) bytes
]
