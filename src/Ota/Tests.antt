-- ===== src/Ota/Tests.antt =====
-- cmd_fs/ota_core.c: runs at concrete inputs, and instances of the theorems there.
use esp_console_kit.Prelude.{
  ◌≤◌, ◌≡◌, refl, true, false, none, some, [], ◌∷◌, Bytes, codes, bytes_eq, length, replicate,
}
use esp_console_kit.Prelude.Errors.{is_ok, esp_ok}
use esp_console_kit.Prelude.Bits.{bit}
use esp_console_kit.Ota.State.{
  receiving, staged, failed, src_upload, Partition, AppDesc, Core, Board, boot,
}
use esp_console_kit.Ota.Session.{BeginAnswers, begin, in_progress, start, open_handle}
use esp_console_kit.Ota.Write.{
  write, part_size, refusal, take_head, check_head, write_flash, after_flash, after_head,
}
use esp_console_kit.Ota.Finish.{
  FinishAnswers, finish, ActivateAnswers, activate, busy, sha_differs, finish_refusal, conclude,
  same_part, is_bad,
}
use esp_console_kit.Ota.Invariant.{Staged, Inv}
use esp_console_kit.Ota.Pieces.{write_all, write_all_lem}
use esp_console_kit.Ota.Ending.{finish_fails}
use esp_console_kit.Ota.Activate.{
  begins, writes, finishes, Reach, here, next, Reach-Inv, Reach-Staged, Reach-closed,
  activate_midway,
}

abbrev desc : AppDesc
desc = record { magic_word = 7; project = codes "demo"; version = codes "1.0" }

-- A build whose every head is in order, and a hash that is the length alone.
abbrev board : Board
board = record {
  image_magic = 233;
  chip_id = 9;
  desc_magic = 7;
  project = codes "demo";
  decode = λ _. record { magic = 233; chip = 9; desc = desc };
  sha256 = λ x. some (replicate 32 (length x));
}

abbrev slot_a : Partition
slot_a = record { id = 1; label = codes "ota_0"; size = 4096 }

abbrev slot_b : Partition
slot_b = record { id = 2; label = codes "ota_1"; size = 4096 }

abbrev answers : BeginAnswers
answers = record {
  next = some slot_a;
  sha_ready = true;
  ota_begin = λ _. esp_ok;
  now = 1;
  later = 2;
}

abbrev piece : Bytes
piece = replicate 300 1

abbrev ended : FinishAnswers
ended = record { ota_end = esp_ok; description = none; now = 5 }

abbrev started : Core
started = (begin boot answers src_upload 300 none 0).1

abbrev written : Core
written = (write board started 3 esp_ok piece).1

abbrev done : Core
done = (finish board written ended none).1

started_phase :
    (started.session.phase ≡ receiving) × (started.hashed ≡ []) × (started.session.dry_run ≡ false)
unfolding begin in_progress start bit open_handle is_ok
started_phase = (refl, refl, refl)

boot-started : Reach board boot started
boot-started = next here (begins answers src_upload 300 none 0 refl)

started-Inv : Inv board started
started-Inv = Reach-Inv board boot-started

boot-written : Reach board boot written
boot-written = next boot-started (writes 3 esp_ok piece started_phase.0 refl)

written_phase : (written.session.phase ≡ receiving) × (written.session.dry_run ≡ false)
unfolding begin in_progress start bit open_handle is_ok write refusal take_head check_head
    write_flash after_flash after_head bytes_eq
written_phase = (refl, refl)

boot-done : Reach board boot done
boot-done = next boot-written (finishes ended none written_phase.0 refl)

done_phase : (done.session.phase ≡ staged) × ((finish board written ended none).0 ≡ esp_ok)
unfolding begin in_progress start bit open_handle is_ok write refusal take_head check_head
    write_flash after_flash after_head bytes_eq finish finish_refusal conclude sha_differs
done_phase = (refl, refl)

Reach-Staged_example : Staged board done
Reach-Staged_example = Reach-Staged board done boot-done done_phase.0

Reach-closed_example : (done.is_open ≡ false) × (done.hashing ≡ false) × (busy done ≡ false)
Reach-closed_example = Reach-closed board done boot-done (λ e. cc (e, done_phase.0))

pieces_taken : is_ok (write_all board started 3 esp_ok (piece ∷ [])).0 ≡ true
unfolding begin in_progress start bit open_handle is_ok write refusal take_head check_head
    write_flash after_flash after_head bytes_eq write_all
pieces_taken = refl

write_all_lem_example :
    let c' = (write_all board started 3 esp_ok (piece ∷ [])).1 in
    (c'.hashed ≡ piece) × (c'.flash ≡ piece) × (c'.session.bytes ≡ 300) × (300 ≤ part_size c'.part)
write_all_lem_example =
    write_all_lem board started 3 esp_ok (piece ∷ []) started-Inv started_phase.0 started_phase.1
      started_phase.2 pieces_taken

too_early : is_ok (finish board started ended none).0 ≡ false
unfolding begin in_progress start bit open_handle is_ok finish finish_refusal conclude sha_differs
too_early = refl

finish_fails_example :
    let c' = (finish board started ended none).1 in
    (c'.session.phase ≡ failed) × (c'.is_open ≡ false) × (c'.hashing ≡ false)
finish_fails_example = finish_fails board started ended none started-Inv started_phase.0 too_early

abbrev asked : ActivateAnswers
asked = record {
  find = λ _. some slot_b;
  img_state = λ _. none;
  set_boot = λ _. esp_ok;
  description = λ _. none;
}

other_slot : same_part started.part slot_b ≡ false
unfolding begin in_progress start bit open_handle is_ok same_part
other_slot = refl

not_bad : is_bad (asked.img_state slot_b) ≡ false
unfolding is_bad
not_bad = refl

activate_midway_example :
    let (err, c') = activate started asked (some (codes "ota_1")) in
    (err ≡ esp_ok)
    × (busy started ≡ true)
    × (busy c' ≡ false)
    × (c'.session.bytes ≡ 0)
    × (c'.is_open ≡ started.is_open)
activate_midway_example =
    activate_midway started asked b'o' (codes "ta_1") slot_b started_phase.0 refl other_slot not_bad
      refl
