-- ===== src/Xmodem/Transfer.antt =====
-- cmd_fs/xmodem.c: xmodem_receive on a line that brings what xmodem_send wrote.
pub mod Steps
pub mod Whole
use mathlib.Core.Path.{subst}
use esp_console_kit.Prelude.{
  ℕ, zero, suc, ◌+◌, ◌-◌, ◌*◌, ◌%◌, ◌^◌, ◌≤◌, ◌<◌, ◌≡◌, ◌≢◌, ◌⊎◌, inl, inr, refl, sym, ap, ◌∙◌,
  ==_iff, ◌||◌, Bool, true, false, Option, none, some, [], ◌∷◌, ◌++◌, Bytes, length, length-append,
  length-take, length-drop, take, drop, take-drop, take_all, take-append_le, if_intro, arith,
  append_assoc, append-nil, ◌==◌, ◌&&◌, if◌then◌else◌, replicate,
}
use esp_console_kit.Prelude.Errors.{EspErr, esp_ok}
use esp_console_kit.Xmodem.Frame.{ack, eot, sub, soh, stx, can, is_good, block_number, block_data}
use esp_console_kit.Xmodem.Receive.{
  Rx, Phase, polling, after_can, in_block, next_header, after_nak, lingering, heard, gave_up, Heard,
  Went, goes, over, say, deliver_held, handed, sunk, to_deliver, ended, took_byte, holds_next,
  good_block, concluded, poll_byte, step, start,
}
use esp_console_kit.Xmodem.Receive.Delivers.{joined, Received, Reach, started, stepped}
use esp_console_kit.Xmodem.Send.{block_size, frame_size, padded, header, behind_header, frame_of}
use esp_console_kit.Xmodem.Send.Frames.{Carries, frame_of-Carries}
use esp_console_kit.Xmodem.Send.Loop.Wire.{wire}

-- What is heard of the bytes on their way, all of them in time, and those behind it. At their end
-- the wait is over.
abbrev pub hear : (ph : Phase) → Bytes → Heard ph × Bytes
hear polling [] = (gave_up, [])
hear polling (c ∷ cs) = (heard c, cs)
hear (in_block n) cs = (take (n + 4) cs, drop (n + 4) cs)
hear after_can [] = (none, [])
hear after_can (c ∷ cs) = (some c, cs)
hear next_header [] = (none, [])
hear next_header (c ∷ cs) = (some c, cs)
hear after_nak [] = (none, [])
hear after_nak (c ∷ cs) = (some c, cs)
hear lingering [] = (none, [])
hear lingering (c ∷ cs) = (some c, cs)

module _ (size : ℕ) (sink : Bytes → Bytes → EspErr) where
  unfoldable pub fed : (Phase → Rx → Option (EspErr × Rx)) → Went → Option (EspErr × Rx)
  fed next (goes ph rx) = next ph rx
  fed next (over err rx) = some (err, rx)

  -- xmodem_receive on those bytes, in as many steps.
  unfoldable pub feed : ℕ → Bytes → Phase → Rx → Option (EspErr × Rx)
  feed zero cs ph rx = none
  feed (suc fuel) cs ph rx = fed (feed fuel (hear ph cs).1) (step size sink ph (hear ph cs).0 rx)

-- As many steps as w frames take.
abbrev pub steps : ℕ → ℕ
steps zero = 0
steps (suc w) = suc (suc (steps w))
