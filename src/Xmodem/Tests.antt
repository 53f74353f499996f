-- ===== src/Xmodem/Tests.antt =====
-- cmd_fs/xmodem.c: a CRC, a short transfer, and an instance of the theorem on what is received.
use mathlib.Core.Path.{subst}
use esp_console_kit.Prelude.{
  ℕ, zero, suc, ◌<◌, sym, ap, ◌∙◌, Option, take, drop, length, length-take, ◌≡◌, refl, true, false,
  arith, none, some, [], ◌∷◌, ◌++◌, Bytes, codes, replicate,
}
use esp_console_kit.Prelude.Errors.{EspErr, esp_ok}
use esp_console_kit.Xmodem.Frame.{ack, crc_request, sub, crc_from, crc16}
use esp_console_kit.Xmodem.Receive.{Rx, start}
use esp_console_kit.Xmodem.Send.Loop.{Reply, wait_reply, begins, send}
use esp_console_kit.Xmodem.Send.Loop.Fills.{Serves, Gives}
use esp_console_kit.Xmodem.Send.Loop.Ends.{Ends, send-Ends}
use esp_console_kit.Xmodem.Send.Loop.Wire.{Acks}
use esp_console_kit.Xmodem.Transfer.Steps.{drop_front}
use esp_console_kit.Xmodem.Transfer.Whole.{Arrives, send-feed}

-- The check value of CRC-16/XMODEM.
crc16-codes : crc16 (codes "123456789") ≡ 0x31c3
unfolding crc16 crc_from
crc16-codes = refl

abbrev block : Bytes
block = codes "Hi" ++ replicate 126 sub

abbrev frame : Bytes
frame = 1 ∷ 254 ∷ (block ++ (107 ∷ 224 ∷ []))

abbrev takes_all : Bytes → Bytes → EspErr
takes_all taken handed_over = esp_ok

abbrev held_one : Rx
held_one = record start { held = some block; expected = 2; blocks = 1; sent = 67 ∷ 6 ∷ [] }

abbrev at_end : Rx
at_end = record held_one { delivered = 2; out = codes "Hi"; sent = 67 ∷ 6 ∷ 6 ∷ [] }

-- A source that gives what it is asked for of a file, and a line that acknowledges everything.
abbrev file_source : Bytes → Bytes → ℕ → Option Bytes
file_source d given n = some (take n (drop (length given) d))

take_back : (n : ℕ) (xs : Bytes) → take n xs ++ drop (length (take n xs)) xs ≡ xs
take_back zero xs = refl
take_back (suc n) [] = refl
take_back (suc n) (x ∷ xs) = ap (λ l. x ∷ l) (take_back n xs)

take_nothing : (n : ℕ) (xs : Bytes) → 0 < n → take n xs ≡ [] → xs ≡ []
take_nothing zero xs h e = absurd (omega (arith, h))
take_nothing (suc n) [] h e = refl
take_nothing (suc n) (x ∷ xs) h e = absurd (cc e)

file_source-Serves : (d : Bytes) → Serves d (file_source d)
file_source-Serves d given rest n whole some_room =
    let left : drop (length given) d ≡ rest =
      ap (drop (length given)) (sym whole) ∙ drop_front (length given) given rest refl in
    subst (λ (xs : Bytes). Gives n rest (some (take n xs))) (sym left)
      (take_back n rest, omega (arith, length-take n rest), take_nothing n rest some_room)

abbrev agrees : Bytes → Reply
agrees sent = record { bytes = crc_request ∷ ack ∷ []; behind_can = none }

agrees-Acks : Acks agrees
unfolding wait_reply
agrees-Acks sent = refl

send-feed_example :
    Arrives (codes "Hi") takes_all 3 (send agrees (file_source (codes "Hi")) 1024 3 (begins true))
send-feed_example =
    send-feed (codes "Hi") (file_source (codes "Hi")) agrees takes_all 1024 3 (omega arith)
      (omega arith) (file_source-Serves (codes "Hi")) agrees-Acks (λ taken d. refl)

send-Ends_example : Ends (codes "Hi") (send agrees (file_source (codes "Hi")) 128 3 (begins false))
send-Ends_example =
    send-Ends (codes "Hi") (file_source (codes "Hi")) agrees 128 3 (begins false)
      (file_source-Serves (codes "Hi")) (omega arith)
