-- ===== src/Xmodem/Send/Loop.antt =====
-- cmd_fs/xmodem.c: xmodem_send, with wait_reply and fill. The line is a function of all that was
-- written to it so far, and the source one of what it gave so far; the clock only decides what is
-- heard. The memory for the frame is there.
pub mod Fills
pub mod Attempts
pub mod Ends
pub mod Wire
use esp_console_kit.Prelude.{
  ℕ, zero, suc, ◌+◌, ◌-◌, ◌%◌, ◌^◌, Bool, true, false, ◌&&◌, ◌||◌, Option, none, some, List, [],
  ◌∷◌, ◌++◌, Bytes, length, leb, ◌==◌, if◌then◌else◌,
}
use esp_console_kit.Prelude.Errors.{EspErr, esp_ok, esp_fail, timeout, invalid_state}
use esp_console_kit.Xmodem.Frame.{eot, ack, nak, can, crc_request, max_errors}
use esp_console_kit.Xmodem.Send.{block_size, frame_of}

-- How the wait for the receiver ends; `begins` says whether a CRC was asked for.
pub data Start : Type 0 where
  begins : Bool → Start
  start_cancelled no_start : Start

-- The wait for the receiver: bytes, and pauses of POLL_MS (none), until the start timeout. The
-- Boolean is whether the byte behind a CAN is awaited.
unfoldable pub start_from : Bool → List (Option ℕ) → Start
start_from behind [] = no_start
start_from behind (none ∷ hs) = start_from false hs
start_from true (some c ∷ hs) =
    let rest = start_from false hs in if c == can then start_cancelled else rest
start_from false (some c ∷ hs) =
    let rest = start_from (c == can) hs in
    if c == crc_request || c == nak then begins (c == crc_request) else rest

-- What is heard behind something that was sent: the bytes until the reply's timeout, and what
-- follows a CAN within POLL_MS.
pub record Reply : Type 0 where
  pub bytes : Bytes
  pub behind_can : Option ℕ

-- wait_reply
unfoldable pub wait_reply : Bytes → ℕ
wait_reply [] = 0
wait_reply (c ∷ cs) =
    let rest = wait_reply cs in if c == ack || c == nak || c == can then c else rest

abbrev pub is_can : Option ℕ → Bool
is_can none = false
is_can (some c) = c == can

-- The locals of xmodem_send, with the counts of xmodem_stats_t: `given` is what the source gave,
-- `sent` what was written to the line, both in order.
pub record Tx : Type 0 where
  pub given : Bytes
  pub num : ℕ
  pub bytes : ℕ
  pub blocks : ℕ
  pub retries : ℕ
  pub sent : Bytes

abbrev pub no_tx : Tx
no_tx = record { given = []; num = 1; bytes = 0; blocks = 0; retries = 0; sent = [] }

abbrev pub write_line : Bytes → Tx → Tx
write_line b tx = record tx { sent = tx.sent ++ b }

-- At the label `cancel`.
abbrev pub cancelled_with : EspErr → Tx → EspErr × Tx
cancelled_with err tx = (err, write_line (can ∷ can ∷ can ∷ []) tx)

pub data Acked : Type 0 where
  acked unanswered cancelled : Acked

-- A piece, and then the rest of the loop.
unfoldable pub took_piece : (Bytes → Option Bytes) → Bytes → Option Bytes → Option Bytes
took_piece next got none = none
took_piece next got (some []) = some got
took_piece next got (some (c ∷ cs)) = next (got ++ c ∷ cs)

-- fill, with fuel for each byte of the buffer: behind `given`, with `got` in the buffer
unfoldable pub fill : (Bytes → ℕ → Option Bytes) → ℕ → Bytes → ℕ → Bytes → Option Bytes
fill source zero given len got = some got
fill source (suc fuel) given len got =
    if leb len (length got)
    then some got
    else took_piece (fill source fuel given len) got (source (given ++ got) (len - length got))

module _ (line : Bytes → Reply) where
  -- The attempts that are left for a frame.
  unfoldable pub try_frame : ℕ → Bool → Bytes → Tx → Acked × Tx
  try_frame zero first frame tx = (unanswered, tx)
  try_frame (suc left) first frame tx =
      let t : Tx = record tx {
        retries = if first then tx.retries else tx.retries + 1;
        sent = tx.sent ++ frame;
      } in
      let rest = try_frame left false frame t in
      let reply = line t.sent in
      if wait_reply reply.bytes == ack
      then (acked, t)
      else if wait_reply reply.bytes == can && is_can reply.behind_can
      then (cancelled, t)
      else rest

  -- The attempts that are left for the EOT.
  unfoldable pub try_eot : ℕ → Tx → EspErr × Tx
  try_eot zero tx = cancelled_with timeout tx
  try_eot (suc left) tx =
      let t = write_line (eot ∷ []) tx in
      let rest = try_eot left t in
      let reply = wait_reply (line t.sent).bytes in
      if reply == ack then (esp_ok, t) else if reply == can then (invalid_state, t) else rest

  -- A block of n bytes is done with.
  unfoldable pub counted_block : ℕ → Tx → Tx
  counted_block n tx = record tx {
    num = (tx.num + 1) % 2 ^ 8;
    bytes = tx.bytes + n;
    blocks = tx.blocks + 1;
  }

  module _ (crc : Bool) (asked : ℕ) where
    -- Behind the attempts, where `next` is the rest of the loop.
    unfoldable pub after_block : (Tx → Option (EspErr × Tx)) → ℕ → Acked × Tx → Option (EspErr × Tx)
    after_block next n (acked, tx) = next (counted_block n tx)
    after_block next n (unanswered, tx) = some (cancelled_with esp_fail tx)
    after_block next n (cancelled, tx) = some (invalid_state, tx)

    unfoldable pub with_block :
        (Tx → Option (EspErr × Tx)) → Option Bytes → Tx → Option (EspErr × Tx)
    with_block next none tx = some (cancelled_with esp_fail tx)
    with_block next (some []) tx = some (try_eot (max_errors + 1) tx)
    with_block next (some (c ∷ cs)) tx = after_block next (length (c ∷ cs)) (
        try_frame (max_errors + 1) true (frame_of crc asked tx.num (c ∷ cs))
          (record tx { given = tx.given ++ c ∷ cs }))

    -- The loop over the blocks.
    unfoldable pub send_blocks : (Bytes → ℕ → Option Bytes) → ℕ → Tx → Option (EspErr × Tx)
    send_blocks source zero tx = none
    send_blocks source (suc fuel) tx =
        let block = block_size crc asked in
        with_block (send_blocks source fuel) (fill source block tx.given block []) tx

  -- xmodem_send; `asked` is the configuration's block_size
  unfoldable pub send : (Bytes → ℕ → Option Bytes) → ℕ → ℕ → Start → Option (EspErr × Tx)
  send source asked fuel (begins crc) = send_blocks crc asked source fuel no_tx
  send source asked fuel start_cancelled = some (invalid_state, no_tx)
  send source asked fuel no_start = some (cancelled_with timeout no_tx)
