-- ===== src/Xmodem/Receive.antt =====
-- cmd_fs/xmodem.c: xmodem_receive as a machine: where its loop waits for the line, and what it does
-- with what it hears (deliver, xmodem_receive). The clock only decides what is heard.
pub mod Delivers
pub mod Handover
pub mod Padding
use esp_console_kit.Prelude.{
  ℕ, ◌+◌, ◌-◌, ◌*◌, ◌%◌, ◌^◌, Bool, true, false, not, ◌&&◌, ◌||◌, Option, none, some, List, [], ◌∷◌,
  ◌++◌, Bytes, length, take, ltb, ◌==◌, if◌then◌else◌,
}
use esp_console_kit.Prelude.Errors.{
  EspErr, esp_ok, esp_fail, timeout, invalid_state, invalid_size, invalid_response,
}
use esp_console_kit.Xmodem.Frame.{
  soh, stx, eot, ack, nak, can, sub, crc_request, max_errors, max_noise, is_whole, is_good,
  block_data, block_number,
}

-- The locals of xmodem_receive, with rx_state_t and the counts of xmodem_stats_t. `out` is what the
-- sink took, and `sent` what was written to the line, both in order.
pub record Rx : Type 0 where
  pub delivered : ℕ
  pub out : Bytes
  pub held : Option Bytes
  pub expected : ℕ
  pub errors : ℕ
  pub noise : ℕ
  pub blocks : ℕ
  pub retries : ℕ
  pub timeouts : ℕ
  pub bad_blocks : ℕ
  pub skipped : ℕ
  pub sent : Bytes

-- Where it waits: for the sender to start, for the byte behind a CAN, for the rest of a block of
-- n bytes, for a header, for a header behind a NAK, and for repeats of EOT.
pub data Phase : Type 0 where
  polling after_can next_header after_nak lingering : Phase
  in_block : ℕ → Phase

-- While it polls: a byte, the end of a second, or the end of the start timeout.
pub data Polled : Type 0 where
  heard : ℕ → Polled
  poll_over gave_up : Polled

-- What it can hear there: a byte unless the wait is over, or what arrives of a block in time.
abbrev pub Heard : Phase → Type 0
Heard polling = Polled
Heard (in_block n) = Bytes
Heard _ = Option ℕ

pub data Went : Type 0 where
  goes : Phase → Rx → Went
  over : EspErr → Rx → Went

-- The file's end is a run of SUB at the end of the data.
unfoldable pub keep_before : ℕ → Bytes → Bytes
keep_before c [] = if c == sub then [] else c ∷ []
keep_before c (x ∷ xs) = c ∷ x ∷ xs

unfoldable pub without_padding : Bytes → Bytes
without_padding [] = []
without_padding (c ∷ cs) = keep_before c (without_padding cs)

abbrev pub say : Bytes → Rx → Rx
say s rx = record rx { sent = rx.sent ++ s }

-- `cancel`
abbrev pub cancels : EspErr → Rx → Went
cancels err rx = over err (say (can ∷ can ∷ can ∷ []) rx)

-- `size` is expected_size; the sink answers by what it took before and what it is handed.
module _ (size : ℕ) (sink : Bytes → Bytes → EspErr) where
  unfoldable pub to_deliver : ℕ → Bytes → Bool → Bytes
  to_deliver delivered d last =
      if not (size == 0) then take (size - delivered) d else if last then without_padding d else d

  unfoldable pub sunk : EspErr → Bytes → Rx → EspErr × Rx
  sunk esp_ok d rx = (esp_ok, record rx { delivered = rx.delivered + length d; out = rx.out ++ d })
  sunk err d rx = (err, rx)

  unfoldable pub handed : Bytes → Rx → EspErr × Rx
  handed [] rx = (esp_ok, rx)
  handed (c ∷ cs) rx = sunk (sink rx.out (c ∷ cs)) (c ∷ cs) rx

  -- deliver, of the block that is held, if one is
  unfoldable pub deliver_held : Bool → Option Bytes → Rx → EspErr × Rx
  deliver_held last none rx = (esp_ok, rx)
  deliver_held last (some d) rx = handed (to_deliver rx.delivered d last) rx

  unfoldable pub ended : EspErr × Rx → Went
  ended (esp_ok, rx) = goes lingering (say (ack ∷ []) rx)
  ended (err, rx) = cancels err rx

  unfoldable pub took_noise : Rx → Went
  took_noise rx =
      let n : Rx = record rx { skipped = rx.skipped + 1; noise = rx.noise + 1 } in
      if ltb max_noise n.noise then cancels esp_fail n else goes next_header n

  -- The top of the loop, with c.
  unfoldable pub took_byte : ℕ → Rx → Went
  took_byte c rx =
      if c == eot
      then ended (deliver_held true rx.held rx)
      else if c == can
      then goes after_can rx
      else if c == soh
      then goes (in_block 128) rx
      else if c == stx
      then goes (in_block 1024) rx
      else if c == 0
      then goes next_header rx
      else took_noise rx

  unfoldable pub holds_next : Bytes → EspErr × Rx → Went
  holds_next d (esp_ok, rx) = goes next_header (record rx {
    held = some d;
    expected = (rx.expected + 1) % 2 ^ 8;
    blocks = rx.blocks + 1;
    errors = 0;
    noise = 0;
  })
  holds_next d (err, rx) = cancels err rx

  unfoldable pub good_block : ℕ → Bytes → Rx → Went
  good_block n frame rx =
      if block_number frame == rx.expected
      then holds_next (block_data n frame) (deliver_held false rx.held (say (ack ∷ []) rx))
      else if block_number frame == (rx.expected + 255) % 2 ^ 8
      then goes next_header (say (ack ∷ []) rx)
      else cancels invalid_response rx

  unfoldable pub bad_block : ℕ → Bytes → Rx → Went
  bad_block n frame rx =
      let whole = is_whole n frame in
      let r : Rx = record rx {
        bad_blocks = if whole then rx.bad_blocks + 1 else rx.bad_blocks;
        timeouts = if whole then rx.timeouts else rx.timeouts + 1;
        errors = rx.errors + 1;
      } in
      if ltb max_errors r.errors
      then cancels esp_fail r
      else goes next_header (say (nak ∷ []) (record r { retries = r.retries + 1 }))

  unfoldable pub late_header : Rx → Went
  late_header rx =
      let r : Rx = record rx { errors = rx.errors + 1 } in
      if ltb max_errors r.errors
      then cancels timeout r
      else goes after_nak (say (nak ∷ []) (record r { retries = r.retries + 1 }))

  unfoldable pub concluded : Rx → Went
  concluded rx =
      if not (size == 0) && ltb rx.delivered size then over invalid_size rx else over esp_ok rx

  unfoldable pub poll_byte : ℕ → Rx → Went
  poll_byte c rx =
      if c == soh || c == stx || c == eot || c == can then took_byte c rx else goes polling rx

  unfoldable pub step : (ph : Phase) → Heard ph → Rx → Went
  step polling (heard c) rx = poll_byte c rx
  step polling poll_over rx = goes polling (say (crc_request ∷ []) rx)
  step polling gave_up rx = cancels timeout rx
  step after_can (some c) rx = if c == can then over invalid_state rx else took_byte c rx
  step after_can none rx = goes next_header rx
  step (in_block n) frame rx =
      if is_good n frame then good_block n frame rx else bad_block n frame rx
  step next_header (some c) rx = took_byte c rx
  step next_header none rx = late_header rx
  step after_nak (some c) rx = took_byte c rx
  step after_nak none rx = cancels timeout rx
  step lingering (some c) rx =
      if c == eot then goes lingering (say (ack ∷ []) rx) else goes lingering rx
  step lingering none rx = concluded rx

abbrev pub start : Rx
start = record {
  delivered = 0;
  out = [];
  held = none;
  expected = 1;
  errors = 0;
  noise = 0;
  blocks = 0;
  retries = 0;
  timeouts = 0;
  bad_blocks = 0;
  skipped = 0;
  sent = crc_request ∷ [];
}
