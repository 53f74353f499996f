-- ===== src/Xmodem/Send.antt =====
-- cmd_fs/xmodem.c: the frame of a block, as xmodem_send builds it.
pub mod Frames
pub mod Loop
use esp_console_kit.Prelude.{
  ℕ, ◌+◌, ◌-◌, ◌/◌, ◌%◌, ◌^◌, Bool, not, ◌&&◌, [], ◌∷◌, ◌++◌, Bytes, length, replicate, leb, ◌==◌,
  if◌then◌else◌,
}
use esp_console_kit.Xmodem.Frame.{soh, stx, sub, crc16}

-- `block`; `asked` is the configuration's block_size
abbrev pub block_size : Bool → ℕ → ℕ
block_size crc asked = if crc && not (asked == 128) then 1024 else 128

-- `size`, of a block that holds n bytes
abbrev pub frame_size : Bool → ℕ → ℕ → ℕ
frame_size crc block n = if crc && leb n 128 then 128 else block

abbrev pub padded : ℕ → Bytes → Bytes
padded size d = d ++ replicate (size - length d) sub

unfoldable pub checksum : ℕ → Bytes → ℕ
checksum sum [] = sum
checksum sum (x ∷ xs) = checksum ((sum + x) % 2 ^ 8) xs

abbrev pub header : ℕ → ℕ
header size = if size == 1024 then stx else soh

abbrev pub check_bytes : Bool → Bytes → Bytes
check_bytes crc d =
    let sum = crc16 d in if crc then (sum / 2 ^ 8) ∷ (sum % 2 ^ 8) ∷ [] else checksum 0 d ∷ []

-- What follows the header: the number, its complement, the padded data and the check.
abbrev pub behind_header : Bool → ℕ → ℕ → Bytes → Bytes
behind_header crc size num d =
    num ∷ (255 - num) ∷ (padded size d ++ check_bytes crc (padded size d))

-- The frame of a block with the data d.
unfoldable pub frame_of : Bool → ℕ → ℕ → Bytes → Bytes
frame_of crc asked num d =
    let size = frame_size crc (block_size crc asked) (length d) in
    header size ∷ behind_header crc size num d
