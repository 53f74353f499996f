-- ===== src/Xmodem/Frame.antt =====
-- cmd_fs/xmodem.c: the bytes of the protocol, the CRC of a block and a block's frame
-- (xmodem_crc16, and the checks of xmodem_receive).
use Prim.Native.Nat.{bit_and, bit_xor}
use esp_console_kit.Prelude.{
  ℕ, zero, suc, ◌+◌, ◌-◌, ◌*◌, ◌%◌, ◌^◌, Bool, not, ◌&&◌, [], ◌∷◌, Bytes, length, take, drop,
  get_or, leb, ◌==◌, if◌then◌else◌,
}

abbrev pub soh : ℕ
soh = 0x01

abbrev pub stx : ℕ
stx = 0x02

abbrev pub eot : ℕ
eot = 0x04

abbrev pub ack : ℕ
ack = 0x06

abbrev pub nak : ℕ
nak = 0x15

abbrev pub can : ℕ
can = 0x18

abbrev pub sub : ℕ
sub = 0x1a

abbrev pub crc_request : ℕ
crc_request = 67

abbrev pub max_errors : ℕ
max_errors = 10

abbrev pub max_noise : ℕ
max_noise = 4 * 1024

abbrev pub crc_bit : ℕ → ℕ
crc_bit crc =
    if not (bit_and crc 0x8000 == 0) then bit_xor (crc * 2) 0x1021 % 2 ^ 16 else crc * 2 % 2 ^ 16

-- The inner loop, of as many rounds.
abbrev pub crc_bits : ℕ → ℕ → ℕ
crc_bits zero crc = crc
crc_bits (suc b) crc = crc_bits b (crc_bit crc)

unfoldable pub crc_from : ℕ → Bytes → ℕ
crc_from crc [] = crc
crc_from crc (x ∷ xs) = crc_from (crc_bits 8 (bit_xor crc (x * 2 ^ 8) % 2 ^ 16)) xs

-- xmodem_crc16
unfoldable pub crc16 : Bytes → ℕ
crc16 data_bytes = crc_from 0 data_bytes

-- What arrived of a frame that holds n bytes of data: the block's number and its complement, the
-- data, and the CRC.
abbrev pub is_whole : ℕ → Bytes → Bool
is_whole n frame = leb (2 + n + 2) (length frame)

abbrev pub block_data : ℕ → Bytes → Bytes
block_data n frame = take n (drop 2 frame)

abbrev pub block_number : Bytes → ℕ
block_number frame = get_or frame 0 0

abbrev pub crc_received : ℕ → Bytes → ℕ
crc_received n frame = (get_or frame (2 + n) 0 * 2 ^ 8 + get_or frame (3 + n) 0) % 2 ^ 16

-- `good`
unfoldable pub is_good : ℕ → Bytes → Bool
is_good n frame =
    is_whole n frame
    && block_number frame == 255 - get_or frame 1 0
    && crc_received n frame == crc16 (block_data n frame)
