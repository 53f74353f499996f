-- ===== src/Xmodem/Send/Frames.antt =====
-- cmd_fs/xmodem.c: a receiver takes the frames that xmodem_send builds.
use Prim.Native.Nat.{bit_and, bit_xor}
use esp_console_kit.Prelude.{
  ℕ, zero, suc, ◌+◌, ◌-◌, ◌*◌, ◌%◌, ◌^◌, ◌≤◌, ◌<◌, ◌≡◌, refl, sym, ap, ◌∙◌, true, not, ◌&&◌, ◌⊎◌,
  inl, inr, if_intro, [], ◌∷◌, ◌++◌, Bytes, length, length-append, take-append_le, take_all, get_or,
  replicate, leb, ◌==◌, arith,
}
use esp_console_kit.Prelude.Errors.{EspErr}
use esp_console_kit.Xmodem.Frame.{
  sub, crc_bit, crc_bits, crc_from, crc16, is_good, block_data, block_number, crc_received,
}
use esp_console_kit.Xmodem.Receive.{Rx, in_block, goes, took_byte}
use esp_console_kit.Xmodem.Send.{block_size, frame_size, padded, header, check_bytes, frame_of}

crc_bit_bound : (crc : ℕ) → crc_bit crc < 2 ^ 16
crc_bit_bound crc =
    if_intro (λ (c : ℕ). c < 2 ^ 16) (not (bit_and crc 0x8000 == 0)) _ _ (λ _. omega arith)
      (λ _. omega arith)

crc_bits_bound : (b crc : ℕ) → crc < 2 ^ 16 → crc_bits b crc < 2 ^ 16
crc_bits_bound zero crc h = h
crc_bits_bound (suc b) crc h = crc_bits_bound b (crc_bit crc) (crc_bit_bound crc)

crc_from_bound : (d : Bytes) (crc : ℕ) → crc < 2 ^ 16 → crc_from crc d < 2 ^ 16
unfolding crc_from
crc_from_bound [] crc h = h
crc_from_bound (x ∷ xs) crc h =
    let start = bit_xor crc (x * 2 ^ 8) % 2 ^ 16 in
    crc_from_bound xs (crc_bits 8 start) (crc_bits_bound 8 start (omega arith))

crc16_bound : (d : Bytes) → crc16 d < 2 ^ 16
unfolding crc16
crc16_bound d = crc_from_bound d 0 (omega arith)

get_or_behind :
    (xs ys : Bytes) (n i : ℕ) → length xs ≡ n → get_or (xs ++ ys) (n + i) 0 ≡ get_or ys i 0
get_or_behind [] ys n i h = ap (λ k. get_or ys k 0) (omega arith)
get_or_behind (x ∷ xs) ys n i h =
    let next : n + i ≡ suc (length xs + i) = omega arith in
    ap (λ k. get_or (x ∷ (xs ++ ys)) k 0) next ∙ get_or_behind xs ys (length xs) i refl

length-replicate : (n c : ℕ) → length (replicate n c) ≡ n
length-replicate zero c = refl
length-replicate (suc n) c = let ih = length-replicate n c in omega (arith, ih)

pub length-padded : (size : ℕ) (d : Bytes) → length d ≤ size → length (padded size d) ≡ size
length-padded size d h =
    let whole = length-append d (replicate (size - length d) sub) in
    omega (arith, whole, length-replicate (size - length d) sub, h)

-- A number, its complement, data and the CRC.
module _ (num n : ℕ) (d : Bytes) (small : num < 256) (fits : length d ≡ n) where
  abbrev whole_frame : Bytes
  whole_frame = num ∷ (255 - num) ∷ (d ++ check_bytes true d)

  block_data-whole_frame : block_data n whole_frame ≡ d
  block_data-whole_frame =
      take-append_le n d (check_bytes true d) (omega (arith, fits))
      ∙ take_all n d (omega (arith, fits))

  check_byte : (i : ℕ) → get_or whole_frame (2 + n + i) 0 ≡ get_or (check_bytes true d) i 0
  check_byte i =
      let there : 2 + n + i ≡ suc (suc (n + i)) = omega arith in
      ap (λ k. get_or whole_frame k 0) there ∙ get_or_behind d (check_bytes true d) n i fits

  crc_received-whole_frame : crc_received n whole_frame ≡ crc16 d
  crc_received-whole_frame =
      let at_high : 2 + n ≡ 2 + n + 0 = omega arith in
      let at_low : 3 + n ≡ 2 + n + 1 = omega arith in
      let high = ap (λ k. get_or whole_frame k 0) at_high ∙ check_byte 0 in
      let low = ap (λ k. get_or whole_frame k 0) at_low ∙ check_byte 1 in
      omega (arith, high, low, crc16_bound d)

  is_good-whole_frame : is_good n whole_frame ≡ true
  unfolding is_good
  is_good-whole_frame =
      let whole : 2 + n + 2 ≤ length whole_frame =
        let l = length-append d (check_bytes true d) in omega (arith, l, fits) in
      let sum : crc_received n whole_frame ≡ crc16 (block_data n whole_frame) =
        crc_received-whole_frame ∙ ap crc16 (sym block_data-whole_frame) in
      ground (arith, whole, sum, small)

-- The header of a frame of `size` bytes, and what follows it.
abbrev Understood : (ℕ → Bytes → Type 0) → Bytes → Type 0
Understood P [] = ⊥
Understood P (c ∷ cs) = P c cs

-- What a receiver makes of a frame: the header announces a block of `size` bytes, and behind it
-- comes a good one, of that number, that holds those data.
abbrev pub Carries : ℕ → (Bytes → Bytes → EspErr) → Rx → ℕ → ℕ → Bytes → Bytes → Type 0
Carries expected sink rx size num d = Understood (λ c body.
    (took_byte expected sink c rx ≡ goes (in_block size) rx)
    × (is_good size body ≡ true)
    × (block_number body ≡ num)
    × (block_data size body ≡ d))

pub frame_size_cases :
    (asked k : ℕ)
    → let size = frame_size true (block_size true asked) k in (size ≡ 128) ⊎ (size ≡ 1024)
frame_size_cases asked k =
    if_intro (λ (m : ℕ). (m ≡ 128) ⊎ (m ≡ 1024)) (true && leb k 128) _ _ (λ _. inl refl)
      (λ _.
        if_intro (λ (m : ℕ). (m ≡ 128) ⊎ (m ≡ 1024)) (true && not (asked == 128)) _ _
          (λ _. inr refl) (λ _. inl refl))

pub frame_size_bound :
    (asked k : ℕ) → k ≤ block_size true asked → k ≤ frame_size true (block_size true asked) k
frame_size_bound asked k h =
    if_intro (λ (m : ℕ). k ≤ m) (true && leb k 128) _ _ (λ e. ground (arith, e)) (λ _. h)

header-took_byte :
    (expected : ℕ) (sink : Bytes → Bytes → EspErr) (rx : Rx) (size : ℕ)
    → (size ≡ 128) ⊎ (size ≡ 1024)
    → took_byte expected sink (header size) rx ≡ goes (in_block size) rx
unfolding took_byte
header-took_byte expected sink rx size (inl e) = rw e refl
header-took_byte expected sink rx size (inr e) = rw e refl

-- A block of data that fits, sent with a CRC and a number below 256, reaches a receiver whole:
-- the header that xmodem_send writes makes xmodem_receive wait for a block of the size sent, what
-- follows it passes as a good block, and its number and its padded data are those sent.
pub frame_of-Carries :
    (expected : ℕ) (sink : Bytes → Bytes → EspErr) (rx : Rx) (asked num : ℕ) (d : Bytes)
    → num < 256
    → length d ≤ block_size true asked
    → let size = frame_size true (block_size true asked) (length d) in
      Carries expected sink rx size num (padded size d) (frame_of true asked num d)
unfolding frame_of
frame_of-Carries expected sink rx asked num d small fits =
    let n = frame_size true (block_size true asked) (length d) in
    let whole = padded n d in
    let len = length-padded n d (frame_size_bound asked (length d) fits) in
    (
      header-took_byte expected sink rx n (frame_size_cases asked (length d)),
      is_good-whole_frame num n whole small len,
      refl,
      block_data-whole_frame num n whole small len,
    )
