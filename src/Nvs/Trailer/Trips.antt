-- ===== src/Nvs/Trailer/Trips.antt =====
-- cmd_nvs/nvs_backup.c: what check_crc makes of a body and a trailer.
use native.Mathlib.Nat.{pow-suc}
use esp_console_kit.Prelude.{
  ℕ, zero, suc, ◌+◌, ◌*◌, ◌/◌, ◌%◌, ◌^◌, ◌<◌, ◌≡◌, ◌≢◌, refl, sym, ap, ◌∙◌, true, Option, none,
  some, [], ◌∷◌, ◌++◌, append_assoc, Bytes, length, length-append, ◌==◌, if◌then◌else◌, arith,
}
use esp_console_kit.Ascii.{hex_digit, hex_value, hex_value-hex_digit}
use esp_console_kit.Nvs.Rules.{is_prefix}
use esp_console_kit.Nvs.Trailer.{
  crc_prefix, crc_line_len, accepted, mismatch, trimmed, before_line, cut_last, next_hex, read_hex,
  sealed_by, check_crc,
}

-- The last n hex digits of w.
abbrev pub low_hex : ℕ → ℕ → Bytes
low_hex zero w = []
low_hex (suc n) w = low_hex n (w / 16) ++ hex_digit (w % 16) ∷ []

-- The last line, as the export writes it, for a CRC of w.
abbrev pub trailer : ℕ → Bytes
trailer w = crc_prefix ++ low_hex 8 w

length-low_hex : (n w : ℕ) → length (low_hex n w) ≡ n
length-low_hex zero w = refl
length-low_hex (suc n) w =
    omega (
      arith,
      length-append (low_hex n (w / 16)) (hex_digit (w % 16) ∷ []),
      length-low_hex n (w / 16),
    )

abbrev map_next : ℕ → Option ℕ → Option ℕ
map_next d none = none
map_next d (some w) = some ((w * 16 + d) % 2 ^ 32)

read_hex-append :
    (v d : ℕ) (xs : Bytes)
    → d < 16
    → read_hex v (xs ++ hex_digit d ∷ []) ≡ map_next d (read_hex v xs)
unfolding read_hex
read_hex-append v d [] h = ground (arith, hex_value-hex_digit d h)
read_hex-append v d (x ∷ xs) h = go (next_hex v (hex_value x)) (λ w. read_hex-append w d xs h)
  where
    go :
        (o : Option ℕ)
        → ((w : ℕ) → read_hex w (xs ++ hex_digit d ∷ []) ≡ map_next d (read_hex w xs))
        → elim o [ none ↦ none | some w ↦ read_hex w (xs ++ hex_digit d ∷ []) ]
          ≡ map_next d (elim o [ none ↦ none | some w ↦ read_hex w xs ])
    go none ih = refl
    go (some w) ih = ih w

read_hex-low_hex : (n w : ℕ) → w < 16 ^ n → w < 2 ^ 32 → read_hex 0 (low_hex n w) ≡ some w
read_hex-low_hex zero w h k = unfold read_hex in ap some (omega arith)
read_hex-low_hex (suc n) w h k =
    let ih = read_hex-low_hex n (w / 16) (omega (arith, pow-suc 16 n)) (omega arith) in
    read_hex-append 0 (w % 16) (low_hex n (w / 16)) (omega arith)
    ∙ ap (map_next (w % 16)) ih
    ∙ ap some (omega arith)

-- No line end.
abbrev pub OneLine : Bytes → Type 0
OneLine [] = Unit {0}
OneLine (x ∷ xs) = (x ≢ 10) × OneLine xs

OneLine-append : (xs ys : Bytes) → OneLine xs → OneLine ys → OneLine (xs ++ ys)
OneLine-append [] ys h k = k
OneLine-append (x ∷ xs) ys h k = (h.0, OneLine-append xs ys h.1 k)

hex_digit_ne : (d : ℕ) → d < 16 → hex_digit d ≢ 10
unfolding hex_digit
hex_digit_ne d h = ground arith

OneLine-low_hex : (n w : ℕ) → OneLine (low_hex n w)
OneLine-low_hex zero w = tt
OneLine-low_hex (suc n) w =
    OneLine-append (low_hex n (w / 16)) (hex_digit (w % 16) ∷ []) (OneLine-low_hex n (w / 16))
      (hex_digit_ne (w % 16) (omega arith), tt)

before_line_ne : (x : ℕ) (line : Bytes) → x ≢ 10 → before_line x ([], line) ≡ ([], x ∷ line)
before_line_ne x line h = ground arith

cut_last-one : (line : Bytes) → OneLine line → cut_last line ≡ ([], line)
unfolding cut_last
cut_last-one [] h = refl
cut_last-one (x ∷ xs) h = ap (before_line x) (cut_last-one xs h.1) ∙ before_line_ne x xs h.0

cut_last-append :
    (xs line : Bytes) → OneLine line → cut_last (xs ++ 10 ∷ line) ≡ (xs ++ 10 ∷ [], line)
unfolding cut_last
cut_last-append [] line h = ap (before_line 10) (cut_last-one line h)
cut_last-append (x ∷ []) line h = ap (before_line x) (cut_last-append [] line h)
cut_last-append (x ∷ y ∷ ys) line h = ap (before_line x) (cut_last-append (y ∷ ys) line h)

trimmed-append : (xs : Bytes) → trimmed (xs ++ 10 ∷ []) ≡ xs
unfolding trimmed
trimmed-append [] = refl
trimmed-append (x ∷ []) = refl
trimmed-append (x ∷ y ∷ ys) = ap (λ l. x ∷ l) (trimmed-append (y ∷ ys))

OneLine-crc_prefix : OneLine crc_prefix
OneLine-crc_prefix = (
  λ e. cc e,
  (λ e. cc e, (λ e. cc e, (λ e. cc e, (λ e. cc e, (λ e. cc e, (λ e. cc e, (λ e. cc e, tt))))))),
)

OneLine-trailer : (w : ℕ) → OneLine (trailer w)
OneLine-trailer w = OneLine-append crc_prefix (low_hex 8 w) OneLine-crc_prefix (OneLine-low_hex 8 w)

sealed_by-trailer :
    (crc : Bytes → ℕ) (body : Bytes) (w : ℕ)
    → w < 2 ^ 32
    → sealed_by crc (body, trailer w) ≡ (if crc body == w then accepted (length body) else mismatch)
unfolding sealed_by is_prefix
sealed_by-trailer crc body w h =
    let size : (length (trailer w) == crc_line_len) ≡ true = ground (arith, length-low_hex 8 w) in
    ground (arith, size, read_hex-low_hex 8 w (omega arith) h)

-- A body that ends in a line end, and behind it the line of a CRC below 2^32: check_crc accepts
-- it with the body's length if that is the body's CRC, and otherwise refuses it as a mismatch.
pub check_crc-trailer :
    (crc : Bytes → ℕ) (xs : Bytes) (w : ℕ)
    → w < 2 ^ 32
    → let body = xs ++ 10 ∷ [] in
      check_crc crc (body ++ (trailer w ++ 10 ∷ []))
      ≡ (if crc body == w then accepted (length body) else mismatch)
unfolding check_crc
check_crc-trailer crc xs w h =
    let body = xs ++ 10 ∷ [] in
    let one : body ++ (trailer w ++ 10 ∷ []) ≡ (xs ++ 10 ∷ trailer w) ++ 10 ∷ [] =
      append_assoc xs (10 ∷ []) (trailer w ++ 10 ∷ [])
      ∙ sym (append_assoc xs (10 ∷ trailer w) (10 ∷ [])) in
    ap (λ t. sealed_by crc (cut_last (trimmed t))) one
    ∙ ap (λ t. sealed_by crc (cut_last t)) (trimmed-append (xs ++ 10 ∷ trailer w))
    ∙ ap (sealed_by crc) (cut_last-append xs (trailer w) (OneLine-trailer w))
    ∙ sealed_by-trailer crc body w h
