-- ===== src/Nvs/Blobs/Trips.antt =====
-- cmd_nvs/nvs_backup.c: a blob of any size is taken in as it was written.
use esp_console_kit.Prelude.{
  take-drop, ℕ, zero, suc, ◌+◌, ◌-◌, ◌*◌, ◌/◌, ◌%◌, ◌≤◌, ◌<◌, ◌≡◌, ◌≢◌, refl, sym, ap, ◌∙◌, true,
  false, Bool-cases, inl, inr, ◌⊎◌, some, [], ◌∷◌, ◌++◌, append-nil, append_assoc, Bytes, length,
  length-take, length-drop, take, drop, min, ltb, ◌==◌, arith,
}
use esp_console_kit.Ascii.{hex_of, hex_value-hex_digit}
use esp_console_kit.Nvs.Blobs.{
  blob_line_bytes, plus_line, plus_lines, text_blob, Blob, owed, whole, announced, hex_bytes, grown,
  plus_taken, blob_line, feed,
}

abbrev pub AreBytes : Bytes → Type 0
AreBytes [] = Unit {0}
AreBytes (x ∷ xs) = (x < 256) × AreBytes xs

AreBytes-take : (n : ℕ) (xs : Bytes) → AreBytes xs → AreBytes (take n xs)
AreBytes-take zero xs h = tt
AreBytes-take (suc n) [] h = tt
AreBytes-take (suc n) (x ∷ xs) h = (h.0, AreBytes-take n xs h.1)

AreBytes-drop : (n : ℕ) (xs : Bytes) → AreBytes xs → AreBytes (drop n xs)
AreBytes-drop zero xs h = h
AreBytes-drop (suc n) [] h = tt
AreBytes-drop (suc n) (x ∷ xs) h = AreBytes-drop n xs h.1

length-hex_of : (xs : Bytes) → length (hex_of xs) ≡ 2 * length xs
unfolding hex_of
length-hex_of [] = omega arith
length-hex_of (x ∷ xs) = omega (arith, length-hex_of xs)

hex_bytes-hex_of : (xs : Bytes) → AreBytes xs → hex_bytes (hex_of xs) ≡ some xs
unfolding hex_of hex_bytes
hex_bytes-hex_of [] h = refl
hex_bytes-hex_of (x ∷ xs) h = ground (
  arith,
  hex_value-hex_digit (x / 16) (omega arith),
  hex_value-hex_digit (x % 16) (omega arith),
  hex_bytes-hex_of xs h.1,
)

-- A line of a piece that is owed adds that piece.
blob_line-plus_line :
    (len have : ℕ) (got piece : Bytes)
    → AreBytes piece
    → 0 < length piece
    → have + length piece ≤ len
    → blob_line (owed len have got) (b' ' ∷ hex_of piece)
      ≡ grown len (have + length piece) got (some piece)
unfolding blob_line plus_taken
blob_line-plus_line len have got piece h pos room =
    let n = length-hex_of piece in
    let half : length (hex_of piece) / 2 ≡ length piece = omega (arith, n) in
    let even : (length (hex_of piece) % 2 == 0) ≡ true = ground (arith, n) in
    let long : ltb (length (hex_of piece)) 2 ≡ false = ground (arith, n) in
    let fits : ltb len (have + length piece) ≡ false = ground arith in
    rw (long, even, half, fits, hex_bytes-hex_of piece h) refl

-- A line taken with more to come, and the last one.
grown_more :
    (len have : ℕ) (got piece : Bytes)
    → have ≢ len
    → grown len have got (some piece) ≡ owed len have (got ++ piece)
grown_more len have got piece ne = ground arith

grown_last :
    (len have : ℕ) (got piece : Bytes)
    → have ≡ len
    → grown len have got (some piece) ≡ whole (got ++ piece)
grown_last len have got piece e = ground (arith, e)

same_or_not : (a b : ℕ) → (a ≡ b) ⊎ (a ≢ b)
same_or_not a b = elim (Bool-cases (a == b)) [
  | inl e ↦ inl (ground arith)
  | inr e ↦ inr (ground arith)
]

nil_of_length : (xs : Bytes) → length xs ≡ 0 → xs ≡ []
nil_of_length [] h = refl
nil_of_length (x ∷ xs) h = absurd (omega arith)

lines_step :
    (fuel x : ℕ) (xs : Bytes)
    → plus_lines (suc fuel) (x ∷ xs)
      ≡ plus_line (take blob_line_bytes (x ∷ xs)) ∷ plus_lines fuel (drop blob_line_bytes (x ∷ xs))
unfolding plus_lines
lines_step fuel x xs = refl

feed_lines :
    (fuel len have : ℕ) (got v : Bytes)
    → AreBytes v
    → 0 < length v
    → length v ≤ fuel
    → have + length v ≡ len
    → feed (owed len have got) (plus_lines fuel v) ≡ whole (got ++ v)
feed_lines fuel len have got [] h pos room size = absurd (omega arith)
feed_lines zero len have got (x ∷ xs) h pos room size = absurd (omega arith)
feed_lines (suc fuel) len have got (x ∷ xs) h pos room size =
    ap (feed (owed len have got)) (lines_step fuel x xs)
    ∙ ap (λ b. feed b (plus_lines fuel rest)) line
    ∙ elim (same_or_not (have + length piece) len) [
      | inl e ↦ ends e
      | inr e ↦ goes_on e (
          feed_lines fuel len (have + length piece) (got ++ piece) rest
            (AreBytes-drop blob_line_bytes v h) (more e) (omega (arith, n, l))
            (omega (arith, n, l, more e)))
    ]
  where
    v : Bytes
    v = x ∷ xs

    piece : Bytes
    piece = take blob_line_bytes v

    rest : Bytes
    rest = drop blob_line_bytes v

    n : length piece ≡ min blob_line_bytes (length v)
    n = length-take blob_line_bytes v

    l : length rest ≡ length v - blob_line_bytes
    l = length-drop blob_line_bytes v

    line :
        blob_line (owed len have got) (b' ' ∷ hex_of piece)
        ≡ grown len (have + length piece) got (some piece)
    line =
        blob_line-plus_line len have got piece (AreBytes-take blob_line_bytes v h)
          (omega (arith, n)) (omega (arith, n))

    joined : (got ++ piece) ++ rest ≡ got ++ v
    joined = append_assoc got piece rest ∙ ap (λ t. got ++ t) (take-drop blob_line_bytes v)

    more : have + length piece ≢ len → 0 < length rest
    more e = omega (arith, n, l)

    after : Blob → Blob
    after b = feed b (plus_lines fuel rest)

    ends :
        have + length piece ≡ len
        → after (grown len (have + length piece) got (some piece)) ≡ whole (got ++ v)
    ends e =
        let none_left = nil_of_length rest (omega (arith, n, l)) in
        ap after (grown_last len (have + length piece) got piece e)
        ∙ ap (λ r. feed (whole (got ++ piece)) (plus_lines fuel r)) none_left
        ∙ unfold plus_lines in
          refl
          ∙ ap whole (
              sym (append-nil (got ++ piece))
              ∙ ap (λ r. (got ++ piece) ++ r) (sym none_left)
              ∙ joined)

    goes_on :
        have + length piece ≢ len
        → after (owed len (have + length piece) (got ++ piece)) ≡ whole ((got ++ piece) ++ rest)
        → after (grown len (have + length piece) got (some piece)) ≡ whole (got ++ v)
    goes_on e ih =
        ap after (grown_more len (have + length piece) got piece e) ∙ ih ∙ ap whole joined

-- A blob of any bytes, taken in line by line from what text_blob writes of it, is whole again;
-- and so is the empty one, of which no line is written.
pub feed-text_blob : (v : Bytes) → AreBytes v → feed (announced (length v)) (text_blob v) ≡ whole v
unfolding text_blob
feed-text_blob [] h = unfold plus_lines in refl
feed-text_blob (x ∷ xs) h =
    let some_owed : announced (length (x ∷ xs)) ≡ owed (length (x ∷ xs)) 0 [] = ground arith in
    ap (λ b. feed b (plus_lines (length (x ∷ xs)) (x ∷ xs))) some_owed
    ∙ feed_lines (length (x ∷ xs)) (length (x ∷ xs)) 0 [] (x ∷ xs) h (omega arith) (omega arith)
        (omega arith)
