-- ===== src/Nvs/Strs/Trips.antt =====
-- cmd_nvs/nvs_backup.c: a str is read back as it was written, and reading always ends.
use esp_console_kit.Prelude.{
  ℕ, zero, suc, ◌/◌, ◌%◌, ◌≤◌, ◌<◌, ◌≡◌, refl, ap, ◌∙◌, true, false, ◌||◌, some, [], ◌∷◌, ◌++◌,
  Bytes, length, Bool-cases, inl, inr, ◌≢◌, ltb, ◌==◌, arith,
}
use esp_console_kit.Ascii.{hex_digit, hex_value-hex_digit}
use esp_console_kit.Nvs.Strs.{
  str_max, escape_char, escapes, quoted, taken, byte, round, push, decode_str, before_quote,
  unquoted, parse_str,
}

-- A C string: no NUL, and bytes.
abbrev pub IsText : Bytes → Type 0
IsText [] = Unit {0}
IsText (x ∷ xs) = (0 < x) × (x < 256) × IsText xs

-- How the escape of a byte is taken apart again: it is one round, whatever follows.
record OneRound (x : ℕ) (rest : Bytes) : Type 0 where
  first : ℕ
  more : Bytes
  shape : escape_char x ++ rest ≡ first ∷ more
  reads : round first more ≡ byte x rest
  size : length rest ≤ length more

module _ (x : ℕ) (rest : Bytes) where
  marked : (x == b'"' || x == b'\\') ≡ true → OneRound x rest
  marked h = record {
    first = b'\\';
    more = x ∷ rest;
    shape = unfold escape_char in ground (arith, h);
    reads = unfold round in ground (arith, h);
    size = omega arith;
  }

  newline : x ≡ 10 → OneRound x rest
  newline h = record {
    first = b'\\';
    more = b'n' ∷ rest;
    shape = unfold escape_char in ground (arith, h);
    reads = unfold round in ground (arith, h);
    size = omega arith;
  }

  in_hex : 0 < x → x < 256 → x ≢ 10 → (ltb x 0x20 || ltb 0x7e x) ≡ true → OneRound x rest
  in_hex pos small ne h = record {
    first = b'\\';
    more = b'x' ∷ hex_digit (x / 16) ∷ hex_digit (x % 16) ∷ rest;
    shape = unfold escape_char in ground (arith, h);
    reads =
        unfold round in
        ground (
          arith,
          hex_value-hex_digit (x / 16) (omega arith),
          hex_value-hex_digit (x % 16) (omega arith),
        );
    size = omega arith;
  }

  plain : (x == b'"' || x == b'\\') ≡ false → (ltb x 0x20 || ltb 0x7e x) ≡ false → OneRound x rest
  plain h k = record {
    first = x;
    more = rest;
    shape = unfold escape_char in ground (arith, h, k);
    reads = unfold round in ground (arith, h, k);
    size = omega arith;
  }

  escape_char-OneRound : 0 < x → x < 256 → OneRound x rest
  escape_char-OneRound pos small = elim (Bool-cases (x == b'"' || x == b'\\')) [
    | inl h ↦ marked h
    | inr h ↦ elim (Bool-cases (ltb x 0x20 || ltb 0x7e x)) [
      | inr k ↦ plain h k
      | inl k ↦ elim (Bool-cases (x == 10)) [
        | inl e ↦ newline (ground arith)
        | inr e ↦ in_hex pos small (ground arith) k
      ]
    ]
  ]

decode_step :
    (fuel x c : ℕ) (cs rest : Bytes)
    → round c cs ≡ byte x rest
    → decode_str (suc fuel) (c ∷ cs) ≡ push x (decode_str fuel rest)
unfolding decode_str
decode_step fuel x c cs rest e = rw (e, decode_str)

decode_str-escapes :
    (fuel : ℕ) (s : Bytes)
    → IsText s
    → length (escapes s) ≤ fuel
    → decode_str fuel (escapes s) ≡ some (taken s)
decode_str-escapes fuel [] h room = unfold decode_str in refl
decode_str-escapes zero (x ∷ xs) h room =
    let r = escape_char-OneRound x (escapes xs) h.0 h.1 in
    absurd (omega (arith, ap (λ (l : Bytes). length l) r.shape))
decode_str-escapes (suc fuel) (x ∷ xs) h room =
    let r = escape_char-OneRound x (escapes xs) h.0 h.1 in
    let n = ap (λ (l : Bytes). length l) r.shape in
    ap (decode_str (suc fuel)) r.shape
    ∙ decode_step fuel x r.first r.more (escapes xs) r.reads
    ∙ ap (push x) (decode_str-escapes fuel xs h.2 (omega (arith, r.size, n)))

before_quote-append : (s : Bytes) → before_quote (s ++ b'"' ∷ []) ≡ some s
unfolding before_quote
before_quote-append [] = refl
before_quote-append (c ∷ []) = refl
before_quote-append (c ∷ d ∷ ds) = ground (arith, before_quote-append (d ∷ ds))

unquoted-quoted : (s : Bytes) → unquoted (quoted s) ≡ some (escapes s)
unfolding unquoted
unquoted-quoted s = before_quote-append (escapes s)

-- A C string of at most 3999 bytes is read back by parse_str from what text_str writes of it
-- between the blank and the line's end.
pub parse_str-quoted :
    (s : Bytes) → IsText s → length s < str_max → parse_str (quoted s) ≡ some (taken s)
unfolding parse_str
parse_str-quoted s h short =
    ground (arith, unquoted-quoted s, decode_str-escapes (length (escapes s)) s h (omega arith))
