-- ===== src/Nvs/Strs/Total.antt =====
-- cmd_nvs/nvs_backup.c: parse_str of any text ends, and what it takes is a str that NVS can hold.
use esp_console_kit.Prelude.{
  ℕ, zero, suc, ◌+◌, ◌*◌, ◌≤◌, ◌<◌, ◌||◌, Option, none, some, [], ◌∷◌, Bytes, length, if_intro, ltb,
  ◌==◌, arith,
}
use esp_console_kit.Ascii.{hex_value}
use esp_console_kit.Nvs.Strs.{
  str_max, not_quoted, Outcome, taken, fault, Round, byte, refuse, round, hex_pair, hex_escape,
  escaped, push, decode_str, unquoted, limited, parse_str,
}

abbrev pub NoNul : Bytes → Type 0
NoNul [] = Unit {0}
NoNul (x ∷ xs) = (0 < x) × NoNul xs

-- A round takes at least one byte off, and gives none that is NUL.
abbrev Fine : Round → ℕ → Type 0
Fine (refuse f) n = Unit {0}
Fine (byte x rest) n = (0 < x) × (length rest ≤ n)

hex_pair-Fine :
    (hi lo : Option ℕ) (rest : Bytes) (n : ℕ) → length rest ≤ n → Fine (hex_pair hi lo rest) n
unfolding hex_pair
hex_pair-Fine none lo rest n h = tt
hex_pair-Fine (some hi) none rest n h = tt
hex_pair-Fine (some hi) (some lo) rest n h =
    if_intro (λ r. Fine r n) (hi * 16 + lo == 0) _ _ (λ e. tt) (λ e. (ground arith, h))

escaped-Fine : (cs : Bytes) → Fine (escaped cs) (length cs)
unfolding escaped
escaped-Fine [] = tt
escaped-Fine (e ∷ cs) =
    if_intro fine (e == b'"' || e == b'\\') _ _ (λ q. (ground arith, omega arith))
      (λ _.
        if_intro fine (e == b'n') _ _ (λ _. (omega arith, omega arith))
          (λ _. if_intro fine (e == b'x') _ _ (λ _. hex cs) (λ _. tt)))
  where
    fine : Round → Type 0
    fine r = Fine r (suc (length cs))

    hex : (ds : Bytes) → Fine (hex_escape ds) (suc (length ds))
    hex [] = unfold hex_escape in tt
    hex (h ∷ []) = unfold hex_escape in tt
    hex (h ∷ l ∷ ds) =
        unfold hex_escape in
        hex_pair-Fine (hex_value h) (hex_value l) ds (suc (suc (suc (length ds)))) (omega arith)

round-Fine : (c : ℕ) (cs : Bytes) → Fine (round c cs) (length cs)
unfolding round
round-Fine c cs =
    if_intro fine (c == b'"') _ _ (λ _. tt)
      (λ _.
        if_intro fine (ltb c 0x20 || ltb 0x7e c) _ _ (λ _. tt)
          (λ k.
            if_intro fine (c == b'\\') _ _ (λ _. escaped-Fine cs)
              (λ _. (ground arith, omega arith))))
  where
    fine : Round → Type 0
    fine r = Fine r (length cs)

-- What the loop gives of n bytes.
abbrev Sound : ℕ → Option Outcome → Type 0
Sound n none = ⊥
Sound n (some (fault f)) = Unit {0}
Sound n (some (taken xs)) = NoNul xs × (length xs ≤ n)

push-Sound : (x n : ℕ) (o : Option Outcome) → 0 < x → Sound n o → Sound (suc n) (push x o)
push-Sound x n none pos h = h
push-Sound x n (some (fault f)) pos h = h
push-Sound x n (some (taken xs)) pos h = ((pos, h.0), omega (arith, h.1))

Sound-le : (n m : ℕ) (o : Option Outcome) → n ≤ m → Sound n o → Sound m o
Sound-le n m none le h = h
Sound-le n m (some (fault f)) le h = h
Sound-le n m (some (taken xs)) le h = (h.0, omega (arith, h.1))

decode_str-Sound :
    (fuel : ℕ) (cs : Bytes) → length cs ≤ fuel → Sound (length cs) (decode_str fuel cs)
unfolding decode_str
decode_str-Sound fuel [] h = (tt, omega arith)
decode_str-Sound zero (c ∷ cs) h = absurd (omega arith)
decode_str-Sound (suc fuel) (c ∷ cs) h =
    go (round c cs) (round-Fine c cs) (λ rest le. decode_str-Sound fuel rest (omega arith))
  where
    go :
        (r : Round)
        → Fine r (length cs)
        → ((rest : Bytes) → length rest ≤ length cs → Sound (length rest) (decode_str fuel rest))
        → Sound
            (suc (length cs))
            (elim r [ refuse f ↦ some (fault f) | byte x rest ↦ push x (decode_str fuel rest) ])
    go (refuse f) t ih = tt
    go (byte x rest) (pos, le) ih =
        push-Sound x (length cs) (decode_str fuel rest) pos
          (Sound-le (length rest) (length cs) (decode_str fuel rest) le (ih rest le))

-- What parse_str answers: a fault, or a str that fits.
abbrev pub Answer : Option Outcome → Type 0
Answer none = ⊥
Answer (some (fault f)) = Unit {0}
Answer (some (taken xs)) = NoNul xs × (length xs < str_max)

-- parse_str of any text ends, and a str that it takes holds no NUL and at most 3999 bytes.
pub parse_str-Answer : (s : Bytes) → Answer (parse_str s)
unfolding parse_str
parse_str-Answer s = go (unquoted s)
  where
    limit :
        (n : ℕ) (o : Option Outcome)
        → Sound n o
        → Answer (elim o [ none ↦ none | some a ↦ some (limited a) ])
    limit n none h = h
    limit n (some (fault f)) h = tt
    limit n (some (taken xs)) h =
        if_intro (λ a. Answer (some a)) (ltb str_max (length xs + 1)) _ _ (λ _. tt)
          (λ e. (h.0, ground arith))

    go :
        (u : Option Bytes)
        → Answer (elim u [
          | none ↦ some (fault not_quoted)
          | some inner ↦ elim (decode_str (length inner) inner) [
            | none ↦ none
            | some o ↦ some (limited o)
          ]
        ])
    go none = tt
    go (some inner) =
        limit (length inner) (decode_str (length inner) inner)
          (decode_str-Sound (length inner) inner (omega arith))
