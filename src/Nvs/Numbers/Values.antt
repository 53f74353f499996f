-- ===== src/Nvs/Numbers/Values.antt =====
-- cmd_nvs/nvs_backup.c: parse_u64 and parse_int against the value that the digits stand for.
use esp_console_kit.Prelude.{
  ℕ, ◌+◌, ◌-◌, ◌*◌, ◌/◌, ◌%◌, ◌^◌, ◌≤◌, ◌<◌, ◌≡◌, ◌≢◌, ap, ◌∙◌, Bool, true, false, not, ◌&&◌, ◌||◌,
  Bool-cases, if_intro, ◌⊎◌, inl, inr, Option, none, some, [], ◌∷◌, Bytes, ltb, leb, if◌then◌else◌,
  arith,
}
use esp_console_kit.Nvs.Numbers.{
  Kind, u8, i8, u16, i16, u32, i32, u64, i64, str, blob, int_bytes, int_signed, digits_from,
  parse_u64, unsigned_of, signed_of, minus, in_range, after_sign, parse_int,
}

abbrev pub is_digit : ℕ → Bool
is_digit c = not (ltb c b'0' || ltb b'9' c)

abbrev pub all_digits : Bytes → Bool
all_digits [] = true
all_digits (c ∷ cs) = is_digit c && all_digits cs

-- The number that digits stand for behind v, with no bound.
abbrev pub value_from : ℕ → Bytes → ℕ
value_from v [] = v
value_from v (c ∷ cs) = value_from (v * 10 + (c - b'0')) cs

value_from-le : (v : ℕ) (s : Bytes) → v ≤ value_from v s
value_from-le v [] = omega arith
value_from-le v (c ∷ cs) = omega (arith, value_from-le (v * 10 + (c - b'0')) cs)

digits_from_lem :
    (v : ℕ) (s : Bytes)
    → v < 2 ^ 64
    → digits_from v s
      ≡ (if all_digits s && ltb (value_from v s) (2 ^ 64) then some (value_from v s) else none)
unfolding digits_from
digits_from_lem v [] h = ground arith
digits_from_lem v (c ∷ cs) h =
    let d = c - b'0' in
    let bound = value_from-le (v * 10 + d) cs in
    elim (Bool-cases (ltb ((2 ^ 64 - 1 - d) / 10) v)) [
      | inl over ↦ ground (arith, over, bound)
      | inr fits ↦ elim (Bool-cases (ltb c b'0' || ltb b'9' c)) [
        | inl other ↦ ground (arith, other)
        | inr digit ↦
            let small : (v * 10 + d) % 2 ^ 64 ≡ v * 10 + d = ground arith in
            rw (digit, fits, small) (digits_from_lem (v * 10 + d) cs (ground arith))
      ]
    ]

-- parse_u64 of any text that is not empty is the number that its digits stand for, and fails
-- where something is no digit or the number is 2^64 or more.
pub parse_u64_lem :
    (c : ℕ) (cs : Bytes)
    → let s = c ∷ cs in
      parse_u64 s
      ≡ (if all_digits s && ltb (value_from 0 s) (2 ^ 64) then some (value_from 0 s) else none)
unfolding parse_u64
parse_u64_lem c cs = digits_from_lem 0 (c ∷ cs) (omega arith)

-- What a type has room for, without a sign.
abbrev pub limit_of : Kind → ℕ
limit_of t = if int_signed t then 2 ^ (int_bytes t * 8 - 1) else 2 ^ (int_bytes t * 8)

abbrev below : Bool → ℕ → Option ℕ
below ok v = if ok && ltb v (2 ^ 64) then some v else none

ranged_plain :
    (t : Kind) (ok : Bool) (v : ℕ)
    → in_range t false (below ok v) ≡ (if ok && ltb v (limit_of t) then some v else none)
unfolding in_range unsigned_of signed_of
ranged_plain u8 ok v = ground arith
ranged_plain i8 ok v = ground arith
ranged_plain u16 ok v = ground arith
ranged_plain i16 ok v = ground arith
ranged_plain u32 ok v = ground arith
ranged_plain i32 ok v = ground arith
ranged_plain u64 ok v = ground arith
ranged_plain i64 ok v = ground arith
ranged_plain str ok v = ground arith
ranged_plain blob ok v = ground arith

ranged_negative :
    (t : Kind) (ok : Bool) (v : ℕ)
    → int_signed t ≡ true
    → in_range t true (below ok v)
      ≡ (if ok && leb v (limit_of t) then some ((2 ^ 64 - v) % 2 ^ 64) else none)
unfolding in_range signed_of
ranged_negative u8 ok v h = absurd (cc h)
ranged_negative i8 ok v h = ground arith
ranged_negative u16 ok v h = absurd (cc h)
ranged_negative i16 ok v h = ground arith
ranged_negative u32 ok v h = absurd (cc h)
ranged_negative i32 ok v h = ground arith
ranged_negative u64 ok v h = absurd (cc h)
ranged_negative i64 ok v h = ground arith
ranged_negative str ok v h = absurd (cc h)
ranged_negative blob ok v h = absurd (cc h)

minus_plain :
    (signed : Bool) (c : ℕ) (cs : Bytes) → c ≢ b'-' → minus signed (c ∷ cs) ≡ (false, c ∷ cs)
unfolding minus
minus_plain signed c cs h = ground arith

minus_sign : (signed : Bool) (cs : Bytes) → signed ≡ true → minus signed (b'-' ∷ cs) ≡ (true, cs)
unfolding minus
minus_sign signed cs h = ground (arith, h)

-- Digits without a sign are read by parse_int as the number they stand for, and fail where
-- something is no digit or the number is beyond the type's largest.
parse_int_plain :
    (t : Kind) (c : ℕ) (cs : Bytes)
    → c ≢ b'-'
    → let s = c ∷ cs in
      parse_int t s
      ≡ (if all_digits s && ltb (value_from 0 s) (limit_of t) then some (value_from 0 s) else none)
unfolding parse_int
parse_int_plain t c cs h =
    ap (after_sign t) (minus_plain (int_signed t) c cs h)
    ∙ ap (in_range t false) (parse_u64_lem c cs)
    ∙ ranged_plain t (all_digits (c ∷ cs)) (value_from 0 (c ∷ cs))

-- Digits behind a '-' are read for a signed type as the number they stand for taken from 2^64,
-- and fail where something is no digit or the number is beyond the type's smallest.
parse_int_negative :
    (t : Kind) (c : ℕ) (cs : Bytes)
    → int_signed t ≡ true
    → let s = c ∷ cs in
      parse_int t (b'-' ∷ s) ≡ (
        if all_digits s && leb (value_from 0 s) (limit_of t)
        then some ((2 ^ 64 - value_from 0 s) % 2 ^ 64)
        else none)
unfolding parse_int
parse_int_negative t c cs h =
    ap (after_sign t) (minus_sign (int_signed t) (c ∷ cs) h)
    ∙ ap (in_range t true) (parse_u64_lem c cs)
    ∙ ranged_negative t (all_digits (c ∷ cs)) (value_from 0 (c ∷ cs)) h

-- An integer that its type holds: its 64 bits, sign extended.
abbrev pub IntFits : Kind → ℕ → Type 0
IntFits t v = (v < limit_of t) ⊎ ((int_signed t ≡ true) × (2 ^ 64 - limit_of t ≤ v) × (v < 2 ^ 64))

abbrev pub OptIntFits : Kind → Option ℕ → Type 0
OptIntFits t none = Unit {0}
OptIntFits t (some v) = IntFits t v

abbrev OptWord : Option ℕ → Type 0
OptWord none = Unit {0}
OptWord (some v) = v < 2 ^ 64

parse_u64-OptWord : (s : Bytes) → OptWord (parse_u64 s)
parse_u64-OptWord [] = unfold parse_u64 in tt
parse_u64-OptWord (c ∷ cs) = rw (parse_u64_lem c cs) (
    if_intro OptWord (all_digits (c ∷ cs) && ltb (value_from 0 (c ∷ cs)) (2 ^ 64)) _ _
      (λ h. ground arith) (λ _. tt))

ranged-OptIntFits :
    (t : Kind) (neg : Bool) (v : ℕ) → v < 2 ^ 64 → OptIntFits t (in_range t neg (some v))
unfolding in_range unsigned_of signed_of
ranged-OptIntFits u8 neg v h =
    if_intro (OptIntFits u8) (ltb (int_bytes u8 * 8) 64 && ltb (2 ^ (int_bytes u8 * 8) - 1) v) none
      (some v) (λ _. tt) (λ e. ground arith)
ranged-OptIntFits i8 true v h =
    if_intro (OptIntFits i8) (ltb (limit_of i8) v) none (some ((2 ^ 64 - v) % 2 ^ 64)) (λ _. tt)
      (λ e. ground arith)
ranged-OptIntFits i8 false v h =
    if_intro (OptIntFits i8) (leb (limit_of i8) v) none (some v) (λ _. tt) (λ e. ground arith)
ranged-OptIntFits u16 neg v h =
    if_intro (OptIntFits u16) (ltb (int_bytes u16 * 8) 64 && ltb (2 ^ (int_bytes u16 * 8) - 1) v)
      none (some v) (λ _. tt) (λ e. ground arith)
ranged-OptIntFits i16 true v h =
    if_intro (OptIntFits i16) (ltb (limit_of i16) v) none (some ((2 ^ 64 - v) % 2 ^ 64)) (λ _. tt)
      (λ e. ground arith)
ranged-OptIntFits i16 false v h =
    if_intro (OptIntFits i16) (leb (limit_of i16) v) none (some v) (λ _. tt) (λ e. ground arith)
ranged-OptIntFits u32 neg v h =
    if_intro (OptIntFits u32) (ltb (int_bytes u32 * 8) 64 && ltb (2 ^ (int_bytes u32 * 8) - 1) v)
      none (some v) (λ _. tt) (λ e. ground arith)
ranged-OptIntFits i32 true v h =
    if_intro (OptIntFits i32) (ltb (limit_of i32) v) none (some ((2 ^ 64 - v) % 2 ^ 64)) (λ _. tt)
      (λ e. ground arith)
ranged-OptIntFits i32 false v h =
    if_intro (OptIntFits i32) (leb (limit_of i32) v) none (some v) (λ _. tt) (λ e. ground arith)
ranged-OptIntFits u64 neg v h =
    if_intro (OptIntFits u64) (ltb (int_bytes u64 * 8) 64 && ltb (2 ^ (int_bytes u64 * 8) - 1) v)
      none (some v) (λ _. tt) (λ e. ground arith)
ranged-OptIntFits i64 true v h =
    if_intro (OptIntFits i64) (ltb (limit_of i64) v) none (some ((2 ^ 64 - v) % 2 ^ 64)) (λ _. tt)
      (λ e. ground arith)
ranged-OptIntFits i64 false v h =
    if_intro (OptIntFits i64) (leb (limit_of i64) v) none (some v) (λ _. tt) (λ e. ground arith)
ranged-OptIntFits str neg v h =
    if_intro (OptIntFits str) (ltb (int_bytes str * 8) 64 && ltb (2 ^ (int_bytes str * 8) - 1) v)
      none (some v) (λ _. tt) (λ e. ground arith)
ranged-OptIntFits blob neg v h =
    if_intro (OptIntFits blob) (ltb (int_bytes blob * 8) 64 && ltb (2 ^ (int_bytes blob * 8) - 1) v)
      none (some v) (λ _. tt) (λ e. ground arith)

in_range-OptIntFits :
    (t : Kind) (neg : Bool) (o : Option ℕ) → OptWord o → OptIntFits t (in_range t neg o)
unfolding in_range
in_range-OptIntFits t neg none h = tt
in_range-OptIntFits t neg (some v) h = ranged-OptIntFits t neg v h

-- What parse_int gives, its type holds.
pub parse_int-OptIntFits : (t : Kind) (s : Bytes) → OptIntFits t (parse_int t s)
unfolding parse_int
parse_int-OptIntFits t s =
    let (neg, digits) = minus (int_signed t) s in
    in_range-OptIntFits t neg (parse_u64 digits) (parse_u64-OptWord digits)
