-- ===== src/Nvs/Strs.antt =====
-- cmd_nvs/nvs_backup.c: a str as the format writes it and reads it (escape_char, text_str,
-- parse_str). What is written is the text where memory suffices.
pub mod Trips
pub mod Total
use esp_console_kit.Prelude.{
  ℕ, zero, suc, ◌+◌, ◌*◌, ◌/◌, ◌%◌, ◌||◌, Option, none, some, [], ◌∷◌, ◌++◌, Bytes, length, ltb,
  ◌==◌, if◌then◌else◌,
}
use esp_console_kit.Ascii.{hex_digit, hex_value}

-- STR_MAX
abbrev pub str_max : ℕ
str_max = 4000

-- escape_char
unfoldable pub escape_char : ℕ → Bytes
escape_char c =
    if c == b'"' || c == b'\\'
    then b'\\' ∷ c ∷ []
    else if c == 10
    then b'\\' ∷ b'n' ∷ []
    else if ltb c 0x20 || ltb 0x7e c
    then b'\\' ∷ b'x' ∷ hex_digit (c / 16) ∷ hex_digit (c % 16) ∷ []
    else c ∷ []

-- The loop of text_str.
abbrev pub escapes : Bytes → Bytes
escapes [] = []
escapes (c ∷ cs) = escape_char c ++ escapes cs

abbrev pub quoted : Bytes → Bytes
quoted s = b'"' ∷ escapes s ++ b'"' ∷ []

-- text_str, behind the entry's type
unfoldable pub text_str : Bytes → Bytes
text_str s = b' ' ∷ quoted s ++ 10 ∷ []

-- What parse_str says where it refuses.
pub data Fault : Type 0 where
  not_quoted unescaped_quote raw_byte lone_backslash holds_nul unknown_escape too_long : Fault

pub data Outcome : Type 0 where
  taken : Bytes → Outcome
  fault : Fault → Outcome

-- One round of the loop, from `c` on: the byte decoded and what is left, or why not.
pub data Round : Type 0 where
  byte : ℕ → Bytes → Round
  refuse : Fault → Round

unfoldable pub hex_pair : Option ℕ → Option ℕ → Bytes → Round
hex_pair (some hi) (some lo) rest =
    if hi * 16 + lo == 0 then refuse holds_nul else byte (hi * 16 + lo) rest
hex_pair _ _ rest = refuse unknown_escape

unfoldable pub hex_escape : Bytes → Round
unfolding hex_pair
hex_escape [] = refuse unknown_escape
hex_escape (h ∷ []) = refuse unknown_escape
hex_escape (h ∷ l ∷ rest) = hex_pair (hex_value h) (hex_value l) rest

unfoldable pub escaped : Bytes → Round
unfolding hex_escape
escaped [] = refuse lone_backslash
escaped (e ∷ rest) =
    if e == b'"' || e == b'\\'
    then byte e rest
    else if e == b'n'
    then byte 10 rest
    else if e == b'x'
    then hex_escape rest
    else refuse unknown_escape

unfoldable pub round : ℕ → Bytes → Round
unfolding escaped
round c cs =
    if c == b'"'
    then refuse unescaped_quote
    else if ltb c 0x20 || ltb 0x7e c
    then refuse raw_byte
    else if c == b'\\'
    then escaped cs
    else byte c cs

abbrev pub push : ℕ → Option Outcome → Option Outcome
push x none = none
push x (some (fault f)) = some (fault f)
push x (some (taken xs)) = some (taken (x ∷ xs))

-- The loop, over what stands between the quotes; none is fuel that ran out.
unfoldable pub decode_str : ℕ → Bytes → Option Outcome
decode_str fuel [] = some (taken [])
decode_str zero (c ∷ cs) = none
decode_str (suc fuel) (c ∷ cs) = elim (round c cs) [
  | refuse f ↦ some (fault f)
  | byte x rest ↦ push x (decode_str fuel rest)
]

-- What stands before a last '"'.
unfoldable pub before_quote : Bytes → Option Bytes
before_quote [] = none
before_quote (c ∷ []) = if c == b'"' then some [] else none
before_quote (c ∷ d ∷ ds) = elim (before_quote (d ∷ ds)) [
  | none ↦ none
  | some inner ↦ some (c ∷ inner)
]

-- The text without its quotes, or none where it has not two.
unfoldable pub unquoted : Bytes → Option Bytes
unquoted [] = none
unquoted (c ∷ cs) = if c == b'"' then before_quote cs else none

-- The test of the length, which comes last.
abbrev pub limited : Outcome → Outcome
limited (fault f) = fault f
limited (taken xs) = if ltb str_max (length xs + 1) then fault too_long else taken xs

-- parse_str of [s, s + n)
unfoldable pub parse_str : Bytes → Option Outcome
parse_str s = elim (unquoted s) [
  | none ↦ some (fault not_quoted)
  | some inner ↦ elim (decode_str (length inner) inner) [ none ↦ none | some o ↦ some (limited o) ]
]
