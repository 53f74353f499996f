-- ===== src/Nvs/Blobs.antt =====
-- cmd_nvs/nvs_backup.c: the '+' lines of a blob, as text_blob writes them and as the loop of parse
-- takes them in. A line is without its line end; what is written is the text where memory suffices.
pub mod Trips
use esp_console_kit.Prelude.{
  ℕ, zero, suc, ◌+◌, ◌*◌, ◌/◌, ◌%◌, Bool, not, ◌||◌, Option, none, some, List, [], ◌∷◌, ◌++◌, Bytes,
  length, take, drop, ltb, ◌==◌, if◌then◌else◌,
}
use esp_console_kit.Ascii.{hex_of, hex_value}

-- BLOB_LINE_BYTES
abbrev pub blob_line_bytes : ℕ
blob_line_bytes = 64

abbrev pub plus_line : Bytes → Bytes
plus_line piece = b'+' ∷ b' ' ∷ hex_of piece

-- The loop of text_blob; a round for each byte is more than enough.
unfoldable pub plus_lines : ℕ → Bytes → List Bytes
plus_lines fuel [] = []
plus_lines zero (x ∷ xs) = []
plus_lines (suc fuel) (x ∷ xs) =
    plus_line (take blob_line_bytes (x ∷ xs)) ∷ plus_lines fuel (drop blob_line_bytes (x ∷ xs))

-- text_blob, behind the line with the size
unfoldable pub text_blob : Bytes → List Bytes
text_blob v = plus_lines (length v) v

-- Why the loop refuses a line.
pub data LineFault : Type 0 where
  no_blob misshapen beyond_size not_hex : LineFault

-- `blob`, `have` and the bytes taken: still owed some, none owed, or refused.
pub data Blob : Type 0 where
  owed : ℕ → ℕ → Bytes → Blob
  whole : Bytes → Blob
  broken : LineFault → Blob

-- A blob of the size an entry gives.
abbrev pub announced : ℕ → Blob
announced len = if len == 0 then whole [] else owed len 0 []

unfoldable pub pair : Option ℕ → Option ℕ → Option Bytes → Option Bytes
pair (some hi) (some lo) (some rest) = some ((hi * 16 + lo) ∷ rest)
pair _ _ _ = none

-- The inner loop, over the hex digits; none where one is not.
unfoldable pub hex_bytes : Bytes → Option Bytes
unfolding pair
hex_bytes [] = some []
hex_bytes (h ∷ []) = none
hex_bytes (h ∷ l ∷ rest) = pair (hex_value h) (hex_value l) (hex_bytes rest)

abbrev pub grown : ℕ → ℕ → Bytes → Option Bytes → Blob
grown len have got none = broken not_hex
grown len have got (some bytes) =
    if have == len then whole (got ++ bytes) else owed len have (got ++ bytes)

-- A line that begins with '+': what stands behind that.
unfoldable pub plus_taken : ℕ → ℕ → Bytes → Bytes → Blob
plus_taken len have got [] = broken misshapen
plus_taken len have got (c ∷ hex) =
    if ltb (length hex) 2 || not (c == b' ') || not (length hex % 2 == 0)
    then broken misshapen
    else if ltb len (have + length hex / 2)
    then broken beyond_size
    else grown len (have + length hex / 2) got (hex_bytes hex)

-- The branch of parse for a line that begins with '+', at what follows that.
unfoldable pub blob_line : Blob → Bytes → Blob
blob_line (owed len have got) line = plus_taken len have got line
blob_line (whole got) line = broken no_blob
blob_line (broken f) line = broken f

-- Lines in turn, each with its '+'.
abbrev pub feed : Blob → List Bytes → Blob
feed b [] = b
feed b ([] ∷ lines) = broken misshapen
feed b ((c ∷ line) ∷ lines) = feed (blob_line b line) lines
