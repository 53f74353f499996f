-- ===== src/Nvs/Numbers.antt =====
-- cmd_nvs/nvs_backup.c: the integers of the format (s_types, nvs_backup_type_name and _type_parse,
-- is_int_type, INT_BYTES, INT_SIGNED, parse_u64, parse_int). An int64_t is its 64 bits as a number.
pub mod Values
use esp_console_kit.Prelude.{
  ℕ, suc, ◌+◌, ◌-◌, ◌*◌, ◌/◌, ◌%◌, ◌^◌, Bool, true, false, not, ◌&&◌, ◌||◌, Option, none, some,
  List, [], ◌∷◌, Bytes, codes, bytes_eq, ltb, leb, ◌==◌, if◌then◌else◌,
}

-- nvs_type_t, as far as s_types lists it; NVS_TYPE_ANY is none below
pub data Kind : Type 0 where
  u8 i8 u16 i16 u32 i32 u64 i64 str blob : Kind

-- s_types, and nvs_backup_type_name
unfoldable pub type_name : Kind → Bytes
type_name u8 = codes "u8"
type_name i8 = codes "i8"
type_name u16 = codes "u16"
type_name i16 = codes "i16"
type_name u32 = codes "u32"
type_name i32 = codes "i32"
type_name u64 = codes "u64"
type_name i64 = codes "i64"
type_name str = codes "str"
type_name blob = codes "blob"

-- The loop of nvs_backup_type_parse.
unfoldable pub named_type : Bytes → List Kind → Option Kind
named_type name [] = none
named_type name (t ∷ ts) = if bytes_eq (type_name t) name then some t else named_type name ts

-- nvs_backup_type_parse
unfoldable pub type_parse : Bytes → Option Kind
type_parse name = named_type name (u8 ∷ i8 ∷ u16 ∷ i16 ∷ u32 ∷ i32 ∷ u64 ∷ i64 ∷ str ∷ blob ∷ [])

-- INT_BYTES of the integer types, which NVS numbers by their width
abbrev pub int_bytes : Kind → ℕ
int_bytes u8 = 1
int_bytes i8 = 1
int_bytes u16 = 2
int_bytes i16 = 2
int_bytes u32 = 4
int_bytes i32 = 4
int_bytes _ = 8

-- INT_SIGNED
abbrev pub int_signed : Kind → Bool
int_signed i8 = true
int_signed i16 = true
int_signed i32 = true
int_signed i64 = true
int_signed _ = false

-- The loop of parse_u64, with v so far.
unfoldable pub digits_from : ℕ → Bytes → Option ℕ
digits_from v [] = some v
digits_from v (c ∷ cs) =
    if ltb c b'0' || ltb b'9' c
    then none
    else if ltb ((2 ^ 64 - 1 - (c - b'0')) / 10) v
    then none
    else digits_from ((v * 10 + (c - b'0')) % 2 ^ 64) cs

-- parse_u64
unfoldable pub parse_u64 : Bytes → Option ℕ
parse_u64 [] = none
parse_u64 (c ∷ cs) = digits_from 0 (c ∷ cs)

-- A magnitude behind an optional '-', in the range of a type of `bits` bits.
unfoldable pub unsigned_of : ℕ → ℕ → Option ℕ
unsigned_of bits mag = if ltb bits 64 && ltb (2 ^ bits - 1) mag then none else some mag

unfoldable pub signed_of : ℕ → Bool → ℕ → Option ℕ
signed_of bits neg mag =
    let lim = 2 ^ (bits - 1) in
    if (if neg then ltb lim mag else leb lim mag)
    then none
    else some (if neg then (2 ^ 64 - mag) % 2 ^ 64 else mag)

-- s + neg
unfoldable pub minus : Bool → Bytes → Bool × Bytes
minus signed [] = (false, [])
minus signed (c ∷ cs) = if signed && c == b'-' then (true, cs) else (false, c ∷ cs)

-- The tests behind parse_u64, in parse_int.
unfoldable pub in_range : Kind → Bool → Option ℕ → Option ℕ
in_range type neg none = none
in_range type neg (some mag) =
    if int_signed type
    then signed_of (int_bytes type * 8) neg mag
    else unsigned_of (int_bytes type * 8) mag

abbrev pub after_sign : Kind → Bool × Bytes → Option ℕ
after_sign type (neg, digits) = in_range type neg (parse_u64 digits)

-- parse_int of an integer type
unfoldable pub parse_int : Kind → Bytes → Option ℕ
parse_int type s = after_sign type (minus (int_signed type) s)
