-- ===== src/Nvs/Lines.antt =====
-- cmd_nvs/nvs_backup.c: what one line of a file says (name_ok, take_name, parse_comment,
-- parse_entry). A `char[]` that is filled is its bytes up to the NUL; memory is taken to suffice.
use esp_console_kit.Prelude.{
  ℕ, ◌+◌, ◌*◌, Bool, true, false, not, ◌&&◌, ◌||◌, Option, none, some, [], ◌∷◌, Bytes, codes,
  bytes_eq, split_at, length, take, ltb, leb, ◌==◌, if◌then◌else◌,
}
use esp_console_kit.Ascii.{hex_value}
use esp_console_kit.Nvs.Numbers.{Kind, str, blob, type_parse, parse_u64, parse_int}
use esp_console_kit.Nvs.Blobs.{LineFault}
use esp_console_kit.Nvs.Strs.{Fault, Outcome, taken, fault, parse_str}

-- NVS_BACKUP_MAX_FILE
abbrev pub max_file : ℕ
max_file = 65536

-- NVS_KEY_NAME_MAX_SIZE and NVS_NS_NAME_MAX_SIZE
abbrev pub name_size : ℕ
name_size = 16

-- Why a line is refused.
pub data Why : Type 0 where
  bad_mac bad_count not_entry bad_key unknown_type bad_blob_size bad_integer : Why
  bad_section no_section blob_short bad_header other_format : Why
  -- Fuel that ran out, which it does not.
  no_fuel : Why
  bad_str : Fault → Why
  bad_blob_line : LineFault → Why
  ends_in_blob empty_file no_entries wrong_count : Why

-- The loop of name_ok.
unfoldable pub name_chars : Bool → Bytes → Bool
name_chars is_key [] = true
name_chars is_key (c ∷ cs) =
    not (leb c 0x20 || ltb 0x7e c || (not is_key && (c == b'[' || c == b']')))
    && name_chars is_key cs

-- name_ok
unfoldable pub name_ok : Bool → Bytes → Bool
name_ok is_key [] = false
name_ok is_key (c ∷ cs) =
    not (is_key && (c == b'#' || c == b'+' || c == b'[')) && name_chars is_key (c ∷ cs)

unfoldable pub has_nul : Bytes → Bool
has_nul [] = false
has_nul (c ∷ cs) = c == 0 || has_nul cs

-- take_name; none is false
unfoldable pub take_name : Bool → Bytes → Option Bytes
take_name is_key s =
    if length s == 0 || leb name_size (length s) || has_nul s || not (name_ok is_key s)
    then none
    else some s

-- A value, as an item holds it: an integer's 64 bits, or the bytes of a str or blob.
pub data Value : Type 0 where
  int : ℕ → Value
  text : Bytes → Value
  bytes : Bytes → Value

-- What has been read of the header (the fields of parsed_t that are not items).
pub record Header : Type 0 where
  pub board : Option Bytes
  pub fw : Bytes
  pub entries : Option ℕ

-- What stands behind a prefix, unless that is nothing: n > strlen(prefix) && memcmp(...) == 0
unfoldable pub behind : Bytes → Bytes → Option Bytes
behind [] [] = none
behind [] (c ∷ cs) = some (c ∷ cs)
behind (p ∷ ps) [] = none
behind (p ∷ ps) (c ∷ cs) = let rest = behind ps cs in if c == p then rest else none

abbrev pub hex_byte : Option ℕ → Option ℕ → Option ℕ
hex_byte (some hi) (some lo) = some (hi * 16 + lo)
hex_byte (some hi) none = none
hex_byte none lo = none

abbrev pub and_then : Option ℕ → Option Bytes → Option Bytes
and_then (some x) (some xs) = some (x ∷ xs)
and_then (some x) none = none
and_then none o = none

-- The loop over the MAC's digits; it has 17 characters.
unfoldable pub mac_bytes : Bytes → Option Bytes
mac_bytes (h ∷ l ∷ []) = and_then (hex_byte (hex_value h) (hex_value l)) (some [])
mac_bytes (h ∷ l ∷ colon ∷ rest) =
    let more = mac_bytes rest in
    if colon == b':' then and_then (hex_byte (hex_value h) (hex_value l)) more else none
mac_bytes (h ∷ []) = none
mac_bytes [] = none

-- A C string: the bytes before the first NUL.
abbrev pub c_string : Bytes → Bytes
c_string s = (split_at 0 s).0

pub data Noted : Type 0 where
  noted : Header → Noted
  not_noted : Why → Noted

unfoldable pub board_line : Header → Bytes → Noted
board_line h s =
    if bytes_eq s (codes "unknown")
    then noted (record h { board = none })
    else if not (length s == 17)
    then not_noted bad_mac
    else elim (mac_bytes s) [
      | none ↦ not_noted bad_mac
      | some mac ↦ noted (record h { board = some mac })
    ]

-- snprintf(p->fw, sizeof(p->fw), "%.*s", ...)
unfoldable pub fw_line : Header → Bytes → Noted
fw_line h s = noted (record h { fw = take 31 (c_string (split_at b' ' s).0) })

unfoldable pub entries_line : Header → Bytes → Noted
entries_line h s = elim (parse_u64 s) [
  | none ↦ not_noted bad_count
  | some v ↦ if ltb max_file v then not_noted bad_count else noted (record h { entries = some v })
]

-- parse_comment
unfoldable pub parse_comment : Header → Bytes → Noted
parse_comment h s = elim (behind (codes "# board ") s) [
  | some rest ↦ board_line h rest
  | none ↦ elim (behind (codes "# fw ") s) [
    | some rest ↦ fw_line h rest
    | none ↦ elim (behind (codes "# entries ") s) [
      | some rest ↦ entries_line h rest
      | none ↦ noted h
    ]
  ]
]

-- What an entry's line gives: its value, or for a blob the bytes it owes.
pub data Entered : Type 0 where
  entered : Bytes → Kind → Value → Entered
  owes : Bytes → ℕ → Entered
  not_entered : Why → Entered

unfoldable pub str_entry : Bytes → Option Outcome → Entered
str_entry key none = not_entered no_fuel
str_entry key (some (fault f)) = not_entered (bad_str f)
str_entry key (some (taken s)) = entered key str (text s)

unfoldable pub blob_entry : Bytes → Option ℕ → Entered
blob_entry key none = not_entered bad_blob_size
blob_entry key (some len) = if ltb max_file len then not_entered bad_blob_size else owes key len

unfoldable pub int_entry : Bytes → Kind → Option ℕ → Entered
int_entry key t none = not_entered bad_integer
int_entry key t (some v) = entered key t (int v)

unfoldable pub value_entry : Bytes → Kind → Bytes → Entered
value_entry key str v = str_entry key (parse_str v)
value_entry key blob v = blob_entry key (parse_u64 v)
value_entry key t v = int_entry key t (parse_int t v)

unfoldable pub typed_entry : Bytes → Bytes → Bytes → Entered
typed_entry key name v =
    if length name == 0 || leb 8 (length name)
    then not_entered unknown_type
    else elim (type_parse (c_string name)) [
      | none ↦ not_entered unknown_type
      | some t ↦ value_entry key t v
    ]

unfoldable pub keyed_entry : Bytes → Bytes → Bytes → Entered
keyed_entry key name v = elim (take_name true key) [
  | none ↦ not_entered bad_key
  | some k ↦ typed_entry k name v
]

-- Behind the first blank.
unfoldable pub spaced_entry : Bytes → Bytes × Option Bytes → Entered
spaced_entry key (name, none) = not_entered not_entry
spaced_entry key (name, some v) = keyed_entry key name v

unfoldable pub split_entry : Bytes × Option Bytes → Entered
split_entry (key, none) = not_entered not_entry
split_entry (key, some rest) = spaced_entry key (split_at b' ' rest)

-- parse_entry
unfoldable pub parse_entry : Bytes → Entered
parse_entry s = split_entry (split_at b' ' s)
