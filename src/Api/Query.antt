-- ===== src/Api/Query.antt =====
-- api_core/api_core.c: the query string (url_decode, api_query, api_query_bool).
pub mod Laws
pub mod Sent
pub mod Picks
use esp_console_kit.Prelude.{
  ℕ, zero, suc, ◌+◌, ◌-◌, ◌*◌, Bool, true, false, ◌&&◌, ◌||◌, Option, none, some, List, [], ◌∷◌,
  Bytes, codes, bytes_eq, length, take, ltb, leb, ◌==◌, if◌then◌else◌,
}
use esp_console_kit.Ascii.{hex_value, strcasecmp_eq}
use esp_console_kit.Segments.{walk, text_length}

-- What one round of url_decode makes of the text from `c` on: the byte to write, or the end of
-- the value, and what is left.
pub data Unescaped : Type 0 where
  byte : ℕ → Bytes → Unescaped
  ends : Unescaped

-- Behind a '%': two hex digits, or a '%' that stands for itself.
unescape_hex : Option ℕ → Option ℕ → Bytes → Bytes → Unescaped
unescape_hex (some hi) (some lo) rest all =
    if hi * 16 + lo == 0 then ends else byte (hi * 16 + lo) rest
unescape_hex _ _ rest all = byte b'%' all

unescape_percent : Bytes → Unescaped
unfolding unescape_hex
unescape_percent [] = byte b'%' []
unescape_percent (h ∷ []) = byte b'%' (h ∷ [])
unescape_percent (h ∷ l ∷ rest) = unescape_hex (hex_value h) (hex_value l) rest (h ∷ l ∷ rest)

unescape : ℕ → Bytes → Unescaped
unfolding unescape_percent
unescape c cs =
    if c == b'+' then byte b' ' cs else if c == b'%' then unescape_percent cs else byte c cs

-- The loop of url_decode with room for `room` more bytes before the NUL.
decode : ℕ → Bytes → Bytes
unfolding unescape
decode zero text = []
decode (suc room) [] = []
decode (suc room) (c ∷ cs) = elim (unescape c cs) [ ends ↦ [] | byte x rest ↦ x ∷ decode room rest ]

-- url_decode into `out_len` bytes (at least one)
unfoldable pub url_decode : Bytes → ℕ → Bytes
unfolding decode
url_decode text out_len = decode (out_len - 1) text

-- What stands behind `key` at the front of `seg` (strncmp over strlen(key) bytes).
after_key : Bytes → Bytes → Option Bytes
after_key [] seg = some seg
after_key (k ∷ ks) [] = none
after_key (k ∷ ks) (c ∷ cs) = if c == k then after_key ks cs else none

-- A segment that is the key alone, or the key and '='.
unfoldable pub value_of : ℕ → Bytes → Bytes → Option Bytes
unfolding after_key url_decode
value_of out_len key seg = elim (after_key key seg) [
  | none ↦ none
  | some rest ↦ elim rest [
    | [] ↦ some []
    | c ∷ v ↦ if c == b'=' then some (url_decode v out_len) else none
  ]
]

-- api_query: the outer none is fuel that ran out (it does not); then the value, or none for false
-- with `out` empty. A NULL query is none.
unfoldable pub query : Option Bytes → Bytes → ℕ → Option (Option Bytes)
query text key out_len = walk b'&' (value_of out_len key) (text_length text) text

is_yes : Bytes → Bool
is_yes v =
    bytes_eq v []
    || bytes_eq v (codes "1")
    || strcasecmp_eq v (codes "true")
    || strcasecmp_eq v (codes "yes")

-- api_query_bool, with its 8 bytes of value
unfoldable pub query_bool : Option Bytes → Bytes → Bool → Bool
unfolding is_yes
query_bool text key dflt = elim (query text key 8) [
  | none ↦ dflt
  | some o ↦ elim o [ none ↦ dflt | some v ↦ is_yes v ]
]
