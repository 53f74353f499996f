-- ===== src/Nvs/Tests.antt =====
-- cmd_nvs/nvs_backup.c: runs at concrete inputs, and instances of the theorems there.
use esp_console_kit.Prelude.{
  length, ◌-◌, ◌^◌, ◌≡◌, ◌↔◌, refl, true, ◌&&◌, none, some, List, [], ◌∷◌, ◌++◌, codes, bytes_eq,
  ltb, if◌then◌else◌, arith,
}
use esp_console_kit.Ascii.{hex_value, hex_of}
use esp_console_kit.Nvs.Trailer.{
  check_crc, sealed_by, cut_last, trimmed, read_hex, accepted, truncated,
}
use esp_console_kit.Nvs.Trailer.Trips.{trailer, check_crc-trailer}
use esp_console_kit.Nvs.Blobs.{text_blob, plus_lines, announced, feed, whole}
use esp_console_kit.Nvs.Blobs.Trips.{feed-text_blob}
use esp_console_kit.Nvs.Rules.{
  Rule, kit_rules, is_prefix, starred, name_matches, rule_matches, first_match, exclusion_for,
  is_excluded,
}
use esp_console_kit.Nvs.Rules.Laws.{AnyCovers, is_excluded-AnyCovers}
use esp_console_kit.Nvs.Strs.{
  quoted, escape_char, taken, parse_str, unquoted, before_quote, decode_str, round, escaped,
  hex_escape, hex_pair,
}
use esp_console_kit.Nvs.Strs.Trips.{parse_str-quoted}
use esp_console_kit.Nvs.Strs.Total.{Answer, parse_str-Answer}
use esp_console_kit.Nvs.Numbers.{i8, parse_u64, digits_from, parse_int, minus, in_range, signed_of}
use esp_console_kit.Nvs.Numbers.Values.{all_digits, value_from, parse_u64_lem}

abbrev kit : List Rule
kit = kit_rules (codes "wifi")

is_excluded-AnyCovers_example :
    (is_excluded kit [] (codes "bt_mesh_core") (codes "seq") ≡ true)
    ↔ AnyCovers (kit ++ []) (codes "bt_mesh_core") (codes "seq")
is_excluded-AnyCovers_example = is_excluded-AnyCovers kit [] (codes "bt_mesh_core") (codes "seq")

mesh_excluded : is_excluded kit [] (codes "bt_mesh_core") (codes "seq") ≡ true
unfolding is_excluded exclusion_for first_match rule_matches name_matches starred is_prefix bytes_eq
    kit_rules
mesh_excluded = refl

str_run : parse_str (codes "\"a\\x07\\n\\\"\"") ≡ some (taken (codes "a" ++ 7 ∷ 10 ∷ codes "\""))
unfolding parse_str unquoted before_quote decode_str round escaped hex_escape hex_pair hex_value
str_run = refl

parse_str-quoted_example :
    parse_str (quoted (codes "a\"b" ++ 200 ∷ [])) ≡ some (taken (codes "a\"b" ++ 200 ∷ []))
unfolding escape_char
parse_str-quoted_example =
    parse_str-quoted (codes "a\"b" ++ 200 ∷ [])
      (
        omega arith,
        omega arith,
        (omega arith, omega arith, (omega arith, omega arith, (omega arith, omega arith, tt))),
      )
      (omega arith)

parse_str-Answer_example : Answer (parse_str (codes "\"a\\q\""))
parse_str-Answer_example = parse_str-Answer (codes "\"a\\q\"")

parse_u64_lem_example : parse_u64 (codes "18446744073709551615") ≡ (
    if all_digits (codes "18446744073709551615")
      && ltb (value_from 0 (codes "18446744073709551615")) (2 ^ 64)
    then some (value_from 0 (codes "18446744073709551615"))
    else none)
parse_u64_lem_example = parse_u64_lem b'1' (codes "8446744073709551615")

int_run : (parse_int i8 (codes "-128") ≡ some (2 ^ 64 - 128)) × (parse_int i8 (codes "128") ≡ none)
unfolding parse_int minus parse_u64 digits_from in_range signed_of
int_run = (refl, refl)

blob_run : text_blob (10 ∷ 255 ∷ []) ≡ codes "+ 0aff" ∷ []
unfolding text_blob plus_lines hex_of
blob_run = refl

feed-text_blob_example : feed (announced 2) (text_blob (10 ∷ 255 ∷ [])) ≡ whole (10 ∷ 255 ∷ [])
feed-text_blob_example = feed-text_blob (10 ∷ 255 ∷ []) (omega arith, (omega arith, tt))

check_crc-trailer_example :
    check_crc length ((codes "# r2cfg 1" ++ 10 ∷ []) ++ (trailer 10 ++ 10 ∷ [])) ≡ accepted 10
check_crc-trailer_example = check_crc-trailer length (codes "# r2cfg 1") 10 (omega arith)

crc_run : check_crc length (codes "a\n# crc32 0000000g") ≡ truncated
unfolding check_crc sealed_by cut_last trimmed read_hex is_prefix hex_value
crc_run = refl
