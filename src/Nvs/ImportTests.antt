-- ===== src/Nvs/ImportTests.antt =====
-- cmd_nvs/nvs_backup.c: an import on a small partition, and instances of the theorems on imports.
use esp_console_kit.Prelude.{
  ℕ, ◌≡◌, refl, sym, ap, ◌∙◌, Bool, true, false, Option, none, some, List, [], ◌∷◌, ◌++◌, Bytes,
  codes, bytes_eq, split_at, bytes_eq_refl, get_or, if◌then◌else◌, arith,
}
use esp_console_kit.Prelude.Errors.{is_ok, EspErr, esp_ok, nvs_not_found, nvs_type_mismatch}
use esp_console_kit.Nvs.Numbers.{
  Kind, u8, i8, u16, i16, u32, i32, u64, i64, str, blob, parse_u64, digits_from, parse_int, minus,
  in_range, unsigned_of, type_parse, named_type, type_name,
}
use esp_console_kit.Nvs.Lines.{
  Value, int, behind, parse_comment, entries_line, take_name, name_ok, name_chars, has_nul,
  parse_entry, split_entry, spaced_entry, keyed_entry, typed_entry, value_entry, int_entry,
}
use esp_console_kit.Nvs.Rules.{
  Rule, kit_rules, is_excluded, exclusion_for, first_match, rule_matches, name_matches, starred,
  is_prefix,
}
use esp_console_kit.Nvs.Parse.{
  parse, finish_parse, settled, counted, parse_lines, text_lines, line_step, first_line,
  format_line, later_line, other_line, plain_line, note_step, section_step, section_name,
  before_bracket, in_section, entry_step,
}
use esp_console_kit.Nvs.Parse.Whole.{ParsedFits, parse-ParsedFits}
use esp_console_kit.Nvs.Store.{Stored, Nvs, IsNvs, same_place}
use esp_console_kit.Nvs.Plan.{kind_code, kind_eq, Options, Report, verdict}
use esp_console_kit.Nvs.Apply.{
  import, import_sealed, import_parsed, import_checked, snapshot_then, apply, apply_items,
  apply_item, switch_item, open_item, write_opened, write_item, set_counted, concluded, last_commit,
  committed,
}
use esp_console_kit.Nvs.Apply.Done.{Fulfils, import-AllImported}
use esp_console_kit.Nvs.Apply.Cleared.{Cleared}
use esp_console_kit.Nvs.Apply.Whole.{import-is_excluded}
use esp_console_kit.Nvs.Trailer.{check_crc, sealed_by, cut_last, trimmed, read_hex}
use esp_console_kit.Ascii.{hex_value}
use esp_console_kit.Nvs.Check.{
  check, count_excluded, all_planned, is_mine, mark_excluded, diff, diff_from, item_diff,
  item_opened, opened_for, opened_by, judged, item_verdict, is_act_excluded, count_act,
  cons_planned, space_checked, find_removals, fits_slots, slots_needed, slots_for, sets, writes,
}
use esp_console_kit.Nvs.Order.{sort, insert, has_twins}

-- A partition as a function; every call works.
abbrev Cells : Type 0
Cells = Bytes → Bytes → Option Stored

abbrev put : Cells → Bytes → Bytes → Option Stored → Cells
put s ns key v at k = if same_place ns key at k then v else s at k

abbrev got_as : Bool → Stored → EspErr × Value
got_as true x = (esp_ok, x.value)
got_as false x = (nvs_type_mismatch, int 0)

abbrev got : Kind → Option Stored → EspErr × Value
got kind none = (nvs_not_found, int 0)
got kind (some x) = got_as (kind_eq x.kind kind) x

-- Its walk finds nothing.
abbrev cells : Nvs Cells
cells = record {
  open_ro = λ s ns. esp_ok;
  get = λ s ns key kind. got kind (s ns key);
  find_key = λ s ns key. none;
  walk = λ s. (nvs_not_found, []);
  free_slots = λ s. some 100;
  open_rw = λ s ns. (esp_ok, s);
  set = λ s ns key kind v. (esp_ok, put s ns key (some (record { kind = kind; value = v })));
  erase = λ s ns key. (esp_ok, put s ns key none);
  commit = λ s. (esp_ok, s);
  view = λ s. s;
}

put_self : (s : Cells) (ns key : Bytes) (v : Option Stored) → put s ns key v ns key ≡ v
put_self s ns key v = ground (arith, bytes_eq_refl ns, bytes_eq_refl key)

put_other :
    (s : Cells) (ns key at k : Bytes) (v : Option Stored)
    → same_place ns key at k ≡ false
    → put s ns key v at k ≡ s at k
put_other s ns key at k v h = rw h refl

kind_at : ℕ → Kind
kind_at c = get_or (u8 ∷ i8 ∷ u16 ∷ i16 ∷ u32 ∷ i32 ∷ u64 ∷ i64 ∷ str ∷ blob ∷ []) c u8

kind_at-kind_code : (k : Kind) → kind_at (kind_code k) ≡ k
unfolding kind_at
kind_at-kind_code u8 = refl
kind_at-kind_code i8 = refl
kind_at-kind_code u16 = refl
kind_at-kind_code i16 = refl
kind_at-kind_code u32 = refl
kind_at-kind_code i32 = refl
kind_at-kind_code u64 = refl
kind_at-kind_code i64 = refl
kind_at-kind_code str = refl
kind_at-kind_code blob = refl

kind_eq_sound : (a b : Kind) → kind_eq a b ≡ true → a ≡ b
kind_eq_sound a b h =
    let e : kind_code a ≡ kind_code b = ground (arith, h) in
    sym (kind_at-kind_code a) ∙ ap kind_at e ∙ kind_at-kind_code b

got_ok :
    (kind : Kind) (o : Option Stored)
    → (got kind o).0 ≡ esp_ok
    → o ≡ some (record { kind = kind; value = (got kind o).1 })
got_ok kind none h = absurd (cc h)
got_ok kind (some x) h = go (kind_eq x.kind kind) refl h
  where
    go :
        (b : Bool)
        → kind_eq x.kind kind ≡ b
        → (got_as b x).0 ≡ esp_ok
        → some x ≡ some (record { kind = kind; value = (got kind (some x)).1 })
    go true e k =
        rw e (ap (λ t. some (record { kind = t; value = x.value })) (kind_eq_sound x.kind kind e))
    go false e k = absurd (cc k)

cells-IsNvs : IsNvs cells
cells-IsNvs = record {
  open_view = λ s ns at key. refl;
  commit_view = λ s at key. refl;
  set_view = λ s ns key at k kind v h. put_other s ns key at k _ h;
  set_ok = λ s ns key kind v h. put_self s ns key _;
  erase_view = λ s ns key at k h. put_other s ns key at k _ h;
  erase_ok = λ s ns key h. put_self s ns key _;
  erase_absent = λ s ns key h. put_self s ns key _;
  get_ok = λ s ns key kind h. got_ok kind (s ns key) h;
}

abbrev empty : Cells
empty ns key = none

abbrev line : Bytes → Bytes
line s = s ++ 10 ∷ []

abbrev body : Bytes
body =
    line (codes "# r2cfg 1")
    ++ (line (codes "# entries 1") ++ (line (codes "[app]") ++ line (codes "vol u8 7")))

abbrev file : Bytes
file = body ++ line (codes "# crc32 0000000a")

abbrev options : Options
options = record {
  dry_run = false;
  replace = false;
  ignore_excluded = false;
  other_board = true;
  no_snapshot = false;
}

abbrev kit : List Rule
kit = kit_rules (codes "wifi")

abbrev result : EspErr × Cells × Report
result = import cells kit [] (λ _. 10) options none (esp_ok, true) empty file

imported :
    (result.0 ≡ esp_ok)
    × (result.1 (codes "app") (codes "vol") ≡ some (record { kind = u8; value = int 7 }))
    × (result.2.written ≡ 1)
unfolding import import_sealed import_parsed import_checked snapshot_then apply apply_items
    apply_item switch_item open_item write_opened write_item set_counted concluded last_commit
    committed check_crc sealed_by cut_last trimmed read_hex hex_value parse finish_parse settled
    counted parse_lines text_lines line_step first_line format_line later_line other_line plain_line
    note_step section_step section_name before_bracket in_section entry_step behind parse_comment
    entries_line take_name name_ok name_chars has_nul parse_entry split_entry spaced_entry
    keyed_entry typed_entry value_entry int_entry parse_u64 digits_from parse_int minus in_range
    unsigned_of type_parse named_type type_name check count_excluded all_planned is_mine
    mark_excluded diff diff_from item_diff item_opened opened_for opened_by judged item_verdict
    is_act_excluded count_act cons_planned space_checked find_removals fits_slots slots_needed
    slots_for sets writes verdict sort insert has_twins is_prefix exclusion_for first_match
    rule_matches name_matches starred kit_rules is_excluded is_ok bytes_eq split_at
imported = (refl, refl, refl)

imported_ok : is_ok result.0 ≡ true
unfolding is_ok
imported_ok = ap is_ok imported.0

import-AllImported_example : Fulfils cells kit [] (λ _. 10) file result.1
import-AllImported_example =
    import-AllImported cells kit [] (λ _. 10) options none (esp_ok, true) empty file cells-IsNvs
      refl imported_ok

parse-ParsedFits_example : ParsedFits (parse body)
parse-ParsedFits_example = parse-ParsedFits body

abbrev dry : Options
dry = record options { dry_run = true }

mesh_excluded : is_excluded kit [] (codes "bt_mesh_core") (codes "seq") ≡ true
unfolding is_excluded exclusion_for first_match rule_matches name_matches starred is_prefix bytes_eq
    kit_rules
mesh_excluded = refl

import-is_excluded_example :
    (import cells kit [] (λ _. 10) options none (esp_ok, true) empty file).1
      (codes "bt_mesh_core")
      (codes "seq")
    ≡ none
import-is_excluded_example =
    import-is_excluded cells kit [] (λ _. 10) options none (esp_ok, true) empty file
      (codes "bt_mesh_core") (codes "seq") cells-IsNvs mesh_excluded
