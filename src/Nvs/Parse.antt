-- ===== src/Nvs/Parse.antt =====
-- cmd_nvs/nvs_backup.c: a whole body, line by line (parse).
pub mod Grows
pub mod Sound
pub mod Whole
use esp_console_kit.Prelude.{
  ℕ, ◌+◌, ◌-◌, Bool, true, false, Option, none, some, List, [], ◌∷◌, ◌++◌, Bytes, codes, length,
  ◌==◌, if◌then◌else◌,
}
use esp_console_kit.Prelude.Errors.{EspErr, invalid_arg, invalid_version}
use esp_console_kit.Nvs.Numbers.{Kind, blob, parse_u64}
use esp_console_kit.Nvs.Blobs.{Blob, owed, whole, broken, LineFault, no_blob, plus_taken}
use esp_console_kit.Nvs.Lines.{
  Why, bad_section, no_section, blob_short, bad_header, other_format, bad_blob_line, ends_in_blob,
  empty_file, no_entries, wrong_count, take_name, Value, bytes, Header, behind, Noted, noted,
  not_noted, parse_comment, Entered, entered, owes, not_entered, parse_entry,
}

-- item_t, as far as the file gives it.
pub record Item : Type 0 where
  pub ns : Bytes
  pub key : Bytes
  pub kind : Kind
  pub value : Value
  pub line : ℕ

-- The blob whose '+' lines are still owed: its key, its line, its size, and what came so far. (The
-- source has it among the items already, as the last one.)
pub record Owing : Type 0 where
  pub key : Bytes
  pub line : ℕ
  pub len : ℕ
  pub have : ℕ
  pub got : Bytes

-- The locals of parse, and parsed_t.
pub record Reading : Type 0 where
  pub lineno : ℕ
  pub ns : Bytes
  pub header : Header
  pub items : List Item
  pub owing : Option Owing

abbrev pub start : Reading
start = record {
  lineno = 0;
  ns = [];
  header = record { board = none; fw = []; entries = none };
  items = [];
  owing = none;
}

-- What a line leads to: the next line, or the end with an error that names a line.
pub data Step : Type 0 where
  next : Reading → Step
  stop : EspErr → ℕ → Why → Step

abbrev pub wrong : ℕ → Why → Step
wrong line why = stop invalid_arg line why

unfoldable pub format_line : Reading → Option ℕ → Step
format_line r none = wrong r.lineno bad_header
format_line r (some format) =
    if format == 1 then next r else stop invalid_version r.lineno other_format

unfoldable pub first_line : Reading → Bytes → Step
first_line r s = elim (behind (codes "# r2cfg ") s) [
  | none ↦ wrong r.lineno bad_header
  | some rest ↦ format_line r (parse_u64 rest)
]

abbrev pub add_item : Reading → Item → Reading
add_item r it = record r { items = r.items ++ it ∷ [] }

abbrev pub blob_item : Reading → Bytes → ℕ → Bytes → Item
blob_item r key line got = record {
  ns = r.ns;
  key = key;
  kind = blob;
  value = bytes got;
  line = line;
}

-- Behind a '+' line, for the blob that was owing.
unfoldable pub plus_step : Reading → Owing → Blob → Step
plus_step r o (owed len have got) =
    next (record r { owing = some (record o { have = have; got = got }) })
plus_step r o (whole got) =
    next (add_item (record r { owing = none }) (blob_item r o.key o.line got))
plus_step r o (broken f) = wrong r.lineno (bad_blob_line f)

unfoldable pub note_step : Reading → Noted → Step
note_step r (noted h) = next (record r { header = h })
note_step r (not_noted why) = wrong r.lineno why

-- Bytes before a last ']'.
unfoldable pub before_bracket : Bytes → Option Bytes
before_bracket [] = none
before_bracket (c ∷ []) = if c == b']' then some [] else none
before_bracket (c ∷ d ∷ ds) = elim (before_bracket (d ∷ ds)) [
  | none ↦ none
  | some inner ↦ some (c ∷ inner)
]

unfoldable pub section_name : Option Bytes → Option Bytes
section_name none = none
section_name (some inner) = take_name false inner

unfoldable pub section_step : Reading → Bytes → Step
section_step r s = elim (section_name (before_bracket s)) [
  | none ↦ wrong r.lineno bad_section
  | some ns ↦ next (record r { ns = ns })
]

unfoldable pub entry_step : Reading → Entered → Step
entry_step r (entered key kind value) =
    next (add_item r (record { ns = r.ns; key = key; kind = kind; value = value; line = r.lineno }))
entry_step r (owes key len) =
    if len == 0
    then next (add_item r (blob_item r key r.lineno []))
    else next (record r {
      owing = some (record { key = key; line = r.lineno; len = len; have = 0; got = [] });
    })
entry_step r (not_entered why) = wrong r.lineno why

unfoldable pub in_section : Reading → Bytes → Bytes → Step
in_section r [] s = wrong r.lineno no_section
in_section r (c ∷ cs) s = entry_step r (parse_entry s)

-- A line that is not the first and owes nothing.
unfoldable pub plain_line : Reading → Bytes → Step
plain_line r [] = next r
plain_line r (c ∷ cs) =
    if c == b'#'
    then note_step r (parse_comment r.header (c ∷ cs))
    else if c == b'['
    then section_step r cs
    else in_section r r.ns (c ∷ cs)

unfoldable pub plus_line_step : Reading → Option Owing → Bytes → Step
plus_line_step r none s = wrong r.lineno (bad_blob_line no_blob)
plus_line_step r (some o) s = plus_step r o (plus_taken o.len o.have o.got s)

-- A blob that owes lines gets no other; the blob's last line is the one to blame.
unfoldable pub other_line : Reading → Option Owing → Bytes → Step
other_line r none s = plain_line r s
other_line r (some o) s = wrong (r.lineno - 1) blob_short

unfoldable pub later_line : Reading → Bytes → Step
later_line r [] = other_line r r.owing []
later_line r (c ∷ cs) =
    if c == b'+' then plus_line_step r r.owing cs else other_line r r.owing (c ∷ cs)

-- One round of the loop of parse.
unfoldable pub line_step : Reading → Bytes → Step
line_step r s =
    let n : Reading = record r { lineno = r.lineno + 1 } in
    if r.lineno == 0 then first_line n s else later_line n s

-- The text as the loop cuts it: a last line end begins no line.
abbrev pub push_byte : ℕ → List Bytes → List Bytes
push_byte c [] = (c ∷ []) ∷ []
push_byte c (line ∷ lines) = (c ∷ line) ∷ lines

unfoldable pub text_lines : Bytes → List Bytes
text_lines [] = []
text_lines (c ∷ cs) = let rest = text_lines cs in if c == 10 then [] ∷ rest else push_byte c rest

unfoldable pub parse_lines : Reading → List Bytes → Step
parse_lines r [] = next r
parse_lines r (s ∷ lines) = elim (line_step r s) [
  | next r' ↦ parse_lines r' lines
  | stop err line why ↦ stop err line why
]

pub data Parsed : Type 0 where
  parsed : Header → List Item → Parsed
  refused : EspErr → ℕ → Why → Parsed

unfoldable pub counted : Reading → Option ℕ → Parsed
counted r none = refused invalid_arg r.lineno no_entries
counted r (some n) =
    if n == length r.items
    then parsed r.header r.items
    else refused invalid_arg r.lineno wrong_count

unfoldable pub settled : Reading → Option Owing → Parsed
settled r (some o) = refused invalid_arg r.lineno ends_in_blob
settled r none =
    if r.lineno == 0 then refused invalid_arg r.lineno empty_file else counted r r.header.entries

-- The tests behind the loop.
unfoldable pub finish_parse : Step → Parsed
finish_parse (stop err line why) = refused err line why
finish_parse (next r) = settled r r.owing

-- parse
unfoldable pub parse : Bytes → Parsed
parse body = finish_parse (parse_lines start (text_lines body))
