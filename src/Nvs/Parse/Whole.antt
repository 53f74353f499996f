-- ===== src/Nvs/Parse/Whole.antt =====
-- cmd_nvs/nvs_backup.c: every line keeps the items sound, so parse lets only sound items through.
use mathlib.Core.Path.{subst}
use esp_console_kit.Prelude.{
  ℕ, ◌+◌, ◌≤◌, ◌≡◌, ◌⊎◌, inl, inr, refl, ap, ◌∙◌, false, if_intro, Option, none, some, List, [],
  ◌∷◌, ◌++◌, Bytes, length, ◌==◌, codes, arith,
}
use esp_console_kit.Prelude.Errors.{is_ok}
use esp_console_kit.Nvs.Numbers.{parse_u64}
use esp_console_kit.Nvs.Blobs.{Blob, owed, whole, broken, plus_taken}
use esp_console_kit.Nvs.Lines.{
  max_file, Header, behind, Noted, noted, not_noted, parse_comment, Entered, entered, owes,
  not_entered, parse_entry, bad_header, bad_section,
}
use esp_console_kit.Nvs.Parse.{
  Item, Owing, Reading, start, Step, next, stop, wrong, format_line, first_line, add_item,
  blob_item, plus_step, note_step, before_bracket, section_name, section_step, entry_step,
  in_section, plain_line, plus_line_step, other_line, later_line, line_step, text_lines,
  parse_lines, Parsed, parsed, refused, counted, settled, finish_parse, parse,
}
use esp_console_kit.Nvs.Parse.Sound.{
  NameFits, OptNameFits, take_name-NameFits, ValueFits, EnteredFits, parse_entry-EnteredFits,
}
use esp_console_kit.Nvs.Parse.Grows.{BlobGrows, plus_taken-BlobGrows}

-- An item that can be written to the partition.
pub record ItemFits (it : Item) : Type 0 where
  pub ns : NameFits it.ns
  pub key : NameFits it.key
  pub value : ValueFits it.kind it.value

abbrev pub AllFit : List Item → Type 0
AllFit [] = Unit {0}
AllFit (it ∷ items) = ItemFits it × AllFit items

AllFit-concat :
    (items : List Item) (it : Item) → AllFit items → ItemFits it → AllFit (items ++ it ∷ [])
AllFit-concat [] it h k = (k, tt)
AllFit-concat (x ∷ items) it h k = (h.0, AllFit-concat items it h.1 k)

record OwingFits (o : Owing) : Type 0 where
  key : NameFits o.key
  size : o.len ≤ max_file
  counted : length o.got ≡ o.have

abbrev OptOwingFits : Option Owing → Type 0
OptOwingFits none = Unit {0}
OptOwingFits (some o) = OwingFits o

-- Between two lines: the section is none yet or fits; a blob is owed only within a section.
record ReadingFits (r : Reading) : Type 0 where
  ns : (r.ns ≡ []) ⊎ NameFits r.ns
  items : AllFit r.items
  owing : OptOwingFits r.owing
  within : (r.owing ≡ none) ⊎ NameFits r.ns

abbrev StepFits : Step → Type 0
StepFits (next r) = ReadingFits r
StepFits (stop err line why) = is_ok err ≡ false

module _ (r : Reading) (v : ReadingFits r) where
  idle-ReadingFits : (h : Header) → ReadingFits (record r { header = h })
  idle-ReadingFits h = record { ns = v.ns; items = v.items; owing = v.owing; within = v.within }

  note_step-StepFits : (n : Noted) → StepFits (note_step r n)
  unfolding note_step is_ok
  note_step-StepFits (noted h) = idle-ReadingFits h
  note_step-StepFits (not_noted why) = refl

  first_line-StepFits : (s : Bytes) → StepFits (first_line r s)
  unfolding first_line is_ok
  first_line-StepFits s = by_prefix (behind (codes "# r2cfg ") s)
    where
      by_format : (o : Option ℕ) → StepFits (format_line r o)
      by_format none = unfold format_line in refl
      by_format (some f) = unfold format_line in if_intro StepFits (f == 1) _ _ (λ _. v) (λ _. refl)

      by_prefix :
          (o : Option Bytes)
          → StepFits (elim o [
            | none ↦ wrong r.lineno bad_header
            | some rest ↦ format_line r (parse_u64 rest)
          ])
      by_prefix none = refl
      by_prefix (some rest) = by_format (parse_u64 rest)

  section_step-StepFits : r.owing ≡ none → (s : Bytes) → StepFits (section_step r s)
  unfolding section_step is_ok
  section_step-StepFits idle s = by_name (section_name (before_bracket s)) (fits (before_bracket s))
    where
      fits : (o : Option Bytes) → OptNameFits (section_name o)
      fits none = unfold section_name in tt
      fits (some inner) = unfold section_name in take_name-NameFits false inner

      by_name :
          (o : Option Bytes)
          → OptNameFits o
          → StepFits
              (elim o [ none ↦ wrong r.lineno bad_section | some ns ↦ next (record r { ns = ns }) ])
      by_name none h = refl
      by_name (some ns) h = record {
        ns = inr h;
        items = v.items;
        owing = v.owing;
        within = inl idle;
      }

  module _ (here : NameFits r.ns) where
    added-ReadingFits :
        (it : Item)
        → ItemFits it
        → (o : Option Owing) → OptOwingFits o
        → ReadingFits (add_item (record r { owing = o }) it)
    added-ReadingFits it k o h = record {
      ns = v.ns;
      items = AllFit-concat r.items it v.items k;
      owing = h;
      within = inr here;
    }

    blob_item-ItemFits :
        (key got : Bytes) (line : ℕ)
        → NameFits key
        → length got ≤ max_file
        → ItemFits (blob_item r key line got)
    blob_item-ItemFits key got line k size = record { ns = here; key = k; value = size }

    entry_step-StepFits : (e : Entered) → EnteredFits e → StepFits (entry_step r e)
    unfolding entry_step is_ok
    entry_step-StepFits (entered key kind value) h =
        added-ReadingFits
          (record { ns = r.ns; key = key; kind = kind; value = value; line = r.lineno })
          (record { ns = here; key = h.0; value = h.1 }) r.owing v.owing
    entry_step-StepFits (owes key len) h =
        if_intro StepFits (len == 0) _ _
          (λ _.
            added-ReadingFits (blob_item r key r.lineno [])
              (blob_item-ItemFits key [] r.lineno h.0 (omega arith)) r.owing v.owing)
          (λ _. record {
            ns = v.ns;
            items = v.items;
            owing = record { key = h.0; size = h.1; counted = refl };
            within = inr here;
          })
    entry_step-StepFits (not_entered why) h = refl

    plus_step-StepFits :
        (o : Owing) → OwingFits o → (b : Blob) → BlobGrows o.len b → StepFits (plus_step r o b)
    unfolding plus_step is_ok
    plus_step-StepFits o k (owed len have got) h = record {
      ns = v.ns;
      items = v.items;
      owing = record { key = k.key; size = k.size; counted = h.1 };
      within = inr here;
    }
    plus_step-StepFits o k (whole got) h =
        added-ReadingFits (blob_item r o.key o.line got)
          (blob_item-ItemFits o.key got o.line k.key (omega (arith, k.size, h))) none tt
    plus_step-StepFits o k (broken f) h = refl

in_section-StepFits :
    (r : Reading) (ns s : Bytes) → r.ns ≡ ns → ReadingFits r → StepFits (in_section r ns s)
unfolding in_section is_ok
in_section-StepFits r [] s e v = refl
in_section-StepFits r (c ∷ cs) s e v = elim v.ns [
  | inl none_yet ↦ absurd (cc (none_yet, e))
  | inr here ↦ entry_step-StepFits r v here (parse_entry s) (parse_entry-EnteredFits s)
]

plain_line-StepFits :
    (r : Reading) (s : Bytes) → ReadingFits r → r.owing ≡ none → StepFits (plain_line r s)
unfolding plain_line
plain_line-StepFits r [] v idle = v
plain_line-StepFits r (c ∷ cs) v idle =
    if_intro StepFits (c == b'#') _ _
      (λ _. note_step-StepFits r v (parse_comment r.header (c ∷ cs)))
      (λ _.
        if_intro StepFits (c == b'[') _ _ (λ _. section_step-StepFits r v idle cs)
          (λ _. in_section-StepFits r r.ns (c ∷ cs) refl v))

other_line-StepFits :
    (r : Reading) (o : Option Owing) (s : Bytes)
    → r.owing ≡ o
    → ReadingFits r
    → StepFits (other_line r o s)
unfolding other_line is_ok
other_line-StepFits r none s e v = plain_line-StepFits r s v e
other_line-StepFits r (some o) s e v = refl

plus_line_step-StepFits :
    (r : Reading) (o : Option Owing) (s : Bytes)
    → r.owing ≡ o
    → ReadingFits r
    → StepFits (plus_line_step r o s)
unfolding plus_line_step is_ok
plus_line_step-StepFits r none s e v = refl
plus_line_step-StepFits r (some o) s e v = elim v.within [
  | inl idle ↦ absurd (cc (idle, e))
  | inr here ↦
      let k : OwingFits o = subst OptOwingFits e v.owing in
      plus_step-StepFits r v here o k (plus_taken o.len o.have o.got s)
        (plus_taken-BlobGrows o.len o.have o.got s k.counted)
]

later_line-StepFits : (r : Reading) (s : Bytes) → ReadingFits r → StepFits (later_line r s)
unfolding later_line
later_line-StepFits r [] v = other_line-StepFits r r.owing [] refl v
later_line-StepFits r (c ∷ cs) v =
    if_intro StepFits (c == b'+') _ _ (λ _. plus_line_step-StepFits r r.owing cs refl v)
      (λ _. other_line-StepFits r r.owing (c ∷ cs) refl v)

line_step-StepFits : (r : Reading) (s : Bytes) → ReadingFits r → StepFits (line_step r s)
unfolding line_step
line_step-StepFits r s v =
    let n : Reading = record r { lineno = r.lineno + 1 } in
    let w : ReadingFits n = record {
      ns = v.ns;
      items = v.items;
      owing = v.owing;
      within = v.within;
    } in
    if_intro StepFits (r.lineno == 0) _ _ (λ _. first_line-StepFits n w s)
      (λ _. later_line-StepFits n s w)

parse_lines-StepFits :
    (lines : List Bytes) (r : Reading) → ReadingFits r → StepFits (parse_lines r lines)
unfolding parse_lines
parse_lines-StepFits [] r v = v
parse_lines-StepFits (s ∷ lines) r v =
    go (line_step r s) (line_step-StepFits r s v) (parse_lines-StepFits lines)
  where
    go :
        (q : Step)
        → StepFits q
        → ((t : Reading) → ReadingFits t → StepFits (parse_lines t lines))
        → StepFits (elim q [ next t ↦ parse_lines t lines | stop err line why ↦ stop err line why ])
    go (next t) w ih = ih t w
    go (stop err line why) w ih = w

abbrev pub ParsedFits : Parsed → Type 0
ParsedFits (parsed h items) = AllFit items × (h.entries ≡ some (length items))
ParsedFits (refused err line why) = is_ok err ≡ false

counted-ParsedFits :
    (r : Reading) (o : Option ℕ) → r.header.entries ≡ o → AllFit r.items → ParsedFits (counted r o)
unfolding counted is_ok
counted-ParsedFits r none e v = refl
counted-ParsedFits r (some n) e v =
    if_intro ParsedFits (n == length r.items) _ _ (λ k. (v, e ∙ ap some (ground arith))) (λ _. refl)

finish_parse-ParsedFits : (q : Step) → StepFits q → ParsedFits (finish_parse q)
unfolding finish_parse is_ok
finish_parse-ParsedFits (stop err line why) v = v
finish_parse-ParsedFits (next r) v = go r.owing
  where
    go : (o : Option Owing) → ParsedFits (settled r o)
    go (some o) = unfold settled in refl
    go none =
        unfold settled in
        if_intro ParsedFits (r.lineno == 0) _ _ (λ _. refl)
          (λ _. counted-ParsedFits r r.header.entries refl v.items)

start-ReadingFits : ReadingFits start
start-ReadingFits = record { ns = inl refl; items = tt; owing = tt; within = inl refl }

-- Whatever the text of a body, parse ends, and where it lets the text through, every item has a
-- namespace and a key of 1 to 15 visible characters and a value that its type can hold, and there
-- are as many items as the header says; where it refuses, it answers an error.
pub parse-ParsedFits : (body : Bytes) → ParsedFits (parse body)
unfolding parse
parse-ParsedFits body =
    finish_parse-ParsedFits (parse_lines start (text_lines body))
      (parse_lines-StepFits (text_lines body) start start-ReadingFits)
