-- ===== src/Nvs/Check.antt =====
-- cmd_nvs/nvs_backup.c: everything that can refuse a file, and the diff (collect, diff,
-- file_has_ns, find_removals, slots_for, sets, writes, check). Reads the partition only.
pub mod Judged
pub mod Named
pub mod Places
pub mod Whole
use esp_console_kit.Prelude.{
  ℕ, ◌+◌, ◌/◌, Bool, true, false, not, ◌&&◌, ◌||◌, Option, none, some, List, [], ◌∷◌, ◌++◌, Bytes,
  bytes_eq, length, ltb, ◌==◌, if◌then◌else◌,
}
use esp_console_kit.Prelude.Errors.{
  EspErr, esp_ok, invalid_arg, not_allowed, nvs_not_found, nvs_no_space, invalid_mac,
}
use esp_console_kit.Nvs.Lines.{Value, int, text, bytes, Header}
use esp_console_kit.Nvs.Parse.{Item}
use esp_console_kit.Nvs.Rules.{Rule, is_excluded}
use esp_console_kit.Nvs.Store.{Listed, Nvs, same_place}
use esp_console_kit.Nvs.Order.{sort, dedupe, has_twins}
use esp_console_kit.Nvs.Plan.{
  Act, same, change, add, retype, excluded, remove, Planned, item_cmp, entry_cmp, Options, Report,
  value_eq, Verdict, does, fails, verdict, other_kind, Opened, is_open_on,
}

unfoldable pub is_act_excluded : Act → Bool
is_act_excluded excluded = true
is_act_excluded _ = false

-- sets
unfoldable pub sets : Act → Bool
sets change = true
sets add = true
sets retype = true
sets _ = false

-- writes
unfoldable pub writes : Act → Bool
unfolding sets
writes remove = true
writes act = sets act

-- slots_for
unfoldable pub slots_for : Value → ℕ
slots_for (int v) = 1
slots_for (text s) = 2 + (length s + 1 + 31) / 32
slots_for (bytes s) = 2 + (length s + 31) / 32

unfoldable pub slots_needed : List Planned → ℕ
slots_needed [] = 0
slots_needed (x ∷ xs) =
    let rest = slots_needed xs in if sets x.act then slots_for x.item.value + rest else rest

-- The counts of the report that diff keeps.
unfoldable pub count_act : Act → Report → Report
count_act same r = record r { same = r.same + 1 }
count_act change r = record r { changed = r.changed + 1 }
count_act add r = record r { added = r.added + 1 }
count_act retype r = record r { retyped = r.retyped + 1 }
count_act _ r = r

pub data ItemDiff : Type 0 where
  goes : Report → Opened → Planned → ItemDiff
  ends : EspErr → ItemDiff

pub data Diffed : Type 0 where
  diffed : Report → List Planned → Diffed
  undiffed : EspErr → Report → Diffed

unfoldable pub cons_planned : Planned → Diffed → Diffed
cons_planned x (diffed r xs) = diffed r (x ∷ xs)
cons_planned x (undiffed err r) = undiffed err r

unfoldable pub opened_by : EspErr → Bytes → EspErr × Opened
opened_by esp_ok ns = (esp_ok, record { ns = some ns; exists = true })
opened_by nvs_not_found ns = (esp_ok, record { ns = some ns; exists = false })
opened_by err ns = (err, record { ns = some ns; exists = false })

module _ {S : Type 0} (n : Nvs S) (s : S) where
  unfoldable pub item_verdict : Bool → Item → Verdict
  item_verdict false it = verdict nvs_not_found false false
  item_verdict true it =
      let (err, v) = n.get s it.ns it.key it.kind in
      verdict err (value_eq v it.value) (other_kind it.kind (n.find_key s it.ns it.key))

  unfoldable pub opened_for : Opened → Bytes → EspErr × Opened
  unfolding opened_by
  opened_for o ns = if is_open_on o.ns ns then (esp_ok, o) else opened_by (n.open_ro s ns) ns

  unfoldable pub judged : Report → Opened → Planned → Verdict → ItemDiff
  judged r o x (fails err) = ends err
  judged r o x (does act) = goes (count_act act r) o (record x { act = act })

  -- Behind the opening of the item's namespace.
  unfoldable pub item_opened : Report → Planned → EspErr × Opened → ItemDiff
  item_opened r x (esp_ok, o) = judged r o x (item_verdict o.exists x.item)
  item_opened r x (err, o) = ends err

  unfoldable pub item_diff : Report → Opened → Planned → ItemDiff
  item_diff r o x =
      if is_act_excluded x.act then goes r o x else item_opened r x (opened_for o x.item.ns)

  -- The loop of diff.
  unfoldable pub diff_from : Report → Opened → List Planned → Diffed
  diff_from r o [] = diffed r []
  diff_from r o (x ∷ xs) = elim (item_diff r o x) [
    | ends err ↦ undiffed err r
    | goes r' o' x' ↦ cons_planned x' (diff_from r' o' xs)
  ]

  -- diff
  unfoldable pub diff : Report → List Planned → Diffed
  diff r xs = diff_from r (record { ns = none; exists = false }) xs

-- collect; NOT_FOUND is the end of the walk
unfoldable pub collected : EspErr × List Listed → EspErr × List Listed
collected (nvs_not_found, found) = (esp_ok, dedupe entry_cmp (sort entry_cmp found))
collected (err, found) = (err, [])

-- file_has_ns: the items are sorted, so that bsearch and the two loops beside it look at those of
-- the namespace and no other.
unfoldable pub file_has_ns : List Planned → Bytes → Bool
file_has_ns [] ns = false
file_has_ns (x ∷ xs) ns = bytes_eq x.item.ns ns && not (is_act_excluded x.act) || file_has_ns xs ns

-- bsearch by item_cmp in the sorted items
unfoldable pub in_file : List Planned → Bytes → Bytes → Bool
in_file [] ns key = false
in_file (x ∷ xs) ns key = same_place x.item.ns x.item.key ns key || in_file xs ns key

-- `probe`; its names are arrays of the size of the walk's
abbrev pub probe : Listed → Planned
probe e = record {
  item = record { ns = e.ns; key = e.key; kind = e.kind; value = int 0; line = 0 };
  act = remove;
}

-- The items as parse leaves them; act_t's zero is ACT_SAME.
unfoldable pub all_planned : List Item → List Planned
all_planned [] = []
all_planned (it ∷ items) = record { item = it; act = same } ∷ all_planned items

-- The test of the free slots; where nvs_get_stats fails, it is left out.
unfoldable pub fits_slots : ℕ → Option ℕ → Bool
fits_slots need none = true
fits_slots need (some free) = need == 0 || not (ltb free need)

unfoldable pub is_mine : Option Bytes → Option Bytes → Bool
is_mine none mac = false
is_mine (some board) none = false
is_mine (some board) (some mac) = bytes_eq board mac

module _ (kit app : List Rule) where
  -- The loop of find_removals: what it appends.
  unfoldable pub removals : List Planned → List Listed → List Planned
  removals file [] = []
  removals file (e ∷ es) =
      let rest = removals file es in
      let p = (probe e).item in
      if is_excluded kit app p.ns p.key || not (file_has_ns file p.ns) || in_file file p.ns p.key
      then rest
      else probe e ∷ rest

  unfoldable pub with_removals : Report → List Planned → EspErr × List Listed → Diffed
  with_removals r file (esp_ok, es) =
      let gone = removals file es in
      diffed (record r { removed = r.removed + length gone }) (sort item_cmp (file ++ gone))
  with_removals r file (err, es) = undiffed err r

  abbrev pub marked : Planned → Planned
  marked x = if is_excluded kit app x.item.ns x.item.key then record x { act = excluded } else x

  unfoldable pub mark_excluded : List Planned → List Planned
  mark_excluded [] = []
  mark_excluded (x ∷ xs) = marked x ∷ mark_excluded xs

  unfoldable pub count_excluded : List Planned → ℕ
  count_excluded [] = 0
  count_excluded (x ∷ xs) =
      let rest = count_excluded xs in
      if is_excluded kit app x.item.ns x.item.key then rest + 1 else rest

  module _ {S : Type 0} (n : Nvs S) (s : S) where
    -- find_removals, where --replace asks for it
    unfoldable pub find_removals : Bool → Diffed → Diffed
    find_removals false d = d
    find_removals true (undiffed err r) = undiffed err r
    find_removals true (diffed r file) = with_removals r file (collected (n.walk s))

    unfoldable pub space_checked : Diffed → Diffed
    space_checked (undiffed err r) = undiffed err r
    space_checked (diffed r xs) =
        if fits_slots (slots_needed xs) (n.free_slots s)
        then diffed r xs
        else undiffed nvs_no_space r

    -- check; `mac` is what esp_read_mac answers, if it is ESP_OK
    unfoldable pub check : Options → Option Bytes → Header → List Item → Report → Diffed
    check o mac h items r0 =
        let xs = sort item_cmp (all_planned items) in
        let r : Report = record r0 { entries = length items } in
        let found = count_excluded xs in
        let rx : Report = record r { excluded = found } in
        if has_twins item_cmp xs
        then undiffed invalid_arg r
        else if not (is_mine h.board mac) && not o.other_board
        then undiffed invalid_mac r
        else if not (found == 0) && not o.ignore_excluded
        then undiffed not_allowed rx
        else space_checked (find_removals o.replace (diff n s rx (mark_excluded xs)))
