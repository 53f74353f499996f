-- ===== src/Nvs/Check/Whole.antt =====
-- cmd_nvs/nvs_backup.c: what check as a whole says of an item of the file.
use esp_console_kit.Prelude.{
  ◌+◌, ◌≡◌, refl, sym, ap, ◌∙◌, Bool, true, false, not, ◌&&◌, ◌||◌, Bool-cases, inl, inr, if_intro,
  Option, none, List, [], ◌∷◌, ◌++◌, Bytes, bytes_eq_refl, ltb, ◌==◌, arith,
}
use esp_console_kit.Prelude.Errors.{is_ok, EspErr, esp_ok}
use esp_console_kit.Nvs.Lines.{Header}
use esp_console_kit.Nvs.Parse.{Item}
use esp_console_kit.Nvs.Rules.{Rule, is_excluded}
use esp_console_kit.Nvs.Store.{Listed, Nvs, IsNvs, same_place}
use esp_console_kit.Nvs.Order.{sort, has_twins}
use esp_console_kit.Nvs.Plan.{Act, same, Planned, Opened, Options, Report, item_cmp}
use esp_console_kit.Nvs.Check.{
  Diffed, diffed, undiffed, sets, collected, file_has_ns, in_file, all_planned, removals,
  with_removals, mark_excluded, count_excluded, find_removals, space_checked, fits_slots,
  slots_needed, is_mine, check, diff, diff_from,
}
use esp_console_kit.Nvs.Check.Places.{
  one_if, tally, tally-sort, tally-append, places, places-sort, same_place_sound,
}
use esp_console_kit.Nvs.Check.Named.{
  Among, Has, Has-all_planned, Has-sort, Has-append, Marked, Has-mark_excluded,
}
use esp_console_kit.Nvs.Check.Judged.{to_set, Good, Tells, diff_from-Tells}

module _ (kit app : List Rule) (it : Item) where
  places-mark_excluded :
      (xs : List Planned) → places it.ns it.key (mark_excluded kit app xs) ≡ places it.ns it.key xs
  unfolding mark_excluded
  places-mark_excluded [] = refl
  places-mark_excluded (x ∷ xs) =
      if_intro
        (λ (y : Planned).
          one_if (same_place y.item.ns y.item.key it.ns it.key)
            + places it.ns it.key (mark_excluded kit app xs)
          ≡ places it.ns it.key (x ∷ xs))
        (is_excluded kit app x.item.ns x.item.key) _ _
        (λ _. ground (arith, places-mark_excluded xs))
        (λ _. ground (arith, places-mark_excluded xs))

  Has-in_file :
      (P : Act → Type 0) (xs : List Planned) → Has it P xs → in_file xs it.ns it.key ≡ true
  unfolding in_file
  Has-in_file P [] h = absurd h
  Has-in_file P (x ∷ xs) (inl (e, p)) =
      rw e (ground (arith, bytes_eq_refl it.ns, bytes_eq_refl it.key))
  Has-in_file P (x ∷ xs) (inr h) = ground (arith, Has-in_file P xs h)

  places-removals :
      (file : List Planned) (es : List Listed)
      → in_file file it.ns it.key ≡ true
      → places it.ns it.key (removals kit app file es) ≡ 0
  unfolding removals
  places-removals file [] h = refl
  places-removals file (e ∷ es) h =
      if_intro (λ (l : List Planned). places it.ns it.key l ≡ 0)
        (is_excluded kit app e.ns e.key || not (file_has_ns file e.ns) || in_file file e.ns e.key) _
        _ (λ _. places-removals file es h)
        (λ k. elim (Bool-cases (same_place e.ns e.key it.ns it.key)) [
          | inr away ↦ ground (arith, away, places-removals file es h)
          | inl at ↦
              let (en, ek) = same_place_sound e.ns e.key it.ns it.key at in
              let here : in_file file e.ns e.key ≡ true = rw (en, ek) h in
              absurd (ground (arith, here, k))
        ])

tally-removals :
    (kit app : List Rule) (file : List Planned) (es : List Listed)
    → tally (λ x. sets x.act) (removals kit app file es) ≡ 0
unfolding removals sets
tally-removals kit app file [] = refl
tally-removals kit app file (e ∷ es) =
    if_intro (λ (l : List Planned). tally (λ x. sets x.act) l ≡ 0)
      (is_excluded kit app e.ns e.key || not (file_has_ns file e.ns) || in_file file e.ns e.key) _ _
      (λ _. tally-removals kit app file es) (λ _. ap (λ m. 0 + m) (tally-removals kit app file es))

module _ {S : Type 0} (n : Nvs S) (s : S) (kit app : List Rule) (it : Item) where
  -- Where check goes on, the item is there once, good, and the report counts what is to be set.
  abbrev pub Stands : Diffed → Type 0
  Stands (undiffed err r) = is_ok err ≡ false
  Stands (diffed r ys) =
      Has it (Good n s kit app it) ys
      × (ltb (places it.ns it.key ys) 2 ≡ true)
      × (to_set r ≡ tally (λ x. sets x.act) ys)

  places_kept :
      (file : List Planned) (es : List Listed)
      → Has it (Good n s kit app it) file
      → places it.ns it.key (sort item_cmp (file ++ removals kit app file es))
        ≡ places it.ns it.key file
  places_kept file es has =
      let at : Planned → Bool = λ x. same_place x.item.ns x.item.key it.ns it.key in
      let sorted = tally-sort at (file ++ removals kit app file es) in
      let added = tally-append at file (removals kit app file es) in
      let none_added =
        places-removals kit app it file es
          (Has-in_file kit app it (Good n s kit app it) file has) in
      omega (arith, sorted, added, none_added)

  tally_kept :
      (file : List Planned) (es : List Listed)
      → tally (λ x. sets x.act) (sort item_cmp (file ++ removals kit app file es))
        ≡ tally (λ x. sets x.act) file
  tally_kept file es =
      let sorted = tally-sort (λ x. sets x.act) (file ++ removals kit app file es) in
      let added = tally-append (λ x. sets x.act) file (removals kit app file es) in
      omega (arith, sorted, added, tally-removals kit app file es)

  with_removals-Stands :
      (r : Report) (file : List Planned) (p : EspErr × List Listed)
      → Stands (diffed r file)
      → Stands (with_removals kit app r file p)
  unfolding with_removals is_ok
  with_removals-Stands r file (esp_ok, es) (has, once, sum) = (
    Has-sort it (Good n s kit app it) (file ++ removals kit app file es)
        (Has-append it (Good n s kit app it) file (removals kit app file es) has),
    ap (λ m. ltb m 2) (places_kept file es has) ∙ once,
    sum ∙ sym (tally_kept file es),
  )
  with_removals-Stands r file (_, es) h = refl

  find_removals-Stands : (b : Bool) (d : Diffed) → Stands d → Stands (find_removals kit app n s b d)
  unfolding find_removals
  find_removals-Stands false d h = h
  find_removals-Stands true (undiffed err r) h = h
  find_removals-Stands true (diffed r file) h = with_removals-Stands r file (collected (n.walk s)) h

  space_checked-Stands : (d : Diffed) → Stands d → Stands (space_checked kit app n s d)
  unfolding space_checked is_ok
  space_checked-Stands (undiffed err r) h = h
  space_checked-Stands (diffed r xs) h =
      if_intro Stands (fits_slots (slots_needed xs) (n.free_slots s)) _ _ (λ _. h) (λ _. refl)

  Tells-Stands :
      (r : Report) (xs : List Planned)
      → to_set r ≡ 0
      → Has it (Marked it kit app) xs
      → ltb (places it.ns it.key xs) 2 ≡ true
      → (d : Diffed) → Tells n s kit app it r xs d
      → Stands d
  Tells-Stands r xs z has once (undiffed err r') h = h
  Tells-Stands r xs z has once (diffed r' ys) (h, at, sum) =
      (h has, ap (λ m. ltb m 2) at ∙ once, omega (arith, sum, z))

  diff-Stands :
      IsNvs n
      → (items : List Item) (r : Report) → to_set r ≡ 0
      → Among it items
      → has_twins item_cmp (sort item_cmp (all_planned items)) ≡ false
      → Stands (diff n s r (mark_excluded kit app (sort item_cmp (all_planned items))))
  unfolding diff
  diff-Stands law items r z among apart =
      let xs = sort item_cmp (all_planned items) in
      let marks = mark_excluded kit app xs in
      let idle : Opened = record { ns = none; exists = false } in
      let there =
        Has-sort it (λ act. act ≡ same) (all_planned items) (Has-all_planned it items among) in
      let once =
        ap (λ m. ltb m 2) (places-mark_excluded kit app it xs)
        ∙ places-sort it.ns it.key (all_planned items) apart in
      Tells-Stands r marks z (Has-mark_excluded it kit app xs there) once
        (diff_from n s r idle marks) (diff_from-Tells n s law kit app it r idle marks)

  -- Where NVS behaves as documented, an item of the file is there once where check goes on: it
  -- is excluded, or set, or what it asks for stands already; and where it does not go on, there
  -- is an error.
  pub check-Stands :
      IsNvs n
      → (o : Options) (mac : Option Bytes) (h : Header) (items : List Item) (r0 : Report)
      → to_set r0 ≡ 0
      → Among it items
      → Stands (check kit app n s o mac h items r0)
  unfolding check is_ok diff
  check-Stands law o mac h items r0 z among =
      if_intro Stands (has_twins item_cmp (sort item_cmp (all_planned items))) _ _ (λ _. refl)
        (λ apart.
          if_intro Stands (not (is_mine h.board mac) && not o.other_board) _ _ (λ _. refl)
            (λ _.
              if_intro Stands
                (not (count_excluded kit app (sort item_cmp (all_planned items)) == 0)
                  && not o.ignore_excluded)
                _ _ (λ _. refl)
                (λ _.
                  space_checked-Stands _
                    (find_removals-Stands o.replace _ (diff-Stands law items _ z among apart)))))
