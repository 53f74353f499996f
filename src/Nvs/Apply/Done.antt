-- ===== src/Nvs/Apply/Done.antt =====
-- cmd_nvs/nvs_backup.c: an import that returns ESP_OK has done what the file says.
use mathlib.Core.Path.{subst}
use esp_console_kit.Prelude.{
  ℕ, ◌≡◌, refl, Bool, true, false, not, ◌&&◌, inl, inr, if_intro, Option, List, [], ◌∷◌, Bytes,
  length, take, ltb, ◌==◌, if◌then◌else◌, arith,
}
use esp_console_kit.Prelude.Errors.{is_ok, EspErr, esp_ok}
use esp_console_kit.Nvs.Rules.{Rule, is_excluded}
use esp_console_kit.Nvs.Lines.{max_file, Header}
use esp_console_kit.Nvs.Parse.{Item, Parsed, parsed, refused, parse}
use esp_console_kit.Nvs.Parse.Whole.{ParsedFits, parse-ParsedFits}
use esp_console_kit.Nvs.Store.{Nvs, IsNvs}
use esp_console_kit.Nvs.Trailer.{Seal, accepted, truncated, mismatch, check_crc}
use esp_console_kit.Nvs.Plan.{Planned, Options, Report, blank_report}
use esp_console_kit.Nvs.Check.{sets, writes, Diffed, diffed, undiffed, check}
use esp_console_kit.Nvs.Check.Places.{tally, places}
use esp_console_kit.Nvs.Check.Named.{Among, Has}
use esp_console_kit.Nvs.Check.Judged.{given, Good, Decided}
use esp_console_kit.Nvs.Check.Whole.{Stands, check-Stands}
use esp_console_kit.Nvs.Apply.{
  apply, snapshot_then, todo, import_checked, import_parsed, import_sealed, import,
}
use esp_console_kit.Nvs.Apply.Keeps.{apply-view}
use esp_console_kit.Nvs.Apply.Sets.{apply-Sure}
use esp_console_kit.Nvs.Apply.Lands.{
  split_sides, hold_of, split_pair, Has-tally, idle-all_spare, Imported, AllImported, Sure-Imported,
}

-- The file's CRC holds, its body parses, and all that it says stands in the partition.
abbrev pub Fulfils : {S : Type 0} → Nvs S → List Rule → List Rule → (Bytes → ℕ) → Bytes → S → Type 0
Fulfils n kit app crc file t =
    (body : ℕ) × (h : Header) × (items : List Item) × (check_crc crc file ≡ accepted body)
    × (parse (take body file) ≡ parsed h items)
    × AllImported n kit app t items

module _ {S : Type 0} (n : Nvs S) (kit app : List Rule) (s : S) (law : IsNvs n) where
  module _ (it : Item) where
    -- Of the items as check leaves them.
    Good_cases :
        (C : Type 0) (xs : List Planned)
        → Has it (Good n s kit app it) xs
        → (is_excluded kit app it.ns it.key ≡ true → C)
        → (Has it (λ act. sets act ≡ true) xs → C)
        → (Has it (λ act. writes act ≡ false) xs → n.view s it.ns it.key ≡ given it → C)
        → C
    Good_cases C xs h listed setting idle =
        elim (split_sides it (λ _. is_excluded kit app it.ns it.key ≡ true) (Decided n s it) xs h) [
          | inl e ↦ listed (hold_of it (is_excluded kit app it.ns it.key ≡ true) xs e)
          | inr d ↦
              elim (split_sides it (λ act. sets act ≡ true)
                (λ act. (writes act ≡ false) × (n.view s it.ns it.key ≡ given it)) xs d) [
                  | inl t ↦ setting t
                  | inr w ↦
                      let (left, there) =
                        split_pair it (λ act. writes act ≡ false) (n.view s it.ns it.key ≡ given it)
                          xs w in
                      idle left there
                ]
        ]

    apply-Imported :
        (xs : List Planned) (r : Report)
        → Has it (Good n s kit app it) xs
        → ltb (places it.ns it.key xs) 2 ≡ true
        → is_ok (apply n kit app xs s r).0 ≡ true
        → Imported n kit app (apply n kit app xs s r).1 it
    apply-Imported xs r h once ok =
        Good_cases (Imported n kit app (apply n kit app xs s r).1 it) xs h inl
          (λ t.
            Sure-Imported n kit app (apply n kit app xs s r).1 it xs t once
              (apply-Sure n kit app law xs s r ok))
          (λ w v. inr (
            apply-view n law it.ns it.key (given it) kit app xs s r
              (idle-all_spare it kit app xs w once) v))

    abbrev Leads : EspErr × S × Report → Type 0
    Leads (err, t, r) = is_ok err ≡ true → Imported n kit app t it

    snapshot_then-Leads :
        (q : EspErr × Bool) (xs : List Planned) (r : Report)
        → Has it (Good n s kit app it) xs
        → ltb (places it.ns it.key xs) 2 ≡ true
        → Leads (snapshot_then n kit app q xs s r)
    unfolding snapshot_then is_ok
    snapshot_then-Leads (esp_ok, taken) xs r h once = apply-Imported xs _ h once
    snapshot_then-Leads (_, taken) xs r h once = λ e. absurd (cc e)

    -- Nothing to do: what is to be set is nothing, so what the item asks for stands.
    nothing-Imported :
        (xs : List Planned)
        → Has it (Good n s kit app it) xs
        → tally (λ x. sets x.act) xs ≡ 0
        → Imported n kit app s it
    nothing-Imported xs h z =
        Good_cases (Imported n kit app s it) xs h inl
          (λ t. let some_set = Has-tally it xs t in absurd (omega (arith, some_set, z)))
          (λ _ v. inr v)

    import_checked-Leads :
        (o : Options) (snap : EspErr × Bool) (d : Diffed)
        → o.dry_run ≡ false
        → Stands n s kit app it d
        → Leads (import_checked n kit app o snap s d)
    unfolding import_checked
    import_checked-Leads o snap (undiffed err r) wet h = λ e. absurd (cc (e, h))
    import_checked-Leads o snap (diffed r xs) wet (has, once, sum) =
        if_intro Leads (not o.dry_run && not (todo n kit app r == 0)) _ _
          (λ _. snapshot_then-Leads (if o.no_snapshot then (esp_ok, false) else snap) xs r has once)
          (λ h. λ _.
            nothing-Imported xs has (
              let zero : todo n kit app r ≡ 0 = ground (arith, wet, h) in omega (arith, zero, sum)))

  module _ (o : Options) (mac : Option Bytes) (snap : EspErr × Bool) (wet : o.dry_run ≡ false) where
    every-Imported :
        (t : S) (items : List Item)
        → ((it : Item) → Among it items → Imported n kit app t it)
        → AllImported n kit app t items
    every-Imported t [] h = tt
    every-Imported t (it ∷ items) h = (h it (inl refl), every-Imported t items (λ x a. h x (inr a)))

    import_parsed-AllImported :
        (h : Header) (items : List Item)
        → is_ok (import_parsed n kit app o mac snap s (parsed h items)).0 ≡ true
        → AllImported n kit app (import_parsed n kit app o mac snap s (parsed h items)).1 items
    unfolding import_parsed
    import_parsed-AllImported h items ok = every-Imported _ items (λ it a.
        import_checked-Leads it o snap (check kit app n s o mac h items blank_report) wet
          (check-Stands n s kit app it law o mac h items blank_report refl a) ok)

    module _ (crc : Bytes → ℕ) (file : Bytes) where
      abbrev Does : EspErr × S × Report → Type 0
      Does (err, t, r) = is_ok err ≡ true → Fulfils n kit app crc file t

      parsed-Does :
          (body : ℕ)
          → check_crc crc file ≡ accepted body
          → (p : Parsed) → parse (take body file) ≡ p
          → Does (import_parsed n kit app o mac snap s p)
      parsed-Does body sealed (refused err line why) e =
          let bad : is_ok err ≡ false = subst ParsedFits e (parse-ParsedFits (take body file)) in
          unfold import_parsed in λ k. absurd (cc (k, bad))
      parsed-Does body sealed (parsed h items) e =
          λ k. (body, h, items, sealed, e, import_parsed-AllImported h items k)

      sealed-Does :
          (seal : Seal)
          → check_crc crc file ≡ seal
          → Does (import_sealed n kit app o mac snap s file seal)
      unfolding import_sealed is_ok
      sealed-Does (accepted body) e = parsed-Does body e (parse (take body file)) refl
      sealed-Does truncated e = λ k. absurd (cc k)
      sealed-Does mismatch e = λ k. absurd (cc k)

      import-Does : Does (import n kit app crc o mac snap s file)
      unfolding import is_ok
      import-Does =
          if_intro Does (ltb max_file (length file)) _ _ (λ _. λ k. absurd (cc k))
            (λ _. sealed-Does (check_crc crc file) refl)

-- Where NVS behaves as documented, an import that is no dry run and answers ESP_OK was of a file
-- whose CRC holds and whose body parses, and behind it every item of the body stands in the
-- partition under its namespace and key, with its type and its value, but for those that the
-- registry excludes.
pub import-AllImported :
    {S : Type 0} (n : Nvs S) (kit app : List Rule) (crc : Bytes → ℕ) (o : Options)
    (mac : Option Bytes) (snap : EspErr × Bool) (s : S) (file : Bytes)
    → IsNvs n
    → o.dry_run ≡ false
    → is_ok (import n kit app crc o mac snap s file).0 ≡ true
    → Fulfils n kit app crc file (import n kit app crc o mac snap s file).1
import-AllImported n kit app crc o mac snap s file law wet ok =
    import-Does n kit app s law o mac snap wet crc file ok
