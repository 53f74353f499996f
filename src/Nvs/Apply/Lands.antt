-- ===== src/Nvs/Apply/Lands.antt =====
-- cmd_nvs/nvs_backup.c: what the writes of apply come to, for an item of the file.
use mathlib.Core.Path.{subst}
use esp_console_kit.Prelude.{
  ◌≤◌, ◌≡◌, refl, sym, ◌∙◌, ◌⊎◌, true, false, inl, inr, some, List, [], ◌∷◌, Bytes, bytes_eq_refl,
  ltb, arith,
}
use esp_console_kit.Nvs.Rules.{Rule, is_excluded}
use esp_console_kit.Nvs.Parse.{Item}
use esp_console_kit.Nvs.Store.{Nvs, same_place}
use esp_console_kit.Nvs.Plan.{Act, change, add, retype, Planned}
use esp_console_kit.Nvs.Check.{sets, writes}
use esp_console_kit.Nvs.Check.Places.{tally, places}
use esp_console_kit.Nvs.Check.Named.{Has}
use esp_console_kit.Nvs.Check.Judged.{given}
use esp_console_kit.Nvs.Apply.Keeps.{all_spare}
use esp_console_kit.Nvs.Apply.Landed.{wanted}
use esp_console_kit.Nvs.Apply.Sets.{elsewhere, elsewhere-all_spare, Holds, Sure}

sets-writes : (act : Act) → sets act ≡ true → writes act ≡ true
unfolding sets writes
sets-writes change h = refl
sets-writes add h = refl
sets-writes retype h = refl
sets-writes _ h = absurd (cc h)

sets-wanted : (x : Planned) (act : Act) → sets act ≡ true → wanted act x ≡ given x.item
unfolding sets
sets-wanted x change h = refl
sets-wanted x add h = refl
sets-wanted x retype h = refl
sets-wanted x _ h = absurd (cc h)

places-elsewhere :
    (ns key : Bytes) (xs : List Planned) → places ns key xs ≡ 0 → elsewhere ns key xs ≡ true
places-elsewhere ns key [] h = refl
places-elsewhere ns key (x ∷ xs) h = ground (arith, places-elsewhere ns key xs)

module _ (it : Item) where
  pub split_sides :
      (P Q : Act → Type 0) (xs : List Planned)
      → Has it (λ act. P act ⊎ Q act) xs
      → Has it P xs ⊎ Has it Q xs
  split_sides P Q [] h = absurd h
  split_sides P Q (x ∷ xs) (inl (e, inl p)) = inl (inl (e, p))
  split_sides P Q (x ∷ xs) (inl (e, inr q)) = inr (inl (e, q))
  split_sides P Q (x ∷ xs) (inr h) = elim (split_sides P Q xs h) [
    | inl p ↦ inl (inr p)
    | inr q ↦ inr (inr q)
  ]

  pub hold_of : (C : Type 0) (xs : List Planned) → Has it (λ _. C) xs → C
  hold_of C [] h = absurd h
  hold_of C (x ∷ xs) (inl (e, c)) = c
  hold_of C (x ∷ xs) (inr h) = hold_of C xs h

  pub split_pair :
      (P : Act → Type 0) (C : Type 0) (xs : List Planned)
      → Has it (λ act. P act × C) xs
      → Has it P xs × C
  split_pair P C [] h = absurd h
  split_pair P C (x ∷ xs) (inl (e, (p, c))) = (inl (e, p), c)
  split_pair P C (x ∷ xs) (inr h) = let (q, c) = split_pair P C xs h in (inr q, c)

  at_own : (x : Planned) → x.item ≡ it → same_place x.item.ns x.item.key it.ns it.key ≡ true
  at_own x e = rw e (ground (arith, bytes_eq_refl it.ns, bytes_eq_refl it.key))

  Has-places : (P : Act → Type 0) (xs : List Planned) → Has it P xs → 1 ≤ places it.ns it.key xs
  Has-places P [] h = absurd h
  Has-places P (x ∷ xs) (inl (e, p)) = ground (arith, at_own x e)
  Has-places P (x ∷ xs) (inr h) = let ih = Has-places P xs h in omega (arith, ih)

  pub Has-tally :
      (xs : List Planned) → Has it (λ act. sets act ≡ true) xs → 1 ≤ tally (λ x. sets x.act) xs
  Has-tally [] h = absurd h
  Has-tally (x ∷ xs) (inl (e, p)) = ground (arith, p)
  Has-tally (x ∷ xs) (inr h) = let ih = Has-tally xs h in omega (arith, ih)

  alone_then :
      (x : Planned) (xs : List Planned)
      → x.item ≡ it
      → ltb (places it.ns it.key (x ∷ xs)) 2 ≡ true
      → elsewhere it.ns it.key xs ≡ true
  alone_then x xs e once =
      let at = at_own x e in places-elsewhere it.ns it.key xs (ground (arith, at, once))

  tail_once :
      (x : Planned) (xs : List Planned)
      → ltb (places it.ns it.key (x ∷ xs)) 2 ≡ true
      → ltb (places it.ns it.key xs) 2 ≡ true
  tail_once x xs once = ground (arith, once)

  -- An item that is left alone: no other write comes to its place.
  pub idle-all_spare :
      (kit app : List Rule) (xs : List Planned)
      → Has it (λ act. writes act ≡ false) xs
      → ltb (places it.ns it.key xs) 2 ≡ true
      → all_spare kit app it.ns it.key xs ≡ true
  idle-all_spare kit app [] h once = absurd h
  idle-all_spare kit app (x ∷ xs) (inl (e, p)) once =
      let rest = elsewhere-all_spare kit app it.ns it.key xs (alone_then x xs e once) in
      ground (arith, p, rest)
  idle-all_spare kit app (x ∷ xs) (inr h) once =
      let ih = idle-all_spare kit app xs h (tail_once x xs once) in
      let there = Has-places (λ act. writes act ≡ false) xs h in ground (arith, ih, there, once)

module _ {S : Type 0} (n : Nvs S) (kit app : List Rule) where
  -- The item's value stands under its name, with its type, unless the registry excludes it.
  abbrev pub Imported : S → Item → Type 0
  Imported t it =
      (is_excluded kit app it.ns it.key ≡ true)
      ⊎ (n.view t it.ns it.key ≡ some (record { kind = it.kind; value = it.value }))

  abbrev pub AllImported : S → List Item → Type 0
  AllImported t [] = Unit {0}
  AllImported t (it ∷ items) = Imported t it × AllImported t items

  Holds-Imported :
      (t : S) (x : Planned) → sets x.act ≡ true → Holds n kit app t x → Imported t x.item
  Holds-Imported t x p (inl idle) = inl (let w = sets-writes x.act p in ground (arith, idle, w))
  Holds-Imported t x p (inr held) = inr (held ∙ sets-wanted x x.act p)

  pub Sure-Imported :
      (t : S) (it : Item) (xs : List Planned)
      → Has it (λ act. sets act ≡ true) xs
      → ltb (places it.ns it.key xs) 2 ≡ true
      → Sure n kit app t xs
      → Imported t it
  Sure-Imported t it [] h once sure = absurd h
  Sure-Imported t it (x ∷ xs) (inl (e, p)) once sure =
      let apart : elsewhere x.item.ns x.item.key xs ≡ true =
        subst (λ i. elsewhere i.ns i.key xs ≡ true) (sym e) (alone_then it x xs e once) in
      subst (Imported t) e (Holds-Imported t x p (sure.0 apart))
  Sure-Imported t it (x ∷ xs) (inr h) once sure =
      Sure-Imported t it xs h (tail_once it x xs once) sure.1
