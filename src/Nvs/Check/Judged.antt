-- ===== src/Nvs/Check/Judged.antt =====
-- cmd_nvs/nvs_backup.c: what diff says of an item is so.
use mathlib.Core.Path.{subst}
use esp_console_kit.Prelude.{
  ℕ, ◌+◌, ◌≡◌, refl, ap, ◌∙◌, ◌⊎◌, Bool, true, false, inl, inr, if_intro, Option, some, List, [],
  ◌∷◌, bytes_eq_iff, arith,
}
use esp_console_kit.Prelude.Errors.{is_ok, EspErr, esp_ok, nvs_not_found, nvs_type_mismatch}
use esp_console_kit.Nvs.Lines.{Value, int, text, bytes}
use esp_console_kit.Nvs.Parse.{Item}
use esp_console_kit.Nvs.Rules.{Rule, is_excluded}
use esp_console_kit.Nvs.Store.{Stored, Nvs, IsNvs, same_place}
use esp_console_kit.Nvs.Plan.{
  Act, same, change, add, retype, excluded, remove, Planned, Report, value_eq, Verdict, does, fails,
  verdict, other_kind, Opened,
}
use esp_console_kit.Nvs.Check.{
  is_act_excluded, sets, writes, count_act, ItemDiff, goes, ends, Diffed, diffed, undiffed,
  cons_planned, item_verdict, opened_for, judged, item_opened, item_diff, diff_from,
}
use esp_console_kit.Nvs.Check.Places.{one_if, tally, places}
use esp_console_kit.Nvs.Check.Named.{Has, Marked}

value_eq_sound : (v w : Value) → value_eq v w ≡ true → v ≡ w
unfolding value_eq
value_eq_sound (int v) (int w) h = ap int (ground (arith, h))
value_eq_sound (text s) (text t) h = ap text ((bytes_eq_iff s t).0 h)
value_eq_sound (bytes s) (bytes t) h = ap bytes ((bytes_eq_iff s t).0 h)
value_eq_sound (int v) (text t) h = absurd (cc h)
value_eq_sound (int v) (bytes t) h = absurd (cc h)
value_eq_sound (text s) (int w) h = absurd (cc h)
value_eq_sound (text s) (bytes t) h = absurd (cc h)
value_eq_sound (bytes s) (int w) h = absurd (cc h)
value_eq_sound (bytes s) (text t) h = absurd (cc h)

-- The items that diff has counted as to be set.
abbrev pub to_set : Report → ℕ
to_set r = r.changed + r.added + r.retyped

to_set-count_act :
    (act : Act) (r : Report) → to_set (count_act act r) ≡ one_if (sets act) + to_set r
unfolding count_act sets
to_set-count_act same r = omega arith
to_set-count_act change r = omega arith
to_set-count_act add r = omega arith
to_set-count_act retype r = omega arith
to_set-count_act excluded r = omega arith
to_set-count_act remove r = omega arith

excluded-sets : (act : Act) → is_act_excluded act ≡ true → sets act ≡ false
unfolding is_act_excluded sets
excluded-sets excluded h = refl
excluded-sets _ h = absurd (cc h)

-- What the item would leave in its place.
abbrev pub given : Item → Option Stored
given it = some (record { kind = it.kind; value = it.value })

module _ {S : Type 0} (n : Nvs S) (s : S) where
  -- It will be set, or its value is there and it will be left alone.
  abbrev pub Decided : Item → Act → Type 0
  Decided it act = (sets act ≡ true) ⊎ ((writes act ≡ false) × (n.view s it.ns it.key ≡ given it))

  abbrev VerdictFits : Item → Verdict → Type 0
  VerdictFits it (does act) = Decided it act
  VerdictFits it (fails err) = is_ok err ≡ false

  verdict-VerdictFits :
      (it : Item) (err : EspErr) (eq differs : Bool)
      → (err ≡ esp_ok → eq ≡ true → n.view s it.ns it.key ≡ given it)
      → VerdictFits it (verdict err eq differs)
  unfolding verdict sets writes is_ok
  verdict-VerdictFits it esp_ok true differs h = inr (refl, h refl refl)
  verdict-VerdictFits it esp_ok false differs h = inl refl
  verdict-VerdictFits it nvs_not_found eq differs h = inl refl
  verdict-VerdictFits it nvs_type_mismatch eq true h = inl refl
  verdict-VerdictFits it nvs_type_mismatch eq false h = refl
  verdict-VerdictFits it _ eq differs h = refl

  item_verdict-VerdictFits :
      IsNvs n → (b : Bool) (it : Item) → VerdictFits it (item_verdict n s b it)
  unfolding item_verdict
  item_verdict-VerdictFits law false it =
      verdict-VerdictFits it nvs_not_found false false (λ e. absurd (cc e))
  item_verdict-VerdictFits law true it =
      let p = n.get s it.ns it.key it.kind in
      verdict-VerdictFits it p.0 (value_eq p.1 it.value)
        (other_kind it.kind (n.find_key s it.ns it.key))
        (λ e h.
          law.get_ok s it.ns it.key it.kind e
          ∙ ap (λ v. some (record { kind = it.kind; value = v })) (value_eq_sound p.1 it.value h))

  abbrev Judges : Report → Planned → ItemDiff → Type 0
  Judges r x (ends err) = is_ok err ≡ false
  Judges r x (goes r' o y) =
      (y.item ≡ x.item)
      × (is_act_excluded x.act ≡ false → Decided x.item y.act)
      × (to_set r' ≡ one_if (sets y.act) + to_set r)

  module _ (kit app : List Rule) (it : Item) where
    -- The registry has it, or it is decided.
    abbrev pub Good : Act → Type 0
    Good act = (is_excluded kit app it.ns it.key ≡ true) ⊎ Decided it act

    -- Of a diff of `xs`: the items are those, the one that is marked is good, and the report
    -- counts what is to be set.
    abbrev pub Tells : Report → List Planned → Diffed → Type 0
    Tells r xs (undiffed err r') = is_ok err ≡ false
    Tells r xs (diffed r' ys) =
        (Has it (Marked it kit app) xs → Has it Good ys)
        × (places it.ns it.key ys ≡ places it.ns it.key xs)
        × (to_set r' ≡ tally (λ x. sets x.act) ys + to_set r)

  module _ (law : IsNvs n) where
    judged-Judges :
        (r : Report) (o : Opened) (x : Planned) (v : Verdict)
        → VerdictFits x.item v
        → Judges r x (judged n s r o x v)
    unfolding judged
    judged-Judges r o x (fails err) h = h
    judged-Judges r o x (does act) h = (refl, λ _. h, to_set-count_act act r)

    item_opened-Judges :
        (r : Report) (x : Planned) (p : EspErr × Opened) → Judges r x (item_opened n s r x p)
    unfolding item_opened is_ok
    item_opened-Judges r x (esp_ok, o) =
        judged-Judges r o x (item_verdict n s o.exists x.item)
          (item_verdict-VerdictFits law o.exists x.item)
    item_opened-Judges r x (_, o) = refl

    item_diff-Judges : (r : Report) (o : Opened) (x : Planned) → Judges r x (item_diff n s r o x)
    unfolding item_diff
    item_diff-Judges r o x =
        if_intro (Judges r x) (is_act_excluded x.act) _ _
          (λ h. (refl, λ k. absurd (cc (h, k)), ground (arith, excluded-sets x.act h)))
          (λ _. item_opened-Judges r x (opened_for n s o x.item.ns))

    module _ (kit app : List Rule) (it : Item) where
      cons_planned-Tells :
          (r r' : Report) (o : Opened) (x y : Planned) (xs : List Planned)
          → Judges r x (goes r' o y)
          → (d : Diffed) → Tells kit app it r' xs d
          → Tells kit app it r (x ∷ xs) (cons_planned y d)
      unfolding cons_planned
      cons_planned-Tells r r' o x y xs j (undiffed err r'') h = h
      cons_planned-Tells r r' o x y xs j (diffed r'' ys) (has, at, sum) = (
        λ h. elim h [ inl (e, m) ↦ inl (j.0 ∙ e, decided e m) | inr k ↦ inr (has k) ],
        ap (λ t. one_if (same_place t.ns t.key it.ns it.key) + places it.ns it.key ys) j.0
            ∙ ap (λ m. one_if (same_place x.item.ns x.item.key it.ns it.key) + m) at,
        omega (arith, sum, j.2),
      )
        where
          decided : x.item ≡ it → Marked it kit app x.act → Good kit app it y.act
          decided e (inl listed) = inl listed
          decided e (inr open_to) = inr (subst (λ t. Decided t y.act) e (j.1 open_to))

      pub diff_from-Tells :
          (r : Report) (o : Opened) (xs : List Planned)
          → Tells kit app it r xs (diff_from n s r o xs)
      unfolding diff_from
      diff_from-Tells r o [] = (λ h. h, refl, omega arith)
      diff_from-Tells r o (x ∷ xs) =
          go (item_diff n s r o x) (item_diff-Judges r o x) (λ r' o'. diff_from-Tells r' o' xs)
        where
          go :
              (d : ItemDiff)
              → Judges r x d
              → ((r' : Report) (o' : Opened) → Tells kit app it r' xs (diff_from n s r' o' xs))
              → Tells kit app it r (x ∷ xs) (elim d [
                | ends err ↦ undiffed err r
                | goes r' o' x' ↦ cons_planned x' (diff_from n s r' o' xs)
              ])
          go (ends err) j ih = j
          go (goes r' o' y) j ih =
              cons_planned-Tells r r' o' x y xs j (diff_from n s r' o' xs) (ih r' o')
