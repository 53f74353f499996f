-- ===== src/Nvs/Rules/Laws.antt =====
-- cmd_nvs/nvs_backup.c: what a pattern matches, and that an exclusion is never taken back.
use esp_console_kit.Prelude.{
  ◌≡◌, ◌↔◌, ◌⊎◌, inl, inr, Option-cases, if_intro, Bool-cases, refl, ap, sym, ◌∙◌, Bool, true,
  false, ◌||◌, Option, none, some, List, [], ◌∷◌, ◌++◌, ◌==◌, Bytes, bytes_eq, bytes_eq_iff, arith,
}
use esp_console_kit.Nvs.Rules.{
  Rule, exclude, is_prefix, starred, name_matches, key_matches, rule_matches, first_match,
  exclusion_for, is_excluded,
}

-- Some rule of the list matches.
abbrev any_match : List Rule → Bytes → Bytes → Bool
any_match [] ns key = false
any_match (x ∷ xs) ns key = rule_matches x ns key || any_match xs ns key

abbrev is_found : Option Rule → Bool
is_found none = false
is_found (some x) = true

first_match-any_match :
    (xs : List Rule) (ns key : Bytes) → is_found (first_match xs ns key) ≡ any_match xs ns key
unfolding first_match
first_match-any_match [] ns key = refl
first_match-any_match (x ∷ xs) ns key = ground (arith, first_match-any_match xs ns key)

-- An entry is excluded exactly if a rule of the kit or of the application matches it.
is_excluded-any_match :
    (kit app : List Rule) (ns key : Bytes)
    → is_excluded kit app ns key ≡ (any_match kit ns key || any_match app ns key)
unfolding is_excluded exclusion_for
is_excluded-any_match kit app ns key =
    ground (arith, first_match-any_match kit ns key, first_match-any_match app ns key)

any_match-append :
    (xs ys : List Rule) (ns key : Bytes)
    → any_match (xs ++ ys) ns key ≡ (any_match xs ns key || any_match ys ns key)
any_match-append [] ys ns key = refl
any_match-append (x ∷ xs) ys ns key = ground (arith, any_match-append xs ys ns key)

any_match-exclude :
    (app : List Rule) (n k r : Option Bytes) (ns key : Bytes)
    → any_match app ns key ≡ true
    → any_match (exclude app n k r).1 ns key ≡ true
any_match-exclude app none k r ns key h = unfold exclude in h
any_match-exclude app (some []) k r ns key h = unfold exclude in h
any_match-exclude app (some (c ∷ cs)) k none ns key h = unfold exclude in h
any_match-exclude app (some (c ∷ cs)) k (some reason) ns key h =
    let new : Rule = record { ns = c ∷ cs; key = k; reason = reason; kit = false } in
    unfold exclude in ground (arith, h, any_match-append app (new ∷ []) ns key)

-- Whatever an application adds, an entry that was excluded stays excluded.
is_excluded-exclude :
    (kit app : List Rule) (n k r : Option Bytes) (ns key : Bytes)
    → is_excluded kit app ns key ≡ true
    → is_excluded kit (exclude app n k r).1 ns key ≡ true
is_excluded-exclude kit app n k r ns key h = ground (
  arith,
  is_excluded-any_match kit app ns key,
  is_excluded-any_match kit (exclude app n k r).1 ns key,
  any_match-exclude app n k r ns key,
)

is_prefix-append : (p rest : Bytes) → is_prefix p (p ++ rest) ≡ true
unfolding is_prefix
is_prefix-append [] rest = refl
is_prefix-append (x ∷ p) rest = ground (arith, is_prefix-append p rest)

starred-append : (p : Bytes) → starred (p ++ b'*' ∷ []) ≡ some p
unfolding starred
starred-append [] = refl
starred-append (x ∷ []) = refl
starred-append (x ∷ y ∷ p) = ground (arith, starred-append (y ∷ p))

is_prefix_sound : (p name : Bytes) → is_prefix p name ≡ true → (rest : Bytes) × (name ≡ p ++ rest)
unfolding is_prefix
is_prefix_sound [] name h = (name, refl)
is_prefix_sound (x ∷ p) [] h = cc
is_prefix_sound (x ∷ p) (c ∷ cs) h =
    let (rest, e) = is_prefix_sound p cs (ground arith) in (rest, ground (arith, e))

matches_starred : (p name : Bytes) → name_matches (p ++ b'*' ∷ []) name ≡ is_prefix p name
unfolding name_matches
matches_starred p name = ground (arith, starred-append p)

matches_plain : (p name : Bytes) → starred p ≡ none → name_matches p name ≡ bytes_eq p name
unfolding name_matches
matches_plain p name h = ground (arith, h)

-- A pattern that ends in '*' matches exactly the names that begin with what stands before it.
name_matches-star :
    (p name : Bytes)
    → (name_matches (p ++ b'*' ∷ []) name ≡ true) ↔ ((rest : Bytes) × (name ≡ p ++ rest))
name_matches-star p name = (
  λ h. is_prefix_sound p name (sym (matches_starred p name) ∙ h),
  λ s. matches_starred p name ∙ ap (is_prefix p) s.1 ∙ is_prefix-append p s.0,
)

-- A pattern that does not end in '*' matches its own name alone.
name_matches_plain : (p name : Bytes) → starred p ≡ none → (name_matches p name ≡ true) ↔ (p ≡ name)
name_matches_plain p name h = rw (matches_plain p name h) (bytes_eq_iff p name)

starred_sound : (p q : Bytes) → starred p ≡ some q → p ≡ q ++ b'*' ∷ []
unfolding starred
starred_sound [] q h = absurd (cc h)
starred_sound (x ∷ []) q h =
    if_intro (λ (o : Option Bytes). o ≡ some q → x ∷ [] ≡ q ++ b'*' ∷ []) (x == b'*') _ _
      (λ e k.
        let star : x ≡ b'*' = ground (arith, e) in
        let nothing : [] ≡ q = cc k in
        ap (λ c. c ∷ []) star ∙ ap (λ (t : Bytes). t ++ b'*' ∷ []) nothing)
      (λ _ k. absurd (cc k)) h
starred_sound (x ∷ y ∷ p) q h = elim (Option-cases (starred (y ∷ p))) [
  | inl e ↦ absurd (ground (arith, h, e))
  | inr (r, e) ↦
      let ends = starred_sound (y ∷ p) r e in
      let same : q ≡ x ∷ r = ground (arith, h, e) in rw same (ap (λ xs. x ∷ xs) ends)
]

-- What a pattern stands for: its own name, or, before a '*' at its end, all names that begin so.
abbrev pub Covers : Bytes → Bytes → Type 0
Covers p name =
    ((q : Bytes) × (rest : Bytes) × (p ≡ q ++ b'*' ∷ []) × (name ≡ q ++ rest)) ⊎ (p ≡ name)

abbrev pub KeyCovers : Option Bytes → Bytes → Type 0
KeyCovers none key = Unit {0}
KeyCovers (some p) key = Covers p key

abbrev pub AnyCovers : List Rule → Bytes → Bytes → Type 0
AnyCovers [] ns key = ⊥
AnyCovers (x ∷ xs) ns key = (Covers x.ns ns × KeyCovers x.key key) ⊎ AnyCovers xs ns key

covered_matches : (p name : Bytes) → Covers p name → name_matches p name ≡ true
covered_matches p name (inl (q, rest, e, f)) = rw e ((name_matches-star q name).1 (rest, f))
covered_matches p name (inr e) = elim (Option-cases (starred p)) [
  | inl none_starred ↦ (name_matches_plain p name none_starred).1 e
  | inr (q, s) ↦
      let whole = starred_sound p q s in
      rw whole ((name_matches-star q name).1 (b'*' ∷ [], sym e ∙ whole))
]

matches_covered : (p name : Bytes) → name_matches p name ≡ true → Covers p name
matches_covered p name h = elim (Option-cases (starred p)) [
  | inl none_starred ↦ inr ((name_matches_plain p name none_starred).0 h)
  | inr (q, s) ↦
      let whole = starred_sound p q s in
      let (rest, f) =
        (name_matches-star q name).0 (ap (λ t. name_matches t name) (sym whole) ∙ h) in
      inl (q, rest, whole, f)
]

name_matches-Covers : (p name : Bytes) → (name_matches p name ≡ true) ↔ Covers p name
name_matches-Covers p name = (matches_covered p name, covered_matches p name)

key_matches-KeyCovers :
    (k : Option Bytes) (key : Bytes) → (key_matches k key ≡ true) ↔ KeyCovers k key
unfolding key_matches
key_matches-KeyCovers none key = (λ _. tt, λ _. refl)
key_matches-KeyCovers (some p) key = name_matches-Covers p key

rule_covered :
    (x : Rule) (ns key : Bytes)
    → rule_matches x ns key ≡ true
    → Covers x.ns ns × KeyCovers x.key key
unfolding rule_matches
rule_covered x ns key h = (
  (name_matches-Covers x.ns ns).0 (ground (arith, h)),
  (key_matches-KeyCovers x.key key).0 (ground (arith, h)),
)

covered_rule :
    (x : Rule) (ns key : Bytes)
    → Covers x.ns ns
    → KeyCovers x.key key
    → rule_matches x ns key ≡ true
unfolding rule_matches
covered_rule x ns key c k =
    ground (arith, (name_matches-Covers x.ns ns).1 c, (key_matches-KeyCovers x.key key).1 k)

any_covered : (xs : List Rule) (ns key : Bytes) → any_match xs ns key ≡ true → AnyCovers xs ns key
any_covered [] ns key h = absurd (cc h)
any_covered (x ∷ xs) ns key h = elim (Bool-cases (rule_matches x ns key)) [
  | inl e ↦ inl (rule_covered x ns key e)
  | inr e ↦ inr (any_covered xs ns key (ground (arith, h, e)))
]

covered_any : (xs : List Rule) (ns key : Bytes) → AnyCovers xs ns key → any_match xs ns key ≡ true
covered_any [] ns key h = absurd h
covered_any (x ∷ xs) ns key (inl (c, k)) = ground (arith, covered_rule x ns key c k)
covered_any (x ∷ xs) ns key (inr h) = ground (arith, covered_any xs ns key h)

-- An entry is excluded exactly if some rule of the kit or of the application covers it: its
-- namespace is the rule's, or begins with what stands before a * at the end of it, and so its
-- key, where the rule has one.
pub is_excluded-AnyCovers :
    (kit app : List Rule) (ns key : Bytes)
    → (is_excluded kit app ns key ≡ true) ↔ AnyCovers (kit ++ app) ns key
is_excluded-AnyCovers kit app ns key =
    let e = is_excluded-any_match kit app ns key ∙ sym (any_match-append kit app ns key) in
    (λ h. any_covered (kit ++ app) ns key (sym e ∙ h), λ h. e ∙ covered_any (kit ++ app) ns key h)
