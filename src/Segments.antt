-- ===== src/Segments.antt =====
-- A text walked segment by segment, as api_core/api_core.c and its like do with strchr: each round
-- takes what stands before the next separator, and goes on behind it.
use esp_console_kit.Prelude.{
  ℕ, zero, suc, ◌≤◌, ◌≡◌, refl, sym, ap, ◌∙◌, Option, none, some, List, [], ◌∷◌, Bytes, split_at,
  length, ◌==◌, if◌then◌else◌, arith,
}

abbrev pub text_length : Option Bytes → ℕ
text_length none = 0
text_length (some p) = length p

-- The text cut at each separator.
abbrev pub push_first : ℕ → List Bytes → List Bytes
push_first c [] = (c ∷ []) ∷ []
push_first c (seg ∷ segs) = (c ∷ seg) ∷ segs

unfoldable pub segments : ℕ → Bytes → List Bytes
segments sep [] = [] ∷ []
segments sep (c ∷ cs) =
    let rest = segments sep cs in if c == sep then [] ∷ rest else push_first c rest

-- What is left at `p`, cut; nothing is left at NULL.
abbrev pub segments_of : ℕ → Option Bytes → List Bytes
segments_of sep none = []
segments_of sep (some p) = segments sep p

segments-split_at :
    (sep : ℕ) (p : Bytes)
    → let (seg, rest) = split_at sep p in segments sep p ≡ seg ∷ segments_of sep rest
unfolding segments split_at
segments-split_at sep [] = refl
segments-split_at sep (c ∷ cs) = ground (arith, segments-split_at sep cs)

split_at-le : (sep c : ℕ) (cs : Bytes) → text_length (split_at sep (c ∷ cs)).1 ≤ length cs
unfolding split_at
split_at-le sep c [] = ground arith
split_at-le sep c (d ∷ cs) = ground (arith, split_at-le sep d cs)

module _ {ℓ} {R : Type ℓ} (sep : ℕ) (body : Bytes → Option R) where
  -- for (p = text; p != NULL && *p; p = sep ? sep + 1 : NULL), left where `body` answers. The
  -- outer none is fuel that ran out.
  unfoldable pub walk : ℕ → Option Bytes → Option (Option R)
  walk fuel none = some none
  walk fuel (some []) = some none
  walk zero (some (c ∷ cs)) = none
  walk (suc fuel) (some (c ∷ cs)) =
      let (seg, rest) = split_at sep (c ∷ cs) in
      elim (body seg) [ some r ↦ some (some r) | none ↦ walk fuel rest ]

  -- The first answer among the segments.
  abbrev pub first_answer : List Bytes → Option R
  first_answer [] = none
  first_answer (seg ∷ segs) = elim (body seg) [ some r ↦ some r | none ↦ first_answer segs ]

  walk_step :
      (fuel c : ℕ) (cs : Bytes) (o : Option R)
      → body (split_at sep (c ∷ cs)).0 ≡ o
      → walk (suc fuel) (some (c ∷ cs))
        ≡ elim o [ some r ↦ some (some r) | none ↦ walk fuel (split_at sep (c ∷ cs)).1 ]
  unfolding walk
  walk_step fuel c cs o e = rw (e, walk)

  first_answer_step :
      (c : ℕ) (cs : Bytes) (o : Option R)
      → body (split_at sep (c ∷ cs)).0 ≡ o
      → first_answer (segments sep (c ∷ cs)) ≡ elim o [
        | some r ↦ some r
        | none ↦ first_answer (segments_of sep (split_at sep (c ∷ cs)).1)
      ]
  first_answer_step c cs o e = ap first_answer (segments-split_at sep (c ∷ cs)) ∙ ground (arith, e)

  -- As many rounds as bytes are enough, and the walk gives the first answer. A last segment with
  -- nothing in it is never looked at: so an answer must not come from the empty segment.
  pub walk-first_answer :
      (fuel : ℕ) (p : Option Bytes)
      → body [] ≡ none
      → text_length p ≤ fuel
      → walk fuel p ≡ some (first_answer (segments_of sep p))
  walk-first_answer fuel none b h = unfold walk in refl
  walk-first_answer fuel (some []) b h = unfold walk segments in rw b
  walk-first_answer zero (some (c ∷ cs)) b h = absurd (omega arith)
  walk-first_answer (suc fuel) (some (c ∷ cs)) b h =
      go (body (split_at sep (c ∷ cs)).0) refl
        (walk-first_answer fuel (split_at sep (c ∷ cs)).1 b (omega (arith, split_at-le sep c cs)))
    where
      go :
          (o : Option R)
          → body (split_at sep (c ∷ cs)).0 ≡ o
          → walk fuel (split_at sep (c ∷ cs)).1
            ≡ some (first_answer (segments_of sep (split_at sep (c ∷ cs)).1))
          → walk (suc fuel) (some (c ∷ cs)) ≡ some (first_answer (segments sep (c ∷ cs)))
      go (some r) e ih =
          walk_step fuel c cs (some r) e ∙ ap some (sym (first_answer_step c cs (some r) e))
      go none e ih = walk_step fuel c cs none e ∙ ih ∙ ap some (sym (first_answer_step c cs none e))
