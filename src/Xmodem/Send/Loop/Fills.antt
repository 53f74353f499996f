-- ===== src/Xmodem/Send/Loop/Fills.antt =====
-- cmd_fs/xmodem.c: what fill puts together of a source that hands out a file in pieces.
use esp_console_kit.Prelude.{
  ℕ, zero, suc, ◌+◌, ◌-◌, ◌≤◌, ◌<◌, ◌≡◌, refl, sym, ap, ◌∙◌, Option, none, some, [], ◌∷◌, ◌++◌,
  Bytes, length, length-append, take, drop, take-append_ge, append_assoc, append-nil, leb, if_intro,
  arith,
}
use esp_console_kit.Xmodem.Send.Loop.{took_piece, fill}

-- A piece of at most n bytes from the front of what is left; none only at the end.
abbrev pub Gives : ℕ → Bytes → Option Bytes → Type 0
Gives n rest none = ⊥
Gives n rest (some p) = (p ++ drop (length p) rest ≡ rest) × (length p ≤ n) × (p ≡ [] → rest ≡ [])

-- The source hands out the file d, in pieces of its own choice.
abbrev pub Serves : Bytes → (Bytes → ℕ → Option Bytes) → Type 0
Serves d source =
    (given rest : Bytes) (n : ℕ) → given ++ rest ≡ d → 0 < n → Gives n rest (source given n)

pub take_none : (n : ℕ) → take {A = ℕ} n [] ≡ []
take_none zero = refl
take_none (suc n) = refl

take_zero : (n : ℕ) (xs : Bytes) → n ≡ 0 → take n xs ≡ []
take_zero n xs h = ap (λ k. take k xs) h

module _ (d : Bytes) (source : Bytes → ℕ → Option Bytes) (serves : Serves d source) where
  abbrev pub Filled : ℕ → Bytes → Bytes → Option Bytes → Type 0
  Filled len got rest o = o ≡ some (got ++ take (len - length got) rest)

  full_Filled : (len : ℕ) (got rest : Bytes) → len ≤ length got → Filled len got rest (some got)
  full_Filled len got rest h = ap some (
      sym (append-nil got)
      ∙ ap (λ xs. got ++ xs) (sym (take_zero (len - length got) rest (omega (arith, h)))))

  took_piece-Filled :
      (next : Bytes → Option Bytes) (len : ℕ) (got rest : Bytes) (o : Option Bytes)
      → ((c : ℕ) (cs behind : Bytes)
          → (c ∷ cs) ++ behind ≡ rest
          → length (c ∷ cs) ≤ len - length got
          → Filled len (got ++ c ∷ cs) behind (next (got ++ c ∷ cs)))
      → length got ≤ len
      → Gives (len - length got) rest o
      → Filled len got rest (took_piece next got o)
  unfolding took_piece
  took_piece-Filled next len got rest none goes_on room g = absurd g
  took_piece-Filled next len got rest (some []) goes_on room g = ap some (
      sym (append-nil got)
      ∙ ap (λ xs. got ++ xs)
          (sym (take_none (len - length got)) ∙ ap (take (len - length got)) (sym (g.2 refl))))
  took_piece-Filled next len got rest (some (c ∷ cs)) goes_on room g =
      let p = c ∷ cs in
      let behind = drop (length p) rest in
      let n = len - length got in
      let left : len - length (got ++ p) ≡ n - length p = omega (arith, length-append got p) in
      goes_on c cs behind g.0 g.1
      ∙ ap some (
          append_assoc got p (take (len - length (got ++ p)) behind)
          ∙ ap (λ xs. got ++ xs)
              (ap (λ k. p ++ take k behind) left
                ∙ sym (take-append_ge n p behind g.1)
                ∙ ap (take n) g.0))

  pub fill-Serves :
      (fuel : ℕ) (given : Bytes) (len : ℕ) (got rest : Bytes)
      → given ++ (got ++ rest) ≡ d
      → length got ≤ len
      → len ≤ length got + fuel
      → Filled len got rest (fill source fuel given len got)
  unfolding fill
  fill-Serves zero given len got rest whole room enough = full_Filled len got rest (omega arith)
  fill-Serves (suc fuel) given len got rest whole room enough =
      if_intro (Filled len got rest) (leb len (length got)) _ _
        (λ full. full_Filled len got rest (ground (arith, full)))
        (λ more.
          took_piece-Filled (fill source fuel given len) len got rest
            (source (given ++ got) (len - length got))
            (λ c cs behind split fits.
              fill-Serves fuel given len (got ++ c ∷ cs) behind
                (ap (λ xs. given ++ xs)
                    (append_assoc got (c ∷ cs) behind ∙ ap (λ xs. got ++ xs) split)
                  ∙ whole)
                (omega (arith, length-append got (c ∷ cs), fits))
                (omega (arith, length-append got (c ∷ cs), fits)))
            room
            (serves (given ++ got) rest (len - length got) (append_assoc given got rest ∙ whole)
              (ground (arith, more))))

  -- A whole block, or what is left.
  pub fill_block :
      (b : ℕ) (given rest : Bytes)
      → given ++ rest ≡ d
      → fill source b given b [] ≡ some (take b rest)
  fill_block b given rest whole =
      let all : b - 0 ≡ b = omega arith in
      fill-Serves b given b [] rest whole (omega arith) (omega arith)
      ∙ ap (λ k. some (take k rest)) all
