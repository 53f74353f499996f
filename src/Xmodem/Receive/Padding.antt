-- ===== src/Xmodem/Receive/Padding.antt =====
-- cmd_fs/xmodem.c: what deliver leaves off is a run of SUB.
use esp_console_kit.Prelude.{
  ℕ, zero, suc, ◌-◌, ◌≡◌, refl, ap, ◌∙◌, if_intro, [], ◌∷◌, ◌++◌, Bytes, length, take, replicate,
  ◌==◌, arith,
}
use esp_console_kit.Xmodem.Frame.{sub}
use esp_console_kit.Xmodem.Receive.{keep_before, without_padding}

pub take-append : (k : ℕ) (xs ys : Bytes) → take k (xs ++ ys) ≡ take k xs ++ take (k - length xs) ys
take-append zero xs ys =
    let none_left : 0 ≡ 0 - length xs = omega arith in ap (λ m. take m ys) none_left
take-append (suc k) [] ys = let all : suc k ≡ suc k - 0 = omega arith in ap (λ m. take m ys) all
take-append (suc k) (x ∷ xs) ys =
    let same : k - length xs ≡ suc k - suc (length xs) = omega arith in
    let rest : take (k - length xs) ys ≡ take (suc k - length (x ∷ xs)) ys =
      ap (λ m. take m ys) (omega arith) in
    ap (λ l. x ∷ l) (take-append k xs ys ∙ ap (λ t. take k xs ++ t) rest)

-- Padding is a run of SUB at the end.
abbrev pub Padded : Bytes → Bytes → Type 0
Padded out d = (k : ℕ) × (d ≡ out ++ replicate k sub)

keep_before-Padded :
    (c : ℕ) (cs kept : Bytes) → Padded kept cs → Padded (keep_before c kept) (c ∷ cs)
unfolding keep_before
keep_before-Padded c cs [] (k, e) =
    if_intro (λ (l : Bytes). Padded l (c ∷ cs)) (c == sub) _ _
      (λ h. let here : c ≡ sub = ground (arith, h) in (suc k, rw here (ap (λ l. sub ∷ l) e)))
      (λ _. (k, ap (λ l. c ∷ l) e))
keep_before-Padded c cs (x ∷ xs) (k, e) = (k, ap (λ l. c ∷ l) e)

pub without_padding-Padded : (d : Bytes) → Padded (without_padding d) d
unfolding without_padding
without_padding-Padded [] = (0, refl)
without_padding-Padded (c ∷ cs) =
    keep_before-Padded c cs (without_padding cs) (without_padding-Padded cs)
