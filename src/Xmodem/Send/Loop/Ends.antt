-- ===== src/Xmodem/Send/Loop/Ends.antt =====
-- cmd_fs/xmodem.c: xmodem_send ends, whatever the line says.
use mathlib.Core.Path.{subst}
use esp_console_kit.Prelude.{
  ℕ, zero, suc, ◌+◌, ◌*◌, ◌≤◌, ◌<◌, ◌≡◌, refl, sym, ap, ◌∙◌, Bool, true, Option, none, some, [],
  ◌∷◌, ◌++◌, Bytes, length, length-append, length-take, length-drop, take, drop, take-drop, ◌&&◌,
  not, ◌==◌, if_intro, arith, append_assoc, append-nil,
}
use esp_console_kit.Prelude.Errors.{EspErr, esp_ok}
use esp_console_kit.Xmodem.Frame.{max_errors}
use esp_console_kit.Xmodem.Send.{block_size, frame_of}
use esp_console_kit.Xmodem.Send.Loop.{
  Start, begins, start_cancelled, no_start, Reply, Tx, no_tx, Acked, acked, unanswered, cancelled,
  try_frame, counted_block, after_block, with_block, send_blocks, send,
}
use esp_console_kit.Xmodem.Send.Loop.Fills.{Serves, fill_block}
use esp_console_kit.Xmodem.Send.Loop.Attempts.{Kept, try_frame-Kept, try_eot-Kept}

-- It is over: with ESP_OK all of d was acknowledged, and no block took more than 10 retries.
abbrev pub Ends : Bytes → Option (EspErr × Tx) → Type 0
Ends d none = ⊥
Ends d (some (err, tx)) =
    (err ≡ esp_ok → (tx.given ≡ d) × (tx.bytes ≡ length d))
    × (tx.retries ≤ max_errors * (tx.blocks + 1))

-- Between two blocks, with `rest` to be sent.
abbrev Between : Bytes → Bytes → Tx → Type 0
Between d rest tx =
    (tx.given ++ rest ≡ d) × (tx.bytes ≡ length tx.given) × (tx.retries ≤ max_errors * tx.blocks)

rest_over : (b : ℕ) (rest : Bytes) → 0 < b → take b rest ≡ [] → drop b rest ≡ []
rest_over zero rest h e = absurd (omega (arith, h))
rest_over (suc b) [] h e = refl
rest_over (suc b) (x ∷ xs) h e = absurd (cc e)

pub some_size : (crc : Bool) (asked : ℕ) → 0 < block_size crc asked
some_size crc asked =
    if_intro (λ (n : ℕ). 0 < n) (crc && not (asked == 128)) _ _ (λ _. omega arith)
      (λ _. omega arith)

module _ (d : Bytes) (line : Bytes → Reply) (crc : Bool) (asked : ℕ) where
  after_block-Ends :
      (next : Tx → Option (EspErr × Tx)) (p rest : Bytes) (tx : Tx) (r : Acked × Tx)
      → tx.given ++ (p ++ rest) ≡ d
      → tx.bytes ≡ length tx.given
      → tx.retries ≤ max_errors * tx.blocks
      → Kept (record tx { given = tx.given ++ p }) (tx.retries + max_errors) r.1
      → ((t : Tx) → Between d rest t → Ends d (next t))
      → Ends d (after_block line crc asked next (length p) r)
  unfolding after_block counted_block
  after_block-Ends next p rest tx (acked, t) whole count few k goes_on =
      goes_on (counted_block line (length p) t) (
        ap (λ xs. xs ++ rest) k.0 ∙ append_assoc tx.given p rest ∙ whole,
        omega (arith, k.1, count, length-append tx.given p, ap (λ xs. length {A = ℕ} xs) k.0),
        omega (arith, k.2, k.4, few),
      )
  after_block-Ends next p rest tx (unanswered, t) whole count few k goes_on =
      (λ e. absurd (cc e), omega (arith, k.2, k.4, few))
  after_block-Ends next p rest tx (cancelled, t) whole count few k goes_on =
      (λ e. absurd (cc e), omega (arith, k.2, k.4, few))

  with_block-Ends :
      (next : Tx → Option (EspErr × Tx)) (p rest : Bytes) (tx : Tx)
      → Between d (p ++ rest) tx
      → (p ≡ [] → rest ≡ [])
      → ((t : Tx) → 0 < length p → Between d rest t → Ends d (next t))
      → Ends d (with_block line crc asked next (some p) tx)
  unfolding with_block
  with_block-Ends next [] rest tx (whole, count, few) last goes_on =
      let kept = try_eot-Kept line (max_errors + 1) tx in
      let given : tx.given ≡ d =
        sym (append-nil tx.given) ∙ ap (λ xs. tx.given ++ xs) (sym (last refl)) ∙ whole in
      (
        λ _. (kept.0 ∙ given, kept.1 ∙ count ∙ ap (λ xs. length {A = ℕ} xs) given),
        omega (arith, kept.2, kept.4, few),
      )
  with_block-Ends next (c ∷ cs) rest tx (whole, count, few) last goes_on =
      let t : Tx = record tx { given = tx.given ++ c ∷ cs } in
      after_block-Ends next (c ∷ cs) rest tx
        (try_frame line (max_errors + 1) true (frame_of crc asked tx.num (c ∷ cs)) t) whole count
        few (try_frame-Kept line (max_errors + 1) true (frame_of crc asked tx.num (c ∷ cs)) t)
        (λ u between. goes_on u (omega arith) between)

  module _ (source : Bytes → ℕ → Option Bytes) (serves : Serves d source) where
    send_blocks-Ends :
        (fuel : ℕ) (rest : Bytes) (tx : Tx)
        → Between d rest tx
        → length rest < fuel
        → Ends d (send_blocks line crc asked source fuel tx)
    unfolding send_blocks
    send_blocks-Ends zero rest tx between enough = absurd (omega (arith, enough))
    send_blocks-Ends (suc fuel) rest tx between enough =
        let b = block_size crc asked in
        let next = send_blocks line crc asked source fuel in
        let (whole, count, few) = between in
        let filled = fill_block d source serves b tx.given rest whole in
        let step =
          with_block-Ends next (take b rest) (drop b rest) tx
            (ap (λ xs. tx.given ++ xs) (take-drop b rest) ∙ whole, count, few)
            (rest_over b rest (some_size crc asked))
            (λ t some_left still.
              send_blocks-Ends fuel (drop b rest) t still
                (omega (arith, enough, some_left, length-take b rest, length-drop b rest))) in
        subst (λ (o : Option Bytes). Ends d (with_block line crc asked next o tx)) (sym filled) step

-- Whatever the line says, xmodem_send of a file that its source hands out in pieces of any length
-- ends, within one round for each byte and one more; there were at most 10 retries for each block
-- acknowledged and 10 more, and where it answers ESP_OK it has counted the bytes of the whole
-- file as acknowledged.
pub send-Ends :
    (d : Bytes) (source : Bytes → ℕ → Option Bytes) (line : Bytes → Reply) (asked fuel : ℕ)
    (started : Start)
    → Serves d source
    → length d < fuel
    → Ends d (send line source asked fuel started)
unfolding send
send-Ends d source line asked fuel (begins crc) serves enough =
    send_blocks-Ends d line crc asked source serves fuel d no_tx (refl, refl, omega arith) enough
send-Ends d source line asked fuel start_cancelled serves enough = (λ e. absurd (cc e), omega arith)
send-Ends d source line asked fuel no_start serves enough = (λ e. absurd (cc e), omega arith)
