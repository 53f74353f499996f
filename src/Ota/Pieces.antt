-- ===== src/Ota/Pieces.antt =====
-- cmd_fs/ota_core.c: an image written piece by piece.
use esp_console_kit.Prelude.{
  ℕ, Bool-cases, inl, inr, ◌≤◌, ◌≡◌, refl, ap, sym, ◌∙◌, true, false, List, [], ◌∷◌, ◌++◌,
  append-nil, append_assoc, Bytes, length, if◌then◌else◌, arith,
}
use esp_console_kit.Prelude.Errors.{is_ok, EspErr, esp_ok}
use esp_console_kit.Ota.State.{receiving, Core, Board}
use esp_console_kit.Ota.Write.{part_size, write}
use esp_console_kit.Ota.Invariant.{Inv}
use esp_console_kit.Ota.Writing.{write-Wrote}

-- A session that writes pieces of an image one after another, until one fails.
unfoldable pub write_all : Board → Core → ℕ → EspErr → List Bytes → EspErr × Core
write_all b c now answer [] = (esp_ok, c)
write_all b c now answer (piece ∷ pieces) =
    let (err, c') = write b c now answer piece in
    let rest = write_all b c' now answer pieces in if is_ok err then rest else (err, c')

abbrev pub join : List Bytes → Bytes
join [] = []
join (piece ∷ pieces) = piece ++ join pieces

module _ (b : Board) (c : Core) (now : ℕ) (answer : EspErr) (piece : Bytes)
    (pieces : List Bytes) where
  write_all_goes_on :
      is_ok (write b c now answer piece).0 ≡ true
      → write_all b c now answer (piece ∷ pieces)
        ≡ write_all b (write b c now answer piece).1 now answer pieces
  unfolding write_all
  write_all_goes_on k = ground (arith, k)

  write_all_stops :
      is_ok (write b c now answer piece).0 ≡ false
      → write_all b c now answer (piece ∷ pieces) ≡ write b c now answer piece
  unfolding write_all
  write_all_stops k = ground (arith, k)

-- What a run of writes that went well leaves.
abbrev AllWrote : Board → Core → Bytes → EspErr × Core → Type 0
AllWrote b c bytes (err, c') =
    is_ok err ≡ true
    → Inv b c'
      × (c'.session.phase ≡ receiving)
      × (c'.hashed ≡ c.hashed ++ bytes)
      × (c'.session.dry_run ≡ c.session.dry_run)

write_all-AllWrote :
    (b : Board) (now : ℕ) (answer : EspErr) (pieces : List Bytes) (c : Core)
    → Inv b c
    → c.session.phase ≡ receiving
    → AllWrote b c (join pieces) (write_all b c now answer pieces)
write_all-AllWrote b now answer [] c v p =
    unfold write_all in λ _. (v, p, sym (append-nil c.hashed), refl)
write_all-AllWrote b now answer (piece ∷ pieces) c v p =
    let (v', taken, _) = write-Wrote b c now answer piece v p in
    elim (Bool-cases (is_ok (write b c now answer piece).0)) [
      | inr k ↦ rw (write_all_stops b c now answer piece pieces k) (λ ok. absurd (cc (ok, k)))
      | inl k ↦
          let (p', h', d') = taken k in
          rw (write_all_goes_on b c now answer piece pieces k) (λ ok.
            let (w, q, h, d) =
              write_all-AllWrote b now answer pieces (write b c now answer piece).1 v' p' ok in
            (
              w,
              q,
              h ∙ ap (λ x. x ++ join pieces) h' ∙ append_assoc c.hashed piece (join pieces),
              d ∙ d',
            ))
    ]

-- However an image is cut into pieces: where a session that keeps the invariant receives, is no
-- dry run and has hashed nothing yet, and every piece is taken, the session has counted and
-- hashed the pieces joined, the flash holds just those, and they fit the slot.
pub write_all_lem :
    (b : Board) (c : Core) (now : ℕ) (answer : EspErr) (pieces : List Bytes)
    → Inv b c
    → c.session.phase ≡ receiving
    → c.hashed ≡ []
    → c.session.dry_run ≡ false
    → is_ok (write_all b c now answer pieces).0 ≡ true
    → let c' = (write_all b c now answer pieces).1 in
      (c'.hashed ≡ join pieces)
      × (c'.flash ≡ join pieces)
      × (c'.session.bytes ≡ length (join pieces))
      × (length (join pieces) ≤ part_size c'.part)
write_all_lem b c now answer pieces v p e wet ok =
    let (w, q, h, d) = write_all-AllWrote b now answer pieces c v p ok in
    let r = w.receives q in
    let whole = h ∙ ap (λ x. x ++ join pieces) e in
    let n = r.counted ∙ ap (λ (x : Bytes). length x) whole in
    (whole, (r.writes (d ∙ wet)).1 ∙ whole, n, omega (arith, r.in_slot, n))
