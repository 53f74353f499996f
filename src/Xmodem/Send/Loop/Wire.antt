-- ===== src/Xmodem/Send/Loop/Wire.antt =====
-- cmd_fs/xmodem.c: what xmodem_send writes where every block is acknowledged.
use mathlib.Core.Path.{subst}
use esp_console_kit.Prelude.{
  ℕ, zero, suc, ◌+◌, ◌%◌, ◌^◌, ◌<◌, ◌≡◌, refl, sym, ap, ◌∙◌, Bool, true, Option, none, some, [],
  ◌∷◌, ◌++◌, Bytes, length, length-take, length-drop, take, drop, take-drop, arith, append_assoc,
}
use esp_console_kit.Prelude.Errors.{EspErr, esp_ok}
use esp_console_kit.Xmodem.Frame.{ack, eot}
use esp_console_kit.Xmodem.Send.{block_size, frame_of}
use esp_console_kit.Xmodem.Send.Loop.{
  begins, Reply, wait_reply, Tx, no_tx, acked, try_frame, try_eot, counted_block, after_block,
  with_block, send_blocks, send, write_line,
}
use esp_console_kit.Xmodem.Send.Loop.Fills.{Serves, fill_block, take_none}
use esp_console_kit.Xmodem.Send.Loop.Ends.{some_size}

-- Whatever is sent is acknowledged.
abbrev pub Acks : (Bytes → Reply) → Type 0
Acks line = (sent : Bytes) → wait_reply (line sent).bytes ≡ ack

module _ (crc : Bool) (asked : ℕ) where
  -- The frames of a file from the block numbered `num` on, and the EOT, with fuel for each byte.
  unfoldable pub wire : ℕ → ℕ → Bytes → Bytes
  wire zero num rest = []
  wire (suc fuel) num [] = eot ∷ []
  wire (suc fuel) num (x ∷ xs) =
      let b = block_size crc asked in
      frame_of crc asked num (take b (x ∷ xs)) ++ wire fuel ((num + 1) % 2 ^ 8) (drop b (x ∷ xs))

  -- It is over with ESP_OK and without a retry, and `more` was written.
  abbrev pub Wrote : Bytes → Tx → Option (EspErr × Tx) → Type 0
  Wrote more tx none = ⊥
  Wrote more tx (some (err, t)) =
      (err ≡ esp_ok) × (t.sent ≡ tx.sent ++ more) × (t.retries ≡ tx.retries)

  module _ (line : Bytes → Reply) (acks : Acks line) where
    try_frame_acked :
        (left : ℕ) (frame : Bytes) (tx : Tx)
        → try_frame line (suc left) true frame tx ≡ (acked, write_line frame tx)
    unfolding try_frame
    try_frame_acked left frame tx = rw (acks (tx.sent ++ frame)) refl

    try_eot_acked :
        (left : ℕ) (tx : Tx) → try_eot line (suc left) tx ≡ (esp_ok, write_line (eot ∷ []) tx)
    unfolding try_eot
    try_eot_acked left tx = rw (acks (tx.sent ++ eot ∷ [])) refl

    written_behind :
        (a b : Bytes) (tx t : Tx) (o : Option (EspErr × Tx))
        → t.sent ≡ tx.sent ++ a
        → t.retries ≡ tx.retries
        → Wrote b t o
        → Wrote (a ++ b) tx o
    written_behind a b tx t none e r h = h
    written_behind a b tx t (some (err, u)) e r h =
        (h.0, h.1 ∙ ap (λ xs. xs ++ b) e ∙ append_assoc tx.sent a b, h.2 ∙ r)

    eot-Wrote :
        (next : Tx → Option (EspErr × Tx)) (tx : Tx)
        → Wrote (eot ∷ []) tx (with_block line crc asked next (some []) tx)
    unfolding with_block
    eot-Wrote next tx =
        subst (λ r. Wrote (eot ∷ []) tx (some r)) (sym (try_eot_acked 10 tx)) (refl, refl, refl)

    block-Wrote :
        (next : Tx → Option (EspErr × Tx)) (p more : Bytes) (tx : Tx)
        → 0 < length p
        → ((t : Tx)
            → t.num ≡ (tx.num + 1) % 2 ^ 8
            → t.given ≡ tx.given ++ p
            → Wrote more t (next t))
        → Wrote
            (frame_of crc asked tx.num p ++ more)
            tx
            (with_block line crc asked next (some p) tx)
    unfolding with_block after_block counted_block
    block-Wrote next [] more tx h goes_on = absurd (omega (arith, h))
    block-Wrote next (c ∷ cs) more tx h goes_on =
        let frame = frame_of crc asked tx.num (c ∷ cs) in
        let t : Tx = record tx { given = tx.given ++ c ∷ cs } in
        let u = counted_block line (length (c ∷ cs)) (write_line frame t) in
        subst (λ r. Wrote (frame ++ more) tx (after_block line crc asked next (length (c ∷ cs)) r))
          (sym (try_frame_acked 10 frame t))
          (written_behind frame more tx u (next u) refl refl (goes_on u refl refl))

    module _ (d : Bytes) (source : Bytes → ℕ → Option Bytes) (serves : Serves d source) where
      send_blocks-Wrote :
          (fuel : ℕ) (rest : Bytes) (tx : Tx)
          → tx.given ++ rest ≡ d
          → length rest < fuel
          → Wrote (wire fuel tx.num rest) tx (send_blocks line crc asked source fuel tx)
      unfolding send_blocks wire
      send_blocks-Wrote zero rest tx whole enough = absurd (omega (arith, enough))
      send_blocks-Wrote (suc fuel) [] tx whole enough =
          let b = block_size crc asked in
          subst
            (λ o.
              Wrote (eot ∷ []) tx
                (with_block line crc asked (send_blocks line crc asked source fuel) o tx))
            (sym
              (fill_block d source serves b tx.given [] whole ∙ ap (λ xs. some xs) (take_none b)))
            (eot-Wrote (send_blocks line crc asked source fuel) tx)
      send_blocks-Wrote (suc fuel) (x ∷ xs) tx whole enough =
          let b = block_size crc asked in
          let rest = x ∷ xs in
          let next = send_blocks line crc asked source fuel in
          let more = wire fuel ((tx.num + 1) % 2 ^ 8) (drop b rest) in
          let some_left = some_size crc asked in
          subst
            (λ o.
              Wrote (frame_of crc asked tx.num (take b rest) ++ more) tx
                (with_block line crc asked next o tx))
            (sym (fill_block d source serves b tx.given rest whole))
            (block-Wrote next (take b rest) more tx (omega (arith, some_left, length-take b rest))
              (λ t num given.
                subst (λ n. Wrote (wire fuel n (drop b rest)) t (next t)) num
                  (send_blocks-Wrote fuel (drop b rest) t
                    (ap (λ ys. ys ++ drop b rest) given
                      ∙ append_assoc tx.given (take b rest) (drop b rest)
                      ∙ ap (λ ys. tx.given ++ ys) (take-drop b rest)
                      ∙ whole)
                    (omega (arith, some_left, enough, length-drop b rest)))))

-- Where everything is acknowledged, xmodem_send writes each frame of the file once, in order, and the
-- EOT behind them.
pub send-Wrote :
    (d : Bytes) (source : Bytes → ℕ → Option Bytes) (line : Bytes → Reply) (crc : Bool)
    (asked fuel : ℕ)
    → Serves d source
    → Acks line
    → length d < fuel
    → Wrote crc asked (wire crc asked fuel 1 d) no_tx (send line source asked fuel (begins crc))
unfolding send
send-Wrote d source line crc asked fuel serves acks enough =
    send_blocks-Wrote crc asked line acks d source serves fuel d no_tx refl enough
