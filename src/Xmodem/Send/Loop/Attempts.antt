-- ===== src/Xmodem/Send/Loop/Attempts.antt =====
-- cmd_fs/xmodem.c: what the attempts at a frame and at the EOT leave of the locals of xmodem_send.
use esp_console_kit.Prelude.{
  ℕ, zero, suc, ◌+◌, ◌-◌, ◌≤◌, ◌≡◌, refl, Bool, true, false, ◌&&◌, [], ◌∷◌, ◌++◌, Bytes, ◌==◌,
  if_intro, if◌then◌else◌, arith,
}
use esp_console_kit.Prelude.Errors.{EspErr, esp_ok, invalid_state}
use esp_console_kit.Xmodem.Frame.{ack, can, eot}
use esp_console_kit.Xmodem.Send.Loop.{
  Reply, wait_reply, is_can, Tx, Acked, acked, cancelled, write_line, try_frame, try_eot,
}

-- The counts but for the retries, which are at most n.
abbrev pub Kept : Tx → ℕ → Tx → Type 0
Kept tx n t =
    (t.given ≡ tx.given)
    × (t.bytes ≡ tx.bytes)
    × (t.blocks ≡ tx.blocks)
    × (t.num ≡ tx.num)
    × (t.retries ≤ n)

-- Three ways to go on.
any_way :
    {A : Type 0} (P : A → Type 0) (b c : Bool) (x y z : A)
    → P x
    → P y
    → P z
    → P (if b then x else if c then y else z)
any_way P b c x y z px py pz =
    if_intro P b x (if c then y else z) (λ _. px) (λ _. if_intro P c y z (λ _. py) (λ _. pz))

module _ (line : Bytes → Reply) where
  -- The retries that an attempt may add.
  abbrev pub retries_left : ℕ → Bool → ℕ
  retries_left left first = if first then left - 1 else left

  abbrev heard_ack : Bytes → Bool
  heard_ack sent = wait_reply (line sent).bytes == ack

  abbrev heard_can : Bytes → Bool
  heard_can sent = wait_reply (line sent).bytes == can

  pub try_frame-Kept :
      (left : ℕ) (first : Bool) (frame : Bytes) (tx : Tx)
      → Kept tx (tx.retries + retries_left left first) (try_frame line left first frame tx).1
  unfolding try_frame
  try_frame-Kept zero true frame tx = (refl, refl, refl, refl, omega arith)
  try_frame-Kept zero false frame tx = (refl, refl, refl, refl, omega arith)
  try_frame-Kept (suc left) true frame tx =
      let n = tx.retries + (suc left - 1) in
      let t : Tx = record tx { sent = tx.sent ++ frame } in
      let ih = try_frame-Kept left false frame t in
      let here : Kept tx n t = (refl, refl, refl, refl, omega arith) in
      let later : Kept tx n (try_frame line left false frame t).1 =
        (ih.0, ih.1, ih.2, ih.3, omega (arith, ih.4)) in
      any_way (λ (r : Acked × Tx). Kept tx n r.1) (heard_ack t.sent)
        (heard_can t.sent && is_can (line t.sent).behind_can) (acked, t) (cancelled, t)
        (try_frame line left false frame t) here here later
  try_frame-Kept (suc left) false frame tx =
      let n = tx.retries + suc left in
      let t : Tx = record tx { retries = tx.retries + 1; sent = tx.sent ++ frame } in
      let ih = try_frame-Kept left false frame t in
      let here : Kept tx n t = (refl, refl, refl, refl, omega arith) in
      let later : Kept tx n (try_frame line left false frame t).1 =
        (ih.0, ih.1, ih.2, ih.3, omega (arith, ih.4)) in
      any_way (λ (r : Acked × Tx). Kept tx n r.1) (heard_ack t.sent)
        (heard_can t.sent && is_can (line t.sent).behind_can) (acked, t) (cancelled, t)
        (try_frame line left false frame t) here here later

  pub try_eot-Kept : (left : ℕ) (tx : Tx) → Kept tx tx.retries (try_eot line left tx).1
  unfolding try_eot
  try_eot-Kept zero tx = (refl, refl, refl, refl, omega arith)
  try_eot-Kept (suc left) tx =
      let t = write_line (eot ∷ []) tx in
      let here : Kept tx tx.retries t = (refl, refl, refl, refl, omega arith) in
      any_way (λ (r : EspErr × Tx). Kept tx tx.retries r.1) (heard_ack t.sent) (heard_can t.sent)
        (esp_ok, t) (invalid_state, t) (try_eot line left t) here here (try_eot-Kept left t)
