-- ===== src/Xmodem/Receive/Delivers.antt =====
-- cmd_fs/xmodem.c: what xmodem_receive hands to the sink, whatever the line says.
use mathlib.Core.Path.{subst}
use esp_console_kit.Prelude.{
  ℕ, ◌+◌, ◌%◌, ◌^◌, ◌≤◌, ◌≡◌, refl, sym, ap, ◌∙◌, Bool, true, false, not, ◌&&◌, ◌||◌, Bool-cases,
  inl, inr, if_intro, Option, none, some, [], ◌∷◌, ◌++◌, Bytes, length, length-take, take, take_all,
  ltb, ◌==◌, if◌then◌else◌, arith,
}
use esp_console_kit.Prelude.Errors.{is_ok, EspErr, esp_ok}
use esp_console_kit.Xmodem.Frame.{
  eot, can, soh, stx, is_good, block_data, block_number, max_noise, max_errors,
}
use esp_console_kit.Xmodem.Receive.{
  Rx, Phase, polling, after_can, in_block, next_header, after_nak, lingering, heard, poll_over,
  gave_up, Heard, Went, goes, over, say, deliver_held, ended, took_noise, took_byte, holds_next,
  good_block, bad_block, late_header, concluded, poll_byte, step, start,
}
use esp_console_kit.Xmodem.Receive.Padding.{Padded}
use esp_console_kit.Xmodem.Receive.Handover.{
  cut, Open, Total, Closed, Handed, deliver_Handed, last_Handed,
}

-- The data of the blocks taken, in order, with what a frame adds to it: that of a good block which
-- is the next.
abbrev pub joined : Bytes → (ph : Phase) → Heard ph → Rx → Bytes
joined p (in_block n) frame rx =
    if is_good n frame && block_number frame == rx.expected then p ++ block_data n frame else p
joined p _ h rx = p

module _ (size : ℕ) (sink : Bytes → Bytes → EspErr) where
  -- What the caller has where a receive is over with ESP_OK.
  abbrev pub Received : Bool → Bytes → Bytes → Type 0
  Received true p out = Padded out p
  Received false p out = (out ≡ take size p) × (length out ≡ size)

  abbrev pub Standing : Phase → Bytes → Rx → Type 0
  Standing lingering p rx = Closed size sink p rx
  Standing _ p rx = Open size sink p rx

  abbrev Fits : Bytes → Went → Type 0
  Fits p (goes ph rx) = Standing ph p rx
  Fits p (over err rx) = is_ok err ≡ true → Received (size == 0) p rx.out

  Total-Received :
      (b : Bool)
      → (size == 0) ≡ b
      → (p : Bytes) (rx : Rx) → Total size sink b p rx.out
      → rx.delivered ≡ length rx.out
      → not (size == 0) && ltb rx.delivered size ≡ false
      → Received b p rx.out
  Total-Received true z p rx t c h = t
  Total-Received false z p rx t c h =
      let most = ap length t ∙ length-take size p in
      let least : size ≤ rx.delivered = ground (arith, z, h) in (t, omega (arith, most, least, c))

  ended-Fits :
      (p : Bytes) (h : Option Bytes) (q : EspErr × Rx)
      → Handed size sink (λ m o. Total size sink (size == 0) p o × (m ≡ length o)) h q
      → Fits p (ended size sink q)
  unfolding ended is_ok
  ended-Fits p h (esp_ok, rx) k = let (c, _) = k refl in c
  ended-Fits p h (_, rx) k = λ e. absurd (cc e)

  took_noise-Fits : (p : Bytes) (rx : Rx) → Open size sink p rx → Fits p (took_noise size sink rx)
  unfolding took_noise is_ok
  took_noise-Fits p rx o =
      if_intro (Fits p) (ltb max_noise (rx.noise + 1)) _ _ (λ _. λ e. absurd (cc e)) (λ _. o)

  took_byte-Fits :
      (p : Bytes) (c : ℕ) (rx : Rx) → Open size sink p rx → Fits p (took_byte size sink c rx)
  unfolding took_byte
  took_byte-Fits p c rx o =
      if_intro (Fits p) (c == eot) _ _
        (λ _.
          ended-Fits p rx.held (deliver_held size sink true rx.held rx)
            (last_Handed size sink p rx.held rx o))
        (λ _.
          if_intro (Fits p) (c == can) _ _ (λ _. o)
            (λ _.
              if_intro (Fits p) (c == soh) _ _ (λ _. o)
                (λ _.
                  if_intro (Fits p) (c == stx) _ _ (λ _. o)
                    (λ _. if_intro (Fits p) (c == 0) _ _ (λ _. o) (λ _. took_noise-Fits p rx o)))))

  holds_next-Fits :
      (p d : Bytes) (h : Option Bytes) (q : EspErr × Rx)
      → Handed size sink (λ m o. (o ≡ cut size sink p) × (m ≡ length o)) h q
      → Fits (p ++ d) (holds_next size sink d q)
  unfolding holds_next is_ok
  holds_next-Fits p d h (esp_ok, rx) k =
      let (c, _) = k refl in record { before = p; parts = refl; sunk_all = c.0; count = c.1 }
  holds_next-Fits p d h (_, rx) k = λ e. absurd (cc e)

  bad_block-Fits :
      (p : Bytes) (n : ℕ) (frame : Bytes) (rx : Rx)
      → Open size sink p rx
      → Fits p (bad_block size sink n frame rx)
  unfolding bad_block is_ok
  bad_block-Fits p n frame rx o =
      if_intro (Fits p) (ltb max_errors (rx.errors + 1)) _ _ (λ _. λ e. absurd (cc e)) (λ _. o)

  late_header-Fits : (p : Bytes) (rx : Rx) → Open size sink p rx → Fits p (late_header size sink rx)
  unfolding late_header is_ok
  late_header-Fits p rx o =
      if_intro (Fits p) (ltb max_errors (rx.errors + 1)) _ _ (λ _. λ e. absurd (cc e)) (λ _. o)

  in_block-Fits :
      (p : Bytes) (n : ℕ) (frame : Bytes) (rx : Rx)
      → Open size sink p rx
      → Fits (joined p (in_block n) frame rx) (step size sink (in_block n) frame rx)
  unfolding step good_block is_ok
  in_block-Fits p n frame rx o = elim (Bool-cases (is_good n frame)) [
    | inr bad ↦ rw bad (bad_block-Fits p n frame rx o)
    | inl good ↦ elim (Bool-cases (block_number frame == rx.expected)) [
      | inl next ↦ rw good (
          rw next (
            holds_next-Fits p (block_data n frame) rx.held
              (deliver_held size sink false rx.held (say (0x06 ∷ []) rx))
              (deliver_Handed size sink p rx.held (say (0x06 ∷ []) rx) o)))
      | inr other ↦ rw good (
          rw other (
            if_intro (Fits p) (block_number frame == (rx.expected + 255) % 2 ^ 8) _ _ (λ _. o)
              (λ _. λ e. absurd (cc e))))
    ]
  ]

  concluded-Fits : (p : Bytes) (rx : Rx) → Closed size sink p rx → Fits p (concluded size sink rx)
  unfolding concluded is_ok
  concluded-Fits p rx c =
      if_intro (Fits p) (not (size == 0) && ltb rx.delivered size) _ _ (λ _. λ e. absurd (cc e))
        (λ h. λ _. Total-Received (size == 0) refl p rx c.0 c.1 h)

  step-Fits :
      (ph : Phase) (h : Heard ph) (p : Bytes) (rx : Rx)
      → Standing ph p rx
      → Fits (joined p ph h rx) (step size sink ph h rx)
  unfolding step poll_byte is_ok
  step-Fits polling (heard c) p rx o =
      if_intro (Fits p) (c == soh || c == stx || c == eot || c == can) _ _
        (λ _. took_byte-Fits p c rx o) (λ _. o)
  step-Fits polling poll_over p rx o = o
  step-Fits polling gave_up p rx o = λ e. absurd (cc e)
  step-Fits after_can (some c) p rx o =
      if_intro (Fits p) (c == can) _ _ (λ _. λ e. absurd (cc e)) (λ _. took_byte-Fits p c rx o)
  step-Fits after_can none p rx o = o
  step-Fits (in_block n) frame p rx o = in_block-Fits p n frame rx o
  step-Fits next_header (some c) p rx o = took_byte-Fits p c rx o
  step-Fits next_header none p rx o = late_header-Fits p rx o
  step-Fits after_nak (some c) p rx o = took_byte-Fits p c rx o
  step-Fits after_nak none p rx o = λ e. absurd (cc e)
  step-Fits lingering (some c) p rx o = if_intro (Fits p) (c == eot) _ _ (λ _. o) (λ _. o)
  step-Fits lingering none p rx o = concluded-Fits p rx o

  -- The states that a receive comes to, with the data of the blocks it has taken.
  pub data Reach : Bytes → Phase → Rx → Type 0 where
    started : Reach [] polling start
    stepped :
        (p : Bytes) (ph : Phase) (rx : Rx) (h : Heard ph) (ph' : Phase) (rx' : Rx)
        → Reach p ph rx
        → step size sink ph h rx ≡ goes ph' rx'
        → Reach (joined p ph h rx) ph' rx'

  pub Reach-Standing : (p : Bytes) (ph : Phase) (rx : Rx) → Reach p ph rx → Standing ph p rx
  Reach-Standing _ _ _ started = record {
    before = [];
    parts = refl;
    sunk_all =
        if_intro (λ (l : Bytes). [] ≡ l) (size == 0) _ _ (λ _. refl)
          (λ _. sym (take_all size [] (omega arith)));
    count = refl;
  }
  Reach-Standing _ _ _ (stepped p ph rx h ph' rx' r e) =
      subst (Fits (joined p ph h rx)) e (step-Fits ph h p rx (Reach-Standing p ph rx r))
