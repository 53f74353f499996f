-- ===== src/Xmodem/Receive/Handover.antt =====
-- cmd_fs/xmodem.c: what deliver hands to the sink, and what the blocks before came to.
use mathlib.Core.Path.{subst}
use esp_console_kit.Prelude.{
  ℕ, ◌+◌, ◌-◌, ◌≡◌, refl, sym, ap, ◌∙◌, Bool, true, false, Bool-cases, inl, inr, Option, none, some,
  [], ◌∷◌, ◌++◌, append-nil, append_assoc, Bytes, length, length-append, length-take, take,
  replicate, ◌==◌, if◌then◌else◌, arith,
}
use esp_console_kit.Prelude.Errors.{is_ok, EspErr, esp_ok}
use esp_console_kit.Xmodem.Frame.{sub}
use esp_console_kit.Xmodem.Receive.{Rx, without_padding, to_deliver, sunk, handed, deliver_held}
use esp_console_kit.Xmodem.Receive.Padding.{take-append, Padded, without_padding-Padded}

abbrev pub held_bytes : Option Bytes → Bytes
held_bytes none = []
held_bytes (some d) = d

module _ (size : ℕ) (sink : Bytes → Bytes → EspErr) where
  -- What may be handed over of data that is not known to be the last.
  abbrev pub cut : Bytes → Bytes
  cut d = if size == 0 then d else take size d

  pub record OpenAt (p : Bytes) (held : Option Bytes) (out : Bytes) (delivered : ℕ) : Type 0 where
    pub before : Bytes
    pub parts : p ≡ before ++ held_bytes held
    pub sunk_all : out ≡ cut before
    pub count : delivered ≡ length out

  -- All is handed over but the block that is held.
  abbrev pub Open : Bytes → Rx → Type 0
  Open p rx = OpenAt p rx.held rx.out rx.delivered

  -- All is handed over: the first `size` bytes, or all but padding.
  abbrev pub Total : Bool → Bytes → Bytes → Type 0
  Total true p out = Padded out p
  Total false p out = out ≡ take size p

  abbrev pub Closed : Bytes → Rx → Type 0
  Closed p rx = Total (size == 0) p rx.out × (rx.delivered ≡ length rx.out)

  -- What holds of what a call of the sink leaves, where it went well.
  module _ (C : ℕ → Bytes → Type 0) where
    abbrev pub Handed : Option Bytes → EspErr × Rx → Type 0
    Handed held (err, rx) = is_ok err ≡ true → C rx.delivered rx.out × (rx.held ≡ held)

    sunk-Handed :
        (err : EspErr) (d : Bytes) (rx : Rx)
        → C (rx.delivered + length d) (rx.out ++ d)
        → Handed rx.held (sunk size sink err d rx)
    unfolding sunk is_ok
    sunk-Handed esp_ok d rx h = λ _. (h, refl)
    sunk-Handed _ d rx h = λ e. absurd (cc e)

    handed-Handed :
        (d : Bytes) (rx : Rx)
        → C (rx.delivered + length d) (rx.out ++ d)
        → Handed rx.held (handed size sink d rx)
    unfolding handed
    handed-Handed [] rx h = λ _. (
      let none_more : rx.delivered + 0 ≡ rx.delivered = omega arith in
          subst (λ m. C m rx.out) none_more (subst (C (rx.delivered + 0)) (append-nil rx.out) h),
      refl,
    )
    handed-Handed (c ∷ cs) rx h = sunk-Handed (sink rx.out (c ∷ cs)) (c ∷ cs) rx h

  cut_more :
      (before d : Bytes) (m : ℕ)
      → m ≡ length (cut before)
      → cut before ++ to_deliver size sink m d false ≡ cut (before ++ d)
  unfolding to_deliver
  cut_more before d m e = elim (Bool-cases (size == 0)) [
    | inl z ↦ rw z refl
    | inr z ↦
        let same_cut : cut before ≡ take size before = rw z refl in
        let taken = e ∙ ap length same_cut ∙ length-take size before in
        let left : size - m ≡ size - length before = omega (arith, taken) in
        rw z (ap (λ k. take size before ++ take k d) left ∙ sym (take-append size before d))
  ]

  pub deliver_Handed :
      (p : Bytes) (h : Option Bytes) (rx : Rx)
      → OpenAt p h rx.out rx.delivered
      → Handed (λ m o. (o ≡ cut p) × (m ≡ length o)) rx.held (deliver_held size sink false h rx)
  unfolding deliver_held
  deliver_Handed p none rx o =
      λ _. ((o.sunk_all ∙ ap cut (sym (o.parts ∙ append-nil o.before)), o.count), refl)
  deliver_Handed p (some d) rx o =
      let add = to_deliver size sink rx.delivered d false in
      handed-Handed (λ m out. (out ≡ cut p) × (m ≡ length out)) add rx
        (
          ap (λ l. l ++ add) o.sunk_all
              ∙ cut_more o.before d rx.delivered (o.count ∙ ap length o.sunk_all)
              ∙ ap cut (sym o.parts),
          omega (arith, o.count, length-append rx.out add),
        )

  cut-Total :
      (b : Bool)
      → (size == 0) ≡ b
      → (p before out : Bytes) → p ≡ before ++ []
      → out ≡ cut before
      → Total b p out
  cut-Total true z p before out parts e =
      let all : cut before ≡ before = rw z refl in (0, parts ∙ ap (λ l. l ++ []) (sym (e ∙ all)))
  cut-Total false z p before out parts e =
      let first : cut before ≡ take size before = rw z refl in
      e ∙ first ∙ ap (take size) (sym (parts ∙ append-nil before))

  last-Total :
      (b : Bool)
      → (size == 0) ≡ b
      → (p d : Bytes) (rx : Rx) → OpenAt p (some d) rx.out rx.delivered
      → Total b p (rx.out ++ to_deliver size sink rx.delivered d true)
  unfolding to_deliver
  last-Total true z p d rx o =
      let all : cut o.before ≡ o.before = rw z refl in
      let (k, e) = without_padding-Padded d in
      rw z (
        k,
        o.parts
            ∙ ap (λ l. o.before ++ l) e
            ∙ sym (append_assoc o.before (without_padding d) (replicate k sub))
            ∙ ap (λ l. (l ++ without_padding d) ++ replicate k sub) (sym (o.sunk_all ∙ all)),
      )
  last-Total false z p d rx o =
      let add = to_deliver size sink rx.delivered d false in
      let same_add : to_deliver size sink rx.delivered d true ≡ add = rw z refl in
      let first : cut p ≡ take size p = rw z refl in
      ap (λ l. rx.out ++ l) same_add
      ∙ ap (λ l. l ++ add) o.sunk_all
      ∙ cut_more o.before d rx.delivered (o.count ∙ ap length o.sunk_all)
      ∙ ap cut (sym o.parts)
      ∙ first

  pub last_Handed :
      (p : Bytes) (h : Option Bytes) (rx : Rx)
      → OpenAt p h rx.out rx.delivered
      → Handed
          (λ m o. Total (size == 0) p o × (m ≡ length o))
          rx.held
          (deliver_held size sink true h rx)
  unfolding deliver_held
  last_Handed p none rx o =
      λ _. ((cut-Total (size == 0) refl p o.before rx.out o.parts o.sunk_all, o.count), refl)
  last_Handed p (some d) rx o =
      let add = to_deliver size sink rx.delivered d true in
      handed-Handed (λ m out. Total (size == 0) p out × (m ≡ length out)) add rx
        (last-Total (size == 0) refl p d rx o, omega (arith, o.count, length-append rx.out add))
