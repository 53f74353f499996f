-- ===== src/Xmodem/Transfer/Steps.antt =====
-- cmd_fs/xmodem.c: what xmodem_receive makes of the header, the rest and the end that xmodem_send
-- writes, where the sink takes everything.
use mathlib.Core.Path.{subst}
use esp_console_kit.Prelude.{
  ℕ, not, ltb, Bool, zero, suc, ◌+◌, ◌%◌, ◌^◌, ◌≤◌, ◌<◌, ◌≡◌, refl, sym, ap, ◌∙◌, ==_iff, ◌||◌,
  Bool, true, false, Option, none, some, [], ◌∷◌, ◌++◌, Bytes, length, take, drop, take_all,
  take-append_le, arith, ◌==◌, ◌&&◌, if◌then◌else◌,
}
use esp_console_kit.Prelude.Errors.{EspErr, esp_ok}
use esp_console_kit.Xmodem.Frame.{ack, eot, soh, stx, can, is_good, block_number, block_data}
use esp_console_kit.Xmodem.Receive.{
  Rx, Phase, polling, after_can, in_block, next_header, after_nak, lingering, heard, Went, goes,
  say, deliver_held, handed, sunk, to_deliver, ended, took_byte, holds_next, good_block, concluded,
  poll_byte, step,
}
use esp_console_kit.Xmodem.Receive.Delivers.{Reach-Standing, Reach, stepped}
use esp_console_kit.Xmodem.Receive.Handover.{Total}
use esp_console_kit.Xmodem.Transfer.{fed, feed}

pub drop_front : (n : ℕ) (xs ys : Bytes) → length xs ≡ n → drop n (xs ++ ys) ≡ ys
drop_front zero [] ys h = refl
drop_front zero (x ∷ xs) ys h = absurd (omega (arith, h))
drop_front (suc n) [] ys h = absurd (omega (arith, h))
drop_front (suc n) (x ∷ xs) ys h = drop_front n xs ys (omega (arith, h))

-- The sink takes whatever it is handed.
abbrev pub Takes : (Bytes → Bytes → EspErr) → Type 0
Takes sink = (taken d : Bytes) → sink taken d ≡ esp_ok

-- It is over with ESP_OK, and the sink took just d.
abbrev pub Came : Bytes → Option (EspErr × Rx) → Type 0
Came d none = ⊥
Came d (some (err, rx)) = (err ≡ esp_ok) × (rx.out ≡ d)

abbrev pub is_header : ℕ → Bool
is_header c = c == soh || c == stx || c == eot || c == can

module _ (size : ℕ) (sink : Bytes → Bytes → EspErr) (takes : Takes sink) where
  handed_ok :
      (d : Bytes) (rx : Rx)
      → ((handed size sink d rx).0 ≡ esp_ok) × ((handed size sink d rx).1.expected ≡ rx.expected)
  unfolding handed sunk
  handed_ok [] rx = (refl, refl)
  handed_ok (c ∷ cs) rx = rw (takes rx.out (c ∷ cs)) (refl, refl)

  deliver_held_ok :
      (last : Bool) (h : Option Bytes) (rx : Rx)
      → let q = deliver_held size sink last h rx in (q.0 ≡ esp_ok) × (q.1.expected ≡ rx.expected)
  unfolding deliver_held
  deliver_held_ok last none rx = (refl, refl)
  deliver_held_ok last (some d) rx = handed_ok (to_deliver size sink rx.delivered d last) rx

  -- It goes on with the next number.
  abbrev Counts : ℕ → Went → Type 0
  Counts k r = (rx : Rx) × (r ≡ goes next_header rx) × (rx.expected ≡ (k + 1) % 2 ^ 8)

  holds_next-Counts :
      (d : Bytes) (k : ℕ) (q : EspErr × Rx)
      → q.0 ≡ esp_ok
      → q.1.expected ≡ k
      → Counts k (holds_next size sink d q)
  unfolding holds_next
  holds_next-Counts d k q ok same =
      let e : q ≡ (esp_ok, q.1) = ap (λ (x : EspErr). (x, q.1)) ok in
      subst (λ (r : EspErr × Rx). Counts k (holds_next size sink d r)) (sym e)
        (
          record (q.1) {
            held = some d;
            expected = (q.1.expected + 1) % 2 ^ 8;
            blocks = q.1.blocks + 1;
            errors = 0;
            noise = 0;
          },
          refl,
          ap (λ n. (n + 1) % 2 ^ 8) same,
        )

  -- A good block that is the next is taken.
  block_step :
      (n : ℕ) (body : Bytes) (rx : Rx)
      → is_good n body ≡ true
      → block_number body ≡ rx.expected
      → Counts rx.expected (step size sink (in_block n) body rx)
  unfolding step good_block
  block_step n body rx good next =
      let q = deliver_held size sink false rx.held (say (ack ∷ []) rx) in
      let ok = deliver_held_ok false rx.held (say (ack ∷ []) rx) in
      rw (good, (==_iff (block_number body) rx.expected).1 next)
        (holds_next-Counts (block_data n body) rx.expected q ok.0 ok.1)

  -- Where it waits for a header.
  pub data Listens : Phase → Type 0 where
    at_poll : Listens polling
    at_next : Listens next_header

  -- What it makes of the rest of the file d.
  module _ (d : Bytes) where
    -- A header goes the same way from both.
    pub take_header :
        (fuel c : ℕ) (more p : Bytes) (ph : Phase) (rx : Rx) (ph' : Phase) (rx' : Rx)
        → Listens ph
        → Reach size sink p ph rx
        → is_header c ≡ true
        → took_byte size sink c rx ≡ goes ph' rx'
        → (Reach size sink p ph' rx' → Came d (feed size sink fuel more ph' rx'))
        → Came d (feed size sink (suc fuel) (c ∷ more) ph rx)
    unfolding feed fed
    take_header fuel c more p polling rx ph' rx' at_poll r h e goes_on =
        let polled : step size sink polling (heard c) rx ≡ goes ph' rx' =
          (unfold step poll_byte in rw h e) in
        subst (λ (w : Went). Came d (fed size sink (feed size sink fuel more) w)) (sym polled)
          (goes_on (stepped p polling rx (heard c) ph' rx' r polled))
    take_header fuel c more p next_header rx ph' rx' at_next r h e goes_on =
        let polled : step size sink next_header (some c) rx ≡ goes ph' rx' = (unfold step in e) in
        subst (λ (w : Went). Came d (fed size sink (feed size sink fuel more) w)) (sym polled)
          (goes_on (stepped p next_header rx (some c) ph' rx' r polled))
    take_header fuel c more p after_can rx ph' rx' l r h e goes_on = elim l [ ]
    take_header fuel c more p after_nak rx ph' rx' l r h e goes_on = elim l [ ]
    take_header fuel c more p lingering rx ph' rx' l r h e goes_on = elim l [ ]
    take_header fuel c more p (in_block n) rx ph' rx' l r h e goes_on = elim l [ ]

    pub take_body :
        (fuel n : ℕ) (body more p : Bytes) (rx : Rx)
        → Reach size sink p (in_block n) rx
        → is_good n body ≡ true
        → block_number body ≡ rx.expected
        → length body ≡ n + 4
        → ((rx' : Rx)
            → Reach size sink (p ++ block_data n body) next_header rx'
            → rx'.expected ≡ (rx.expected + 1) % 2 ^ 8
            → Came d (feed size sink fuel more next_header rx'))
        → Came d (feed size sink (suc fuel) (body ++ more) (in_block n) rx)
    unfolding feed
    take_body fuel n body more p rx r good next len goes_on =
        let room : length body ≤ n + 4 = omega (arith, len) in
        let heard_all : take (n + 4) (body ++ more) ≡ body =
          take-append_le (n + 4) body more (omega (arith, len)) ∙ take_all (n + 4) body room in
        let (rx', e, num) = block_step n body rx good next in
        let counts : is_good n body && block_number body == rx.expected ≡ true =
          ground (arith, good, next) in
        let here : Reach size sink (p ++ block_data n body) next_header rx' =
          subst (λ (q : Bytes). Reach size sink q next_header rx')
            (ap (λ b. if b then p ++ block_data n body else p) counts)
            (stepped p (in_block n) rx body next_header rx' r e) in
        subst
          (λ xs. Came d (
            fed size sink (feed size sink fuel xs)
              (step size sink (in_block n) (take (n + 4) (body ++ more)) rx)))
          (sym (drop_front (n + 4) body more len))
          (subst
            (λ xs.
              Came d (fed size sink (feed size sink fuel more) (step size sink (in_block n) xs rx)))
            (sym heard_all)
            (subst (λ (w : Went). Came d (fed size sink (feed size sink fuel more) w)) (sym e)
              (unfold fed in goes_on rx' here num)))

    pub hears_eot :
        (fuel : ℕ) (p : Bytes) (ph : Phase) (rx : Rx)
        → Listens ph
        → Reach size sink p ph rx
        → take size p ≡ d
        → length d ≡ size
        → 0 < size
        → Came d (feed size sink (suc (suc fuel)) (eot ∷ []) ph rx)
    unfolding feed
    hears_eot fuel p ph rx l r all told some_size =
        let q = deliver_held size sink true rx.held rx in
        let rx' = say (ack ∷ []) (q.1) in
        let e : took_byte size sink eot rx ≡ goes lingering rx' =
          (unfold took_byte ended in
            ap (λ (x : EspErr). ended size sink (x, q.1)) (deliver_held_ok true rx.held rx).0) in
        take_header (suc fuel) eot [] p ph rx lingering rx' l r refl e (λ r'.
          let (total, count) = Reach-Standing size sink p lingering rx' r' in
          let known : (size == 0) ≡ false = ground (arith, some_size) in
          let out : rx'.out ≡ d = subst (λ b. Total size sink b p rx'.out) known total ∙ all in
          let long : length rx'.out ≡ length d = ap (λ xs. length {A = ℕ} xs) out in
          let done : not (size == 0) && ltb rx'.delivered size ≡ false =
            ground (arith, known, count, long, told) in
          (unfold fed step concluded in rw done (refl, out)))
