-- ===== src/Xmodem/Transfer/Whole.antt =====
-- cmd_fs/xmodem.c: a file that xmodem_send sends is what xmodem_receive hands over.
use mathlib.Core.Path.{subst}
use esp_console_kit.Prelude.{
  ℕ, zero, suc, ◌+◌, ◌-◌, ◌%◌, ◌^◌, ◌≤◌, ◌<◌, ◌≡◌, ◌⊎◌, inl, inr, refl, sym, ap, ◌∙◌, true, not,
  Option, none, some, [], ◌∷◌, ◌++◌, Bytes, length, length-append, length-take, length-drop, take,
  drop, take-drop, take_all, drop_all, take-append_le, if_intro, arith, append_assoc, append-nil,
  ◌==◌, ◌&&◌, leb, Bool-cases, replicate,
}
use esp_console_kit.Prelude.Errors.{EspErr, esp_ok}
use esp_console_kit.Xmodem.Frame.{sub, block_data}
use esp_console_kit.Xmodem.Receive.{Rx, Phase, polling, in_block, next_header, start}
use esp_console_kit.Xmodem.Receive.Delivers.{Reach, started}
use esp_console_kit.Xmodem.Send.{
  block_size, frame_size, padded, header, behind_header, check_bytes, frame_of,
}
use esp_console_kit.Xmodem.Send.Frames.{frame_of-Carries, length-padded, frame_size_bound}
use esp_console_kit.Xmodem.Send.Loop.{begins, Reply, Tx, no_tx, send}
use esp_console_kit.Xmodem.Send.Loop.Fills.{Serves}
use esp_console_kit.Xmodem.Send.Loop.Ends.{some_size}
use esp_console_kit.Xmodem.Send.Loop.Wire.{wire, Acks, Wrote, send-Wrote}
use esp_console_kit.Xmodem.Transfer.{feed, steps}
use esp_console_kit.Xmodem.Transfer.Steps.{
  Takes, Listens, at_poll, at_next, Came, is_header, take_header, take_body, hears_eot,
}

size_cases : (asked : ℕ) → (block_size true asked ≡ 128) ⊎ (block_size true asked ≡ 1024)
size_cases asked =
    if_intro (λ (m : ℕ). (m ≡ 128) ⊎ (m ≡ 1024)) (true && not (asked == 128)) _ _ (λ _. inr refl)
      (λ _. inl refl)

-- A whole block is not padded.
frame_size_whole :
    (asked k : ℕ) → k ≡ block_size true asked → frame_size true (block_size true asked) k ≡ k
frame_size_whole asked k h = elim (size_cases asked) [
  | inl e ↦ if_intro (λ (m : ℕ). m ≡ k) (true && leb k 128) _ _ (λ _. sym (h ∙ e)) (λ _. sym h)
  | inr e ↦
      if_intro (λ (m : ℕ). m ≡ k) (true && leb k 128) _ _ (λ l. absurd (ground (arith, l, h, e)))
        (λ _. sym h)
]

length_body : (n num : ℕ) (d : Bytes) → length d ≤ n → length (behind_header true n num d) ≡ n + 4
length_body n num d fits =
    omega
      (arith, length-append (padded n d) (check_bytes true (padded n d)), length-padded n d fits)

is_header-header : (n : ℕ) → is_header (header n) ≡ true
is_header-header n =
    if_intro (λ (c : ℕ). is_header c ≡ true) (n == 1024) _ _ (λ _. refl) (λ _. refl)

-- What is taken and what is left are the file; behind the last block, but for padding.
abbrev Parted : Bytes → Bytes → Bytes → Type 0
Parted d p rest = (p ++ rest ≡ d) ⊎ ((rest ≡ []) × (take (length d) p ≡ d))

last_part : (d p : Bytes) → Parted d p [] → take (length d) p ≡ d
last_part d p (inr h) = h.1
last_part d p (inl h) =
    let same = sym (append-nil p) ∙ h in
    ap (take (length d)) same ∙ take_all (length d) d (omega arith)

first_part : (d p : Bytes) (x : ℕ) (xs : Bytes) → Parted d p (x ∷ xs) → p ++ x ∷ xs ≡ d
first_part d p x xs (inl h) = h
first_part d p x xs (inr h) = absurd (cc (h.0))

-- Behind a block.
next_part :
    (asked : ℕ) (d p rest : Bytes)
    → p ++ rest ≡ d
    → let b = block_size true asked in
      let n = frame_size true b (length (take b rest)) in
      Parted d (p ++ padded n (take b rest)) (drop b rest)
next_part asked d p rest h =
    let b = block_size true asked in
    let chunk = take b rest in
    let n = frame_size true b (length chunk) in
    elim (Bool-cases (leb (length rest) b)) [
      | inl short ↦
          let fits : length rest ≤ b = ground (arith, short) in
          let pad = replicate (n - length chunk) sub in
          let whole : p ++ padded n chunk ≡ d ++ pad =
            ap (λ c. p ++ (c ++ pad)) (take_all b rest fits)
            ∙ sym (append_assoc p rest pad)
            ∙ ap (λ c. c ++ pad) h in
          inr (
            drop_all b rest fits,
            ap (take (length d)) whole
                ∙ take-append_le (length d) d pad (omega arith)
                ∙ take_all (length d) d (omega arith),
          )
      | inr long ↦
          let more : b < length rest = ground (arith, long) in
          let full : length chunk ≡ b = omega (arith, length-take b rest, more) in
          let none_left : n - length chunk ≡ 0 =
            omega (arith, frame_size_whole asked (length chunk) full) in
          let same : padded n chunk ≡ chunk =
            ap (λ k. chunk ++ replicate k sub) none_left ∙ append-nil chunk in
          inl (
            ap (λ c. (p ++ c) ++ drop b rest) same
            ∙ append_assoc p chunk (drop b rest)
            ∙ ap (λ c. p ++ c) (take-drop b rest)
            ∙ h)
    ]

module _ (d : Bytes) (sink : Bytes → Bytes → EspErr) (takes : Takes sink) (asked : ℕ) where
  feed-wire :
      (w : ℕ) (rest p : Bytes) (ph : Phase) (rx : Rx)
      → 0 < length d
      → Listens (length d) sink takes ph
      → Reach (length d) sink p ph rx
      → rx.expected < 256
      → Parted d p rest
      → length rest < w
      → Came d (feed (length d) sink (steps w) (wire true asked w rx.expected rest) ph rx)
  unfolding wire frame_of
  feed-wire zero rest p ph rx full l r small part enough = absurd (omega (arith, enough))
  feed-wire (suc w) [] p ph rx full l r small part enough =
      hears_eot (length d) sink takes d (steps w) p ph rx l r (last_part d p part) refl full
  feed-wire (suc w) (x ∷ xs) p ph rx full l r small part enough =
      let b = block_size true asked in
      let rest = x ∷ xs in
      let chunk = take b rest in
      let n = frame_size true b (length chunk) in
      let num = rx.expected in
      let body = behind_header true n num chunk in
      let more = wire true asked w ((num + 1) % 2 ^ 8) (drop b rest) in
      let fits : length chunk ≤ b = omega (arith, length-take b rest) in
      let (waits, good, numbered, holds) =
        frame_of-Carries (length d) sink rx asked num chunk small fits in
      take_header (length d) sink takes d (suc (steps w)) (header n) (body ++ more) p ph rx
        (in_block n) rx l r (is_header-header n) waits
        (λ r'.
          take_body (length d) sink takes d (steps w) n body more p rx r' good numbered
            (length_body n num chunk (frame_size_bound asked (length chunk) fits))
            (λ rx' reach next.
              subst
                (λ k. Came d (
                  feed (length d) sink (steps w) (wire true asked w k (drop b rest)) next_header
                    rx'))
                next
                (feed-wire w (drop b rest) (p ++ block_data n body) next_header rx' full at_next
                  reach (omega (arith, next))
                  (subst (λ c. Parted d (p ++ c) (drop b rest)) (sym holds)
                    (next_part asked d p rest (first_part d p x xs part)))
                  (omega (arith, some_size true asked, enough, length-drop b rest)))))

-- What a receiver, told its length, makes of what a sender wrote.
abbrev pub Arrives : Bytes → (Bytes → Bytes → EspErr) → ℕ → Option (EspErr × Tx) → Type 0
Arrives d sink fuel none = ⊥
Arrives d sink fuel (some (err, tx)) =
    (err ≡ esp_ok) × Came d (feed (length d) sink (steps fuel) tx.sent polling start)

Wrote-Arrives :
    (d : Bytes) (sink : Bytes → Bytes → EspErr) (takes : Takes sink) (asked fuel : ℕ)
    → 0 < length d
    → length d < fuel
    → (o : Option (EspErr × Tx)) → Wrote true asked (wire true asked fuel 1 d) no_tx o
    → Arrives d sink fuel o
Wrote-Arrives d sink takes asked fuel full enough none h = h
Wrote-Arrives d sink takes asked fuel full enough (some (err, tx)) h = (
  h.0,
  subst (λ xs. Came d (feed (length d) sink (steps fuel) xs polling start)) (sym h.1)
      (feed-wire d sink takes asked fuel d [] polling start full at_poll started (omega arith)
        (inl refl) enough),
)

-- A file that is not empty, handed out by its source in pieces of any length, is sent with a CRC
-- over a line that acknowledges everything, with fuel for more rounds than it has bytes:
-- xmodem_send is over with ESP_OK, and xmodem_receive, told the length, fed just the bytes that
-- were written, with a sink that takes everything, is over with ESP_OK and has handed over that
-- file.
pub send-feed :
    (d : Bytes) (source : Bytes → ℕ → Option Bytes) (line : Bytes → Reply)
    (sink : Bytes → Bytes → EspErr) (asked fuel : ℕ)
    → 0 < length d
    → length d < fuel
    → Serves d source
    → Acks line
    → Takes sink
    → Arrives d sink fuel (send line source asked fuel (begins true))
send-feed d source line sink asked fuel full enough serves acks takes =
    Wrote-Arrives d sink takes asked fuel full enough (send line source asked fuel (begins true))
      (send-Wrote d source line true asked fuel serves acks enough)
