-- ===== src/Ota/Activate.antt =====
-- cmd_fs/ota_core.c: ota_core_activate beside a session, and any calls of the component in turn.
use esp_console_kit.Prelude.{ℕ, ◌≡◌, ◌≢◌, true, false, if_intro, Option, some, ◌∷◌, Bytes, arith}
use esp_console_kit.Prelude.Errors.{is_ok, EspErr, esp_ok}
use esp_console_kit.Ota.State.{receiving, verifying, staged, Source, Partition, Core, Board, boot}
use esp_console_kit.Ota.Session.{in_progress, BeginAnswers, begin, set_source}
use esp_console_kit.Ota.Write.{write}
use esp_console_kit.Ota.Finish.{
  FinishAnswers, finish, give_up, discard, ActivateAnswers, is_staged, is_bad, same_part, activated,
  select, choose, Choice, chosen, no_choice, activate, busy,
}
use esp_console_kit.Ota.Invariant.{Staged, Inv, closed-Inv, boot-Inv}
use esp_console_kit.Ota.Writing.{write-Wrote}
use esp_console_kit.Ota.Calls.{begin-Began, set_source-Inv, give_up-Inv, discard-Inv}
use esp_console_kit.Ota.Ending.{finish-Finished}

-- Beside no session under way, activate leaves a closed session.
activate-Inv :
    (b : Board) (c : Core) (e : ActivateAnswers) (name : Option Bytes)
    → c.session.phase ≢ receiving
    → Inv b c
    → Inv b (activate c e name).1
unfolding activate
activate-Inv b c e name ne v = go (choose c e name)
  where
    go : (ch : Choice) → Inv b (select c e ch).1
    go (no_choice err) = unfold select in v
    go (chosen p) =
        unfold select in
        if_intro (λ (r : EspErr × Core). Inv b r.1) (is_ok (e.set_boot p)) _ _
          (λ _.
            unfold activated in
            closed-Inv b (activated c e p) v.buffer (v.closed ne).0 (v.closed ne).1 (λ q. cc)
              (λ q. cc) (λ q. cc))
          (λ _. v)

-- One call of the component. The owner writes, finishes and gives up only while its session
-- receives, and names its source before it writes. A slot is activated by name only while no
-- session receives; what happens otherwise is `activate_midway`.
pub data Step (b : Board) (c d : Core) : Type 0 where
  begins :
      (e : BeginAnswers) (source : Source) (size : ℕ) (url : Option Bytes) (flags : ℕ)
      → d ≡ (begin c e source size url flags).1
      → Step b c d
  sources :
      (url : Option Bytes) (total : ℕ)
      → c.session.phase ≡ receiving
      → c.session.bytes ≡ 0
      → d ≡ set_source c url total
      → Step b c d
  writes :
      (now : ℕ) (answer : EspErr) (bytes : Bytes)
      → c.session.phase ≡ receiving
      → d ≡ (write b c now answer bytes).1
      → Step b c d
  finishes :
      (e : FinishAnswers) (expect : Option Bytes)
      → c.session.phase ≡ receiving
      → d ≡ (finish b c e expect).1
      → Step b c d
  gives_up : (now : ℕ) (why : Bytes) → d ≡ give_up c now why → Step b c d
  discards : d ≡ (discard c).1 → Step b c d
  activates :
      (e : ActivateAnswers) (name : Option Bytes)
      → c.session.phase ≢ receiving
      → d ≡ (activate c e name).1
      → Step b c d

pub data Reach (b : Board) (c : Core) : Core → Type 0 where
  here : Reach b c c
  next : {d e : Core} → Reach b c d → Step b d e → Reach b c e

idle_phase : (c : Core) → c.session.phase ≢ receiving → c.session.phase ≢ verifying → busy c ≡ false
unfolding busy in_progress
idle_phase c nr nv = ground (arith, nr, nv)

Step-Inv : (b : Board) (c d : Core) → Step b c d → Inv b c → Inv b d
Step-Inv b c d (begins e source size url flags q) v =
    rw q (begin-Began b c e source size url flags v).0
Step-Inv b c d (sources url total p z q) v = rw q (set_source-Inv b c url total p z v)
Step-Inv b c d (writes now answer bytes p q) v = rw q (write-Wrote b c now answer bytes v p).0
Step-Inv b c d (finishes e expect p q) v = rw q (finish-Finished b c e expect v p).0
Step-Inv b c d (gives_up now why q) v = rw q (give_up-Inv b c now why v)
Step-Inv b c d (discards q) v = rw q (discard-Inv b c v)
Step-Inv b c d (activates e name ne q) v = rw q (activate-Inv b c e name ne v)

pub Reach-Inv : (b : Board) {c : Core} → Reach b boot c → Inv b c
Reach-Inv b here = boot-Inv b
Reach-Inv b (next {d} {e} r st) = Step-Inv b d e st (Reach-Inv b r)

-- After any calls from boot on, however the libraries answer, an image that is staged has the
-- length announced if one was, fits its slot, passed the check of its first 288 bytes, and is in
-- the flash byte for byte as it was hashed. The calls keep to the owner's order, and no slot is
-- activated while a session receives.
pub Reach-Staged : (b : Board) (c : Core) → Reach b boot c → c.session.phase ≡ staged → Staged b c
Reach-Staged b c r p = (Reach-Inv b r).stages p

-- After any calls from boot on, under the same conditions, no update handle and no hash is left
-- open once no session receives, and no session is left verifying.
pub Reach-closed :
    (b : Board) (c : Core)
    → Reach b boot c
    → c.session.phase ≢ receiving
    → (c.is_open ≡ false) × (c.hashing ≡ false) × (busy c ≡ false)
Reach-closed b c r ne =
    let v = Reach-Inv b r in ((v.closed ne).0, (v.closed ne).1, idle_phase c ne v.between)

-- Where a session receives, and a name finds a slot other than the one being written, not marked
-- bad, that ESP-IDF selects, ota_core_activate of that name succeeds and forgets the session, its
-- byte count with it, though its owner's handle stays as it was: no session counts as under way
-- any more.
pub activate_midway :
    (c : Core) (e : ActivateAnswers) (x : ℕ) (xs : Bytes) (p : Partition)
    → c.session.phase ≡ receiving
    → e.find (x ∷ xs) ≡ some p
    → same_part c.part p ≡ false
    → is_bad (e.img_state p) ≡ false
    → e.set_boot p ≡ esp_ok
    → let (err, c') = activate c e (some (x ∷ xs)) in
      (err ≡ esp_ok)
      × (busy c ≡ true)
      × (busy c' ≡ false)
      × (c'.session.bytes ≡ 0)
      × (c'.is_open ≡ c.is_open)
unfolding activate choose select activated busy in_progress is_staged is_ok
activate_midway c e x xs p q f s k ok = ground (arith, q, f, s, k, ok)
