-- ===== src/Ota/Ending.antt =====
-- cmd_fs/ota_core.c: ota_core_finish stages only a whole image, and fails closed.
use esp_console_kit.Prelude.{
  ℕ, ◌≤◌, ◌≡◌, refl, ◌⊎◌, true, false, Bool-cases, inl, inr, if_intro, Option, none, some, Bytes,
  length, take, arith,
}
use esp_console_kit.Prelude.Errors.{is_ok, EspErr, esp_ok}
use esp_console_kit.Ota.State.{
  idle, receiving, staged, failed, Why, not_verified, head_len, Core, Board,
}
use esp_console_kit.Ota.Session.{set_failed, release}
use esp_console_kit.Ota.Finish.{
  FinishAnswers, digest_hex, verifying_core, sha_differs, finish_refusal, conclude, finish,
}
use esp_console_kit.Ota.Write.{check_head}
use esp_console_kit.Ota.Head.{passes}
use esp_console_kit.Ota.Invariant.{Receiving, Inv, closed-Inv, failed-Inv}

-- What a finish leaves: a staged image with the digest that was asked for, an idle dry run with
-- it, or a failure with all closed.
abbrev pub Finished : Board → Core → Option Bytes → EspErr × Core → Type 0
Finished b c expect (err, c') =
    Inv b c'
    × (is_ok err ≡ true
        → (sha_differs expect (digest_hex b c.hashed) ≡ false)
          × (c.cancel ≡ false)
          × (c.session.dry_run ≡ false → (c'.session.phase ≡ staged) × (c'.hashed ≡ c.hashed))
          × (c.session.dry_run ≡ true → c'.session.phase ≡ idle))
    × (is_ok err ≡ false → c'.session.phase ≡ failed)

finish_refusal-none :
    (c : Core) (expect : Option Bytes)
    → finish_refusal c expect ≡ none
    → (c.cancel ≡ false)
      × ((c.session.total ≡ 0) ⊎ (c.session.bytes ≡ c.session.total))
      × (head_len ≤ c.session.bytes)
      × (sha_differs expect c.session.sha256 ≡ false)
unfolding finish_refusal
finish_refusal-none c expect h = ground arith

finish_refusal_fails :
    (c : Core) (expect : Option Bytes) (err : EspErr) (why : Why)
    → finish_refusal c expect ≡ some (err, why)
    → is_ok err ≡ false
unfolding finish_refusal is_ok
finish_refusal_fails c expect err why h = ground arith

ok_not_refused : is_ok esp_ok ≡ false → ⊥
unfolding is_ok
ok_not_refused q = cc

failed-Finished :
    (b : Board) (c : Core) (expect : Option Bytes) (now : ℕ) (err : EspErr) (why : Why) (c2 : Core)
    → length c2.head ≡ head_len
    → is_ok err ≡ false
    → Finished b c expect (err, set_failed now why (release c2))
failed-Finished b c expect now err why c2 size k =
    (failed-Inv b c2 now why size, λ q. absurd (cc (q, k)), λ _. refl)

-- The head of 288 bytes or more has been checked.
checked_of_long :
    (b : Board) (c : Core)
    → Receiving b c
    → head_len ≤ c.session.bytes
    → passes (check_head b c.any_project (take head_len c.hashed)) ≡ true
checked_of_long b c r long = elim (Bool-cases c.head_checked) [
  | inl e ↦ (r.collected.checked e).1
  | inr e ↦ let (short, _) = r.collected.filled e in absurd (omega (arith, r.counted))
]

module _ (b : Board) (c : Core) (e : FinishAnswers) (expect : Option Bytes)
    (size : length c.head ≡ head_len) (r : Receiving b c) (p : c.session.phase ≡ receiving) where
  abbrev v : Core
  v = verifying_core b c

  conclude-Finished : finish_refusal v expect ≡ none → Finished b c expect (conclude v e)
  unfolding conclude
  conclude-Finished ok =
      let (live, whole, long, sha) = finish_refusal-none v expect ok in
      if_intro (Finished b c expect) c.session.dry_run _ _
        (λ dry. (
          closed-Inv b
              (record v { session = record (v.session) { phase = idle; finished_us = e.now } }) size
              (r.dry dry) refl (λ q. cc) (λ q. cc) (λ q. cc),
          λ _. (sha, live, λ wet. absurd (cc (wet, dry)), λ _. refl),
          λ q. absurd (ok_not_refused q),
        ))
        (λ wet.
          if_intro (Finished b c expect) (is_ok e.ota_end) _ _
            (λ k. (
              record {
                buffer = size;
                receives = λ q. absurd (cc q);
                closed = λ _. (refl, refl);
                stages = λ _. record {
                  counted = r.counted;
                  total = whole;
                  in_slot = r.in_slot;
                  written = (r.writes wet).1;
                  long = omega (arith, r.counted);
                  head = checked_of_long b c r long;
                };
                between = λ q. cc q;
              },
              λ _. (sha, live, λ _. (refl, refl), λ dry. absurd (cc (wet, dry))),
              λ q. absurd (ok_not_refused q),
            ))
            (λ k.
              failed-Finished b c expect e.now e.ota_end (not_verified e.ota_end)
                (record v { is_open = false }) size k))

pub finish-Finished :
    (b : Board) (c : Core) (e : FinishAnswers) (expect : Option Bytes)
    → Inv b c
    → c.session.phase ≡ receiving
    → Finished b c expect (finish b c e expect)
finish-Finished b c e expect v p = go (finish_refusal (verifying_core b c) expect) refl
  where
    go :
        (o : Option (EspErr × Why))
        → finish_refusal (verifying_core b c) expect ≡ o
        → Finished b c expect (finish b c e expect)
    go none q =
        unfold finish in rw (q, finish) (conclude-Finished b c e expect v.buffer (v.receives p) p q)
    go (some (err, why)) q =
        unfold finish in
        rw (q, finish)
          (failed-Finished b c expect e.now err why (verifying_core b c) v.buffer
            (finish_refusal_fails (verifying_core b c) expect err why q))

-- Where a finish of a session that keeps the invariant and receives returns an error, the session
-- has failed, with no handle and no hash open.
pub finish_fails :
    (b : Board) (c : Core) (e : FinishAnswers) (expect : Option Bytes)
    → Inv b c
    → c.session.phase ≡ receiving
    → is_ok (finish b c e expect).0 ≡ false
    → let c' = (finish b c e expect).1 in
      (c'.session.phase ≡ failed) × (c'.is_open ≡ false) × (c'.hashing ≡ false)
finish_fails b c e expect v p bad =
    let (v', _, fails) = finish-Finished b c e expect v p in
    let f = fails bad in let (o, h) = v'.closed (λ q. cc (q, f)) in (f, o, h)
