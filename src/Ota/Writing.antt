-- ===== src/Ota/Writing.antt =====
-- cmd_fs/ota_core.c: ota_core_write takes its bytes whole, or fails the session and closes it.
use mathlib.Core.Path.{subst₂}
use esp_console_kit.Prelude.{
  ℕ, Bool-cases, inl, inr, ◌≡◌, refl, ap, sym, ◌∙◌, true, false, Option, none, some, ◌++◌, Bytes,
  length, length-append, arith,
}
use esp_console_kit.Prelude.Errors.{is_ok, EspErr, esp_ok}
use esp_console_kit.Ota.State.{receiving, failed, Why, not_written, head_len, Core, Board}
use esp_console_kit.Ota.Write.{
  part_size, refusal, take_head, write_flash, write, after_head, after_flash, accept, fail_write,
}
use esp_console_kit.Ota.Head.{Collected, Taken, Outcome, take_head-Outcome}
use esp_console_kit.Ota.Invariant.{Receiving, Inv, failed-Inv, refusal-none}

module _ (c : Core) (answer : EspErr) (bytes : Bytes) where
  write_flash_closed : c.is_open ≡ false → write_flash c answer bytes ≡ (none, c)
  unfolding write_flash
  write_flash_closed e = ground (arith, e)

  write_flash_taken :
      c.is_open ≡ true
      → is_ok answer ≡ true
      → write_flash c answer bytes ≡ (none, record c { flash = c.flash ++ bytes })
  unfolding write_flash
  write_flash_taken e k = ground (arith, e, k)

  write_flash_refused :
      c.is_open ≡ true
      → is_ok answer ≡ false
      → write_flash c answer bytes ≡ (some (answer, not_written answer), c)
  unfolding write_flash
  write_flash_refused e k = ground (arith, e, k)

-- The parts of a core that take_head leaves alone.
record Same (c c' : Core) : Type 0 where
  is_open : c'.is_open ≡ c.is_open
  hashing : c'.hashing ≡ c.hashing
  any : c'.any_project ≡ c.any_project
  part : c'.part ≡ c.part
  hashed : c'.hashed ≡ c.hashed
  flash : c'.flash ≡ c.flash
  phase : c'.session.phase ≡ c.session.phase
  total : c'.session.total ≡ c.session.total
  bytes : c'.session.bytes ≡ c.session.bytes
  dry_run : c'.session.dry_run ≡ c.session.dry_run

Taken-Same : (b : Board) (c c' : Core) (bytes : Bytes) → Taken b c c' bytes → Same c c'
Taken-Same b c c' bytes t = record {
  is_open = ap (λ (k : Core). k.is_open) t.same;
  hashing = ap (λ (k : Core). k.hashing) t.same;
  any = ap (λ (k : Core). k.any_project) t.same;
  part = ap (λ (k : Core). k.part) t.same;
  hashed = ap (λ (k : Core). k.hashed) t.same;
  flash = ap (λ (k : Core). k.flash) t.same;
  phase = ap (λ (k : Core). k.session.phase) t.same;
  total = ap (λ (k : Core). k.session.total) t.same;
  bytes = ap (λ (k : Core). k.session.bytes) t.same;
  dry_run = ap (λ (k : Core). k.session.dry_run) t.same;
}

-- What a write leaves: it is taken whole, or the session has failed and is closed.
abbrev pub Wrote : Board → Core → Bytes → EspErr × Core → Type 0
Wrote b c bytes (err, c') =
    Inv b c'
    × (is_ok err ≡ true
        → (c'.session.phase ≡ receiving)
          × (c'.hashed ≡ c.hashed ++ bytes)
          × (c'.session.dry_run ≡ c.session.dry_run))
    × (is_ok err ≡ false → c'.session.phase ≡ failed)

failed-Wrote :
    (b : Board) (c : Core) (now : ℕ) (err : EspErr) (why : Why) (c2 : Core) (bytes : Bytes)
    → is_ok err ≡ false
    → length c2.head ≡ head_len
    → Wrote b c bytes (fail_write now (err, why) c2)
failed-Wrote b c now err why c2 bytes e size =
    (failed-Inv b c2 now why size, λ q. absurd (cc (e, q)), λ _. refl)

module _ (b : Board) (c c1 : Core) (bytes : Bytes) (p : c.session.phase ≡ receiving)
    (r : Receiving b c) (room : refusal c (length bytes) ≡ none) (t : Taken b c c1 bytes) where
  accepted-Receiving :
      (flash : Bytes)
      → (c.session.dry_run ≡ false → flash ≡ c.flash ++ bytes)
      → Receiving b (accept (record c1 { flash = flash }) bytes)
  accepted-Receiving flash f =
      let s = Taken-Same b c c1 bytes t in
      let k = refusal-none c (length bytes) room in
      record {
        hashing = s.hashing ∙ r.hashing;
        counted = omega (
          arith,
          s.bytes,
          r.counted,
          length-append c1.hashed bytes,
          ap (λ (x : Bytes). length x) s.hashed,
        );
        in_total = λ ne. ground (arith, s.bytes, s.total, k.0);
        in_slot = omega (arith, s.bytes, k.1, ap part_size s.part);
        writes = λ d.
            let w = r.writes (sym s.dry_run ∙ d) in
            (s.is_open ∙ w.0, f (sym s.dry_run ∙ d) ∙ ap (λ x. x ++ bytes) (w.1 ∙ sym s.hashed));
        dry = λ d. s.is_open ∙ r.dry (sym s.dry_run ∙ d);
        collected =
            subst₂ (λ any hashed. Collected b any c1.head (hashed ++ bytes) c1.head_checked)
              (sym s.any) (sym s.hashed) t.collected;
      }

  accepted-Wrote :
      (flash : Bytes)
      → (c.session.dry_run ≡ false → flash ≡ c.flash ++ bytes)
      → Wrote b c bytes (esp_ok, accept (record c1 { flash = flash }) bytes)
  accepted-Wrote flash f =
      let s = Taken-Same b c c1 bytes t in
      let good = accepted-Receiving flash f in
      let phase : c1.session.phase ≡ receiving = s.phase ∙ p in
      (
        record {
          buffer = t.collected.buffer;
          receives = λ _. good;
          closed = λ ne. absurd (ne phase);
          stages = λ e. absurd (cc (e, phase));
          between = λ e. cc (e, phase);
        },
        λ _. (phase, ap (λ x. x ++ bytes) s.hashed, s.dry_run),
        λ e. absurd (unfold is_ok in cc e),
      )

  after_flash-Wrote :
      (now : ℕ) (answer : EspErr)
      → Wrote b c bytes (after_flash now (write_flash c1 answer bytes) bytes)
  after_flash-Wrote now answer = elim (Bool-cases c.session.dry_run) [
    | inl d ↦
        rw (write_flash_closed c1 answer bytes (s.is_open ∙ r.dry d))
          (unfold after_flash in accepted-Wrote c1.flash (λ q. absurd (cc (d, q))))
    | inr d ↦
        let e = s.is_open ∙ (r.writes d).0 in
        elim (Bool-cases (is_ok answer)) [
          | inl k ↦ rw (write_flash_taken c1 answer bytes e k) (
              unfold after_flash in
              accepted-Wrote (c1.flash ++ bytes) (λ _. ap (λ x. x ++ bytes) s.flash))
          | inr k ↦ rw (write_flash_refused c1 answer bytes e k) (
              unfold after_flash in
              failed-Wrote b c now answer (not_written answer) c1 bytes k t.collected.buffer)
        ]
  ]
    where
      s : Same c c1
      s = Taken-Same b c c1 bytes t

refusal_fails :
    (c : Core) (len : ℕ) (err : EspErr) (why : Why)
    → refusal c len ≡ some (err, why)
    → is_ok err ≡ false
unfolding refusal is_ok
refusal_fails c len err why h = ground arith

after_head-Wrote :
    (b : Board) (c : Core) (now : ℕ) (answer : EspErr) (bytes : Bytes)
    → c.session.phase ≡ receiving
    → Receiving b c
    → refusal c (length bytes) ≡ none
    → (o : Option (EspErr × Why) × Core) → Outcome b c bytes o
    → Wrote b c bytes (after_head now answer o bytes)
unfolding after_head
after_head-Wrote b c now answer bytes p r room (none, c1) t =
    after_flash-Wrote b c c1 bytes p r room t now answer
after_head-Wrote b c now answer bytes p r room (some (err, why), c1) (e, size, same) =
    failed-Wrote b c now err why c1 bytes (rw e (unfold is_ok in refl)) size

pub write-Wrote :
    (b : Board) (c : Core) (now : ℕ) (answer : EspErr) (bytes : Bytes)
    → Inv b c
    → c.session.phase ≡ receiving
    → Wrote b c bytes (write b c now answer bytes)
write-Wrote b c now answer bytes v p = go (refusal c (length bytes)) refl
  where
    go :
        (o : Option (EspErr × Why))
        → refusal c (length bytes) ≡ o
        → Wrote b c bytes (write b c now answer bytes)
    go none e =
        unfold write in
        rw (e, write)
          (after_head-Wrote b c now answer bytes p (v.receives p) e (take_head b c bytes)
            (take_head-Outcome b c bytes (v.receives p).counted (v.receives p).collected))
    go (some (err, why)) e =
        unfold write in
        rw (e, write)
          (failed-Wrote b c now err why c bytes (refusal_fails c (length bytes) err why e) v.buffer)
