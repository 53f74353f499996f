-- ===== src/Ota/Calls.antt =====
-- cmd_fs/ota_core.c: ota_core_begin, set_source, finish, fail and discard keep the session sound.
use esp_console_kit.Prelude.{
  ℕ, ◌≡◌, refl, sym, ap, ◌∙◌, ◌≢◌, true, false, if_intro, option_intro, Option, [], Bytes, length,
  take, ltb, arith,
}
use esp_console_kit.Prelude.Errors.{is_ok, EspErr, no_mem, invalid_size, invalid_state, not_found}
use esp_console_kit.Prelude.Bits.{bit}
use esp_console_kit.Ota.State.{
  Phase, idle, receiving, verifying, staged, active, failed, Source, Why, no_sha, Partition,
  blank_session, head_len, Core, Board,
}
use esp_console_kit.Ota.Session.{
  in_progress, set_failed, release, BeginAnswers, begun, hook_called, erase_of, open_handle, start,
  begin, set_source,
}
use esp_console_kit.Ota.Finish.{give_up, discard_in, discard}
use esp_console_kit.Ota.Invariant.{Inv, closed-Inv, failed-Inv}

-- A session just begun, its handle open unless it is a dry run.
fresh-Inv :
    (b : Board) (c : Core)
    → length c.head ≡ head_len
    → c.session.phase ≡ receiving
    → c.hashing ≡ true
    → c.session.bytes ≡ 0
    → c.hashed ≡ []
    → c.head_checked ≡ false
    → (c.session.dry_run ≡ false → (c.is_open ≡ true) × (c.flash ≡ []))
    → (c.session.dry_run ≡ true → c.is_open ≡ false)
    → Inv b c
fresh-Inv b c size p h z e k w d = record {
  buffer = size;
  receives = λ _. record {
    hashing = h;
    counted = z ∙ sym (ap (λ (x : Bytes). length x) e);
    in_total = λ _. omega arith;
    in_slot = omega arith;
    writes = λ q. ((w q).0, (w q).1 ∙ sym e);
    dry = d;
    collected = record {
      buffer = size;
      filled = λ _. (
        omega (arith, ap (λ (x : Bytes). length x) e),
        ap (λ (x : Bytes). take (length x) c.head) e ∙ sym e,
      );
      checked = λ q. absurd (cc (q, k));
    };
  };
  closed = λ ne. absurd (ne p);
  stages = λ q. absurd (cc (q, p));
  between = λ q. cc (q, p);
}

-- What a begin leaves: a session that receives, or none to finish.
abbrev pub Began : Board → EspErr × Core → Type 0
Began b (err, c) = Inv b c × (is_ok err ≡ true → c.session.phase ≡ receiving)

failed-Began :
    (b : Board) (c : Core) (now : ℕ) (err : EspErr) (why : Why)
    → length c.head ≡ head_len
    → is_ok err ≡ false
    → Began b (err, set_failed now why (release c))
failed-Began b c now err why size k = (failed-Inv b c now why size, λ q. absurd (cc (q, k)))

refused-Began :
    (b : Board) (c : Core) (err : EspErr) → Inv b c → is_ok err ≡ false → Began b (err, c)
refused-Began b c err v k = (v, λ q. absurd (cc (q, k)))

module _ (b : Board) (c : Core) (e : BeginAnswers) (part : Partition) (source : Source) (size : ℕ)
    (url : Option Bytes) (flags : ℕ) (buffer : length c.head ≡ head_len) where
  abbrev hashing_core : Core
  hashing_core = record (begun c part source size url flags e.now) { hashing = true }

  open_handle-Began : bit flags 1 ≡ false → Began b (open_handle hashing_core e size flags)
  unfolding open_handle
  open_handle-Began wet =
      if_intro (Began b) (is_ok (e.ota_begin (erase_of (bit flags 0) size))) _ _
        (λ k. (
          fresh-Inv b (record (hook_called hashing_core) { is_open = true; flash = [] }) buffer refl
              refl refl refl refl (λ _. (refl, refl)) (λ q. absurd (cc (q, wet))),
          λ _. refl,
        ))
        (λ k. failed-Began b (hook_called hashing_core) e.later _ _ buffer k)

  start-Began : Began b (start c e part source size url flags)
  unfolding start
  start-Began =
      if_intro (Began b) e.sha_ready _ _
        (λ _.
          if_intro (Began b) (bit flags 1) _ _
            (λ dry. (
              fresh-Inv b hashing_core buffer refl refl refl refl refl (λ q. absurd (cc (q, dry)))
                  (λ _. refl),
              λ _. refl,
            ))
            open_handle-Began)
        (λ _.
          failed-Began b (begun c part source size url flags e.now) e.later no_mem no_sha buffer
            (unfold is_ok in refl))

-- Whatever the libraries answer, a begin that returns ESP_OK leaves a session that receives.
-- One that fails for want of a slot or of room, or because another session is under way, leaves
-- everything as it was.
pub begin-Began :
    (b : Board) (c : Core) (e : BeginAnswers) (source : Source) (size : ℕ) (url : Option Bytes)
    (flags : ℕ)
    → Inv b c
    → Began b (begin c e source size url flags)
begin-Began b c e source size url flags v =
    unfold begin in
    option_intro (Began b) e.next _ _ (λ _. refused-Began b c not_found v (unfold is_ok in refl))
      (λ part _.
        if_intro (Began b) (ltb part.size size) _ _
          (λ _. refused-Began b c invalid_size v (unfold is_ok in refl))
          (λ _.
            if_intro (Began b) (in_progress c.session.phase) _ _
              (λ _. refused-Began b c invalid_state v (unfold is_ok in refl))
              (λ _. start-Began b c e part source size url flags v.buffer)))

pub set_source-Inv :
    (b : Board) (c : Core) (url : Option Bytes) (total : ℕ)
    → c.session.phase ≡ receiving
    → c.session.bytes ≡ 0
    → Inv b c
    → Inv b (set_source c url total)
unfolding set_source
set_source-Inv b c url total p z v =
    let r = v.receives p in
    record {
      buffer = v.buffer;
      receives = λ _. record {
        hashing = r.hashing;
        counted = r.counted;
        in_total = λ _. omega arith;
        in_slot = r.in_slot;
        writes = r.writes;
        dry = r.dry;
        collected = r.collected;
      };
      closed = v.closed;
      stages = λ q. absurd (cc (q, p));
      between = v.between;
    }

receiving_busy : (c : Core) → c.session.phase ≡ receiving → in_progress c.session.phase ≡ false → ⊥
unfolding in_progress
receiving_busy c p k = ground (arith, p, k)

pub give_up-Inv :
    (b : Board) (c : Core) (now : ℕ) (why : Bytes) → Inv b c → Inv b (give_up c now why)
unfolding give_up
give_up-Inv b c now why v =
    if_intro (Inv b) (in_progress c.session.phase) _ _ (λ _. failed-Inv b c now _ v.buffer)
      (λ k. settled k)
  where
    settled : in_progress c.session.phase ≡ false → Inv b (release c)
    settled k = record {
      buffer = v.buffer;
      receives = λ p. absurd (receiving_busy c p k);
      closed = λ _. (refl, refl);
      stages = λ p.
          let s = v.stages p in
          record {
            counted = s.counted;
            total = s.total;
            in_slot = s.in_slot;
            written = s.written;
            long = s.long;
            head = s.head;
          };
      between = v.between;
    }

cancelled-Inv :
    (b : Board) (c : Core)
    → c.session.phase ≡ receiving
    → Inv b c
    → Inv b (record c { cancel = true })
cancelled-Inv b c e v =
    let r = v.receives e in
    record {
      buffer = v.buffer;
      receives = λ _. record {
        hashing = r.hashing;
        counted = r.counted;
        in_total = r.in_total;
        in_slot = r.in_slot;
        writes = r.writes;
        dry = r.dry;
        collected = r.collected;
      };
      closed = v.closed;
      stages = λ q. absurd (cc (q, e));
      between = v.between;
    }

pub discard-Inv : (b : Board) (c : Core) → Inv b c → Inv b (discard c).1
discard-Inv b c v = unfold discard in go c.session.phase refl
  where
    cleared : c.session.phase ≢ receiving → Inv b (record c { session = blank_session })
    cleared ne =
        let (o, h) = v.closed ne in
        closed-Inv b (record c { session = blank_session }) v.buffer o h (λ q. cc) (λ q. cc)
          (λ q. cc)

    go : (p : Phase) → c.session.phase ≡ p → Inv b (discard_in p c).1
    go receiving e = unfold discard_in in cancelled-Inv b c e v
    go verifying e = unfold discard_in in v
    go active e = unfold discard_in in v
    go idle e = unfold discard_in in cleared (λ q. cc (e, q))
    go staged e = unfold discard_in in cleared (λ q. cc (e, q))
    go failed e = unfold discard_in in cleared (λ q. cc (e, q))
