-- ===== src/Ota/Finish.antt =====
-- cmd_fs/ota_core.c: the end of a session (ota_core_finish, ota_core_fail), and what anyone may ask
-- (ota_core_discard, ota_core_activate, ota_core_busy).
use esp_console_kit.Prelude.{
  strlcpy, ℕ, Bool, true, false, not, ◌&&◌, Option, none, some, [], ◌∷◌, Bytes, length, ltb, ◌==◌,
  if◌then◌else◌,
}
use esp_console_kit.Prelude.Errors.{
  is_ok, EspErr, esp_ok, invalid_size, invalid_state, invalid_crc, not_found, validate_failed,
}
use esp_console_kit.Ascii.{hex_of, strcasecmp_eq}
use esp_console_kit.Ota.State.{
  Phase, idle, receiving, verifying, staged, active, Why, cancelled, not_verified, too_few, short,
  sha_mismatch, given_up, Partition, AppDesc, Session, blank_session, head_len, Core, Board,
}
use esp_console_kit.Ota.Session.{in_progress, set_failed, release}

-- What the calls of one finish answer.
pub record FinishAnswers : Type 0 where
  pub ota_end : EspErr
  pub description : Option AppDesc
  pub now : ℕ

-- The digest in hex, or "" where the engine fails or gives another length.
unfoldable pub digest_hex : Board → Bytes → Bytes
digest_hex b hashed = elim (b.sha256 hashed) [
  | none ↦ []
  | some digest ↦ if length digest == 32 then hex_of digest else []
]

-- Phase VERIFYING, the digest taken: the session as the tests see it.
abbrev pub verifying_core : Board → Core → Core
verifying_core b c = record c {
  session = record (c.session) { phase = verifying; sha256 = digest_hex b c.hashed };
  hashing = false;
}

-- expect_sha256 != NULL && expect_sha256[0] != '\0' && strcasecmp(expect_sha256, hex) != 0
unfoldable pub sha_differs : Option Bytes → Bytes → Bool
sha_differs none hex = false
sha_differs (some []) hex = false
sha_differs (some (c ∷ cs)) hex = not (strcasecmp_eq (c ∷ cs) hex)

-- The tests before ESP-IDF's own; none is ESP_OK.
unfoldable pub finish_refusal : Core → Option Bytes → Option (EspErr × Why)
finish_refusal c expect =
    let s = c.session in
    if c.cancel
    then some (invalid_state, cancelled)
    else if not (s.total == 0) && not (s.bytes == s.total)
    then some (invalid_size, short s.bytes s.total)
    else if ltb s.bytes head_len
    then some (invalid_size, too_few s.bytes)
    else if sha_differs expect s.sha256
    then some (invalid_crc, sha_mismatch)
    else none

abbrev pub fail_finish : ℕ → EspErr → Why → Core → EspErr × Core
fail_finish now err why c = (err, set_failed now why (release c))

-- A dry run ends idle; an image is ended by esp_ota_end, which frees the handle either way.
unfoldable pub conclude : Core → FinishAnswers → EspErr × Core
conclude c e =
    if c.session.dry_run
    then (esp_ok, record c { session = record (c.session) { phase = idle; finished_us = e.now } })
    else if is_ok e.ota_end
    then (
      esp_ok,
      record c {
        is_open = false;
        session = record (c.session) {
          phase = staged;
          app = elim e.description [ none ↦ c.session.app | some d ↦ some d ];
          finished_us = e.now;
        };
      },
    )
    else fail_finish e.now e.ota_end (not_verified e.ota_end) (record c { is_open = false })

-- ota_core_finish
unfoldable pub finish : Board → Core → FinishAnswers → Option Bytes → EspErr × Core
finish b c e expect =
    let v = verifying_core b c in
    elim (finish_refusal v expect) [
      | some (err, why) ↦ fail_finish e.now err why v
      | none ↦ conclude v e
    ]

-- ota_core_fail: a cancel is the reason, whatever the owner says
unfoldable pub give_up : Core → ℕ → Bytes → Core
give_up c now why =
    let r = release c in
    if in_progress c.session.phase
    then set_failed now (if c.cancel then cancelled else given_up why) r
    else r

-- ota_core_discard
unfoldable pub discard_in : Phase → Core → EspErr × Core
discard_in receiving c = (esp_ok, record c { cancel = true })
discard_in verifying c = (invalid_state, c)
discard_in active c = (invalid_state, c)
discard_in _ c = (esp_ok, record c { session = blank_session })

unfoldable pub discard : Core → EspErr × Core
discard c = discard_in c.session.phase c

-- esp_ota_img_states_t, as far as activate tests it
pub data ImgState : Type 0 where
  img_invalid img_aborted img_other : ImgState

-- What the calls of one activate answer: the slot of a name, the OTA record of a slot, whether
-- its image verified and was selected, and its description.
pub record ActivateAnswers : Type 0 where
  pub find : Bytes → Option Partition
  pub img_state : Partition → Option ImgState
  pub set_boot : Partition → EspErr
  pub description : Partition → Option AppDesc

unfoldable pub is_staged : Phase → Bool
is_staged staged = true
is_staged _ = false

unfoldable pub is_bad : Option ImgState → Bool
is_bad (some img_invalid) = true
is_bad (some img_aborted) = true
is_bad _ = false

unfoldable pub same_part : Option Partition → Partition → Bool
same_part none p = false
same_part (some q) p = q.id == p.id

-- Which slot is meant, or why none.
pub data Choice : Type 0 where
  chosen : Partition → Choice
  no_choice : EspErr → Choice

staged_slot : Core → Choice
staged_slot c = elim c.part [
  | none ↦ no_choice invalid_state
  | some p ↦ if is_staged c.session.phase then chosen p else no_choice invalid_state
]

named_slot : Core → ActivateAnswers → Bytes → Choice
named_slot c e n = elim (e.find n) [
  | none ↦ no_choice not_found
  | some p ↦
      if in_progress c.session.phase && same_part c.part p
      then no_choice invalid_state
      else if is_bad (e.img_state p)
      then no_choice validate_failed
      else chosen p
]

unfoldable pub choose : Core → ActivateAnswers → Option Bytes → Choice
unfolding staged_slot named_slot is_staged is_bad same_part in_progress
choose c e none = staged_slot c
choose c e (some []) = staged_slot c
choose c e (some (x ∷ xs)) = named_slot c e (x ∷ xs)

-- The session once `part` boots: kept where it staged that slot, else begun anew.
unfoldable pub activated : Core → ActivateAnswers → Partition → Core
activated c e p =
    let base : Session =
      if is_staged c.session.phase && same_part c.part p
      then c.session
      else record blank_session { app = e.description p } in
    record c { session = record base { phase = active; slot = strlcpy 17 p.label } }

unfoldable pub select : Core → ActivateAnswers → Choice → EspErr × Core
select c e (no_choice err) = (err, c)
select c e (chosen p) =
    if is_ok (e.set_boot p) then (esp_ok, activated c e p) else (e.set_boot p, c)

-- ota_core_activate
unfoldable pub activate : Core → ActivateAnswers → Option Bytes → EspErr × Core
activate c e name = select c e (choose c e name)

-- ota_core_busy
unfoldable pub busy : Core → Bool
busy c = in_progress c.session.phase
