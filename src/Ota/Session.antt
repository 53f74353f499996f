-- ===== src/Ota/Session.antt =====
-- cmd_fs/ota_core.c: begin and set_source, and what every failure does. Each is one step of its
-- owner; what a library call answers in it is an argument.
use esp_console_kit.Prelude.{
  strlcpy, ℕ, ◌+◌, Bool, true, false, Option, none, some, [], Bytes, ltb, ◌==◌, if◌then◌else◌,
}
use esp_console_kit.Prelude.Errors.{
  is_ok, EspErr, esp_ok, no_mem, not_found, invalid_size, invalid_state,
}
use esp_console_kit.Prelude.Bits.{bit}
use esp_console_kit.Ota.State.{
  Phase, receiving, verifying, failed, Source, Why, no_sha, cannot_start, Partition, blank_session,
  Core,
}

unfoldable pub in_progress : Phase → Bool
in_progress receiving = true
in_progress verifying = true
in_progress _ = false

-- set_failed_locked
abbrev pub set_failed : ℕ → Why → Core → Core
set_failed now why c = record c {
  session = record (c.session) { phase = failed; error = why; finished_us = now };
}

abbrev pub release : Core → Core
release c = record c { is_open = false; hashing = false }

-- How much esp_ota_begin is asked to erase.
pub data Erase : Type 0 where
  sized : ℕ → Erase
  size_unknown sequential_writes : Erase

-- What the calls of one begin answer.
pub record BeginAnswers : Type 0 where
  pub next : Option Partition
  pub sha_ready : Bool
  pub ota_begin : Erase → EspErr
  pub now : ℕ
  pub later : ℕ

abbrev pub erase_of : Bool → ℕ → Erase
erase_of false size = sequential_writes
erase_of true size = if size == 0 then size_unknown else sized size

-- The session as begin records it, and the owner's statics.
abbrev pub begun : Core → Partition → Source → ℕ → Option Bytes → ℕ → ℕ → Core
begun c part source size url flags now = record c {
  session = record blank_session {
    phase = receiving;
    source = source;
    dry_run = bit flags 1;
    slot = strlcpy 17 part.label;
    url = elim url [ none ↦ [] | some u ↦ strlcpy 256 u ];
    total = size;
    started_us = now;
  };
  cancel = false;
  part = some part;
  any_project = bit flags 2;
  head_checked = false;
  is_open = false;
  hashing = false;
  hashed = [];
}

-- The begin hook, where there is one.
abbrev pub hook_called : Core → Core
hook_called c = record c { hooks_run = if c.has_hook then c.hooks_run + 1 else c.hooks_run }

-- Behind the hash: the hook, and the handle.
unfoldable pub open_handle : Core → BeginAnswers → ℕ → ℕ → EspErr × Core
open_handle c e size flags =
    let err = e.ota_begin (erase_of (bit flags 0) size) in
    if is_ok err
    then (esp_ok, record (hook_called c) { is_open = true; flash = [] })
    else (err, set_failed e.later (cannot_start err) (release (hook_called c)))

unfoldable pub start :
    Core → BeginAnswers → Partition → Source → ℕ → Option Bytes → ℕ → EspErr × Core
start c e part source size url flags =
    let c' = begun c part source size url flags e.now in
    if e.sha_ready
    then (let hashing : Core = record c' { hashing = true } in
        if bit flags 1 then (esp_ok, hashing) else open_handle hashing e size flags)
    else (no_mem, set_failed e.later no_sha c')

-- ota_core_begin
unfoldable pub begin : Core → BeginAnswers → Source → ℕ → Option Bytes → ℕ → EspErr × Core
begin c e source size url flags = elim e.next [
  | none ↦ (not_found, c)
  | some part ↦
      if ltb part.size size
      then (invalid_size, c)
      else if in_progress c.session.phase
      then (invalid_state, c)
      else start c e part source size url flags
]

-- ota_core_set_source
unfoldable pub set_source : Core → Option Bytes → ℕ → Core
set_source c url total = record c {
  session = record (c.session) {
    url = elim url [ none ↦ c.session.url | some u ↦ strlcpy 256 u ];
    total = total;
  };
}
