-- ===== src/Ota/State.antt =====
-- cmd_fs/ota_core.c, cmd_fs/include/ota_core.h: the session, the owner's statics, and what the
-- build and ESP-IDF bring (a parameter of the model).
use esp_console_kit.Prelude.{ℕ, Bool, false, Option, none, [], Bytes, replicate}
use esp_console_kit.Prelude.Errors.{EspErr}

-- ota_core_state_t
pub data Phase : Type 0 where
  idle receiving verifying staged active failed : Phase

-- ota_core_source_t
pub data Source : Type 0 where
  src_none src_console src_upload src_pull : Source

-- What the session's error text says; the text itself is not modelled.
pub data Why : Type 0 where
  no_reason no_sha cancelled not_an_image other_chip no_description other_project : Why
  cannot_start not_written not_verified : EspErr → Why
  more_than_announced larger_than_slot too_few : ℕ → Why
  short : ℕ → ℕ → Why
  sha_mismatch : Why
  given_up : Bytes → Why

-- esp_partition_t, with `id` for the pointer that names it.
pub record Partition : Type 0 where
  pub id : ℕ
  pub label : Bytes
  pub size : ℕ

-- What is read of an esp_app_desc_t.
pub record AppDesc : Type 0 where
  pub magic_word : ℕ
  pub project : Bytes
  pub version : Bytes

-- ota_core_session_t; `app` is `have_app` and `app` in one.
pub record Session : Type 0 where
  pub phase : Phase
  pub source : Source
  pub dry_run : Bool
  pub slot : Bytes
  pub url : Bytes
  pub bytes : ℕ
  pub total : ℕ
  pub sha256 : Bytes
  pub app : Option AppDesc
  pub error : Why
  pub started_us : ℕ
  pub finished_us : ℕ

-- memset(&s_session, 0, sizeof(s_session))
abbrev pub blank_session : Session
blank_session = record {
  phase = idle;
  source = src_none;
  dry_run = false;
  slot = [];
  url = [];
  bytes = 0;
  total = 0;
  sha256 = [];
  app = none;
  error = no_reason;
  started_us = 0;
  finished_us = 0;
}

-- sizeof(esp_image_header_t) + sizeof(esp_image_segment_header_t) + sizeof(esp_app_desc_t)
abbrev pub head_len : ℕ
head_len = 288

-- The statics. `hashed` is what the hash operation has taken in, `flash` what the open
-- esp_ota handle has taken: both are state of the libraries behind s_sha and s_handle.
pub record Core : Type 0 where
  pub session : Session
  pub cancel : Bool
  pub part : Option Partition
  pub is_open : Bool
  pub hashing : Bool
  pub any_project : Bool
  pub head : Bytes
  pub head_checked : Bool
  pub has_hook : Bool
  pub hooks_run : ℕ
  pub hashed : Bytes
  pub flash : Bytes

abbrev pub boot : Core
boot = record {
  session = blank_session;
  cancel = false;
  part = none;
  is_open = false;
  hashing = false;
  any_project = false;
  head = replicate head_len 0;
  head_checked = false;
  has_hook = false;
  hooks_run = 0;
  hashed = [];
  flash = [];
}

-- What the first bytes of an image say (esp_image_header_t and esp_app_desc_t are ESP-IDF's).
pub record Head : Type 0 where
  pub magic : ℕ
  pub chip : ℕ
  pub desc : AppDesc

-- The build and the libraries: the constants that an image is held against, how ESP-IDF lays
-- out a head, and SHA-256 (none where the engine fails).
pub record Board : Type 0 where
  pub image_magic : ℕ
  pub chip_id : ℕ
  pub desc_magic : ℕ
  pub project : Bytes
  pub decode : Bytes → Head
  pub sha256 : Bytes → Option Bytes
