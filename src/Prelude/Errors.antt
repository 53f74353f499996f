-- ===== src/Prelude/Errors.antt =====
-- esp_err_t: the codes that the components return, and any other code of a library they call.
use Prim.Native.Nat.{ℕ}
use mathlib.Core.Bool.{Bool, true, false}

pub data EspErr : Type 0 where
  esp_ok esp_fail no_mem invalid_arg invalid_state invalid_size not_found not_supported : EspErr
  timeout invalid_response invalid_crc invalid_version not_allowed validate_failed : EspErr
  nvs_not_found nvs_type_mismatch nvs_no_space invalid_mac : EspErr
  other_err : ℕ → EspErr

-- err == ESP_OK
unfoldable pub is_ok : EspErr → Bool
is_ok esp_ok = true
is_ok _ = false
