-- ===== src/Wifi/Autojoin.antt =====
-- cmd_wifi/wifi_known.c: whether the last network is rejoined at boot (s_autojoin and its key in NVS,
-- wifi_known_autojoin, wifi_known_set_autojoin), and wifi_known_start, which asks it.
use esp_console_kit.Prelude.{
  ℕ, ◌≡◌, ◌&&◌, refl, Bool, true, false, not, Option, none, some, ◌==◌, if◌then◌else◌,
}
use esp_console_kit.Prelude.Errors.{EspErr, esp_ok, is_ok}
use esp_console_kit.Wifi.State.{Wifi, load}
use esp_console_kit.Wifi.Events.{is_empty}
use esp_console_kit.Wifi.Calls.{known_init, start}

-- `cached` is s_autojoin, none for -1; `key` what NVS holds under AUTOJOIN_KEY.
record Autojoin : Type 0 where
  cached : Option Bool
  key : Option ℕ

abbrev is_on : Option ℕ → Bool
is_on none = true
is_on (some v) = not (v == 0)

-- wifi_known_autojoin; `opens` is whether the namespace can be opened
unfoldable autojoin : Bool → Autojoin → Bool × Autojoin
autojoin opens a = elim (a.cached) [
  | some on ↦ (on, a)
  | none ↦ let on = if opens then is_on a.key else true in (on, record a { cached = some on })
]

-- wifi_known_set_autojoin, where NVS answers `err`; where it fails, it keeps the key that it has
unfoldable set_autojoin : EspErr → Bool → Autojoin → EspErr × Autojoin
set_autojoin esp_ok on a = (esp_ok, record { cached = some on; key = some (if on then 1 else 0) })
set_autojoin err on a = (err, a)

-- At a reset NVS keeps its key.
abbrev reboot : Autojoin → Autojoin
reboot a = record a { cached = none }

-- wifi_known_start: it asks only where there is a network to rejoin.
unfoldable start_board : Bool → EspErr → EspErr → Autojoin → Wifi → (EspErr × Wifi) × Autojoin
start_board opens init connect a s =
    let (on, b) = autojoin opens a in
    let asks =
      not s.started
      && is_ok (known_init init s).0
      && not (is_empty (load (known_init init s).1).known.last) in
    (start on init connect s, if asks then b else a)

-- What was set is what the board finds after a reset.
autojoin-set_autojoin :
    (on : Bool) (a : Autojoin) → (autojoin true (reboot (set_autojoin esp_ok on a).1)).0 ≡ on
unfolding autojoin set_autojoin
autojoin-set_autojoin true a = refl
autojoin-set_autojoin false a = refl
