-- ===== src/Wifi/Calls.antt =====
-- cmd_wifi/wifi_known.c: the calls of the component (known_init, wifi_known_start, wifi_known_join,
-- wifi_known_forget, wifi_known_set_enabled, wifi_known_save, wifi_known_list, wifi_known_has,
-- wifi_known_set_hook), each as the sections that it has under the lock and what lies between. What
-- the driver and NVS answer are arguments; the radio's mode is left out.
use esp_console_kit.Prelude.{
  ℕ, Bool, true, false, not, ◌&&◌, ◌||◌, Option, none, some, List, [], ◌∷◌, Bytes, bytes_eq, length,
  ltb, leb, strlcpy, ◌==◌, if◌then◌else◌,
}
use esp_console_kit.Prelude.Errors.{EspErr, esp_ok, invalid_arg, is_ok}
use esp_console_kit.Wifi.Store.{ssid_len, pass_len, Entry, find}
use esp_console_kit.Wifi.State.{
  pending, failed, joining_evt, join_failed_evt, enabled_evt, disabled_evt, forgotten_evt,
  zero_code, connects, disconnects, configures, Wifi, done, emit, load, knows, known_put,
  known_erase,
}
use esp_console_kit.Wifi.Events.{is_empty, no_join}

-- The size of the driver's field for a name, wifi_config_t's sta.ssid.
abbrev pub sta_ssid_size : ℕ
sta_ssid_size = 32

-- known_init, where what it calls answers `init`
unfoldable pub known_init : EspErr → Wifi → EspErr × Wifi
known_init init s = if s.started then (esp_ok, s) else (init, record s { started = is_ok init })

abbrev pub is_blank : Option Bytes → Bool
is_blank none = true
is_blank (some p) = is_empty p

abbrev pub text_of : Option Bytes → Bytes
text_of none = []
text_of (some p) = p

-- The passphrase that a join goes with, and whether it was recalled.
unfoldable pub recall : Bytes → Option Bytes → Wifi → Bytes × Bool
recall ssid p s =
    if is_blank p
    then elim (find ssid (load s).known.entries) [
      | some stored ↦ (strlcpy pass_len stored, true)
      | none ↦ (strlcpy pass_len (text_of p), false)
    ]
    else (strlcpy pass_len (text_of p), false)

-- The section of wifi_known_join.
unfoldable pub join_section : Bytes → Option Bytes → Wifi → Wifi
join_section ssid p s =
    let (pass, recalled) = recall ssid p s in
    let t = if is_blank p then load s else s in
    record t {
      join_ssid = strlcpy ssid_len ssid;
      join_pass = pass;
      join_commit = not recalled;
      joining = true;
      join_result = pending;
      want_connected = true;
      retries = 0;
    }

-- What it does then: the old link is dropped, and the driver given the name and the passphrase.
unfoldable pub join_link : Bytes → Bytes → Wifi → Wifi
join_link ssid pass s = done connects (
    emit joining_evt (some ssid) zero_code false (
      done (configures (strlcpy sta_ssid_size ssid) pass)
        (done disconnects (record s { armed = false }))))

-- Where esp_wifi_connect fails.
unfoldable pub join_refused : Bytes → Wifi → Wifi
join_refused ssid s =
    emit join_failed_evt (some ssid) zero_code false (record (no_join s) { join_result = failed })

unfoldable pub join_answered : Bytes → EspErr → Wifi → EspErr × Wifi
join_answered ssid esp_ok s = (esp_ok, s)
join_answered ssid err s = (err, join_refused ssid s)

abbrev pub pass_too_long : Option Bytes → Bool
pass_too_long none = false
pass_too_long (some p) = leb pass_len (length p)

unfoldable pub join_bad : Bytes → Option Bytes → Bool
join_bad ssid p = is_empty ssid || leb ssid_len (length ssid) || pass_too_long p

unfoldable pub join_inited : Bytes → Option Bytes → EspErr → EspErr × Wifi → EspErr × Wifi
join_inited ssid p connect (esp_ok, s) =
    let t = join_section ssid p s in join_answered ssid connect (join_link ssid t.join_pass t)
join_inited ssid p connect (err, s) = (err, s)

-- wifi_known_join, undisturbed; `connect` is what esp_wifi_connect answers
unfoldable pub join : Bytes → Option Bytes → EspErr → EspErr → Wifi → EspErr × Wifi
join ssid p init connect s =
    if join_bad ssid p then (invalid_arg, s) else join_inited ssid p connect (known_init init s)

-- sta_uses, of the access point's name and the configured one, where the driver tells them
unfoldable pub sta_uses : Option Bytes → Option Bytes → Bytes → Bool
sta_uses (some ap) none ssid = bytes_eq (strlcpy ssid_len ap) ssid
sta_uses (some ap) (some cfg) ssid = bytes_eq (strlcpy ssid_len ap) ssid || bytes_eq cfg ssid
sta_uses none none ssid = false
sta_uses none (some cfg) ssid = bytes_eq cfg ssid

-- The first section of wifi_known_forget.
unfoldable pub forget_section : Bool → Bytes → Wifi → Wifi
forget_section saves ssid s = if knows ssid s then known_erase saves ssid s else load s

abbrev pub is_joining : Bytes → Wifi → Bool
is_joining ssid s = s.joining && bytes_eq s.join_ssid ssid

-- The second, and what follows it, where the network is in use.
unfoldable pub forget_link : Wifi → Wifi
forget_link s =
    let t : Wifi = record (no_join s) { want_connected = false; join_ssid = []; armed = false } in
    done (configures [] []) (done disconnects t)

-- What follows the first section; `joining` was read in it, `used` is the answer of sta_uses, and
-- `had` whether the network was stored.
unfoldable pub forget_rest : Bytes → Bool → Bool → Bool → Wifi → Wifi
forget_rest ssid had joining used s =
    let t = if s.started && (joining || used) then forget_link s else s in
    let u = emit forgotten_evt (some ssid) zero_code false t in if had then u else t

-- wifi_known_forget, undisturbed
unfoldable pub forget : Bool → Bool → Bytes → Wifi → Wifi
forget saves used ssid s =
    forget_rest ssid (knows ssid s) (is_joining ssid s) used (forget_section saves ssid s)

-- The section of wifi_known_set_enabled.
unfoldable pub enable_section : Bool → Wifi → Wifi
enable_section true s = load (record s { want_connected = true; retries = 0 })
enable_section false s = load (no_join (record s { want_connected = false }))

abbrev pub rejoin_last : EspErr → Bytes → Wifi → Wifi
rejoin_last connect last s = if is_empty last then s else (join last none esp_ok connect s).1

-- What follows it; `cfg` is the name the driver is configured for, where it tells one.
unfoldable pub enable_rest : Bool → Option Bytes → EspErr → Bytes → Wifi → Wifi
enable_rest false cfg connect last s =
    done disconnects (record (emit disabled_evt none zero_code false s) { armed = false })
enable_rest true cfg connect last s =
    let t = emit enabled_evt none zero_code true s in
    if is_empty (text_of cfg) then rejoin_last connect last t else done connects t

unfoldable pub enable_inited : Bool → Option Bytes → EspErr → EspErr × Wifi → Wifi
enable_inited enabled cfg connect (esp_ok, s) =
    let t = enable_section enabled s in enable_rest enabled cfg connect t.known.last t
enable_inited enabled cfg connect (err, s) = s

-- wifi_known_set_enabled, undisturbed
unfoldable pub set_enabled : Bool → Option Bytes → EspErr → EspErr → Wifi → Wifi
set_enabled enabled cfg init connect s = enable_inited enabled cfg connect (known_init init s)

unfoldable pub start_inited : Bool → EspErr → EspErr × Wifi → EspErr × Wifi
start_inited autojoin connect (esp_ok, s) =
    let t = load s in
    if is_empty t.known.last || not autojoin
    then (esp_ok, t)
    else join t.known.last none esp_ok connect t
start_inited autojoin connect (err, s) = (err, s)

-- wifi_known_start, where wifi_known_autojoin answers `autojoin`
unfoldable pub start : Bool → EspErr → EspErr → Wifi → EspErr × Wifi
start autojoin init connect s =
    if s.started then (esp_ok, s) else start_inited autojoin connect (known_init init s)

-- A passphrase that wifi_known_save takes: none, or of 8 to 63 bytes.
abbrev pub pass_bad : Bytes → Bool
pass_bad p = not (length p == 0) && (ltb (length p) 8 || leb pass_len (length p))

-- A NULL name is the empty one.
unfoldable pub save_bad : Bytes → Option Bytes → Bool
save_bad ssid p = is_empty ssid || leb ssid_len (length ssid) || pass_bad (text_of p)

-- wifi_known_save
unfoldable pub save_network : Bool → Bytes → Option Bytes → Wifi → EspErr × Wifi
save_network saves ssid p s =
    if save_bad ssid p
    then (invalid_arg, s)
    else (esp_ok, known_put saves ssid (some (text_of p)) false s)

-- wifi_known_set_hook
abbrev pub set_hook : Bool → Wifi → Wifi
set_hook hooked s = record s { hooked = hooked }

-- What wifi_known_list tells of an entry.
pub record Told : Type 0 where
  pub ssid : Bytes
  pub has_passphrase : Bool
  pub is_last : Bool

abbrev pub told_of : Bytes → Entry → Told
told_of last e = record {
  ssid = e.ssid;
  has_passphrase = not (is_empty e.passphrase);
  is_last = bytes_eq last e.ssid;
}

-- Its loop: what it tells until the listener has had enough.
unfoldable pub list_from : (Told → Bool) → Bytes → List Entry → List Told
list_from more last [] = []
list_from more last (e ∷ es) =
    let rest = list_from more last es in
    if more (told_of last e) then told_of last e ∷ rest else told_of last e ∷ []

-- wifi_known_list
unfoldable pub list_networks : (Told → Bool) → Wifi → List Told × Wifi
list_networks more s = let t = load s in (list_from more t.known.last t.known.entries, t)
