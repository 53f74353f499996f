-- ===== src/Wifi/State.antt =====
-- cmd_wifi/wifi_known.c: the statics of the component, with what NVS holds of it, and the calls of
-- the driver (known_load, known_save and the known_* helpers around them, emit, schedule_retry).
use esp_console_kit.Prelude.{
  ℕ, Bool, true, false, ◌&&◌, Option, none, some, List, [], ◌∷◌, ◌++◌, Bytes, bytes_eq, length, leb,
  strlcpy, ◌==◌, if◌then◌else◌,
}
use esp_console_kit.Wifi.Store.{ssid_len, known_max, Store, no_store, find, put, erase, is_some}

-- join_result_t
pub data JoinResult : Type 0 where
  pending result_ok auth_failed failed : JoinResult

-- wifi_known_event_t
pub data Event : Type 0 where
  joining_evt got_ip_evt join_failed_evt auth_failed_evt link_lost_evt : Event
  enabled_evt disabled_evt forgotten_evt : Event

-- wifi_err_reason_t, as far as the source tells reasons apart
pub data Reason : Type 0 where
  zero_code auth_expire auth_fail handshake_timeout four_way_handshake_timeout mic_failure : Reason
  assoc_leave : Reason
  other_reason : ℕ → Reason

-- What is asked of the driver and told to the hook: esp_wifi_connect, esp_wifi_disconnect,
-- esp_wifi_set_config with a name and a passphrase, and a wifi_known_info_t.
pub data Deed : Type 0 where
  connects disconnects : Deed
  configures : Bytes → Bytes → Deed
  tells : Event → Option Bytes → Reason → Bool → Deed

-- The blob under KNOWN_KEY: whether it has the size of the table, its version, and the table.
pub record Blob : Type 0 where
  pub whole : Bool
  pub version : ℕ
  pub store : Store

-- The statics. `blob` is what NVS holds, `armed` whether the retry timer runs, and `deeds` what was
-- done so far, in order. The lock is not among them: a section under it is one step.
pub record Wifi : Type 0 where
  pub loaded : Bool
  pub known : Store
  pub blob : Option Blob
  pub started : Bool
  pub joining : Bool
  pub join_ssid : Bytes
  pub join_pass : Bytes
  pub join_commit : Bool
  pub have_ip : Bool
  pub join_result : JoinResult
  pub want_connected : Bool
  pub retries : ℕ
  pub armed : Bool
  pub hooked : Bool
  pub deeds : List Deed

-- At power-up, with what NVS holds.
abbrev pub boot : Option Blob → Wifi
boot blob = record {
  loaded = false;
  known = no_store;
  blob = blob;
  started = false;
  joining = false;
  join_ssid = [];
  join_pass = [];
  join_commit = false;
  have_ip = false;
  join_result = pending;
  want_connected = false;
  retries = 0;
  armed = false;
  hooked = false;
  deeds = [];
}

abbrev pub done : Deed → Wifi → Wifi
done d s = record s { deeds = s.deeds ++ d ∷ [] }

-- emit
abbrev pub emit : Event → Option Bytes → Reason → Bool → Wifi → Wifi
emit e ssid reason reconnecting s = record s {
  deeds = if s.hooked then s.deeds ++ tells e ssid reason reconnecting ∷ [] else s.deeds;
}

-- What known_load takes over of a blob.
unfoldable pub accepted : Option Blob → Store
accepted none = no_store
accepted (some b) =
    if b.whole && b.version == 1 && leb (length b.store.entries) known_max
    then b.store
    else no_store

-- known_load
unfoldable pub load : Wifi → Wifi
load s = record s { loaded = true; known = if s.loaded then s.known else accepted s.blob }

-- known_save; `saves` is whether NVS takes the blob
unfoldable pub save : Bool → Wifi → Wifi
save saves s = record s {
  blob = if saves then some (record { whole = true; version = 1; store = s.known }) else s.blob;
}

-- known_find, behind its loading
abbrev pub knows : Bytes → Wifi → Bool
knows ssid s = is_some (find ssid (load s).known.entries)

-- known_put
unfoldable pub known_put : Bool → Bytes → Option Bytes → Bool → Wifi → Wifi
known_put saves ssid p as_last s =
    let t = load s in save saves (record t { known = put ssid p as_last t.known })

-- known_put_last
unfoldable pub known_put_last : Bool → Bytes → Wifi → Wifi
known_put_last saves ssid s =
    let t = load s in
    if bytes_eq t.known.last ssid
    then t
    else save saves (record t { known = record (t.known) { last = strlcpy ssid_len ssid } })

-- known_erase
unfoldable pub known_erase : Bool → Bytes → Wifi → Wifi
known_erase saves ssid s = let t = load s in save saves (record t { known = erase ssid t.known })

-- schedule_retry, where the interval is `interval` seconds; a timer that runs is left alone
unfoldable pub schedule_retry : ℕ → Wifi → Wifi
schedule_retry interval s = record s { armed = if interval == 0 then s.armed else true }
