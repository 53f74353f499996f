-- ===== src/Wifi/Moves/Sound.antt =====
-- cmd_wifi/wifi_known.c: the table of known networks stays well formed.
use esp_console_kit.Prelude.{
  ℕ, ◌<◌, ◌≡◌, Bool, false, Option, some, List, [], ◌∷◌, Bytes, length, length-take, strlcpy, arith,
}
use esp_console_kit.Wifi.Store.{ssid_len}
use esp_console_kit.Wifi.Store.Fits.{Sound, no_store-Sound, put-Sound, erase-Sound, length-strlcpy}
use esp_console_kit.Wifi.State.{Blob, accepted, boot}
use esp_console_kit.Wifi.Events.{is_empty}
use esp_console_kit.Wifi.Calls.{join_bad, save_bad}
use esp_console_kit.Wifi.Moves.{Move, gets_ip, joins, saves_network, run}
use esp_console_kit.Wifi.Moves.Keeps.{Stays, Keeps, Allowed, AllAllowed, run-Keeps}

-- A name of 1 to 32 bytes.
abbrev pub IsName : Bytes → Type 0
IsName ssid = (0 < length ssid) × (length ssid < ssid_len)

pub Sound-Stays : Stays Sound IsName
Sound-Stays = record {
  empty = no_store-Sound;
  put_in = λ ssid p as_last st n v. put-Sound ssid (some p) as_last st n.0 n.1 v;
  mark = λ ssid st n v. record {
    few = v.few;
    fit = v.fit;
    apart = v.apart;
    last = length-strlcpy ssid_len ssid (omega arith);
  };
  erased = λ ssid st v. erase-Sound ssid st v;
}

not_empty : (s : Bytes) → is_empty s ≡ false → 0 < length s
not_empty [] h = absurd (cc h)
not_empty (c ∷ cs) h = omega arith

join_IsName :
    (ssid : Bytes) (p : Option Bytes) → join_bad ssid p ≡ false → IsName (strlcpy ssid_len ssid)
unfolding join_bad
join_IsName ssid p h =
    let some_left = not_empty ssid (ground (arith, h)) in
    (omega (arith, some_left, length-take 32 ssid), length-strlcpy ssid_len ssid (omega arith))

save_IsName : (ssid : Bytes) (p : Option Bytes) → save_bad ssid p ≡ false → IsName ssid
unfolding save_bad
save_IsName ssid p h = (not_empty ssid (ground (arith, h)), ground (arith, h))

any_Allowed : (m : Move) → Allowed Sound IsName m
any_Allowed (gets_ip ap) = tt
any_Allowed (joins ssid p) = join_IsName ssid p
any_Allowed (saves_network ssid p) = save_IsName ssid p
any_Allowed _ = tt

any_AllAllowed : (ms : List (Bool × Move)) → AllAllowed Sound IsName ms
any_AllAllowed [] = tt
any_AllAllowed ((saves, m) ∷ ms) = (any_Allowed m, any_AllAllowed ms)

pub Keeps-boot : (blob : Option Blob) → Sound (accepted blob) → Keeps Sound IsName (boot blob)
Keeps-boot blob v = record { table = no_store-Sound; kept = v; target = λ h. absurd (cc h) }

-- From a boot with a blob whose table is sound where it is accepted, any sequence of events,
-- sections of calls, failed saves and resets keeps the table, and what a load takes over from
-- NVS, sound: at most 16 entries, their names of 1 to 32 bytes and distinct, no passphrase and no
-- last network beyond its buffer.
pub run-Sound :
    (fast interval : ℕ) (ms : List (Bool × Move)) (blob : Option Blob)
    → Sound (accepted blob)
    → let s = run fast interval ms (boot blob) in Sound s.known × Sound (accepted s.blob)
run-Sound fast interval ms blob v =
    let k =
      run-Keeps Sound IsName Sound-Stays fast interval ms (boot blob) (any_AllAllowed ms)
        (Keeps-boot blob v) in
    (k.table, k.kept)
