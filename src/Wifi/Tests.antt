-- ===== src/Wifi/Tests.antt =====
-- cmd_wifi/wifi_known.c: the theorems at small instances.
use esp_console_kit.Prelude.{
  ℕ, ◌≡◌, ◌≢◌, refl, Bool, true, false, none, some, List, [], ◌∷◌, ◌++◌, ◌||◌, Bytes, codes,
  bytes_eq, length, replicate, strlcpy, take, ltb, if◌then◌else◌, drop, arith,
}
use esp_console_kit.Prelude.Errors.{esp_ok}
use esp_console_kit.Wifi.Store.{known_max, Entry, find, is_some}
use esp_console_kit.Wifi.Store.Fits.{Sound, no_store-Sound}
use esp_console_kit.Wifi.State.{
  pending, auth_fail, other_reason, connects, Wifi, accepted, boot, load, knows,
}
use esp_console_kit.Wifi.Events.{
  is_auth_failure, on_disconnected, on_got_ip, retry_timer_cb, not_of_join, link_dropped, go_on,
}
use esp_console_kit.Wifi.Calls.{
  sta_ssid_size, recall, join, join_bad, save_bad, save_network, forget, forget_section,
  forget_rest, is_joining,
}
use esp_console_kit.Wifi.Moves.{
  Move, gets_ip, drops, timer_fires, lists, resets, inits, joins, joins_link, run,
}
use esp_console_kit.Wifi.Moves.Keeps.{Keeps}
use esp_console_kit.Wifi.Moves.Sound.{IsName, run-Sound}
use esp_console_kit.Wifi.Moves.Forgotten.{Gone, run-forget}
use esp_console_kit.Wifi.Off.{count_connects}
use esp_console_kit.Wifi.Drops.{Pursues, on_disconnected-Pursues}
use esp_console_kit.Wifi.Joins.{auth_failure_lem, late_join_lem}
use esp_console_kit.Wifi.Names.{configured, save-recall, longest_name_lem}
use esp_console_kit.Wifi.Forgets.{forget-on_got_ip, forget-save_network}

abbrev home : Bytes
home = codes "home"

abbrev cafe : Bytes
cafe = codes "cafe"

abbrev secret : Bytes
secret = codes "secret12"

none-Sound : Sound (accepted none)
unfolding accepted
none-Sound = no_store-Sound

abbrev first_join : List (Bool × Move)
first_join =
    (true, inits esp_ok)
    ∷ (true, joins home (some secret))
    ∷ (true, joins_link home secret)
    ∷ (true, gets_ip (some home))
    ∷ []

run-Sound_example :
    let s = run 5 30 first_join (boot none) in Sound s.known × Sound (accepted s.blob)
run-Sound_example = run-Sound 5 30 first_join none none-Sound

-- A board that has joined `home`, and knows it.
abbrev at_home : Wifi
at_home = record (boot none) {
  started = true;
  loaded = true;
  want_connected = true;
  have_ip = true;
  known = record { last = home; entries = record { ssid = home; passphrase = secret } ∷ [] };
}

at_home-Sound : Sound at_home.known
unfolding find
at_home-Sound = record { few = omega arith; fit = refl; apart = refl; last = omega arith }

at_home-Keeps : Keeps Sound IsName at_home
at_home-Keeps = record { table = at_home-Sound; kept = none-Sound; target = λ h. absurd (cc h) }

knows-home : knows home at_home ≡ true
unfolding load find bytes_eq
knows-home = refl

home_named : bytes_eq [] home ≡ false
unfolding bytes_eq
home_named = refl

cafe_apart : bytes_eq cafe home ≡ false
unfolding bytes_eq
cafe_apart = refl

home_apart : bytes_eq home cafe ≡ false
unfolding bytes_eq
home_apart = refl

abbrev later : List (Bool × Move)
later =
    (true, gets_ip none)
    ∷ (true, joins cafe none)
    ∷ (false, drops cafe (other_reason 201))
    ∷ (true, resets)
    ∷ (true, lists)
    ∷ []

run-forget_example :
    let t = run 5 30 later (forget true true home at_home) in
    Gone home t.known × Gone home (accepted t.blob)
run-forget_example =
    run-forget 5 30 later home true at_home home_named refl at_home-Keeps knows-home
      (tt, (cafe_apart, (tt, (tt, (tt, tt)))))

abbrev quiet : List (Bool × Move)
quiet = (true, drops home (other_reason 8)) ∷ (true, timer_fires) ∷ []

dropped_want : (on_disconnected 5 30 true home (other_reason 8) at_home).want_connected ≡ true
unfolding on_disconnected link_dropped go_on
dropped_want = refl

on_disconnected-Pursues_example :
    let t = on_disconnected 5 30 true home (other_reason 8) at_home in
    Pursues t × ((retry_timer_cb t).deeds ≡ t.deeds ++ connects ∷ [])
on_disconnected-Pursues_example =
    on_disconnected-Pursues 5 30 true home (other_reason 8) at_home (λ e. cc e) refl dropped_want

-- A join of `cafe`, with a new passphrase.
abbrev at_cafe : Wifi
at_cafe = record at_home {
  joining = true;
  join_ssid = cafe;
  join_pass = secret;
  join_commit = true;
}

is_auth : is_auth_failure auth_fail ≡ true
unfolding is_auth_failure
is_auth = refl

cafe_fails : not_of_join 5 30 (take 32 cafe) auth_fail at_cafe ≡ false
unfolding bytes_eq
cafe_fails = refl

auth_failure_lem_example :
    let t = on_disconnected 5 30 true cafe auth_fail at_cafe in
    (t.known ≡ at_cafe.known)
    × (t.blob ≡ none)
    × (t.want_connected ≡ false)
    × (count_connects t.deeds ≡ 0)
auth_failure_lem_example =
    auth_failure_lem 5 30 true cafe auth_fail at_cafe is_auth refl (refl, cafe_fails)

-- A join of `home`, by the passphrase that is known.
abbrev going_home : Wifi
going_home = record at_home {
  joining = true;
  join_ssid = home;
  join_pass = secret;
  known = record { last = cafe; entries = record { ssid = home; passphrase = secret } ∷ [] };
}

home_fails : not_of_join 5 30 (take 32 home) auth_fail going_home ≡ false
unfolding bytes_eq
home_fails = refl

late_join_lem_example :
    let t = on_disconnected 5 30 true home auth_fail going_home in
    ((on_got_ip true none t).known ≡ going_home.known)
    × ((on_got_ip true none going_home).known.last ≡ home)
late_join_lem_example =
    late_join_lem 5 30 true true home auth_fail none going_home refl (omega arith)
      (refl, home_fails)

cafe_good : save_bad cafe (some secret) ≡ false
unfolding save_bad
cafe_good = refl

save-recall_example :
    let t = (save_network true cafe (some secret) at_home).1 in
    let es = (load at_home).known.entries in
    (recall cafe none t ≡ (secret, true))
    × (find home t.known.entries
        ≡ find home (if is_some (find cafe es) || ltb (length es) known_max then es else drop 1 es))
save-recall_example = save-recall true cafe secret home at_home at_home-Keeps cafe_good cafe_apart

abbrev longest : Bytes
longest = replicate 32 b'x'

longest_good : join_bad longest none ≡ false
unfolding join_bad
longest_good = refl

longest_name_lem_example :
    let t = (join longest none esp_ok esp_ok at_home).1 in
    let u = on_disconnected 5 30 true (strlcpy sta_ssid_size longest) (other_reason 201) t in
    (configured t.deeds ≡ some (strlcpy sta_ssid_size longest))
    × (strlcpy sta_ssid_size longest ≢ longest)
    × (u.joining ≡ true)
    × (u.join_result ≡ pending)
longest_name_lem_example =
    longest_name_lem 5 30 true longest none esp_ok (other_reason 201) at_home refl longest_good refl

going_home-Sound : Sound going_home.known
unfolding find
going_home-Sound = record { few = omega arith; fit = refl; apart = refl; last = omega arith }

going_home-Keeps : Keeps Sound IsName going_home
going_home-Keeps = record {
  table = going_home-Sound;
  kept = none-Sound;
  target = λ _. (omega arith, omega arith);
}

forget-on_got_ip_example :
    let b = on_got_ip true none (forget_section true home going_home) in
    (forget_rest home (knows home going_home) (is_joining home going_home) true b).known.last ≡ home
forget-on_got_ip_example =
    forget-on_got_ip true true true home none going_home going_home-Keeps refl refl

-- A full table, whose first network is the last that was joined.
abbrev numbered : ℕ → Entry
numbered n = record { ssid = n ∷ []; passphrase = secret }

abbrev fifteen : List Entry
fifteen =
    numbered 2
    ∷ numbered 3
    ∷ numbered 4
    ∷ numbered 5
    ∷ numbered 6
    ∷ numbered 7
    ∷ numbered 8
    ∷ numbered 9
    ∷ numbered 10
    ∷ numbered 11
    ∷ numbered 12
    ∷ numbered 13
    ∷ numbered 14
    ∷ numbered 15
    ∷ numbered 16
    ∷ []

abbrev full : Wifi
full = record at_home { known = record { last = 1 ∷ []; entries = numbered 1 ∷ fifteen } }

full-Sound : Sound full.known
unfolding find bytes_eq
full-Sound = record { few = omega arith; fit = refl; apart = refl; last = omega arith }

full-Keeps : Keeps Sound IsName full
full-Keeps = record { table = full-Sound; kept = none-Sound; target = λ h. absurd (cc h) }

full_table : ((load full).known.entries ≡ numbered 1 ∷ fifteen) × ((load full).known.last ≡ 1 ∷ [])
unfolding load
full_table = (refl, refl)

cafe_unknown : is_some (find cafe (numbered 1 ∷ fifteen)) ≡ false
unfolding find bytes_eq
cafe_unknown = refl

forget-save_network_example :
    let t = (save_network true cafe (some secret) full).1 in
    (knows (1 ∷ []) t ≡ false) × ((forget true true (1 ∷ []) t).known.last ≡ 1 ∷ [])
forget-save_network_example =
    forget-save_network true true true (numbered 1) fifteen cafe secret full full-Keeps full_table.0
      full_table.1 refl cafe_good cafe_unknown
