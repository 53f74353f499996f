-- ===== src/Wifi/Events.antt =====
-- cmd_wifi/wifi_known.c: what the event task and the retry timer do (is_auth_failure,
-- on_disconnected, on_got_ip, retry_timer_cb). What is logged is left out, and so is the IPv6
-- address that on_got_ip asks lwIP for.
use esp_console_kit.Prelude.{
  ℕ, ◌+◌, Bool, true, false, not, ◌&&◌, ◌||◌, Option, none, some, [], ◌∷◌, Bytes, bytes_eq, take,
  ltb, strlcpy, if◌then◌else◌,
}
use esp_console_kit.Wifi.Store.{ssid_len}
use esp_console_kit.Wifi.State.{
  result_ok, auth_failed, failed, got_ip_evt, join_failed_evt, auth_failed_evt, link_lost_evt,
  Reason, zero_code, auth_expire, auth_fail, handshake_timeout, four_way_handshake_timeout,
  mic_failure, assoc_leave, connects, Wifi, done, emit, known_put, known_put_last, schedule_retry,
}

unfoldable pub is_auth_failure : Reason → Bool
is_auth_failure auth_expire = true
is_auth_failure auth_fail = true
is_auth_failure handshake_timeout = true
is_auth_failure four_way_handshake_timeout = true
is_auth_failure mic_failure = true
is_auth_failure _ = false

abbrev pub is_leave : Reason → Bool
is_leave assoc_leave = true
is_leave _ = false

abbrev pub is_empty : Bytes → Bool
is_empty [] = true
is_empty (c ∷ cs) = false

-- The join's fields, cleared.
abbrev pub no_join : Wifi → Wifi
no_join s = record s { joining = false; join_commit = false; join_pass = [] }

module _ (fast interval : ℕ) where
  -- Behind the unlock: reconnect at once, or arm the timer.
  unfoldable pub go_on : Bool → Bool → Wifi → Wifi
  go_on retry_now want s =
      if retry_now then done connects s else if want then schedule_retry interval s else s

  -- A fast retry is taken if one is left.
  abbrev pub has_retry : Wifi → Bool
  has_retry s = s.want_connected && ltb s.retries fast

  abbrev pub with_retry : Wifi → Wifi
  with_retry s = record s { retries = if has_retry s then s.retries + 1 else s.retries }

  -- The join's credential, as a disconnect leaves it: kept unless its authentication failed.
  unfoldable pub settle_join : Bool → Bool → Wifi → Wifi
  settle_join saves auth s =
      if auth && s.join_commit
      then record s { want_connected = false }
      else if not auth && s.join_commit
      then known_put saves s.join_ssid (some s.join_pass) true s
      else s

  unfoldable pub join_dropped : Bool → Reason → Wifi → Wifi
  join_dropped saves reason s =
      let auth = is_auth_failure reason in
      let t = no_join (settle_join saves auth (record s { joining = false })) in
      let u : Wifi = record (with_retry t) { join_result = if auth then auth_failed else failed } in
      go_on (has_retry t) t.want_connected (
        emit (if auth then auth_failed_evt else join_failed_evt) (some s.join_ssid) reason
          t.want_connected u)

  unfoldable pub link_dropped : Bool → Bytes → Reason → Wifi → Wifi
  link_dropped had_ip from reason s =
      let t = with_retry s in
      let told = emit link_lost_evt (some from) reason s.want_connected t in
      go_on (has_retry s) s.want_connected (if had_ip then told else t)

  -- A disconnect that says nothing of the join in flight.
  abbrev pub not_of_join : Bytes → Reason → Wifi → Bool
  not_of_join from reason s =
      (not (is_empty from) && not (bytes_eq from s.join_ssid)) || is_leave reason

  -- on_disconnected
  unfoldable pub on_disconnected : Bool → Bytes → Reason → Wifi → Wifi
  on_disconnected saves ssid reason s =
      let from = take 32 ssid in
      let t : Wifi = record s { have_ip = false } in
      if s.joining
      then if not_of_join from reason s then t else join_dropped saves reason t
      else link_dropped s.have_ip from reason t

unfoldable pub store_joined : Bool → Wifi → Wifi
store_joined saves s =
    if s.join_commit
    then known_put saves s.join_ssid (some s.join_pass) true s
    else known_put_last saves s.join_ssid s

unfoldable pub join_done : Bool → Wifi → Wifi
join_done saves s =
    if s.joining then no_join (record (store_joined saves s) { join_result = result_ok }) else s

-- on_got_ip; `ap` is the name of the access point, where the driver tells it
unfoldable pub on_got_ip : Bool → Option Bytes → Wifi → Wifi
on_got_ip saves ap s =
    let t = join_done saves (record s { have_ip = true; retries = 0 }) in
    emit got_ip_evt (some (elim ap [ none ↦ [] | some name ↦ strlcpy ssid_len name ])) zero_code
      false (record t { armed = false })

-- retry_timer_cb; the timer fires once
unfoldable pub retry_timer_cb : Wifi → Wifi
retry_timer_cb s =
    let t : Wifi = record s { armed = false } in
    if s.want_connected && not s.have_ip then done connects t else t
