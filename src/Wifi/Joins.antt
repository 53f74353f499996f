-- ===== src/Wifi/Joins.antt =====
-- cmd_wifi/wifi_known.c: how joins end.
use mathlib.Core.Path.{subst}
use esp_console_kit.Prelude.{
  ℕ, ◌<◌, ◌≡◌, refl, sym, ap, ◌∙◌, Bool, true, false, not, ◌&&◌, if_intro, Option, Bytes, bytes_eq,
  bytes_eq_iff, length, take, arith,
}
use esp_console_kit.Wifi.Store.{ssid_len, Store, put}
use esp_console_kit.Wifi.Store.Laws.{strlcpy_all}
use esp_console_kit.Wifi.State.{
  Reason, Wifi, Blob, schedule_retry, known_put, known_put_last, load, save,
}
use esp_console_kit.Wifi.Events.{
  is_auth_failure, go_on, settle_join, join_dropped, link_dropped, not_of_join, on_disconnected,
  on_got_ip, join_done, store_joined,
}
use esp_console_kit.Wifi.Off.{count_connects, Off, settled-Off}

module _ (fast interval : ℕ) (known : Store) (blob : Option Blob) where
  abbrev Same : Wifi → Type 0
  Same t = (t.known ≡ known) × (t.blob ≡ blob)

  go_on-Same : (retry want : Bool) (s : Wifi) → Same s → Same (go_on fast interval retry want s)
  unfolding go_on schedule_retry
  go_on-Same retry want s k =
      if_intro Same retry _ _ (λ _. k) (λ _. if_intro Same want _ _ (λ _. k) (λ _. k))

  settle_join-Same :
      (saves auth : Bool) (s : Wifi)
      → auth && s.join_commit ≡ s.join_commit
      → Same s
      → Same (settle_join fast interval saves auth s)
  unfolding settle_join
  settle_join-Same saves auth s h k =
      if_intro Same (auth && s.join_commit) _ _ (λ _. k)
        (λ a.
          if_intro Same (not auth && s.join_commit) _ _ (λ b. absurd (ground (arith, a, b, h)))
            (λ _. k))

  join_dropped-Same :
      (saves : Bool) (reason : Reason) (s : Wifi)
      → is_auth_failure reason && s.join_commit ≡ s.join_commit
      → Same s
      → Same (join_dropped fast interval saves reason s)
  unfolding join_dropped
  join_dropped-Same saves reason s h k =
      go_on-Same _ _ _
        (settle_join-Same saves (is_auth_failure reason) (record s { joining = false }) h k)

  link_dropped-Same :
      (had_ip : Bool) (from : Bytes) (reason : Reason) (s : Wifi)
      → Same s
      → Same (link_dropped fast interval had_ip from reason s)
  unfolding link_dropped
  link_dropped-Same had_ip from reason s k =
      go_on-Same _ _ _ (if_intro Same had_ip _ _ (λ _. k) (λ _. k))

  -- A disconnect stores nothing, unless a new credential's join fails for another reason than its
  -- authentication.
  on_disconnected-Same :
      (saves : Bool) (from : Bytes) (reason : Reason) (s : Wifi)
      → (is_auth_failure reason && s.join_commit) ≡ s.join_commit
      → Same s
      → Same (on_disconnected fast interval saves from reason s)
  unfolding on_disconnected
  on_disconnected-Same saves from reason s h k =
      let t : Wifi = record s { have_ip = false } in
      if_intro Same s.joining _ _
        (λ _.
          if_intro Same (not_of_join fast interval (take 32 from) reason s) _ _ (λ _. k)
            (λ _. join_dropped-Same saves reason t h k))
        (λ _. link_dropped-Same s.have_ip (take 32 from) reason t k)

-- A disconnect that is the failure of the join in flight.
abbrev pub Fails : ℕ → ℕ → Bytes → Reason → Wifi → Type 0
Fails fast interval from reason s =
    (s.joining ≡ true) × (not_of_join fast interval (take 32 from) reason s ≡ false)

module _ (fast interval : ℕ) (saves : Bool) (from : Bytes) (reason : Reason) (s : Wifi) where
  failed_is :
      Fails fast interval from reason s
      → on_disconnected fast interval saves from reason s
        ≡ join_dropped fast interval saves reason (record s { have_ip = false })
  unfolding on_disconnected
  failed_is h = rw (h.0) (rw (h.1) refl)

  given_up :
      is_auth_failure reason ≡ true
      → s.join_commit ≡ true
      → Off (count_connects s.deeds) (
          settle_join fast interval saves
            (is_auth_failure reason)
            (record s { joining = false; have_ip = false }))
  unfolding settle_join
  given_up auth new =
      if_intro (Off (count_connects s.deeds)) (is_auth_failure reason && s.join_commit) _ _
        (λ _. (refl, refl)) (λ h. absurd (ground (arith, h, auth, new)))

-- A join with a new passphrase that fails authentication leaves the table and what NVS holds as
-- they were, the station unwanted, and the driver not asked to connect.
pub auth_failure_lem :
    (fast interval : ℕ) (saves : Bool) (from : Bytes) (reason : Reason) (s : Wifi)
    → is_auth_failure reason ≡ true
    → s.join_commit ≡ true
    → Fails fast interval from reason s
    → let t = on_disconnected fast interval saves from reason s in
      (t.known ≡ s.known)
      × (t.blob ≡ s.blob)
      × (t.want_connected ≡ false)
      × (count_connects t.deeds ≡ count_connects s.deeds)
auth_failure_lem fast interval saves from reason s auth new fails =
    let same =
      on_disconnected-Same fast interval s.known s.blob saves from reason s
        (ground (arith, auth, new)) (refl, refl) in
    let off =
      settled-Off (count_connects s.deeds) fast interval saves reason (record s { have_ip = false })
        (given_up fast interval saves from reason s auth new) in
    let off_here =
      subst (Off (count_connects s.deeds)) (sym (failed_is fast interval saves from reason s fails))
        off in
    (same.0, same.1, off_here.0, off_here.1)

-- What a join that is done leaves as the network to rejoin at boot.
known_put_last-last :
    (saves : Bool) (ssid : Bytes) (s : Wifi)
    → length ssid < ssid_len
    → (known_put_last saves ssid s).known.last ≡ ssid
unfolding known_put_last load save
known_put_last-last saves ssid s short =
    if_intro (λ (t : Wifi). t.known.last ≡ ssid) (bytes_eq (load s).known.last ssid) _ _
      (λ h. (bytes_eq_iff (load s).known.last ssid).0 h) (λ _. strlcpy_all ssid_len ssid short)

pub store_joined-last :
    (saves : Bool) (s : Wifi)
    → length s.join_ssid < ssid_len
    → (store_joined saves s).known.last ≡ s.join_ssid
unfolding store_joined known_put put load save
store_joined-last saves s short =
    if_intro (λ (t : Wifi). t.known.last ≡ s.join_ssid) s.join_commit _ _
      (λ _. strlcpy_all ssid_len s.join_ssid short)
      (λ _. known_put_last-last saves s.join_ssid s short)

pub on_got_ip-last :
    (saves : Bool) (ap : Option Bytes) (s : Wifi)
    → s.joining ≡ true
    → length s.join_ssid < ssid_len
    → (on_got_ip saves ap s).known.last ≡ s.join_ssid
unfolding on_got_ip join_done
on_got_ip-last saves ap s joining short =
    if_intro (λ (t : Wifi). t.known.last ≡ s.join_ssid) s.joining _ _
      (λ _. store_joined-last saves (record s { have_ip = true; retries = 0 }) short)
      (λ h. absurd (cc (h, joining)))

idle_got_ip :
    (saves : Bool) (ap : Option Bytes) (s : Wifi)
    → s.joining ≡ false
    → (on_got_ip saves ap s).known ≡ s.known
unfolding on_got_ip join_done
idle_got_ip saves ap s idle =
    if_intro (λ (t : Wifi). t.known ≡ s.known) s.joining _ _ (λ h. absurd (cc (h, idle)))
      (λ _. refl)

module _ (fast interval : ℕ) where
  go_on-joining :
      (retry want : Bool) (s : Wifi)
      → s.joining ≡ false
      → (go_on fast interval retry want s).joining ≡ false
  unfolding go_on schedule_retry
  go_on-joining retry want s h =
      let P : Wifi → Type 0 = λ t. t.joining ≡ false in
      if_intro P retry _ _ (λ _. h) (λ _. if_intro P want _ _ (λ _. h) (λ _. h))

  join_dropped-joining :
      (saves : Bool) (reason : Reason) (s : Wifi)
      → (join_dropped fast interval saves reason s).joining ≡ false
  unfolding join_dropped
  join_dropped-joining saves reason s = go_on-joining _ _ _ refl

-- A join of a recalled network that first fails and then gets its address on a retry leaves the
-- table as it was, the network to rejoin with it; had it got its address at once, it would have
-- become the network to rejoin.
pub late_join_lem :
    (fast interval : ℕ) (saves saves_later : Bool) (from : Bytes) (reason : Reason)
    (ap : Option Bytes) (s : Wifi)
    → s.join_commit ≡ false
    → length s.join_ssid < ssid_len
    → Fails fast interval from reason s
    → let t = on_disconnected fast interval saves from reason s in
      ((on_got_ip saves_later ap t).known ≡ s.known)
      × ((on_got_ip saves_later ap s).known.last ≡ s.join_ssid)
late_join_lem fast interval saves saves_later from reason ap s recalled short fails =
    let t = on_disconnected fast interval saves from reason s in
    let idle : t.joining ≡ false =
      ap_joining ∙ join_dropped-joining fast interval saves reason (record s { have_ip = false }) in
    let same =
      on_disconnected-Same fast interval s.known s.blob saves from reason s
        (ground (arith, recalled)) (refl, refl) in
    (idle_got_ip saves_later ap t idle ∙ same.0, on_got_ip-last saves_later ap s fails.0 short)
  where
    ap_joining :
        (on_disconnected fast interval saves from reason s).joining
        ≡ (join_dropped fast interval saves reason (record s { have_ip = false })).joining
    ap_joining =
        subst
          (λ (u : Wifi).
            u.joining
            ≡ (join_dropped fast interval saves reason (record s { have_ip = false })).joining)
          (sym (failed_is fast interval saves from reason s fails)) refl
