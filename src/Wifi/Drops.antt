-- ===== src/Wifi/Drops.antt =====
-- cmd_wifi/wifi_known.c: what a disconnect leads to.
use esp_console_kit.Prelude.{
  ℕ, ◌≡◌, ◌≢◌, ◌⊎◌, refl, sym, ◌∙◌, Bool, true, false, not, ◌&&◌, inl, inr, if_intro, List, [], ◌∷◌,
  ◌++◌, Bytes, take, ◌==◌, arith,
}
use esp_console_kit.Wifi.State.{Reason, Deed, connects, Wifi, schedule_retry, known_put, load, save}
use esp_console_kit.Wifi.Events.{
  is_auth_failure, go_on, settle_join, join_dropped, link_dropped, not_of_join, on_disconnected,
  retry_timer_cb,
}

-- A connect is the last thing that was done, or the retry timer runs.
abbrev pub Pursues : Wifi → Type 0
Pursues s = ((ds : List Deed) × (s.deeds ≡ ds ++ connects ∷ [])) ⊎ (s.armed ≡ true)

module _ (fast interval : ℕ) where
  go_on-Pursues :
      (retry want : Bool) (s : Wifi)
      → want ≡ true
      → interval ≢ 0
      → Pursues (go_on fast interval retry want s)
  unfolding go_on schedule_retry
  go_on-Pursues retry want s w some_time =
      if_intro Pursues retry _ _ (λ _. inl (s.deeds, refl))
        (λ _.
          if_intro Pursues want _ _
            (λ _. inr (
              if_intro (λ (b : Bool). b ≡ true) (interval == 0) _ _
                (λ z. absurd (some_time (ground (arith, z)))) (λ _. refl)))
            (λ h. absurd (cc (h, w))))

  go_on-want :
      (retry want : Bool) (s : Wifi)
      → (go_on fast interval retry want s).want_connected ≡ s.want_connected
  unfolding go_on schedule_retry
  go_on-want retry want s =
      if_intro (λ (t : Wifi). t.want_connected ≡ s.want_connected) retry _ _ (λ _. refl)
        (λ _.
          if_intro (λ (t : Wifi). t.want_connected ≡ s.want_connected) want _ _ (λ _. refl)
            (λ _. refl))

  join_dropped-Pursues :
      (saves : Bool) (reason : Reason) (s : Wifi)
      → interval ≢ 0
      → (join_dropped fast interval saves reason s).want_connected ≡ true
      → Pursues (join_dropped fast interval saves reason s)
  unfolding join_dropped
  join_dropped-Pursues saves reason s some_time w =
      go_on-Pursues _ _ _ (sym (go_on-want _ _ _) ∙ w) some_time

  link_dropped-Pursues :
      (had_ip : Bool) (from : Bytes) (reason : Reason) (s : Wifi)
      → interval ≢ 0
      → s.want_connected ≡ true
      → Pursues (link_dropped fast interval had_ip from reason s)
  unfolding link_dropped
  link_dropped-Pursues had_ip from reason s some_time w = go_on-Pursues _ _ _ w some_time

  link_dropped-want :
      (had_ip : Bool) (from : Bytes) (reason : Reason) (s : Wifi)
      → (link_dropped fast interval had_ip from reason s).want_connected ≡ s.want_connected
  unfolding link_dropped
  link_dropped-want had_ip from reason s =
      go_on-want _ _ _
      ∙ if_intro (λ (t : Wifi). t.want_connected ≡ s.want_connected) had_ip _ _ (λ _. refl)
          (λ _. refl)

  -- No address is left.
  abbrev NoIp : Wifi → Type 0
  NoIp t = t.have_ip ≡ false

  go_on-NoIp : (retry want : Bool) (s : Wifi) → NoIp s → NoIp (go_on fast interval retry want s)
  unfolding go_on schedule_retry
  go_on-NoIp retry want s h =
      if_intro NoIp retry _ _ (λ _. h) (λ _. if_intro NoIp want _ _ (λ _. h) (λ _. h))

  settle_join-NoIp :
      (saves auth : Bool) (s : Wifi) → NoIp s → NoIp (settle_join fast interval saves auth s)
  unfolding settle_join known_put load save
  settle_join-NoIp saves auth s h =
      if_intro NoIp (auth && s.join_commit) _ _ (λ _. h)
        (λ _. if_intro NoIp (not auth && s.join_commit) _ _ (λ _. h) (λ _. h))

  on_disconnected-NoIp :
      (saves : Bool) (from : Bytes) (reason : Reason) (s : Wifi)
      → NoIp (on_disconnected fast interval saves from reason s)
  unfolding on_disconnected join_dropped link_dropped
  on_disconnected-NoIp saves from reason s =
      let t : Wifi = record s { have_ip = false } in
      if_intro NoIp s.joining _ _
        (λ _.
          if_intro NoIp (not_of_join fast interval (take 32 from) reason s) _ _ (λ _. refl)
            (λ _. go_on-NoIp _ _ _ (
              settle_join-NoIp saves (is_auth_failure reason) (record t { joining = false }) refl)))
        (λ _. go_on-NoIp _ _ _ (if_intro NoIp s.have_ip _ _ (λ _. refl) (λ _. refl)))

  drop-Pursues :
      (saves : Bool) (from : Bytes) (reason : Reason) (s : Wifi)
      → interval ≢ 0
      → s.joining && not_of_join fast interval (take 32 from) reason s ≡ false
      → (on_disconnected fast interval saves from reason s).want_connected ≡ true
      → Pursues (on_disconnected fast interval saves from reason s)
  unfolding on_disconnected
  drop-Pursues saves from reason s some_time heard =
      let P : Wifi → Type 0 = λ t. t.want_connected ≡ true → Pursues t in
      if_intro P s.joining _ _
        (λ j.
          if_intro P (not_of_join fast interval (take 32 from) reason s) _ _
            (λ h. absurd (ground (arith, heard, h, j)))
            (λ _. join_dropped-Pursues saves reason (record s { have_ip = false }) some_time))
        (λ _ w.
          link_dropped-Pursues s.have_ip (take 32 from) reason (record s { have_ip = false })
            some_time
            (sym (link_dropped-want s.have_ip (take 32 from) reason (record s { have_ip = false }))
              ∙ w))

  timer_connects :
      (s : Wifi)
      → s.want_connected ≡ true
      → s.have_ip ≡ false
      → (retry_timer_cb s).deeds ≡ s.deeds ++ connects ∷ []
  unfolding retry_timer_cb
  timer_connects s w n =
      if_intro (λ (t : Wifi). t.deeds ≡ s.deeds ++ connects ∷ [])
        (s.want_connected && not s.have_ip) _ _ (λ _. refl) (λ h. absurd (ground (arith, h, w, n)))

-- Where a retry interval is set, a disconnect that is not ignored and leaves the station wanted
-- has just asked the driver to connect or left the retry timer armed; and the timer, if it fires
-- next, asks the driver to connect.
pub on_disconnected-Pursues :
    (fast interval : ℕ) (saves : Bool) (from : Bytes) (reason : Reason) (s : Wifi)
    → interval ≢ 0
    → s.joining && not_of_join fast interval (take 32 from) reason s ≡ false
    → (on_disconnected fast interval saves from reason s).want_connected ≡ true
    → let t = on_disconnected fast interval saves from reason s in
      Pursues t × ((retry_timer_cb t).deeds ≡ t.deeds ++ connects ∷ [])
on_disconnected-Pursues fast interval saves from reason s some_time heard w =
    let t = on_disconnected fast interval saves from reason s in
    (
      drop-Pursues fast interval saves from reason s some_time heard w,
      timer_connects fast interval t w (on_disconnected-NoIp fast interval saves from reason s),
    )
