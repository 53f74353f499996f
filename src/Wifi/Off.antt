-- ===== src/Wifi/Off.antt =====
-- cmd_wifi/wifi_known.c: a board that is not to be connected does not connect.
use esp_console_kit.Prelude.{
  ℕ, ◌+◌, ◌≡◌, refl, ap, Bool, true, false, not, ◌&&◌, ◌||◌, if_intro, Option, none, some, List, [],
  ◌∷◌, ◌++◌, Bytes, bytes_eq, take, strlcpy, if◌then◌else◌, arith,
}
use esp_console_kit.Prelude.Errors.{EspErr, esp_ok}
use esp_console_kit.Wifi.Store.{ssid_len}
use esp_console_kit.Wifi.State.{
  auth_failed, failed, Reason, zero_code, Deed, connects, disconnects, configures, Event,
  auth_failed_evt, join_failed_evt, link_lost_evt, got_ip_evt, disabled_evt, forgotten_evt, tells,
  knows, known_erase, Wifi, emit, known_put, known_put_last, load, save,
}
use esp_console_kit.Wifi.Events.{
  is_auth_failure, go_on, has_retry, with_retry, settle_join, join_dropped, link_dropped,
  not_of_join, no_join, on_disconnected, on_got_ip, join_done, store_joined, retry_timer_cb,
}
use esp_console_kit.Wifi.Calls.{
  known_init, join_refused, forget_section, forget_rest, forget_link, enable_section, enable_rest,
  save_network, save_bad,
}
use esp_console_kit.Wifi.Moves.{
  Move, gets_ip, drops, timer_fires, lists, resets, inits, joins, joins_link, joins_refused,
  forgets, forgets_rest, saves_network, enables, enables_rest, hooks, move, run,
}

-- How often the driver was asked to connect.
abbrev pub count_connects : List Deed → ℕ
count_connects [] = 0
count_connects (connects ∷ ds) = count_connects ds + 1
count_connects (_ ∷ ds) = count_connects ds

count_connects-append :
    (ds es : List Deed) → count_connects (ds ++ es) ≡ count_connects ds + count_connects es
count_connects-append [] es = omega arith
count_connects-append (connects ∷ ds) es = let ih = count_connects-append ds es in omega (arith, ih)
count_connects-append (_ ∷ ds) es = count_connects-append ds es

-- A move that neither joins, nor enables, nor resets the board.
abbrev pub Quiet : Move → Type 0
Quiet (joins ssid p) = ⊥
Quiet (joins_link ssid pass) = ⊥
Quiet (enables b) = b ≡ false
Quiet (enables_rest b cfg) = b ≡ false
Quiet resets = ⊥
Quiet _ = Unit {0}

abbrev pub AllQuiet : List (Bool × Move) → Type 0
AllQuiet [] = Unit {0}
AllQuiet ((saves, m) ∷ ms) = Quiet m × AllQuiet ms

module _ (c : ℕ) where
  -- Off, and the driver was asked to connect as often as before.
  abbrev pub Off : Wifi → Type 0
  Off s = (s.want_connected ≡ false) × (count_connects s.deeds ≡ c)

  said :
      (ds : List Deed) (d : Deed)
      → count_connects (d ∷ []) ≡ 0
      → count_connects ds ≡ c
      → count_connects (ds ++ d ∷ []) ≡ c
  said ds d z h = omega (arith, count_connects-append ds (d ∷ []), z, h)

  emit-Off :
      (e : Event) (ssid : Option Bytes) (reason : Reason) (r : Bool) (s : Wifi)
      → Off s
      → Off (emit e ssid reason r s)
  emit-Off e ssid reason r s (w, h) = (
    w,
    if_intro (λ (ds : List Deed). count_connects ds ≡ c) s.hooked _ _
        (λ _. said s.deeds (tells e ssid reason r) refl h) (λ _. h),
  )

  store_joined-Off : (saves : Bool) (s : Wifi) → Off s → Off (store_joined saves s)
  unfolding store_joined known_put known_put_last load save
  store_joined-Off saves s k =
      if_intro Off s.join_commit _ _ (λ _. k)
        (λ _. if_intro Off (bytes_eq (load s).known.last s.join_ssid) _ _ (λ _. k) (λ _. k))

  unstored-Off :
      (saves : Bool) (s : Wifi)
      → Off s
      → Off (known_put saves s.join_ssid (some s.join_pass) true s)
  unfolding known_put load save
  unstored-Off saves s k = k

  on_got_ip-Off : (saves : Bool) (ap : Option Bytes) (s : Wifi) → Off s → Off (on_got_ip saves ap s)
  unfolding on_got_ip join_done
  on_got_ip-Off saves ap s k =
      let t : Wifi = record s { have_ip = true; retries = 0 } in
      let done_with : Off (join_done saves t) =
        if_intro Off t.joining _ _ (λ _. store_joined-Off saves t k) (λ _. k) in
      emit-Off got_ip_evt (some (elim ap [ none ↦ [] | some name ↦ strlcpy ssid_len name ]))
        zero_code false (record (join_done saves t) { armed = false }) done_with

  module _ (fast interval : ℕ) where
    go_on-Off :
        (retry want : Bool) (s : Wifi)
        → retry ≡ false
        → want ≡ false
        → Off s
        → Off (go_on fast interval retry want s)
    unfolding go_on
    go_on-Off retry want s r w k =
        if_intro Off retry _ _ (λ h. absurd (cc (h, r)))
          (λ _. if_intro Off want _ _ (λ h. absurd (cc (h, w))) (λ _. k))

    no_retry : (s : Wifi) → s.want_connected ≡ false → has_retry fast interval s ≡ false
    no_retry s w = ground (arith, w)

    settle_join-Off :
        (saves auth : Bool) (s : Wifi) → Off s → Off (settle_join fast interval saves auth s)
    unfolding settle_join known_put load save
    settle_join-Off saves auth s k =
        if_intro Off (auth && s.join_commit) _ _ (λ _. (refl, k.1))
          (λ _. if_intro Off (not auth && s.join_commit) _ _ (λ _. k) (λ _. k))

    -- Where the join's end leaves the board off, nothing connects.
    pub settled-Off :
        (saves : Bool) (reason : Reason) (s : Wifi)
        → Off (
            settle_join fast interval saves (is_auth_failure reason) (record s { joining = false }))
        → Off (join_dropped fast interval saves reason s)
    unfolding join_dropped
    settled-Off saves reason s st =
        let auth = is_auth_failure reason in
        let t = no_join (settle_join fast interval saves auth (record s { joining = false })) in
        let told =
          emit-Off (if auth then auth_failed_evt else join_failed_evt) (some s.join_ssid) reason
            t.want_connected
            (record (with_retry fast interval t) {
              join_result = if auth then auth_failed else failed;
            })
            st in
        go_on-Off (has_retry fast interval t) t.want_connected
          (emit (if auth then auth_failed_evt else join_failed_evt) (some s.join_ssid) reason
            t.want_connected
            (record (with_retry fast interval t) {
              join_result = if auth then auth_failed else failed;
            }))
          (no_retry t st.0) st.0 told

    link_dropped-Off :
        (had_ip : Bool) (from : Bytes) (reason : Reason) (s : Wifi)
        → Off s
        → Off (link_dropped fast interval had_ip from reason s)
    unfolding link_dropped
    link_dropped-Off had_ip from reason s k =
        let t = with_retry fast interval s in
        let told = emit link_lost_evt (some from) reason s.want_connected t in
        go_on-Off (has_retry fast interval s) s.want_connected (if had_ip then told else t)
          (no_retry s k.0) k.0
          (if_intro Off had_ip _ _
            (λ _. emit-Off link_lost_evt (some from) reason s.want_connected t k) (λ _. k))

    on_disconnected-Off :
        (saves : Bool) (from : Bytes) (reason : Reason) (s : Wifi)
        → Off s
        → Off (on_disconnected fast interval saves from reason s)
    unfolding on_disconnected
    on_disconnected-Off saves from reason s k =
        let t : Wifi = record s { have_ip = false } in
        if_intro Off s.joining _ _
          (λ _.
            if_intro Off (not_of_join fast interval (take 32 from) reason s) _ _ (λ _. k)
              (λ _.
                settled-Off saves reason t (
                  settle_join-Off saves (is_auth_failure reason) (record t { joining = false }) k)))
          (λ _. link_dropped-Off s.have_ip (take 32 from) reason t k)

    timer-Off : (s : Wifi) → Off s → Off (retry_timer_cb s)
    unfolding retry_timer_cb
    timer-Off s k =
        if_intro Off (s.want_connected && not s.have_ip) _ _
          (λ h. let w = k.0 in absurd (ground (arith, h, w))) (λ _. k)

    forget_rest-Off :
        (ssid : Bytes) (had joining used : Bool) (s : Wifi)
        → Off s
        → Off (forget_rest ssid had joining used s)
    unfolding forget_rest forget_link
    forget_rest-Off ssid had joining used s k =
        let t = if s.started && (joining || used) then forget_link s else s in
        let kt : Off t =
          if_intro Off (s.started && (joining || used)) _ _
            (λ _. (
              refl,
              said (s.deeds ++ disconnects ∷ []) (configures [] []) refl
                  (said s.deeds disconnects refl k.1),
            ))
            (λ _. k) in
        if_intro Off had _ _ (λ _. emit-Off forgotten_evt (some ssid) zero_code false t kt)
          (λ _. kt)

    enable_rest-Off :
        (cfg : Option Bytes) (connect : EspErr) (last : Bytes) (s : Wifi)
        → Off s
        → Off (enable_rest false cfg connect last s)
    unfolding enable_rest
    enable_rest-Off cfg connect last s k =
        let told = emit-Off disabled_evt none zero_code false s k in
        (told.0, said (emit disabled_evt none zero_code false s).deeds disconnects refl told.1)

    move-Off :
        (saves : Bool) (m : Move) (s : Wifi) → Quiet m → Off s → Off (move fast interval saves m s)
    unfolding move
    move-Off saves (gets_ip ap) s q k = on_got_ip-Off saves ap s k
    move-Off saves (drops from reason) s q k = on_disconnected-Off saves from reason s k
    move-Off saves timer_fires s q k = timer-Off s k
    move-Off saves lists s q k = unfold load in k
    move-Off saves resets s q k = absurd q
    move-Off saves (inits init) s q k =
        unfold known_init in
        if_intro (λ (r : EspErr × Wifi). Off r.1) s.started _ _ (λ _. k) (λ _. k)
    move-Off saves (joins ssid p) s q k = absurd q
    move-Off saves (joins_link ssid pass) s q k = absurd q
    move-Off saves (joins_refused ssid pass) s q k =
        unfold join_refused in
        emit-Off join_failed_evt (some ssid) zero_code false
          (record (no_join s) { join_result = failed }) k
    move-Off saves (forgets ssid) s q k =
        unfold forget_section known_erase load save in
        if_intro Off (knows ssid s) _ _ (λ _. k) (λ _. k)
    move-Off saves (forgets_rest ssid had joining used) s q k =
        forget_rest-Off ssid had joining used s k
    move-Off saves (saves_network ssid p) s q k =
        unfold save_network known_put load save in
        if_intro (λ (r : EspErr × Wifi). Off r.1) (save_bad ssid p) _ _ (λ _. k) (λ _. k)
    move-Off saves (enables true) s q k = absurd (cc q)
    move-Off saves (enables false) s q k = unfold enable_section load in (refl, k.1)
    move-Off saves (enables_rest true cfg) s q k = absurd (cc q)
    move-Off saves (enables_rest false cfg) s q k = enable_rest-Off cfg esp_ok [] s k
    move-Off saves (hooks b) s q k = k

    pub run-Off :
        (ms : List (Bool × Move)) (s : Wifi) → AllQuiet ms → Off s → Off (run fast interval ms s)
    run-Off [] s q k = k
    run-Off ((saves, m) ∷ ms) s q k =
        run-Off ms (move fast interval saves m s) q.1 (move-Off saves m s q.0 k)
