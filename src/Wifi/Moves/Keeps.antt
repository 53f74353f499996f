-- ===== src/Wifi/Moves/Keeps.antt =====
-- cmd_wifi/wifi_known.c: what holds of the table holds behind every move, where the operations on
-- the table keep it.
use esp_console_kit.Prelude.{
  ℕ, ◌≡◌, ap, Bool, true, false, not, ◌&&◌, ◌||◌, if_intro, Option, some, List, [], ◌∷◌, Bytes,
  bytes_eq, length, take, leb, strlcpy, ◌==◌, if◌then◌else◌,
}
use esp_console_kit.Prelude.Errors.{EspErr, esp_ok}
use esp_console_kit.Wifi.Store.{ssid_len, known_max, Store, no_store, put, erase}
use esp_console_kit.Wifi.State.{
  Reason, Wifi, Blob, accepted, load, save, knows, known_put, known_put_last, known_erase,
  schedule_retry,
}
use esp_console_kit.Wifi.Events.{
  is_auth_failure, go_on, has_retry, settle_join, join_dropped, link_dropped, not_of_join,
  on_disconnected, store_joined, join_done, on_got_ip, retry_timer_cb, is_empty,
}
use esp_console_kit.Wifi.Calls.{
  known_init, is_blank, text_of, join_section, join_link, join_bad, join_refused, forget_section,
  forget_link, forget_rest, enable_section, enable_rest, save_bad, save_network,
}
use esp_console_kit.Wifi.Moves.{
  Move, gets_ip, drops, timer_fires, lists, resets, inits, joins, joins_link, joins_refused,
  forgets, forgets_rest, saves_network, enables, enables_rest, hooks, move, run,
}

-- `Q` of a table and `J` of the name of a join.
pub record Stays (Q : Store → Type 0) (J : Bytes → Type 0) : Type 0 where
  pub empty : Q no_store
  pub put_in :
      (ssid p : Bytes) (as_last : Bool) (st : Store)
      → J ssid
      → Q st
      → Q (put ssid (some p) as_last st)
  pub mark :
      (ssid : Bytes) (st : Store) → J ssid → Q st → Q (record st { last = strlcpy ssid_len ssid })
  pub erased : (ssid : Bytes) (st : Store) → Q st → Q (erase ssid st)

module _ (Q : Store → Type 0) (J : Bytes → Type 0) where
  pub record KeepsAt (known : Store) (blob : Option Blob) (joining : Bool) (join_ssid : Bytes)
      : Type 0 where
    pub table : Q known
    pub kept : Q (accepted blob)
    pub target : joining ≡ true → J join_ssid

  -- The table, what NVS holds of it, and the join in flight.
  abbrev pub Keeps : Wifi → Type 0
  Keeps s = KeepsAt s.known s.blob s.joining s.join_ssid

  -- What a call may name.
  abbrev pub Allowed : Move → Type 0
  Allowed (joins ssid p) = join_bad ssid p ≡ false → J (strlcpy ssid_len ssid)
  Allowed (saves_network ssid p) = save_bad ssid p ≡ false → J ssid
  Allowed _ = Unit {0}

  abbrev pub AllAllowed : List (Bool × Move) → Type 0
  AllAllowed [] = Unit {0}
  AllAllowed ((saves, m) ∷ ms) = Allowed m × AllAllowed ms

  module _ (law : Stays Q J) where
    pub load-Keeps : (s : Wifi) → Keeps s → Keeps (load s)
    unfolding load
    load-Keeps s k = record {
      table = if_intro Q s.loaded _ _ (λ _. k.table) (λ _. k.kept);
      kept = k.kept;
      target = k.target;
    }

    saved-accepted :
        (st : Store) → Q st → Q (accepted (some (record { whole = true; version = 1; store = st })))
    unfolding accepted
    saved-accepted st q =
        if_intro Q (true && 1 == 1 && leb (length st.entries) known_max) _ _ (λ _. q)
          (λ _. law.empty)

    save-Keeps : (saves : Bool) (s : Wifi) → Keeps s → Keeps (save saves s)
    unfolding save
    save-Keeps saves s k = record {
      table = k.table;
      kept =
          if_intro (λ (b : Option Blob). Q (accepted b)) saves _ _
            (λ _. saved-accepted s.known k.table) (λ _. k.kept);
      target = k.target;
    }

    with_table : (s : Wifi) (st : Store) → Keeps s → Q st → Keeps (record s { known = st })
    with_table s st k q = record { table = q; kept = k.kept; target = k.target }

    known_put-Keeps :
        (saves : Bool) (ssid p : Bytes) (as_last : Bool) (s : Wifi)
        → J ssid
        → Keeps s
        → Keeps (known_put saves ssid (some p) as_last s)
    unfolding known_put
    known_put-Keeps saves ssid p as_last s j k =
        let t = load s in
        let kt = load-Keeps s k in
        save-Keeps saves (record t { known = put ssid (some p) as_last t.known })
          (with_table t (put ssid (some p) as_last t.known) kt
            (law.put_in ssid p as_last t.known j kt.table))

    known_put_last-Keeps :
        (saves : Bool) (ssid : Bytes) (s : Wifi)
        → J ssid
        → Keeps s
        → Keeps (known_put_last saves ssid s)
    unfolding known_put_last
    known_put_last-Keeps saves ssid s j k =
        let t = load s in
        let kt = load-Keeps s k in
        let st : Store = record (t.known) { last = strlcpy ssid_len ssid } in
        if_intro Keeps (bytes_eq t.known.last ssid) _ _ (λ _. kt)
          (λ _.
            save-Keeps saves (record t { known = st })
              (with_table t st kt (law.mark ssid t.known j kt.table)))

    known_erase-Keeps :
        (saves : Bool) (ssid : Bytes) (s : Wifi) → Keeps s → Keeps (known_erase saves ssid s)
    unfolding known_erase
    known_erase-Keeps saves ssid s k =
        let t = load s in
        let kt = load-Keeps s k in
        save-Keeps saves (record t { known = erase ssid t.known })
          (with_table t (erase ssid t.known) kt (law.erased ssid t.known kt.table))

    idle : (s : Wifi) → Keeps s → KeepsAt s.known s.blob false s.join_ssid
    idle s k = record { table = k.table; kept = k.kept; target = λ h. absurd (cc h) }

    module _ (fast interval : ℕ) where
      go_on-Keeps :
          (retry want : Bool) (s : Wifi) → Keeps s → Keeps (go_on fast interval retry want s)
      unfolding go_on schedule_retry
      go_on-Keeps retry want s k =
          if_intro Keeps retry _ _ (λ _. k) (λ _. if_intro Keeps want _ _ (λ _. k) (λ _. k))

      settle_join-Keeps :
          (saves auth : Bool) (s : Wifi)
          → J s.join_ssid
          → Keeps s
          → Keeps (settle_join fast interval saves auth s)
      unfolding settle_join
      settle_join-Keeps saves auth s j k =
          if_intro Keeps (auth && s.join_commit) _ _ (λ _. k)
            (λ _.
              if_intro Keeps (not auth && s.join_commit) _ _
                (λ _. known_put-Keeps saves s.join_ssid s.join_pass true s j k) (λ _. k))

      join_dropped-Keeps :
          (saves : Bool) (reason : Reason) (s : Wifi)
          → J s.join_ssid
          → Keeps s
          → Keeps (join_dropped fast interval saves reason s)
      unfolding join_dropped
      join_dropped-Keeps saves reason s j k = go_on-Keeps _ _ _ (
          idle
            (settle_join fast interval saves (is_auth_failure reason)
              (record s { joining = false }))
            (settle_join-Keeps saves (is_auth_failure reason) (record s { joining = false }) j
              (idle s k)))

      link_dropped-Keeps :
          (had_ip : Bool) (from : Bytes) (reason : Reason) (s : Wifi)
          → Keeps s
          → Keeps (link_dropped fast interval had_ip from reason s)
      unfolding link_dropped
      link_dropped-Keeps had_ip from reason s k =
          go_on-Keeps (has_retry fast interval s) s.want_connected _
            (if_intro Keeps had_ip _ _ (λ _. k) (λ _. k))

      on_disconnected-Keeps :
          (saves : Bool) (from : Bytes) (reason : Reason) (s : Wifi)
          → Keeps s
          → Keeps (on_disconnected fast interval saves from reason s)
      unfolding on_disconnected
      on_disconnected-Keeps saves from reason s k =
          if_intro Keeps s.joining _ _
            (λ joining.
              if_intro Keeps (not_of_join fast interval (take 32 from) reason s) _ _ (λ _. k)
                (λ _.
                  join_dropped-Keeps saves reason (record s { have_ip = false }) (k.target joining)
                    k))
            (λ _.
              link_dropped-Keeps s.have_ip (take 32 from) reason (record s { have_ip = false }) k)

      timer-Keeps : (s : Wifi) → Keeps s → Keeps (retry_timer_cb s)
      unfolding retry_timer_cb
      timer-Keeps s k = if_intro Keeps (s.want_connected && not s.have_ip) _ _ (λ _. k) (λ _. k)

    store_joined-Keeps :
        (saves : Bool) (s : Wifi) → J s.join_ssid → Keeps s → Keeps (store_joined saves s)
    unfolding store_joined
    store_joined-Keeps saves s j k =
        if_intro Keeps s.join_commit _ _
          (λ _. known_put-Keeps saves s.join_ssid s.join_pass true s j k)
          (λ _. known_put_last-Keeps saves s.join_ssid s j k)

    join_done-Keeps : (saves : Bool) (s : Wifi) → Keeps s → Keeps (join_done saves s)
    unfolding join_done
    join_done-Keeps saves s k =
        if_intro Keeps s.joining _ _
          (λ joining. idle (store_joined saves s) (store_joined-Keeps saves s (k.target joining) k))
          (λ _. k)

    on_got_ip-Keeps :
        (saves : Bool) (ap : Option Bytes) (s : Wifi) → Keeps s → Keeps (on_got_ip saves ap s)
    unfolding on_got_ip
    on_got_ip-Keeps saves ap s k =
        join_done-Keeps saves (record s { have_ip = true; retries = 0 }) k

    join_section-Keeps :
        (ssid : Bytes) (p : Option Bytes) (s : Wifi)
        → J (strlcpy ssid_len ssid)
        → Keeps s
        → Keeps (join_section ssid p s)
    unfolding join_section
    join_section-Keeps ssid p s j k =
        let t = if is_blank p then load s else s in
        let kt : Keeps t = if_intro Keeps (is_blank p) _ _ (λ _. load-Keeps s k) (λ _. k) in
        record { table = kt.table; kept = kt.kept; target = λ _. j }

    known_init-Keeps : (init : EspErr) (s : Wifi) → Keeps s → Keeps (known_init init s).1
    unfolding known_init
    known_init-Keeps init s k =
        if_intro (λ (r : EspErr × Wifi). Keeps r.1) s.started _ _ (λ _. k) (λ _. k)

    forget_section-Keeps :
        (saves : Bool) (ssid : Bytes) (s : Wifi) → Keeps s → Keeps (forget_section saves ssid s)
    unfolding forget_section
    forget_section-Keeps saves ssid s k =
        if_intro Keeps (knows ssid s) _ _ (λ _. known_erase-Keeps saves ssid s k)
          (λ _. load-Keeps s k)

    forget_rest-Keeps :
        (ssid : Bytes) (had joining used : Bool) (s : Wifi)
        → Keeps s
        → Keeps (forget_rest ssid had joining used s)
    unfolding forget_rest forget_link
    forget_rest-Keeps ssid had joining used s k =
        let t = if s.started && (joining || used) then forget_link s else s in
        let kt : Keeps t =
          if_intro Keeps (s.started && (joining || used)) _ _
            (λ _. record { table = k.table; kept = k.kept; target = λ h. absurd (cc h) })
            (λ _. k) in
        if_intro Keeps had _ _ (λ _. kt) (λ _. kt)

    enable_section-Keeps : (b : Bool) (s : Wifi) → Keeps s → Keeps (enable_section b s)
    unfolding enable_section
    enable_section-Keeps true s k = load-Keeps (record s { want_connected = true; retries = 0 }) k
    enable_section-Keeps false s k =
        load-Keeps _ (record { table = k.table; kept = k.kept; target = λ h. absurd (cc h) })

    enable_rest-Keeps :
        (b : Bool) (cfg : Option Bytes) (s : Wifi) → Keeps s → Keeps (enable_rest b cfg esp_ok [] s)
    unfolding enable_rest
    enable_rest-Keeps true cfg s k = if_intro Keeps (is_empty (text_of cfg)) _ _ (λ _. k) (λ _. k)
    enable_rest-Keeps false cfg s k = k

    save_network-Keeps :
        (saves : Bool) (ssid : Bytes) (p : Option Bytes) (s : Wifi)
        → (save_bad ssid p ≡ false → J ssid)
        → Keeps s
        → Keeps (save_network saves ssid p s).1
    unfolding save_network
    save_network-Keeps saves ssid p s j k =
        if_intro (λ (r : EspErr × Wifi). Keeps r.1) (save_bad ssid p) _ _ (λ _. k)
          (λ good. known_put-Keeps saves ssid (text_of p) false s (j good) k)

    module _ (fast interval : ℕ) where
      pub move-Keeps :
          (saves : Bool) (m : Move) (s : Wifi)
          → Allowed m
          → Keeps s
          → Keeps (move fast interval saves m s)
      unfolding move
      move-Keeps saves (gets_ip ap) s a k = on_got_ip-Keeps saves ap s k
      move-Keeps saves (drops from reason) s a k =
          on_disconnected-Keeps fast interval saves from reason s k
      move-Keeps saves timer_fires s a k = timer-Keeps fast interval s k
      move-Keeps saves lists s a k = load-Keeps s k
      move-Keeps saves resets s a k = record {
        table = law.empty;
        kept = k.kept;
        target = λ h. absurd (cc h);
      }
      move-Keeps saves (inits init) s a k = known_init-Keeps init s k
      move-Keeps saves (joins ssid p) s a k =
          if_intro Keeps (join_bad ssid p) _ _ (λ _. k)
            (λ good. join_section-Keeps ssid p s (a good) k)
      move-Keeps saves (joins_link ssid pass) s a k = unfold join_link in k
      move-Keeps saves (joins_refused ssid pass) s a k = unfold join_refused in idle s k
      move-Keeps saves (forgets ssid) s a k = forget_section-Keeps saves ssid s k
      move-Keeps saves (forgets_rest ssid had joining used) s a k =
          forget_rest-Keeps ssid had joining used s k
      move-Keeps saves (saves_network ssid p) s a k = save_network-Keeps saves ssid p s a k
      move-Keeps saves (enables b) s a k = enable_section-Keeps b s k
      move-Keeps saves (enables_rest b cfg) s a k = enable_rest-Keeps b cfg s k
      move-Keeps saves (hooks b) s a k = k

      pub run-Keeps :
          (ms : List (Bool × Move)) (s : Wifi)
          → AllAllowed ms
          → Keeps s
          → Keeps (run fast interval ms s)
      run-Keeps [] s a k = k
      run-Keeps ((saves, m) ∷ ms) s a k =
          run-Keeps ms (move fast interval saves m s) a.1 (move-Keeps saves m s a.0 k)
