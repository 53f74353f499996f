-- ===== src/Wifi/Moves/Forgotten.antt =====
-- cmd_wifi/wifi_known.c: a network that was forgotten stays forgotten.
use mathlib.Core.Path.{subst}
use esp_console_kit.Prelude.{
  ◌==◌, ℕ, ◌<◌, ◌≡◌, refl, sym, ap, ◌∙◌, Bool, true, false, ◌&&◌, ◌||◌, if_intro, Option, none,
  some, List, [], ◌∷◌, Bytes, bytes_eq, length, leb, if◌then◌else◌, arith,
}
use esp_console_kit.Wifi.Store.{
  ssid_len, known_max, Entry, Store, find, is_some, set_passphrase, new_entry, with_room, put_entry,
  put, erase,
}
use esp_console_kit.Wifi.Store.Laws.{strlcpy_all, find-append, find-update, find-with_room}
use esp_console_kit.Wifi.Store.Fits.{length-strlcpy, Sound, find-remove_away, find-remove_self}
use esp_console_kit.Wifi.State.{Wifi, accepted, load, save, knows, known_erase}
use esp_console_kit.Wifi.Calls.{
  join_bad, save_bad, forget_section, is_joining, forget_link, forget_rest, forget,
}
use esp_console_kit.Wifi.Moves.{Move, gets_ip, joins, saves_network, run}
use esp_console_kit.Wifi.Moves.Keeps.{Stays, Keeps, Allowed, AllAllowed, load-Keeps, run-Keeps}
use esp_console_kit.Wifi.Moves.Sound.{IsName, Sound-Stays}

module _ (ssid : Bytes) where
  -- The table does not name the network.
  abbrev pub Gone : Store → Type 0
  Gone st = (is_some (find ssid st.entries) ≡ false) × (bytes_eq st.last ssid ≡ false)

  abbrev Another : Bytes → Type 0
  Another n = (length n < ssid_len) × (bytes_eq n ssid ≡ false)

  -- A move that does not name the network to store or to join.
  abbrev pub Spares : Move → Type 0
  Spares (joins n p) = bytes_eq n ssid ≡ false
  Spares (saves_network n p) = bytes_eq n ssid ≡ false
  Spares _ = Unit {0}

  abbrev pub AllSpare : List (Bool × Move) → Type 0
  AllSpare [] = Unit {0}
  AllSpare ((saves, m) ∷ ms) = Spares m × AllSpare ms

  module _ (named : bytes_eq [] ssid ≡ false) where
    find_other : (e : Entry) → bytes_eq e.ssid ssid ≡ false → find ssid (e ∷ []) ≡ none
    unfolding find
    find_other e h = ground (arith, h)

    none_in :
        (o q : Option Bytes)
        → is_some o ≡ false
        → q ≡ none
        → is_some (if is_some o then o else q) ≡ false
    none_in o q h e = rw h (ap is_some e)

    put_entry-Gone :
        (n p : Bytes) (es : List Entry)
        → Another n
        → is_some (find ssid es) ≡ false
        → is_some (find ssid (put_entry n (some p) es)) ≡ false
    unfolding put_entry
    put_entry-Gone n p es a h =
        if_intro (λ (l : List Entry). is_some (find ssid l) ≡ false) (is_some (find n es)) _ _
          (λ _. ap is_some (find-update ssid n p es a.1) ∙ h)
          (λ _.
            let e = set_passphrase (some p) (new_entry n) in
            let other =
              find_other e (ap (λ t. bytes_eq t ssid) (strlcpy_all ssid_len n a.0) ∙ a.1) in
            ap is_some (find-append ssid (with_room es) (e ∷ []))
            ∙ none_in (find ssid (with_room es)) (find ssid (e ∷ [])) (find-with_room ssid es h)
                other)

    Gone-Stays : Stays Gone Another
    unfolding find put erase
    Gone-Stays = record {
      empty = (refl, named);
      put_in = λ n p as_last st a g. (
        put_entry-Gone n p st.entries a g.0,
        if_intro (λ (l : Bytes). bytes_eq l ssid ≡ false) as_last _ _
            (λ _. ap (λ t. bytes_eq t ssid) (strlcpy_all ssid_len n a.0) ∙ a.1) (λ _. g.1),
      );
      mark = λ n st a g. (g.0, ap (λ t. bytes_eq t ssid) (strlcpy_all ssid_len n a.0) ∙ a.1);
      erased = λ n st g. (
        find-remove_away n ssid st.entries g.0,
        if_intro (λ (l : Bytes). bytes_eq l ssid ≡ false) (bytes_eq st.last n) _ _ (λ _. named)
            (λ _. g.1),
      );
    }

    join_short : (n : Bytes) (p : Option Bytes) → join_bad n p ≡ false → length n < ssid_len
    unfolding join_bad
    join_short n p h = ground (arith, h)

    save_short : (n : Bytes) (p : Option Bytes) → save_bad n p ≡ false → length n < ssid_len
    unfolding save_bad
    save_short n p h = ground (arith, h)

    Spares-Allowed : (m : Move) → Spares m → Allowed Gone Another m
    Spares-Allowed (gets_ip ap) h = tt
    Spares-Allowed (joins n p) h = λ good.
        let short = join_short n p good in
        let same = strlcpy_all ssid_len n short in
        (length-strlcpy ssid_len n (omega arith), ap (λ t. bytes_eq t ssid) same ∙ h)
    Spares-Allowed (saves_network n p) h = λ good. (save_short n p good, h)
    Spares-Allowed _ h = tt

    all_Allowed : (ms : List (Bool × Move)) → AllSpare ms → AllAllowed Gone Another ms
    all_Allowed [] h = tt
    all_Allowed ((saves, m) ∷ ms) h = (Spares-Allowed m h.0, all_Allowed ms h.1)

    erase-Gone : (st : Store) → Sound st → Gone (erase ssid st)
    unfolding erase
    erase-Gone st v = (
      find-remove_self ssid st.entries v.apart,
      if_intro (λ (l : Bytes). bytes_eq l ssid ≡ false) (bytes_eq st.last ssid) _ _ (λ _. named)
          (λ h. h),
    )

    rest-Gone :
        (had joining used : Bool) (s : Wifi)
        → Gone s.known
        → Gone (accepted s.blob)
        → s.started ≡ true
        → (joining ≡ false → s.joining ≡ true → Another s.join_ssid)
        → Keeps Gone Another (forget_rest ssid had joining used s)
    unfolding forget_rest forget_link
    rest-Gone had joining used s g a up free =
        let t = if s.started && (joining || used) then forget_link s else s in
        let kt : Keeps Gone Another t =
          if_intro (Keeps Gone Another) (s.started && (joining || used)) _ _
            (λ _. record { table = g; kept = a; target = λ h. absurd (cc h) })
            (λ h. record { table = g; kept = a; target = free (ground (arith, h, up)) }) in
        if_intro (Keeps Gone Another) had _ _ (λ _. kt) (λ _. kt)

    saved-Gone :
        (st : Store)
        → Gone st
        → Gone (accepted (some (record { whole = true; version = 1; store = st })))
    unfolding accepted
    saved-Gone st g =
        if_intro Gone (true && 1 == 1 && leb (length st.entries) known_max) _ _ (λ _. g)
          (λ _. (unfold find in refl, named))

    erased-Gone :
        (used : Bool) (s : Wifi)
        → s.started ≡ true
        → Keeps Sound IsName s
        → Keeps Gone Another
            (forget_rest ssid (knows ssid s) (is_joining ssid s) used (known_erase true ssid s))
    unfolding known_erase save load
    erased-Gone used s up k =
        let gone = erase-Gone (load s).known (load-Keeps Sound IsName Sound-Stays s k).table in
        rest-Gone (knows ssid s) (is_joining ssid s) used (known_erase true ssid s) gone
          (saved-Gone (erase ssid (load s).known) gone) up
          (λ apart joining. ((k.target joining).1, ground (arith, apart, joining)))

    forget-Gone :
        (used : Bool) (s : Wifi)
        → s.started ≡ true
        → Keeps Sound IsName s
        → knows ssid s ≡ true
        → Keeps Gone Another (forget true used ssid s)
    unfolding forget forget_section
    forget-Gone used s up k stored =
        subst
          (λ (b : Bool). Keeps Gone Another (
            forget_rest ssid (knows ssid s) (is_joining ssid s) used
              (if b then known_erase true ssid s else load s)))
          (sym stored) (erased-Gone used s up k)

-- In a sound state of a started board, a network that is stored is forgotten undisturbed, and NVS
-- takes the save. Whatever the driver, the timer and the callers do next, resets included, as
-- long as no join and no save names it, neither the table, nor the network to rejoin, nor what a
-- load takes over from NVS names it.
pub run-forget :
    (fast interval : ℕ) (ms : List (Bool × Move)) (ssid : Bytes) (used : Bool) (s : Wifi)
    → bytes_eq [] ssid ≡ false
    → s.started ≡ true
    → Keeps Sound IsName s
    → knows ssid s ≡ true
    → AllSpare ssid ms
    → let t = run fast interval ms (forget true used ssid s) in
      Gone ssid t.known × Gone ssid (accepted t.blob)
run-forget fast interval ms ssid used s named up k stored spare =
    let kept =
      run-Keeps (Gone ssid) (Another ssid) (Gone-Stays ssid named) fast interval ms
        (forget true used ssid s) (all_Allowed ssid named ms spare)
        (forget-Gone ssid named used s up k stored) in
    (kept.table, kept.kept)
