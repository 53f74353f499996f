-- ===== src/Wifi/Names.antt =====
-- cmd_wifi/wifi_known.c: networks by their names: what is saved is what a join recalls, and a name of
-- 32 bytes does not fit the driver's field.
use mathlib.Core.Path.{subst}
use esp_console_kit.Prelude.{
  ℕ, ◌<◌, ◌≡◌, ◌≢◌, refl, sym, ap, ◌∙◌, Bool, true, false, ◌||◌, Bool-cases, inl, inr, if_intro,
  Option, none, some, List, [], ◌∷◌, ◌++◌, Bytes, bytes_eq, bytes_eq_iff, bytes_eq_refl, length,
  length-take, take, take_all, drop, ltb, strlcpy, if◌then◌else◌, arith,
}
use esp_console_kit.Prelude.Errors.{EspErr, esp_ok}
use esp_console_kit.Wifi.Store.{ssid_len, pass_len, known_max, Store, find, put, put_entry, is_some}
use esp_console_kit.Wifi.Store.Laws.{strlcpy_all, find-put, find-put_self}
use esp_console_kit.Wifi.Store.Fits.{Sound}
use esp_console_kit.Wifi.State.{
  pending, Reason, Deed, connects, disconnects, configures, tells, joining_evt, zero_code, Wifi,
  known_put, load, save,
}
use esp_console_kit.Wifi.Events.{not_of_join, on_disconnected, is_empty}
use esp_console_kit.Wifi.Calls.{
  sta_ssid_size, recall, join_section, join_link, join_bad, join, join_inited, join_answered,
  known_init, save_bad, save_network,
}
use esp_console_kit.Wifi.Moves.Keeps.{Keeps, load-Keeps}
use esp_console_kit.Wifi.Moves.Sound.{IsName, Sound-Stays}

-- The table behind a save.
pub saved_table :
    (saves : Bool) (ssid p : Bytes) (s : Wifi)
    → save_bad ssid (some p) ≡ false
    → let t = (save_network saves ssid (some p) s).1 in
      (t.known.entries ≡ put_entry ssid (some p) (load s).known.entries)
      × ((load t).known ≡ t.known)
unfolding save_network known_put put load save
saved_table saves ssid p s good = rw good (refl, refl)

pub save_fits :
    (ssid p : Bytes)
    → save_bad ssid (some p) ≡ false
    → (length ssid < ssid_len) × (length p < pass_len)
unfolding save_bad
save_fits ssid p h = (ground (arith, h), ground (arith, h))

recall_found :
    (ssid q : Bytes) (s : Wifi)
    → find ssid (load s).known.entries ≡ some q
    → recall ssid none s ≡ (strlcpy pass_len q, true)
unfolding recall
recall_found ssid q s h = rw h refl

-- In a sound state, a network that wifi_known_save takes is recalled with its passphrase by a
-- join without one; of any other network it recalls what it did before, unless the table was full
-- and the oldest entry made room.
pub save-recall :
    (saves : Bool) (ssid p k : Bytes) (s : Wifi)
    → Keeps Sound IsName s
    → save_bad ssid (some p) ≡ false
    → bytes_eq ssid k ≡ false
    → let t = (save_network saves ssid (some p) s).1 in
      let es = (load s).known.entries in
      (recall ssid none t ≡ (p, true))
      × (find k t.known.entries
          ≡ find k (if is_some (find ssid es) || ltb (length es) known_max then es else drop 1 es))
save-recall saves ssid p k s keeps good apart =
    let es = (load s).known.entries in
    let t = (save_network saves ssid (some p) s).1 in
    let (table, same) = saved_table saves ssid p s good in
    let (short, p_short) = save_fits ssid p good in
    let sound = (load-Keeps Sound IsName Sound-Stays s keeps).table in
    let there : find ssid (load t).known.entries ≡ some p =
      ap (λ (st : Store). find ssid st.entries) same
      ∙ ap (find ssid) table
      ∙ find-put_self ssid p es short p_short in
    (
      recall_found ssid p t there ∙ ap (λ q. (q, true)) (strlcpy_all pass_len p p_short),
      ap (find k) table ∙ find-put k ssid p es short sound.few apart,
    )

-- The name that the driver was last configured for.
abbrev pub name_in : Deed → Option Bytes
name_in (configures ssid pass) = some ssid
name_in _ = none

abbrev or_else : Option Bytes → Option Bytes → Option Bytes
or_else none o = o
or_else (some n) o = some n

unfoldable pub configured : List Deed → Option Bytes
configured [] = none
configured (d ∷ ds) = or_else (configured ds) (name_in d)

configured-append :
    (ds : List Deed) (d : Deed) → configured (ds ++ d ∷ []) ≡ or_else (name_in d) (configured ds)
unfolding configured
configured-append [] d = go (name_in d)
  where
    go : (o : Option Bytes) → o ≡ or_else o none
    go none = refl
    go (some n) = refl
configured-append (x ∷ ds) d =
    ap (λ o. or_else o (name_in x)) (configured-append ds d) ∙ go (name_in d)
  where
    go :
        (o : Option Bytes)
        → or_else (or_else o (configured ds)) (name_in x)
          ≡ or_else o (or_else (configured ds) (name_in x))
    go none = refl
    go (some n) = refl

configured-join_link :
    (ssid pass : Bytes) (s : Wifi)
    → configured (join_link ssid pass s).deeds ≡ some (strlcpy sta_ssid_size ssid)
unfolding join_link
configured-join_link ssid pass s =
    let ds = s.deeds ++ disconnects ∷ [] in
    let cs = ds ++ configures (strlcpy sta_ssid_size ssid) pass ∷ [] in
    let told = tells joining_evt (some ssid) zero_code false in
    let given = configured-append ds (configures (strlcpy sta_ssid_size ssid) pass) in
    configured-append (if s.hooked then cs ++ told ∷ [] else cs) connects
    ∙ if_intro (λ (l : List Deed). configured l ≡ some (strlcpy sta_ssid_size ssid)) s.hooked _ _
        (λ _. configured-append cs told ∙ given) (λ _. given)

longest_apart :
    (ssid : Bytes) → length ssid ≡ 32 → bytes_eq (strlcpy sta_ssid_size ssid) ssid ≡ false
longest_apart ssid h = elim (Bool-cases (bytes_eq (strlcpy sta_ssid_size ssid) ssid)) [
  | inr e ↦ e
  | inl e ↦
      let same = ap length ((bytes_eq_iff (strlcpy sta_ssid_size ssid) ssid).0 e) in
      absurd (omega (arith, same, length-take 31 ssid, h))
]

-- A disconnect that names another network than the join's.
ignored_lem :
    (fast interval : ℕ) (saves : Bool) (from : Bytes) (reason : Reason) (s : Wifi)
    → s.joining ≡ true
    → not_of_join fast interval (take 32 from) reason s ≡ true
    → on_disconnected fast interval saves from reason s ≡ record s { have_ip = false }
unfolding on_disconnected
ignored_lem fast interval saves from reason s j o = rw j (rw o refl)

join_is :
    (ssid : Bytes) (p : Option Bytes) (init : EspErr) (s : Wifi)
    → join_bad ssid p ≡ false
    → s.started ≡ true
    → (join ssid p init esp_ok s).1
      ≡ join_link ssid (join_section ssid p s).join_pass (join_section ssid p s)
unfolding join known_init join_inited join_answered
join_is ssid p init s good up = rw (good) (rw (up) refl)

link_target :
    (ssid pass : Bytes) (p : Option Bytes) (s : Wifi)
    → let t = join_link ssid pass (join_section ssid p s) in
      (t.joining ≡ true) × (t.join_ssid ≡ strlcpy ssid_len ssid) × (t.join_result ≡ pending)
unfolding join_section join_link
link_target ssid pass p s = (refl, refl, refl)

some_left : (s : Bytes) → 0 < length s → is_empty s ≡ false
some_left [] h = absurd (omega arith)
some_left (c ∷ cs) h = refl

-- A join of a network with a name of 32 bytes, which wifi_known_join lets through, configures the
-- driver for its first 31 bytes only, and a disconnect that names what was configured is ignored:
-- the join stays pending.
pub longest_name_lem :
    (fast interval : ℕ) (saves : Bool) (ssid : Bytes) (p : Option Bytes) (init : EspErr)
    (reason : Reason) (s : Wifi)
    → length ssid ≡ 32
    → join_bad ssid p ≡ false
    → s.started ≡ true
    → let t = (join ssid p init esp_ok s).1 in
      let u = on_disconnected fast interval saves (strlcpy sta_ssid_size ssid) reason t in
      (configured t.deeds ≡ some (strlcpy sta_ssid_size ssid))
      × (strlcpy sta_ssid_size ssid ≢ ssid)
      × (u.joining ≡ true)
      × (u.join_result ≡ pending)
longest_name_lem fast interval saves ssid p init reason s long good up =
    let sec = join_section ssid p s in
    let given = join_link ssid sec.join_pass sec in
    let is = join_is ssid p init s good up in
    let name = strlcpy sta_ssid_size ssid in
    let (joining, target, waits) = link_target ssid sec.join_pass p s in
    let short : length name ≡ 31 = omega (arith, length-take 31 ssid, long) in
    let away : not_of_join fast interval (take 32 name) reason given ≡ true =
      let whole : take 32 name ≡ name = take_all 32 name (omega (arith, short)) in
      let filled : is_empty (take 32 name) ≡ false =
        ap is_empty whole ∙ some_left name (omega (arith, short)) in
      let other : bytes_eq (take 32 name) given.join_ssid ≡ false =
        ap (λ q. bytes_eq q given.join_ssid) whole
        ∙ ap (bytes_eq name) (target ∙ strlcpy_all ssid_len ssid (omega (arith, long)))
        ∙ longest_apart ssid long in
      ground (arith, filled, other) in
    let ignored = ignored_lem fast interval saves name reason given joining away in
    let kept : let u = on_disconnected fast interval saves name reason given in
        (u.joining ≡ true) × (u.join_result ≡ pending) =
      subst (λ (u : Wifi). (u.joining ≡ true) × (u.join_result ≡ pending)) (sym ignored)
        (joining, waits) in
    let kept_there =
      subst
        (λ (t : Wifi).
          let u = on_disconnected fast interval saves name reason t in
          (u.joining ≡ true) × (u.join_result ≡ pending))
        (sym is) kept in
    (
      ap (λ (t : Wifi). configured t.deeds) is ∙ configured-join_link ssid sec.join_pass sec,
      λ e.
          let apart = longest_apart ssid long in
          absurd (cc (sym (ap (λ q. bytes_eq q ssid) e ∙ bytes_eq_refl ssid), apart)),
      kept_there.0,
      kept_there.1,
    )
