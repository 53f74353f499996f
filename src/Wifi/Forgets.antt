-- ===== src/Wifi/Forgets.antt =====
-- cmd_wifi/wifi_known.c: where forgetting a network does not last.
use mathlib.Core.Path.{subst}
use esp_console_kit.Prelude.{
  ◌<◌, ◌≡◌, refl, sym, ap, ◌∙◌, Bool, true, false, ◌&&◌, ◌||◌, if_intro, Option, some, List, ◌∷◌,
  Bytes, bytes_eq, length, ltb, if◌then◌else◌, arith,
}
use esp_console_kit.Wifi.Store.{ssid_len, known_max, Entry, Store, find, is_some, put, put_entry}
use esp_console_kit.Wifi.Store.Laws.{bytes_eq_comm, find-put}
use esp_console_kit.Wifi.Store.Fits.{Sound, distinct}
use esp_console_kit.Wifi.State.{Wifi, load, knows, known_erase, known_put, save}
use esp_console_kit.Wifi.Events.{on_got_ip}
use esp_console_kit.Wifi.Calls.{
  forget_section, forget_link, forget_rest, is_joining, forget, save_bad, save_network,
}
use esp_console_kit.Wifi.Moves.Keeps.{Keeps, load-Keeps}
use esp_console_kit.Wifi.Moves.Sound.{IsName, Sound-Stays}
use esp_console_kit.Wifi.Joins.{on_got_ip-last}
use esp_console_kit.Wifi.Names.{saved_table, save_fits}

forget_rest-known :
    (ssid : Bytes) (had joining used : Bool) (s : Wifi)
    → (forget_rest ssid had joining used s).known ≡ s.known
unfolding forget_rest forget_link
forget_rest-known ssid had joining used s =
    let P : Wifi → Type 0 = λ t. t.known ≡ s.known in
    let inner : P (if s.started && (joining || used) then forget_link s else s) =
      if_intro P (s.started && (joining || used)) _ _ (λ _. refl) (λ _. refl) in
    if_intro P had _ _ (λ _. inner) (λ _. inner)

forget_section-join :
    (saves : Bool) (ssid : Bytes) (s : Wifi)
    → let t = forget_section saves ssid s in (t.joining ≡ s.joining) × (t.join_ssid ≡ s.join_ssid)
unfolding forget_section known_erase load save
forget_section-join saves ssid s =
    if_intro (λ (t : Wifi). (t.joining ≡ s.joining) × (t.join_ssid ≡ s.join_ssid)) (knows ssid s) _
      _ (λ _. (refl, refl)) (λ _. (refl, refl))

-- Where the network being joined is forgotten in a sound state and its address arrives between
-- the two sections of wifi_known_forget, that network is again the one to rejoin when the call is
-- over.
pub forget-on_got_ip :
    (saves saves_too used : Bool) (ssid : Bytes) (ap_name : Option Bytes) (s : Wifi)
    → Keeps Sound IsName s
    → s.joining ≡ true
    → s.join_ssid ≡ ssid
    → let a = forget_section saves ssid s in
      let b = on_got_ip saves_too ap_name a in
      (forget_rest ssid (knows ssid s) (is_joining ssid s) used b).known.last ≡ ssid
forget-on_got_ip saves saves_too used ssid ap_name s keeps joining target =
    let a = forget_section saves ssid s in
    let b = on_got_ip saves_too ap_name a in
    let (still, same) = forget_section-join saves ssid s in
    let short : length a.join_ssid < ssid_len =
      subst (λ (n : Bytes). length n < ssid_len) (sym same) (keeps.target joining).1 in
    ap (λ (st : Store). st.last) (forget_rest-known ssid (knows ssid s) (is_joining ssid s) used b)
    ∙ on_got_ip-last saves_too ap_name a (still ∙ joining) short
    ∙ same
    ∙ target

forget_unknown :
    (saves used : Bool) (ssid : Bytes) (s : Wifi)
    → knows ssid s ≡ false
    → (forget saves used ssid s).known ≡ (load s).known
unfolding forget forget_section
forget_unknown saves used ssid s away =
    forget_rest-known ssid (knows ssid s) (is_joining ssid s) used (forget_section saves ssid s)
    ∙ if_intro (λ (t : Wifi). t.known ≡ (load s).known) (knows ssid s) _ _
        (λ h. absurd (cc (h, away))) (λ _. refl)

saved_last :
    (saves : Bool) (ssid p : Bytes) (s : Wifi)
    → save_bad ssid (some p) ≡ false
    → (save_network saves ssid (some p) s).1.known.last ≡ (load s).known.last
unfolding save_network known_put put load save
saved_last saves ssid p s good = rw good refl

first_apart :
    (e : Entry) (es : List Entry) (n : Bytes)
    → is_some (find n (e ∷ es)) ≡ false
    → bytes_eq n e.ssid ≡ false
unfolding find
first_apart e es n h = ground (arith, h, bytes_eq_comm n e.ssid)

neither : (a b : Bool) (l m : List Entry) → a ≡ false → b ≡ false → (if a || b then l else m) ≡ m
neither false false l m h k = refl
neither true b l m h k = absurd (cc h)
neither false true l m h k = absurd (cc k)

-- In a sound state with a full table whose oldest entry is the network to rejoin, saving a
-- network that is not stored takes that entry out, and forgetting it then leaves it the network
-- to rejoin.
pub forget-save_network :
    (saves saves_too used : Bool) (e : Entry) (es : List Entry) (new p : Bytes) (s : Wifi)
    → Keeps Sound IsName s
    → (load s).known.entries ≡ e ∷ es
    → (load s).known.last ≡ e.ssid
    → length (e ∷ es) ≡ known_max
    → save_bad new (some p) ≡ false
    → is_some (find new (e ∷ es)) ≡ false
    → let t = (save_network saves new (some p) s).1 in
      (knows e.ssid t ≡ false) × ((forget saves_too used e.ssid t).known.last ≡ e.ssid)
forget-save_network saves saves_too used e es new p s keeps table last full good unknown =
    let t = (save_network saves new (some p) s).1 in
    let sound = (load-Keeps Sound IsName Sound-Stays s keeps).table in
    let (entries, same) = saved_table saves new p s good in
    let (short, _) = save_fits new p good in
    let none_left : is_some (find e.ssid es) ≡ false =
      let d : distinct (e ∷ es) ≡ true = ap distinct (sym table) ∙ sound.apart in
      ground (arith, d) in
    let evicted =
      find-put e.ssid new p (e ∷ es) short (omega (arith, full)) (first_apart e es new unknown) in
    let dropped : (if is_some (find new (e ∷ es)) || ltb (length (e ∷ es)) known_max
          then e ∷ es
          else es)
        ≡ es =
      neither (is_some (find new (e ∷ es))) (ltb (length (e ∷ es)) known_max) (e ∷ es) es unknown
        (ground (arith, full)) in
    let away : knows e.ssid t ≡ false =
      ap (λ (st : Store). is_some (find e.ssid st.entries)) same
      ∙ ap (λ l. is_some (find e.ssid l)) entries
      ∙ ap (λ l. is_some (find e.ssid (put_entry new (some p) l))) table
      ∙ ap is_some evicted
      ∙ ap (λ l. is_some (find e.ssid l)) dropped
      ∙ none_left in
    (
      away,
      ap (λ (st : Store). st.last) (forget_unknown saves_too used e.ssid t away)
          ∙ ap (λ (st : Store). st.last) same
          ∙ saved_last saves new p s good
          ∙ last,
    )
