-- ===== src/Wifi/Store/Fits.antt =====
-- cmd_wifi/wifi_known.c: what holds of the table of known networks, and that its operations keep it.
use esp_console_kit.Prelude.{
  ℕ, zero, suc, ◌-◌, ◌≤◌, ◌<◌, ◌≡◌, refl, sym, ap, ◌∙◌, Bool, true, false, not, ◌&&◌, Bool-cases,
  inl, inr, if_intro, Option, none, some, List, [], ◌∷◌, ◌++◌, Bytes, bytes_eq, bytes_eq_iff,
  length, length-append, length-take, take, drop, ltb, leb, strlcpy, arith,
}
use esp_console_kit.Wifi.Store.{
  ssid_len, pass_len, known_max, Entry, Store, no_store, find, is_some, set_passphrase, new_entry,
  update, with_room, put_entry, remove, put, erase,
}
use esp_console_kit.Wifi.Store.Laws.{
  bytes_eq_comm, strlcpy_all, find-append, find-take, find-with_room,
}

-- A name of 1 to 32 bytes, a passphrase of at most 63.
abbrev pub entry_fits : Entry → Bool
entry_fits e =
    ltb 0 (length e.ssid) && ltb (length e.ssid) ssid_len && ltb (length e.passphrase) pass_len

abbrev pub all_fit : List Entry → Bool
all_fit [] = true
all_fit (e ∷ es) = entry_fits e && all_fit es

-- No two entries have one name.
abbrev pub distinct : List Entry → Bool
distinct [] = true
distinct (e ∷ es) = not (is_some (find e.ssid es)) && distinct es

pub record Sound (st : Store) : Type 0 where
  pub few : length st.entries ≤ known_max
  pub fit : all_fit st.entries ≡ true
  pub apart : distinct st.entries ≡ true
  pub last : length st.last < ssid_len

pub no_store-Sound : Sound no_store
no_store-Sound = record { few = omega arith; fit = refl; apart = refl; last = omega arith }

pub length-strlcpy : (size : ℕ) (s : Bytes) → 0 < size → length (strlcpy size s) < size
length-strlcpy size s h = omega (arith, length-take (size - 1) s, h)

all_fit-take : (n : ℕ) (es : List Entry) → all_fit es ≡ true → all_fit (take n es) ≡ true
all_fit-take zero es h = refl
all_fit-take (suc n) [] h = refl
all_fit-take (suc n) (e ∷ es) h = ground (arith, h, all_fit-take n es)

all_fit-append :
    (es fs : List Entry) → all_fit es ≡ true → all_fit fs ≡ true → all_fit (es ++ fs) ≡ true
all_fit-append [] fs h k = k
all_fit-append (e ∷ es) fs h k = ground (arith, h, k, all_fit-append es fs)

distinct-take : (n : ℕ) (es : List Entry) → distinct es ≡ true → distinct (take n es) ≡ true
distinct-take zero es h = refl
distinct-take (suc n) [] h = refl
distinct-take (suc n) (e ∷ es) h = ground (arith, h, find-take e.ssid n es, distinct-take n es)

distinct_tail : (es : List Entry) → distinct es ≡ true → distinct (drop 1 es) ≡ true
distinct_tail [] h = refl
distinct_tail (e ∷ es) h = ground (arith, h)

all_fit_tail : (es : List Entry) → all_fit es ≡ true → all_fit (drop 1 es) ≡ true
all_fit_tail [] h = refl
all_fit_tail (e ∷ es) h = ground (arith, h)

-- Another name in front is not found either.
distinct-append :
    (es : List Entry) (e : Entry)
    → distinct es ≡ true
    → is_some (find e.ssid es) ≡ false
    → distinct (es ++ e ∷ []) ≡ true
unfolding find
distinct-append [] e h k = refl
distinct-append (x ∷ es) e h k =
    ground (
      arith,
      h,
      k,
      bytes_eq_comm e.ssid x.ssid,
      find-append x.ssid es (e ∷ []),
      distinct-append es e,
    )

length-with_room : (es : List Entry) → length (with_room es) ≤ 15
unfolding with_room
length-with_room es =
    if_intro (λ (l : List Entry). length l ≤ 15) (leb known_max (length es)) _ _
      (λ _. omega (arith, length-take 15 (drop 1 es))) (λ h. ground (arith, h))

module _ (ssid : Bytes) (p : Option Bytes) where
  find-update_name :
      (k : Bytes) (es : List Entry) → is_some (find k (update ssid p es)) ≡ is_some (find k es)
  unfolding find update
  find-update_name k [] = refl
  find-update_name k (e ∷ es) = ground (arith, find-update_name k es)

  distinct-update : (es : List Entry) → distinct es ≡ true → distinct (update ssid p es) ≡ true
  unfolding update
  distinct-update [] h = refl
  distinct-update (e ∷ es) h = ground (arith, h, find-update_name e.ssid es, distinct-update es)

  length-update : (es : List Entry) → length (update ssid p es) ≡ length es
  unfolding update
  length-update [] = refl
  length-update (e ∷ es) = ground (arith, length-update es)

  set_passphrase-fits : (e : Entry) → entry_fits e ≡ true → entry_fits (set_passphrase p e) ≡ true
  set_passphrase-fits e h = by_pass p
    where
      by_pass : (q : Option Bytes) → entry_fits (set_passphrase q e) ≡ true
      by_pass none = h
      by_pass (some q) = ground (arith, h, length-strlcpy pass_len q (omega arith))

  all_fit-update : (es : List Entry) → all_fit es ≡ true → all_fit (update ssid p es) ≡ true
  unfolding update
  all_fit-update [] h = refl
  all_fit-update (e ∷ es) h = ground (arith, h, set_passphrase-fits e, all_fit-update es)

  new_entry-fits : 0 < length ssid → entry_fits (set_passphrase p (new_entry ssid)) ≡ true
  new_entry-fits h = set_passphrase-fits (new_entry ssid) (
      let short = length-strlcpy ssid_len ssid (omega arith) in
      let some_left = length-take 32 ssid in ground (arith, h, short, some_left))

  -- put_entry of a name of 1 to 32 bytes.
  put_entry-few :
      (es : List Entry) → length es ≤ known_max → length (put_entry ssid p es) ≤ known_max
  unfolding put_entry
  put_entry-few es few =
      if_intro (λ (l : List Entry). length l ≤ known_max) (is_some (find ssid es)) _ _
        (λ _. omega (arith, few, length-update es))
        (λ _.
          let e = set_passphrase p (new_entry ssid) in
          let whole = length-append (with_room es) (e ∷ []) in
          omega (arith, whole, length-with_room es))

  put_entry-fits :
      (es : List Entry) → 0 < length ssid → all_fit es ≡ true → all_fit (put_entry ssid p es) ≡ true
  unfolding put_entry with_room
  put_entry-fits es h k =
      if_intro (λ (l : List Entry). all_fit l ≡ true) (is_some (find ssid es)) _ _
        (λ _. all_fit-update es k)
        (λ _.
          all_fit-append (with_room es) (set_passphrase p (new_entry ssid) ∷ [])
            (if_intro (λ (l : List Entry). all_fit l ≡ true) (leb known_max (length es)) _ _
              (λ _. all_fit-take 15 (drop 1 es) (all_fit_tail es k)) (λ _. k))
            (let new = new_entry-fits h in ground (arith, new)))

  put_entry-distinct :
      (es : List Entry)
      → length ssid < ssid_len
      → distinct es ≡ true
      → distinct (put_entry ssid p es) ≡ true
  unfolding put_entry with_room
  put_entry-distinct es h k =
      if_intro (λ (l : List Entry). distinct l ≡ true) (is_some (find ssid es)) _ _
        (λ _. distinct-update es k)
        (λ away.
          distinct-append (with_room es) (set_passphrase p (new_entry ssid))
            (if_intro (λ (l : List Entry). distinct l ≡ true) (leb known_max (length es)) _ _
              (λ _. distinct-take 15 (drop 1 es) (distinct_tail es k)) (λ _. k))
            (ap (λ t. is_some (find t (with_room es))) (strlcpy_all ssid_len ssid h)
              ∙ find-with_room ssid es away))

  pub put-Sound :
      (as_last : Bool) (st : Store)
      → 0 < length ssid
      → length ssid < ssid_len
      → Sound st
      → Sound (put ssid p as_last st)
  unfolding put
  put-Sound as_last st h k v = record {
    few = put_entry-few st.entries v.few;
    fit = put_entry-fits st.entries h v.fit;
    apart = put_entry-distinct st.entries k v.apart;
    last =
        if_intro (λ (l : Bytes). length l < ssid_len) as_last _ _
          (λ _. length-strlcpy ssid_len ssid (omega arith)) (λ _. v.last);
  }

module _ (ssid : Bytes) where
  pub find-remove_away :
      (k : Bytes) (es : List Entry)
      → is_some (find k es) ≡ false
      → is_some (find k (remove ssid es)) ≡ false
  unfolding find remove
  find-remove_away k [] h = refl
  find-remove_away k (e ∷ es) h = ground (arith, h, find-remove_away k es)

  -- Where names are distinct, a name that is removed is gone.
  pub find-remove_self :
      (es : List Entry) → distinct es ≡ true → is_some (find ssid (remove ssid es)) ≡ false
  unfolding find remove
  find-remove_self [] h = refl
  find-remove_self (e ∷ es) h = elim (Bool-cases (bytes_eq e.ssid ssid)) [
    | inl here ↦
        let name : e.ssid ≡ ssid = (bytes_eq_iff e.ssid ssid).0 here in
        rw here (ap (λ t. is_some (find t es)) (sym name) ∙ ground (arith, h))
    | inr other ↦ ground (arith, other, find-remove_self es, h)
  ]

  distinct-remove : (es : List Entry) → distinct es ≡ true → distinct (remove ssid es) ≡ true
  unfolding remove
  distinct-remove [] h = refl
  distinct-remove (e ∷ es) h = ground (arith, h, find-remove_away e.ssid es, distinct-remove es)

  all_fit-remove : (es : List Entry) → all_fit es ≡ true → all_fit (remove ssid es) ≡ true
  unfolding remove
  all_fit-remove [] h = refl
  all_fit-remove (e ∷ es) h = ground (arith, h, all_fit-remove es)

  length-remove : (es : List Entry) → length (remove ssid es) ≤ length es
  unfolding remove
  length-remove [] = omega arith
  length-remove (e ∷ es) = ground (arith, length-remove es)

  pub erase-Sound : (st : Store) → Sound st → Sound (erase ssid st)
  unfolding erase
  erase-Sound st v = record {
    few = omega (arith, v.few, length-remove st.entries);
    fit = all_fit-remove st.entries v.fit;
    apart = distinct-remove st.entries v.apart;
    last =
        if_intro (λ (l : Bytes). length l < ssid_len) (bytes_eq st.last ssid) _ _ (λ _. omega arith)
          (λ _. v.last);
  }
