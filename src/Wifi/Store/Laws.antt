-- ===== src/Wifi/Store/Laws.antt =====
-- cmd_wifi/wifi_known.c: what known_find finds behind known_put and known_erase.
use esp_console_kit.Prelude.{
  ℕ, zero, suc, ◌-◌, ◌≤◌, ◌<◌, ◌≡◌, refl, ap, ◌∙◌, Bool, true, false, ◌||◌, Bool-cases, inl, inr,
  if_intro, Option, none, some, List, [], ◌∷◌, ◌++◌, Bytes, bytes_eq, bytes_eq_refl, bytes_eq_iff,
  length, take, take_all, drop, length-drop, ltb, leb, strlcpy, if◌then◌else◌, arith,
}
use esp_console_kit.Wifi.Store.{
  ssid_len, pass_len, known_max, Entry, find, is_some, set_passphrase, new_entry, update, with_room,
  put_entry, remove,
}

pub strlcpy_all : (size : ℕ) (s : Bytes) → length s < size → strlcpy size s ≡ s
strlcpy_all size s h = take_all (size - 1) s (omega (arith, h))

pub bytes_eq_comm : (a b : Bytes) → bytes_eq a b ≡ bytes_eq b a
unfolding bytes_eq
bytes_eq_comm [] [] = refl
bytes_eq_comm [] (y ∷ ys) = refl
bytes_eq_comm (x ∷ xs) [] = refl
bytes_eq_comm (x ∷ xs) (y ∷ ys) = ground (arith, bytes_eq_comm xs ys)

-- One entry's name is told from another's.
pub bytes_eq_apart :
    (a b c : Bytes) → bytes_eq a b ≡ true → bytes_eq b c ≡ false → bytes_eq a c ≡ false
bytes_eq_apart a b c h k = ap (λ t. bytes_eq t c) ((bytes_eq_iff a b).0 h) ∙ k

pub find-append :
    (k : Bytes) (es fs : List Entry)
    → find k (es ++ fs) ≡ (if is_some (find k es) then find k es else find k fs)
unfolding find
find-append k [] fs = refl
find-append k (e ∷ es) fs = ground (arith, find-append k es fs)

pub find-update :
    (k ssid p : Bytes) (es : List Entry)
    → bytes_eq ssid k ≡ false
    → find k (update ssid (some p) es) ≡ find k es
unfolding find update
find-update k ssid p [] h = refl
find-update k ssid p (e ∷ es) h =
    let apart = bytes_eq_apart e.ssid ssid k in ground (arith, apart, h, find-update k ssid p es h)

pub find-update_self :
    (ssid p : Bytes) (es : List Entry)
    → is_some (find ssid es) ≡ true
    → find ssid (update ssid (some p) es) ≡ some (strlcpy pass_len p)
unfolding find update
find-update_self ssid p [] h = absurd (cc h)
find-update_self ssid p (e ∷ es) h = ground (arith, find-update_self ssid p es)

pub find-remove :
    (k ssid : Bytes) (es : List Entry)
    → bytes_eq ssid k ≡ false
    → find k (remove ssid es) ≡ find k es
unfolding find remove
find-remove k ssid [] h = refl
find-remove k ssid (e ∷ es) h =
    let apart = bytes_eq_apart e.ssid ssid k in ground (arith, apart, h, find-remove k ssid es h)

-- A name that is not there stays away.
pub find-take :
    (k : Bytes) (n : ℕ) (es : List Entry)
    → is_some (find k es) ≡ false
    → is_some (find k (take n es)) ≡ false
unfolding find
find-take k zero es h = refl
find-take k (suc n) [] h = refl
find-take k (suc n) (e ∷ es) h = ground (arith, find-take k n es)

pub find-drop :
    (k : Bytes) (es : List Entry)
    → is_some (find k es) ≡ false
    → is_some (find k (drop 1 es)) ≡ false
unfolding find
find-drop k [] h = refl
find-drop k (e ∷ es) h = ground (arith, h)

pub find-with_room :
    (k : Bytes) (es : List Entry)
    → is_some (find k es) ≡ false
    → is_some (find k (with_room es)) ≡ false
unfolding with_room
find-with_room k es h =
    if_intro (λ (l : List Entry). is_some (find k l) ≡ false) (leb known_max (length es)) _ _
      (λ _. find-take k 15 (drop 1 es) (find-drop k es h)) (λ _. h)

find_one : (k : Bytes) (e : Entry) → bytes_eq e.ssid k ≡ true → find k (e ∷ []) ≡ some e.passphrase
unfolding find
find_one k e h = ground (arith, h)

find_other : (k : Bytes) (e : Entry) → bytes_eq e.ssid k ≡ false → find k (e ∷ []) ≡ none
unfolding find
find_other k e h = ground (arith, h)

-- What is put is found.
pub find-put_self :
    (ssid p : Bytes) (es : List Entry)
    → length ssid < ssid_len
    → length p < pass_len
    → find ssid (put_entry ssid (some p) es) ≡ some p
unfolding put_entry
find-put_self ssid p es h k =
    let same = strlcpy_all pass_len p k in
    let name = strlcpy_all ssid_len ssid h in
    if_intro (λ (l : List Entry). find ssid l ≡ some p) (is_some (find ssid es)) _ _
      (λ there. find-update_self ssid p es there ∙ ap some same)
      (λ away.
        let e = set_passphrase (some p) (new_entry ssid) in
        let here : bytes_eq e.ssid ssid ≡ true =
          ap (λ t. bytes_eq t ssid) name ∙ bytes_eq_refl ssid in
        find-append ssid (with_room es) (e ∷ [])
        ∙ ap (λ (b : Bool). if b then find ssid (with_room es) else find ssid (e ∷ []))
            (find-with_room ssid es away)
        ∙ find_one ssid e here
        ∙ ap some same)

pub with_room_few :
    (es : List Entry)
    → length es ≤ known_max
    → with_room es ≡ (if ltb (length es) known_max then es else drop 1 es)
unfolding with_room
with_room_few es few = elim (Bool-cases (ltb (length es) known_max)) [
  | inl room ↦
      let not_full : leb known_max (length es) ≡ false = ground (arith, room) in
      rw (room, not_full) refl
  | inr full ↦
      let is_full : leb known_max (length es) ≡ true = ground (arith, full) in
      rw (full, is_full) (take_all 15 (drop 1 es) (omega (arith, few, length-drop 1 es)))
]

or_none : (o : Option Bytes) → (if is_some o then o else none) ≡ o
or_none none = refl
or_none (some p) = refl

-- Other names are found as before, but for the oldest where there is no room.
pub find-put :
    (k ssid p : Bytes) (es : List Entry)
    → length ssid < ssid_len
    → length es ≤ known_max
    → bytes_eq ssid k ≡ false
    → find k (put_entry ssid (some p) es)
      ≡ find k (if is_some (find ssid es) || ltb (length es) known_max then es else drop 1 es)
unfolding put_entry
find-put k ssid p es h few apart = elim (Bool-cases (is_some (find ssid es))) [
  | inl there ↦ rw there (find-update k ssid p es apart)
  | inr away ↦
      let e = set_passphrase (some p) (new_entry ssid) in
      let other : bytes_eq e.ssid k ≡ false =
        ap (λ t. bytes_eq t k) (strlcpy_all ssid_len ssid h) ∙ apart in
      rw away (
        find-append k (with_room es) (e ∷ [])
        ∙ ap
            (λ (o : Option Bytes).
              if is_some (find k (with_room es)) then find k (with_room es) else o)
            (find_other k e other)
        ∙ or_none (find k (with_room es))
        ∙ ap (find k) (with_room_few es few))
]
