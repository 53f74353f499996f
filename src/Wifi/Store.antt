-- ===== src/Wifi/Store.antt =====
-- cmd_wifi/wifi_known.c: the table of known networks (known_entry_t, known_store_t), and the loops
-- over it (known_find, known_get, known_put, known_put_last, known_erase), without the loading and
-- saving.
pub mod Laws
pub mod Fits
use esp_console_kit.Prelude.{
  ℕ, Bool, true, false, ◌||◌, Option, none, some, List, [], ◌∷◌, ◌++◌, Bytes, bytes_eq, length,
  take, drop, leb, strlcpy, if◌then◌else◌,
}

abbrev pub ssid_len : ℕ
ssid_len = 33

abbrev pub pass_len : ℕ
pass_len = 64

abbrev pub known_max : ℕ
known_max = 16

-- known_entry_t
pub record Entry : Type 0 where
  pub ssid : Bytes
  pub passphrase : Bytes

-- known_store_t; its count is the length of the list. No name is the empty one.
pub record Store : Type 0 where
  pub last : Bytes
  pub entries : List Entry

abbrev pub no_store : Store
no_store = record { last = []; entries = [] }

-- known_find, and known_get: the passphrase of the first entry of that name
unfoldable pub find : Bytes → List Entry → Option Bytes
find ssid [] = none
find ssid (e ∷ es) =
    let rest = find ssid es in if bytes_eq e.ssid ssid then some e.passphrase else rest

abbrev pub is_some : {A : Type 0} → Option A → Bool
is_some none = false
is_some (some a) = true

abbrev pub set_passphrase : Option Bytes → Entry → Entry
set_passphrase p e = record e {
  passphrase = elim p [ none ↦ e.passphrase | some q ↦ strlcpy pass_len q ];
}

abbrev pub new_entry : Bytes → Entry
new_entry ssid = record { ssid = strlcpy ssid_len ssid; passphrase = [] }

-- The entry that is found is rewritten where it stands.
unfoldable pub update : Bytes → Option Bytes → List Entry → List Entry
update ssid p [] = []
update ssid p (e ∷ es) =
    let rest = update ssid p es in
    if bytes_eq e.ssid ssid then set_passphrase p e ∷ es else e ∷ rest

-- A full table loses its first entry.
unfoldable pub with_room : List Entry → List Entry
with_room es = if leb known_max (length es) then take 15 (drop 1 es) else es

unfoldable pub put_entry : Bytes → Option Bytes → List Entry → List Entry
put_entry ssid p es =
    if is_some (find ssid es)
    then update ssid p es
    else with_room es ++ set_passphrase p (new_entry ssid) ∷ []

-- known_put
unfoldable pub put : Bytes → Option Bytes → Bool → Store → Store
put ssid p as_last st = record {
  last = if as_last then strlcpy ssid_len ssid else st.last;
  entries = put_entry ssid p st.entries;
}

unfoldable pub remove : Bytes → List Entry → List Entry
remove ssid [] = []
remove ssid (e ∷ es) = let rest = remove ssid es in if bytes_eq e.ssid ssid then es else e ∷ rest

-- known_erase
unfoldable pub erase : Bytes → Store → Store
erase ssid st = record {
  last = if bytes_eq st.last ssid then [] else st.last;
  entries = remove ssid st.entries;
}
