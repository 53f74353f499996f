-- ===== src/Nvs/Store.antt =====
-- What cmd_nvs/nvs_backup.c uses of ESP-IDF's NVS, as an interface: a partition is a state of some
-- type, and `view` is what stands in it under a namespace and a key.
use esp_console_kit.Prelude.{ℕ, ◌≡◌, Bool, false, ◌&&◌, Option, none, some, List, Bytes, bytes_eq}
use esp_console_kit.Prelude.Errors.{EspErr, esp_ok, nvs_not_found}
use esp_console_kit.Nvs.Numbers.{Kind}
use esp_console_kit.Nvs.Lines.{Value}

pub record Stored : Type 0 where
  pub kind : Kind
  pub value : Value

-- nvs_entry_info_t
pub record Listed : Type 0 where
  pub ns : Bytes
  pub key : Bytes
  pub kind : Kind

-- The calls. `walk` is nvs_entry_find and nvs_entry_next until they end, and what the end answers;
-- `get` is what nvs_get_* answers for a kind, and the value where that is ESP_OK.
pub record Nvs (S : Type 0) : Type 0 where
  pub open_ro : S → Bytes → EspErr
  pub get : S → Bytes → Bytes → Kind → EspErr × Value
  pub find_key : S → Bytes → Bytes → Option Kind
  pub walk : S → EspErr × List Listed
  pub free_slots : S → Option ℕ
  pub open_rw : S → Bytes → EspErr × S
  pub set : S → Bytes → Bytes → Kind → Value → EspErr × S
  pub erase : S → Bytes → Bytes → EspErr × S
  pub commit : S → EspErr × S
  pub view : S → Bytes → Bytes → Option Stored

-- The same namespace and key.
abbrev pub same_place : Bytes → Bytes → Bytes → Bytes → Bool
same_place ns key ns' key' = bytes_eq ns ns' && bytes_eq key key'

-- What NVS documents of them: a call changes no other key than its own, opening and committing
-- change none, a set that is ESP_OK stores the value, an erase that is ESP_OK or NOT_FOUND leaves
-- nothing, and a get that is ESP_OK gives what is stored.
pub record IsNvs {S : Type 0} (n : Nvs S) : Type 0 where
  pub open_view : (s : S) (ns at key : Bytes) → n.view (n.open_rw s ns).1 at key ≡ n.view s at key
  pub commit_view : (s : S) (at key : Bytes) → n.view (n.commit s).1 at key ≡ n.view s at key
  pub set_view :
      (s : S) (ns key at k : Bytes) (kind : Kind) (v : Value)
      → same_place ns key at k ≡ false
      → n.view (n.set s ns key kind v).1 at k ≡ n.view s at k
  pub set_ok :
      (s : S) (ns key : Bytes) (kind : Kind) (v : Value)
      → (n.set s ns key kind v).0 ≡ esp_ok
      → n.view (n.set s ns key kind v).1 ns key ≡ some (record { kind = kind; value = v })
  pub erase_view :
      (s : S) (ns key at k : Bytes)
      → same_place ns key at k ≡ false
      → n.view (n.erase s ns key).1 at k ≡ n.view s at k
  pub erase_ok :
      (s : S) (ns key : Bytes)
      → (n.erase s ns key).0 ≡ esp_ok
      → n.view (n.erase s ns key).1 ns key ≡ none
  pub erase_absent :
      (s : S) (ns key : Bytes)
      → (n.erase s ns key).0 ≡ nvs_not_found
      → n.view (n.erase s ns key).1 ns key ≡ none
  pub get_ok :
      (s : S) (ns key : Bytes) (kind : Kind)
      → (n.get s ns key kind).0 ≡ esp_ok
      → n.view s ns key ≡ some (record { kind = kind; value = (n.get s ns key kind).1 })
