-- ===== src/Nvs/Plan.antt =====
-- cmd_nvs/nvs_backup.c: what an import would do, before it writes (collect, diff, file_has_ns, find_removals, slots_for, sets, writes, check). The lines that it says and the
-- texts of refusals are left out, and memory is taken to suffice.
use Prim.Native.Nat.{Ordering}
use esp_console_kit.Prelude.{ℕ, Bool, true, false, not, Option, none, some, Bytes, bytes_eq, ◌==◌}
use esp_console_kit.Prelude.Errors.{EspErr, esp_ok, nvs_not_found, nvs_type_mismatch}
use esp_console_kit.Nvs.Numbers.{Kind, u8, i8, u16, i16, u32, i32, u64, i64, str, blob}
use esp_console_kit.Nvs.Lines.{Value, int, text, bytes}
use esp_console_kit.Nvs.Parse.{Item}
use esp_console_kit.Nvs.Store.{Listed}
use esp_console_kit.Nvs.Order.{place_cmp}

-- act_t
pub data Act : Type 0 where
  same change add retype excluded remove : Act

-- item_t, with what the import will do to it
pub record Planned : Type 0 where
  pub item : Item
  pub act : Act

abbrev pub item_cmp : Planned → Planned → Ordering
item_cmp x y = place_cmp x.item.ns x.item.key y.item.ns y.item.key

abbrev pub entry_cmp : Listed → Listed → Ordering
entry_cmp x y = place_cmp x.ns x.key y.ns y.key

-- nvs_backup_import_opts_t
pub record Options : Type 0 where
  pub dry_run : Bool
  pub replace : Bool
  pub ignore_excluded : Bool
  pub other_board : Bool
  pub no_snapshot : Bool

-- nvs_backup_report_t, but for its text
pub record Report : Type 0 where
  pub entries : ℕ
  pub same : ℕ
  pub changed : ℕ
  pub added : ℕ
  pub retyped : ℕ
  pub removed : ℕ
  pub excluded : ℕ
  pub written : ℕ
  pub started : Bool
  pub snapshot : Bool

abbrev pub blank_report : Report
blank_report = record {
  entries = 0;
  same = 0;
  changed = 0;
  added = 0;
  retyped = 0;
  removed = 0;
  excluded = 0;
  written = 0;
  started = false;
  snapshot = false;
}

-- nvs_type_t is a number.
abbrev pub kind_code : Kind → ℕ
kind_code u8 = 0
kind_code i8 = 1
kind_code u16 = 2
kind_code i16 = 3
kind_code u32 = 4
kind_code i32 = 5
kind_code u64 = 6
kind_code i64 = 7
kind_code str = 8
kind_code blob = 9

abbrev pub kind_eq : Kind → Kind → Bool
kind_eq a b = kind_code a == kind_code b

unfoldable pub value_eq : Value → Value → Bool
value_eq (int v) (int w) = v == w
value_eq (text s) (text t) = bytes_eq s t
value_eq (bytes s) (bytes t) = bytes_eq s t
value_eq (int v) (text t) = false
value_eq (int v) (bytes t) = false
value_eq (text s) (int w) = false
value_eq (text s) (bytes t) = false
value_eq (bytes s) (int w) = false
value_eq (bytes s) (text t) = false

-- What diff makes of one item: what is to do with it, or the error that ends it.
pub data Verdict : Type 0 where
  does : Act → Verdict
  fails : EspErr → Verdict

-- Behind the reading: `err` is what it answered, `differs` whether nvs_find_key then named
-- another kind.
unfoldable pub verdict : EspErr → Bool → Bool → Verdict
verdict esp_ok true differs = does same
verdict esp_ok false differs = does change
verdict nvs_not_found eq differs = does add
verdict nvs_type_mismatch eq true = does retype
verdict err eq differs = fails err

abbrev pub other_kind : Kind → Option Kind → Bool
other_kind k none = false
other_kind k (some had) = not (kind_eq had k)

-- The namespace that diff has open, if it has tried one, and whether it is there.
pub record Opened : Type 0 where
  pub ns : Option Bytes
  pub exists : Bool

abbrev pub is_open_on : Option Bytes → Bytes → Bool
is_open_on none ns = false
is_open_on (some open_ns) ns = bytes_eq open_ns ns
