-- ===== src/Nvs/Parse/Sound.antt =====
-- cmd_nvs/nvs_backup.c: what parse lets through can be written to the partition.
use esp_console_kit.Prelude.{
  ℕ, ◌≤◌, ◌<◌, ◌≡◌, Bool, true, not, ◌||◌, if_intro, Option, none, some, [], ◌∷◌, Bytes, split_at,
  length, ltb, leb, ◌==◌, arith,
}
use esp_console_kit.Nvs.Numbers.{
  Kind, u8, i8, u16, i16, u32, i32, u64, i64, str, blob, type_parse, parse_u64, parse_int,
}
use esp_console_kit.Nvs.Numbers.Values.{IntFits, OptIntFits, parse_int-OptIntFits}
use esp_console_kit.Nvs.Strs.{str_max, Outcome, taken, fault, parse_str}
use esp_console_kit.Nvs.Strs.Total.{NoNul, Answer, parse_str-Answer}
use esp_console_kit.Nvs.Lines.{
  max_file, name_size, name_chars, name_ok, has_nul, take_name, Value, int, text, bytes, Entered,
  entered, owes, not_entered, str_entry, blob_entry, int_entry, value_entry, typed_entry,
  keyed_entry, spaced_entry, split_entry, parse_entry, bad_key, unknown_type, c_string,
}

-- A name of 1 to 15 visible characters.
abbrev pub AllVisible : Bytes → Type 0
AllVisible [] = Unit {0}
AllVisible (c ∷ cs) = (0x20 < c) × (c ≤ 0x7e) × AllVisible cs

abbrev pub NameFits : Bytes → Type 0
NameFits s = (0 < length s) × (length s < name_size) × AllVisible s

abbrev pub OptNameFits : Option Bytes → Type 0
OptNameFits none = Unit {0}
OptNameFits (some s) = NameFits s

name_chars-AllVisible : (is_key : Bool) (s : Bytes) → name_chars is_key s ≡ true → AllVisible s
unfolding name_chars
name_chars-AllVisible is_key [] h = tt
name_chars-AllVisible is_key (c ∷ cs) h =
    (ground arith, ground arith, name_chars-AllVisible is_key cs (ground arith))

name_ok-AllVisible : (is_key : Bool) (s : Bytes) → name_ok is_key s ≡ true → AllVisible s
unfolding name_ok
name_ok-AllVisible is_key [] h = tt
name_ok-AllVisible is_key (c ∷ cs) h = name_chars-AllVisible is_key (c ∷ cs) (ground arith)

pub take_name-NameFits : (is_key : Bool) (s : Bytes) → OptNameFits (take_name is_key s)
unfolding take_name
take_name-NameFits is_key s =
    if_intro OptNameFits
      (length s == 0 || leb name_size (length s) || has_nul s || not (name_ok is_key s)) _ _
      (λ _. tt) (λ h. (ground arith, ground arith, name_ok-AllVisible is_key s (ground arith)))

-- A value that NVS can hold under its kind.
abbrev pub ValueFits : Kind → Value → Type 0
ValueFits str (text s) = NoNul s × (length s < str_max)
ValueFits blob (bytes b) = length b ≤ max_file
ValueFits u8 (int v) = IntFits u8 v
ValueFits i8 (int v) = IntFits i8 v
ValueFits u16 (int v) = IntFits u16 v
ValueFits i16 (int v) = IntFits i16 v
ValueFits u32 (int v) = IntFits u32 v
ValueFits i32 (int v) = IntFits i32 v
ValueFits u64 (int v) = IntFits u64 v
ValueFits i64 (int v) = IntFits i64 v
ValueFits _ _ = ⊥

abbrev pub EnteredFits : Entered → Type 0
EnteredFits (entered key kind value) = NameFits key × ValueFits kind value
EnteredFits (owes key len) = NameFits key × (len ≤ max_file)
EnteredFits (not_entered why) = Unit {0}

module _ (key : Bytes) (k : NameFits key) where
  str_entry-EnteredFits : (o : Option Outcome) → Answer o → EnteredFits (str_entry key o)
  unfolding str_entry
  str_entry-EnteredFits none h = tt
  str_entry-EnteredFits (some (fault f)) h = tt
  str_entry-EnteredFits (some (taken s)) h = (k, h)

  blob_entry-EnteredFits : (o : Option ℕ) → EnteredFits (blob_entry key o)
  unfolding blob_entry
  blob_entry-EnteredFits none = tt
  blob_entry-EnteredFits (some len) =
      if_intro EnteredFits (ltb max_file len) _ _ (λ _. tt) (λ h. (k, ground arith))

  int_entry-EnteredFits :
      (t : Kind) (o : Option ℕ)
      → ((v : ℕ) → IntFits t v → ValueFits t (int v))
      → OptIntFits t o
      → EnteredFits (int_entry key t o)
  unfolding int_entry
  int_entry-EnteredFits t none f h = tt
  int_entry-EnteredFits t (some v) f h = (k, f v h)

  value_entry-EnteredFits : (t : Kind) (v : Bytes) → EnteredFits (value_entry key t v)
  unfolding value_entry
  value_entry-EnteredFits str v = str_entry-EnteredFits (parse_str v) (parse_str-Answer v)
  value_entry-EnteredFits blob v = blob_entry-EnteredFits (parse_u64 v)
  value_entry-EnteredFits u8 v =
      int_entry-EnteredFits u8 (parse_int u8 v) (λ v h. h) (parse_int-OptIntFits u8 v)
  value_entry-EnteredFits i8 v =
      int_entry-EnteredFits i8 (parse_int i8 v) (λ v h. h) (parse_int-OptIntFits i8 v)
  value_entry-EnteredFits u16 v =
      int_entry-EnteredFits u16 (parse_int u16 v) (λ v h. h) (parse_int-OptIntFits u16 v)
  value_entry-EnteredFits i16 v =
      int_entry-EnteredFits i16 (parse_int i16 v) (λ v h. h) (parse_int-OptIntFits i16 v)
  value_entry-EnteredFits u32 v =
      int_entry-EnteredFits u32 (parse_int u32 v) (λ v h. h) (parse_int-OptIntFits u32 v)
  value_entry-EnteredFits i32 v =
      int_entry-EnteredFits i32 (parse_int i32 v) (λ v h. h) (parse_int-OptIntFits i32 v)
  value_entry-EnteredFits u64 v =
      int_entry-EnteredFits u64 (parse_int u64 v) (λ v h. h) (parse_int-OptIntFits u64 v)
  value_entry-EnteredFits i64 v =
      int_entry-EnteredFits i64 (parse_int i64 v) (λ v h. h) (parse_int-OptIntFits i64 v)

  typed_entry-EnteredFits : (name v : Bytes) → EnteredFits (typed_entry key name v)
  unfolding typed_entry
  typed_entry-EnteredFits name v =
      if_intro EnteredFits (length name == 0 || leb 8 (length name)) _ _ (λ _. tt)
        (λ _. by_kind (type_parse (c_string name)))
    where
      by_kind :
          (o : Option Kind)
          → EnteredFits (elim o [ none ↦ not_entered unknown_type | some t ↦ value_entry key t v ])
      by_kind none = tt
      by_kind (some t) = value_entry-EnteredFits t v

keyed_entry-EnteredFits : (key name v : Bytes) → EnteredFits (keyed_entry key name v)
unfolding keyed_entry
keyed_entry-EnteredFits key name v = by_name (take_name true key) (take_name-NameFits true key)
  where
    by_name :
        (o : Option Bytes)
        → OptNameFits o
        → EnteredFits (elim o [ none ↦ not_entered bad_key | some k ↦ typed_entry k name v ])
    by_name none h = tt
    by_name (some k) h = typed_entry-EnteredFits k h name v

-- An entry that parse_entry lets through has a key, and a value or a blob's size, that NVS can hold.
pub parse_entry-EnteredFits : (s : Bytes) → EnteredFits (parse_entry s)
unfolding parse_entry
parse_entry-EnteredFits s = by_split (split_at b' ' s)
  where
    by_second : (key : Bytes) (p : Bytes × Option Bytes) → EnteredFits (spaced_entry key p)
    by_second key (name, none) = unfold spaced_entry in tt
    by_second key (name, some v) = unfold spaced_entry in keyed_entry-EnteredFits key name v

    by_split : (p : Bytes × Option Bytes) → EnteredFits (split_entry p)
    by_split (key, none) = unfold split_entry in tt
    by_split (key, some rest) = unfold split_entry in by_second key (split_at b' ' rest)
