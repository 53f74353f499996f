-- ===== src/Events/Kinds.antt =====
-- events/events.c: the kinds by name and by bit (find, index_of, events_declare, events_bit,
-- events_all, events_states, events_name).
pub mod Laws
pub mod Declare
pub mod Masks
use Prim.Native.Nat.{bit_and, bit_or}
use esp_console_kit.Prelude.{
  ℕ, zero, suc, ◌+◌, ◌-◌, ◌/◌, ◌%◌, ◌^◌, Bool, not, ◌||◌, Option, none, some, List, [], ◌∷◌, ◌++◌,
  Bytes, bytes_eq, length, get_elem?, set, ltb, leb, ◌==◌, if◌then◌else◌,
}
use esp_console_kit.Prelude.Errors.{EspErr, esp_ok, invalid_arg, no_mem}
use esp_console_kit.Events.State.{max_kinds, Callback, Kind, State}

-- the loop of `find`, at index i
unfoldable pub find_from : Bytes → List Kind → ℕ → Option ℕ
find_from name [] i = none
find_from name (k ∷ ks) i = if bytes_eq k.name name then some i else find_from name ks (i + 1)

-- none is -1
unfoldable pub find : State → Bytes → Option ℕ
unfolding find_from
find s name = find_from name s.kinds 0

-- __builtin_ctz of a 32-bit word: the rounds left, the word, the zeros so far
ctz_from : ℕ → ℕ → ℕ → ℕ
ctz_from zero x i = i
ctz_from (suc rounds) x i =
    let rest = ctz_from rounds (x / 2) (i + 1) in if x % 2 == 1 then i else rest

unfoldable pub index_of : ℕ → Option ℕ
unfolding ctz_from
index_of bit =
    if bit == 0 || not (bit_and bit (bit - 1) == 0) then none else some (ctz_from 32 bit 0)

set_build : List Kind → ℕ → Callback → List Kind
set_build [] i build = []
set_build (k ∷ ks) zero build = record k { build = build } ∷ ks
set_build (k ∷ ks) (suc i) build = k ∷ set_build ks i build

-- under the lock: the index is found, or made while there is room
unfoldable pub declare_named : State → Bytes → Callback → EspErr × State
unfolding find set_build
declare_named s name build = elim (find s name) [
  | some i ↦ (esp_ok, record s { kinds = set_build s.kinds i build })
  | none ↦
      if ltb (length s.kinds) max_kinds
      then (esp_ok, record s { kinds = s.kinds ++ record { name = name; build = build } ∷ [] })
      else (no_mem, s)
]

-- events_declare
unfoldable pub declare : State → Option Bytes → Callback → EspErr × State
unfolding declare_named
declare s none build = (invalid_arg, s)
declare s (some name) build =
    if ltb 15 (length name) then (invalid_arg, s) else declare_named s name build

-- events_bit
unfoldable pub kind_bit : State → Bytes → ℕ
unfolding find
kind_bit s name = elim (find s name) [ none ↦ 0 | some i ↦ 2 ^ i ]

-- events_all
unfoldable pub all_kinds : State → ℕ
all_kinds s = if leb 32 (length s.kinds) then 2 ^ 32 - 1 else 2 ^ length s.kinds - 1

-- the loop of events_states, at index i
states_from : List Kind → ℕ → ℕ → ℕ
states_from [] i m = m
states_from (k ∷ ks) i m =
    states_from ks (i + 1) (elim k.build [ none ↦ m | some _ ↦ bit_or m (2 ^ i) ])

-- events_states
unfoldable pub state_kinds : State → ℕ
unfolding states_from
state_kinds s = states_from s.kinds 0 0

-- events_name
unfoldable pub kind_name : State → ℕ → Option Bytes
unfolding index_of
kind_name s bit = elim (index_of bit) [
  | none ↦ none
  | some i ↦ elim (get_elem? s.kinds i) [ none ↦ none | some k ↦ some k.name ]
]
