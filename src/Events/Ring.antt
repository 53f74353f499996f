-- ===== src/Events/Ring.antt =====
-- events/events.c: the happenings: their numbers, the ring of the last 32, and what a listener
-- reads of them (seq_of, events_happened, events_seq, events_since).
pub mod Resume
pub mod Window
pub mod Since
use Prim.Native.Nat.{bit_and}
use esp_console_kit.Prelude.{
  ℕ, zero, suc, ◌+◌, ◌-◌, ◌%◌, ◌^◌, ◌<◌, ◌≡◌, Bool, true, false, not, ◌&&◌, ◌||◌, Option, none,
  some, List, [], ◌∷◌, Bytes, get_or, set, ltb, leb, ◌==◌, if◌then◌else◌,
}
use esp_console_kit.Events.State.{kept_slots, Kept, State, blank_kept}
use esp_console_kit.Events.Kinds.{find}

abbrev pub u32 : ℕ → ℕ
u32 n = n % 2 ^ 32

unfoldable pub seq_of : ℕ → ℕ
seq_of n = if n == 0 then 0 else (n - 1) % 65535 + 1

-- ++s_count
abbrev pub next_number : ℕ → ℕ
next_number count = u32 (count + 1)

-- events_happened, first time under the mutex: the kind's index and the happening's number.
pub take_number : State → Bytes → Option (ℕ × ℕ) × State
take_number s name = elim (find s name) [
  | none ↦ (none, s)
  | some i ↦ (some (i, next_number s.count), record s { count = next_number s.count })
]

abbrev pub slot : List Kept → ℕ → Kept
slot ring n = get_or ring (n % kept_slots) blank_kept

-- events_happened, second time: the text goes into its slot, unless a later one is there.
-- `json` is what cJSON_PrintUnformatted returned.
unfoldable pub store : List Kept → ℕ → ℕ → Option Bytes → List Kept
store ring n bit json =
    let new : Kept = record { n = elim json [ none ↦ 0 | some _ ↦ n ]; bit = bit; json = json } in
    if ltb (slot ring n).n n then set ring (n % kept_slots) new else ring

-- events_seq
pub latest_seq : State → ℕ
latest_seq s = seq_of s.count

-- the number of the oldest happening that the ring may hold
unfoldable pub oldest_of : ℕ → ℕ
oldest_of latest = if ltb kept_slots latest then latest - kept_slots + 1 else 1

-- `after`, a seq, as a count
unfoldable pub from_of : ℕ → ℕ → ℕ
unfolding seq_of
from_of latest after =
    let back = (seq_of latest + 65535 - after) % 65535 in
    if not (after == 0) && not (latest == 0)
    then if leb back latest then latest - back else 0
    else 0

-- *lost
unfoldable pub lost_of : ℕ → ℕ → ℕ
unfolding oldest_of
lost_of latest from =
    let oldest = oldest_of latest in
    if ltb (u32 (from + 1)) oldest && leb oldest latest then oldest - u32 (from + 1) else 0

-- One call of the callback.
pub record Entry : Type 0 where
  pub seq : ℕ
  pub bit : ℕ
  pub json : Option Bytes

unfoldable pub entry_of : ℕ → Kept → Entry
entry_of n k = record { seq = seq_of n; bit = k.bit; json = k.json }

-- k->n == n && (k->bit & mask)
abbrev pub shown : ℕ → ℕ → Kept → Bool
shown mask n k = k.n == n && not (bit_and k.bit mask == 0)

-- The loop of events_since from n on; none is fuel that ran out.
unfoldable pub since_loop : List Kept → ℕ → ℕ → ℕ → ℕ → Option (List Entry)
unfolding entry_of
since_loop ring latest mask zero n = none
since_loop ring latest mask (suc fuel) n =
    let k = slot ring n in
    let rest = since_loop ring latest mask fuel (u32 (n + 1)) in
    let more : Option (List Entry) = elim rest [
      | none ↦ none
      | some es ↦ some (if shown mask n k then entry_of n k ∷ es else es)
    ] in
    if not (latest == 0) && leb n latest then more else some []

-- events_since with a callback: the latest seq, *lost, and the calls in their order. At most 32
-- numbers are looked at, so 33 rounds are enough.
unfoldable pub since : State → ℕ → ℕ → ℕ × ℕ × Option (List Entry)
since s after mask =
    let latest = s.count in
    let oldest = oldest_of latest in
    let from = from_of latest after in
    let first = if ltb oldest (u32 (from + 1)) then u32 (from + 1) else oldest in
    (seq_of latest, lost_of latest from, since_loop s.ring latest mask (suc kept_slots) first)
