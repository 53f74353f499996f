-- ===== src/Events/Parse.antt =====
-- events/events.c: events_parse, a comma-separated list of names as a mask.
pub mod Laws
pub mod Names
use Prim.Native.Nat.{bit_or}
use esp_console_kit.Prelude.{
  ℕ, zero, suc, ◌-◌, Option, none, some, List, [], ◌∷◌, Bytes, split_at, length, take, min, ltb,
  ◌==◌, if◌then◌else◌,
}
use esp_console_kit.Events.State.{State}
use esp_console_kit.Events.Kinds.{kind_bit, all_kinds}

-- true with *out, or false with what `bad` holds (none where the caller gave it no room)
pub data Parsed : Type 0 where
  mask : ℕ → Parsed
  bad_name : Option Bytes → Parsed

-- The bit of a segment: it is looked up only if it fits name[16].
unfoldable pub segment_bit : State → Bytes → ℕ
segment_bit s seg = if ltb (length seg) 16 then kind_bit s seg else 0

-- What is copied to `bad` of `bad_len` bytes; none is a NULL `bad` or no room at all.
pub bad_copy : Option ℕ → Bytes → Option Bytes
bad_copy none seg = none
bad_copy (some zero) seg = none
bad_copy (some (suc room)) seg = some (take (min (length seg) room) seg)

-- One round of the loop on the segment `seg`: go on with a mask, or stop.
pub data Round : Type 0 where
  go_on : ℕ → Round
  stop : Parsed → Round

pub round : State → Option ℕ → Bytes → ℕ → Round
unfolding segment_bit bad_copy
round s bad_len [] m = go_on m
round s bad_len (c ∷ cs) m =
    let bit = segment_bit s (c ∷ cs) in
    if bit == 0 then stop (bad_name (bad_copy bad_len (c ∷ cs))) else go_on (bit_or m bit)

-- The loop over what is left at `p` (none is NULL), on fuel; none is fuel that ran out.
parse_loop : State → Option ℕ → ℕ → Option Bytes → ℕ → Option Parsed
unfolding round
parse_loop s bad_len fuel none m = some (mask m)
parse_loop s bad_len fuel (some []) m = some (mask m)
parse_loop s bad_len zero (some (c ∷ cs)) m = none
parse_loop s bad_len (suc fuel) (some (c ∷ cs)) m =
    let (seg, rest) = split_at b',' (c ∷ cs) in
    elim (round s bad_len seg m) [ stop r ↦ some r | go_on m' ↦ parse_loop s bad_len fuel rest m' ]

-- *out = m ? m : events_all()
pub or_all : State → Parsed → Parsed
or_all s (mask m) = mask (if m == 0 then all_kinds s else m)
or_all s (bad_name b) = bad_name b

text_length : Option Bytes → ℕ
text_length none = 0
text_length (some p) = length p

-- events_parse: each round takes at least a byte, so as many rounds as bytes are enough.
unfoldable pub parse : State → Option Bytes → Option ℕ → Option Parsed
unfolding parse_loop or_all text_length
parse s list bad_len = elim (parse_loop s bad_len (text_length list) list 0) [
  | none ↦ none
  | some r ↦ some (or_all s r)
]
