-- ===== src/Events/Tests.antt =====
-- events/events.c: runs at concrete inputs, and instances of the theorems there.
use esp_console_kit.Prelude.{
  ℕ, ◌%◌, ◌≡◌, refl, inl, inr, true, false, Option, none, some, List, [], ◌∷◌, Bytes, codes,
  bytes_eq, split_at, get_or-replicate, ◌==◌, if◌then◌else◌, arith,
}
use esp_console_kit.Prelude.Bits.{bit, bit-zero}
use esp_console_kit.Prelude.Errors.{esp_ok}
use esp_console_kit.Events.State.{Kind, Sink, State, boot, blank_sink, blank_kept, kept_slots}
use esp_console_kit.Events.Kinds.{find, declare, kind_bit, all_kinds, state_kinds}
use esp_console_kit.Events.Kinds.Declare.{Declared, declare_ok}
use esp_console_kit.Events.Parse.{mask, bad_name, parse}
use esp_console_kit.Events.Parse.Laws.{segments_of}
use esp_console_kit.Events.Parse.Names.{any_names, CutTo, parse_known, parse_unknown}
use esp_console_kit.Events.Sinks.{changed, wanted, take_dirty, Op, introduce, occur, rewant, run}
use esp_console_kit.Events.Sinks.Laws.{IsMarked, IsSound, run-IsSound}
use esp_console_kit.Events.Sinks.Changes.{change_not_lost}
use esp_console_kit.Events.Ring.{seq_of, store, from_of, since, since_loop, lost_of, slot}
use esp_console_kit.Events.Ring.Window.{
  Sys, begun, stored, begin, finish, Reach, here, next, Inv, Reach-Inv,
}

abbrev screen : Kind
screen = record { name = codes "screen"; build = some 7 }

abbrev ended : Kind
ended = record { name = codes "clip_ended"; build = none }

abbrev viewer : Sink
viewer = record { used = true; want = 3; dirty = 0; notify = some 9; ctx = 1 }

-- Two kinds, and one listener that wants both.
abbrev two : State
two = record boot {
  kinds = screen ∷ ended ∷ [];
  sinks = viewer ∷ blank_sink ∷ blank_sink ∷ blank_sink ∷ [];
}

masks : (all_kinds two ≡ 3) × (state_kinds two ≡ 1) × (kind_bit two (codes "clip_ended") ≡ 2)
unfolding all_kinds state_kinds kind_bit bytes_eq
masks = (refl, refl, refl)

parse_run : parse two (some (codes "clip_ended,,screen,")) none ≡ some (mask 3)
unfolding parse kind_bit bytes_eq split_at
parse_run = refl

parse_bad : parse two (some (codes "screen,nope,x")) (some 3) ≡ some (bad_name (some (codes "no")))
unfolding parse kind_bit bytes_eq split_at
parse_bad = refl

change_then_take :
    let (s, told) = changed two (codes "screen") in
    (told ≡ record { fn = 9; ctx = 1 } ∷ [])
    × ((take_dirty s 0).0 ≡ 1)
    × (wanted s (codes "screen") ≡ true)
unfolding changed kind_bit bytes_eq take_dirty wanted find
change_then_take = (refl, refl, refl)

declare_ok_example :
    ((declare two (some (codes "leds")) none).0 ≡ esp_ok)
    × Declared (declare two (some (codes "leds")) none).1 (codes "leds") none
declare_ok_example =
    declare_ok two (codes "leds") none (omega arith) (omega arith) (inr (omega arith))

abbrev names_listed : Option Bytes
names_listed = some (codes "clip_ended,screen")

parse_known_example :
    (m : ℕ) × (parse two names_listed none ≡ some (mask (if m == 0 then all_kinds two else m)))
    × ((i : ℕ) → bit m i ≡ any_names two.kinds i (segments_of names_listed))
unfolding bytes_eq
parse_known_example = parse_known two names_listed none refl refl

parse_unknown_example :
    (b : Option Bytes) × (parse two (some (codes "screen,nope")) (some 3) ≡ some (bad_name b))
    × CutTo (some 3) (codes "nope") b
unfolding bytes_eq
parse_unknown_example =
    parse_unknown two (some (codes "screen,nope")) (some 3) (codes "nope") refl refl

no_dirt : (k : Sink) → k.dirty ≡ 0 → IsMarked k
no_dirt k e =
    (λ i. let z : bit k.dirty i ≡ false = rw e (bit-zero i) in ground (arith, z), ground (arith, e))

two-IsSound : IsSound two
two-IsSound = record {
  slots = refl;
  marked = (
    no_dirt viewer refl,
    (no_dirt blank_sink refl, (no_dirt blank_sink refl, (no_dirt blank_sink refl, tt))),
  );
}

abbrev calls_made : List Op
calls_made = introduce (some (codes "leds")) (some 3) ∷ occur (codes "clip_ended") ∷ rewant 1 1 ∷ []

run-IsSound_example : IsSound (run two calls_made)
run-IsSound_example = run-IsSound calls_made two two-IsSound

bit_three : bit 3 0 ≡ true
unfolding bit
bit_three = refl

change_not_lost_example :
    bit (take_dirty (run (changed two (codes "screen")).0 calls_made) 0).0 0 ≡ true
unfolding find bytes_eq
change_not_lost_example =
    change_not_lost two (codes "screen") calls_made 0 0 (omega arith) refl refl bit_three refl

-- Two happenings take numbers 1 and 2, and the second is stored first.
abbrev sys0 : Sys
sys0 = record { ring = boot.ring; count = 0; pending = λ _. false; failed = λ _. false }

abbrev sys4 : Sys
sys4 = stored (stored (begun (begun sys0)) 2 1 (some [])) 1 1 (some [])

sys0-sys4 : Reach sys0 sys4
sys0-sys4 =
    next
      (next (next (next here (begin (omega arith) refl)) (begin (omega arith) refl))
        (finish 2 1 (some []) refl refl))
      (finish 1 1 (some []) refl refl)

blank_slot : (n : ℕ) → (slot sys0.ring n).n ≡ 0
blank_slot n = let e = get_or-replicate kept_slots (n % kept_slots) blank_kept in rw e refl

sys0-Inv : Inv sys0
sys0-Inv = record {
  slots = refl;
  small = omega arith;
  taken = λ n h. absurd (cc h);
  past = λ n. (omega (arith, blank_slot n), inl (blank_slot n));
  window = λ n a b c. absurd (omega arith);
}

Reach-Inv_example : Inv sys4
Reach-Inv_example = Reach-Inv sys0-Inv sys0-sys4

abbrev one : State
one = record two { ring = store boot.ring 1 2 (some (codes "{}")); count = 1 }

since_all :
    since one 0 3 ≡ (1, 0, some (record { seq = 1; bit = 2; json = some (codes "{}") } ∷ []))
unfolding since since_loop seq_of from_of lost_of store
since_all = refl
