-- ===== src/Events/Kinds/Masks.antt =====
-- events/events.c: events_all and events_states as sets of bits.
use Prim.Native.Nat.{bit_or}
use esp_console_kit.Prelude.{
  ℕ, zero, suc, ◌+◌, ◌-◌, ◌^◌, ◌≤◌, ◌≡◌, Bool, true, false, ◌&&◌, ◌||◌, none, some, List, [], ◌∷◌,
  length, Bool-cases, inl, inr, ltb, leb, ◌==◌, arith,
}
use esp_console_kit.Prelude.Bits.{bit, bit-bit_or, bit-pow, bit-zero, bit-ones}
use esp_console_kit.Events.State.{Kind, State, max_kinds}
use esp_console_kit.Events.Kinds.{all_kinds, states_from, state_kinds}

-- The mask of every kind holds the bits of the kinds declared, and no other, where at most 16
-- are.
bit-all_kinds :
    (s : State) (i : ℕ) → length s.kinds ≤ max_kinds → bit (all_kinds s) i ≡ ltb i (length s.kinds)
unfolding all_kinds
bit-all_kinds s i h = ground (arith, bit-ones i (length s.kinds))

-- kind `i - j` of the list has a builder
abbrev pub has_builder : List Kind → ℕ → Bool
has_builder [] i = false
has_builder (k ∷ ks) zero = elim k.build [ none ↦ false | some _ ↦ true ]
has_builder (k ∷ ks) (suc i) = has_builder ks i

has_builder-cons :
    (k : Kind) (ks : List Kind) (j i : ℕ)
    → (leb j i && has_builder (k ∷ ks) (i - j))
      ≡ ((i == j && has_builder (k ∷ ks) 0) || (leb (j + 1) i && has_builder ks (i - (j + 1))))
has_builder-cons k ks j i = elim (Bool-cases (ltb j i)) [
  | inl h ↦ let e : i - j ≡ suc (i - (j + 1)) = ground arith in rw e (ground arith)
  | inr h ↦ let e : i - j ≡ 0 = ground arith in rw e (ground arith)
]

bit-states_from :
    (ks : List Kind) (j m i : ℕ)
    → bit (states_from ks j m) i ≡ (bit m i || (leb j i && has_builder ks (i - j)))
unfolding states_from
bit-states_from [] j m i = ground arith
bit-states_from (k ∷ ks) j m i = ground (
  arith,
  bit-states_from ks (j + 1) (elim k.build [ none ↦ m | some _ ↦ bit_or m (2 ^ j) ]) i,
  bit-bit_or i m (2 ^ j),
  bit-pow i j,
  has_builder-cons k ks j i,
)

-- The mask of state kinds holds bit i exactly if kind i is declared with a builder.
bit-state_kinds : (s : State) (i : ℕ) → bit (state_kinds s) i ≡ has_builder s.kinds i
unfolding state_kinds
bit-state_kinds s i = ground (arith, bit-states_from s.kinds 0 0 i, bit-zero i)
