-- ===== src/Events/Ring/Window.antt =====
-- events/events.c: events_happened on several tasks at once. A happening takes its number in one
-- critical section and its slot in a later one, and others may come between, in any order.
use esp_console_kit.Prelude.{
  ℕ, ◌+◌, ◌-◌, ◌%◌, ◌^◌, ◌≤◌, ◌<◌, ◌≡◌, ◌⊎◌, inl, inr, Bool, true, false, ◌||◌, Option, none, some,
  List, Bytes, Bool-cases, length, length-set, get_or-set_self, get_or-set_ne, ltb, ◌==◌,
  if◌then◌else◌, arith,
}
use esp_console_kit.Events.State.{kept_slots, Kept, blank_kept}
use esp_console_kit.Events.Ring.{next_number, store, slot}

-- The ring and the count, with the numbers that are taken and not stored yet, and (for the
-- statements only) those whose text could not be printed.
pub record Sys : Type 0 where
  pub ring : List Kept
  pub count : ℕ
  pub pending : ℕ → Bool
  pub failed : ℕ → Bool

abbrev pub with : (ℕ → Bool) → ℕ → ℕ → Bool
with p n i = i == n || p i

abbrev pub without : (ℕ → Bool) → ℕ → ℕ → Bool
without p n i = if i == n then false else p i

abbrev pub begun : Sys → Sys
begun y = record y { count = next_number y.count; pending = with y.pending (next_number y.count) }

abbrev pub stored : Sys → ℕ → ℕ → Option Bytes → Sys
stored y n bit json = record {
  ring = store y.ring n bit json;
  count = y.count;
  pending = without y.pending n;
  failed = elim json [ none ↦ with y.failed n | some _ ↦ y.failed ];
}

-- One critical section of some task. Numbers do not wrap below 2^32 - 1 happenings.
pub data Step (y z : Sys) : Type 0 where
  begin : y.count < 2 ^ 32 - 1 → z ≡ begun y → Step y z
  finish :
      (n bit : ℕ) (json : Option Bytes) → y.pending n ≡ true → z ≡ stored y n bit json → Step y z

pub data Reach (y : Sys) : Sys → Type 0 where
  here : Reach y y
  next : {z w : Sys} → Reach y z → Step z w → Reach y w

-- Number n of the last 32 is on its way, could not be printed, or is in its slot.
abbrev pub Kept3 : Sys → ℕ → Type 0
Kept3 y n = (y.pending n ≡ true) ⊎ ((y.failed n ≡ true) ⊎ ((slot y.ring n).n ≡ n))

pub record Inv (y : Sys) : Type 0 where
  pub slots : length y.ring ≡ kept_slots
  pub small : y.count ≤ 2 ^ 32 - 1
  pub taken : (n : ℕ) → y.pending n ≡ true → (0 < n) × (n ≤ y.count)
  pub past :
      (n : ℕ)
      → ((slot y.ring n).n ≤ y.count)
        × (((slot y.ring n).n ≡ 0) ⊎ ((slot y.ring n).n % kept_slots ≡ n % kept_slots))
  pub window : (n : ℕ) → 0 < n → n ≤ y.count → y.count < n + kept_slots → Kept3 y n

begun-Inv : (y : Sys) → y.count < 2 ^ 32 - 1 → Inv y → Inv (begun y)
begun-Inv y h v = record {
  slots = v.slots;
  small = omega arith;
  taken = λ n e. ground (arith, v.taken n);
  past = λ n. (ground (arith, v.past n), (v.past n).1);
  window = λ n a b c. ground (arith, v.window n);
}

slot-store :
    (ring : List Kept) (n bit i : ℕ) (json : Option Bytes)
    → length ring ≡ kept_slots
    → (slot (store ring n bit json) i).n ≡ (
        if ltb (slot ring n).n n
        then (if i % kept_slots == n % kept_slots
            then elim json [ none ↦ 0 | some _ ↦ n ]
            else (slot ring i).n)
        else (slot ring i).n)
unfolding store
slot-store ring n bit i json len =
    let new : Kept = record { n = elim json [ none ↦ 0 | some _ ↦ n ]; bit = bit; json = json } in
    elim (Bool-cases (i % kept_slots == n % kept_slots)) [
      | inl e ↦
          let q : i % kept_slots ≡ n % kept_slots = ground arith in
          rw q (ground (arith, get_or-set_self ring (n % kept_slots) new blank_kept))
      | inr e ↦
          ground (arith, e, get_or-set_ne ring (n % kept_slots) (i % kept_slots) new blank_kept)
    ]

length-store :
    (ring : List Kept) (n bit : ℕ) (json : Option Bytes)
    → length (store ring n bit json) ≡ length ring
unfolding store
length-store ring n bit json =
    let new : Kept = record { n = elim json [ none ↦ 0 | some _ ↦ n ]; bit = bit; json = json } in
    ground (arith, length-set ring (n % kept_slots) new)

stored-Inv :
    (y : Sys) (n bit : ℕ) (json : Option Bytes)
    → y.pending n ≡ true
    → Inv y
    → Inv (stored y n bit json)
stored-Inv y n bit json e v = record {
  slots = ground (arith, length-store y.ring n bit json, v.slots);
  small = v.small;
  taken = λ i p. ground (arith, v.taken i);
  past = λ i. (
    ground (arith, slot-store y.ring n bit i json v.slots, v.past i, v.taken n),
    ground (arith, slot-store y.ring n bit i json v.slots, v.past i),
  );
  window = λ i a b c. ground (
    arith,
    slot-store y.ring n bit i json v.slots,
    v.window i,
    v.past n,
    v.past i,
    v.taken n,
    v.taken i,
  );
}

Step-Inv : (y z : Sys) → Step y z → Inv y → Inv z
Step-Inv y z (begin h e) v = rw e (begun-Inv y h v)
Step-Inv y z (finish n bit json p e) v = rw e (stored-Inv y n bit json p v)

-- However the critical sections of the happenings interleave, from a state that keeps the
-- invariant and below 2^32 - 1 happenings, each of the last 32 numbers is still to be stored, or
-- had no text, or is in its slot: an older one never takes it away.
pub Reach-Inv : {y z : Sys} → Inv y → Reach y z → Inv z
Reach-Inv v here = v
Reach-Inv v (next {z} {w} r st) = Step-Inv z w st (Reach-Inv v r)
