-- ===== src/Events/Ring/Since.antt =====
-- events/events.c: events_since, when no happening is on its way.
use esp_console_kit.Prelude.{
  ℕ, zero, suc, ◌+◌, ◌≤◌, ◌<◌, ◌≡◌, ◌≢◌, refl, List, [], ◌∷◌, length, ◌==◌, if◌then◌else◌, arith,
}
use Prim.Native.Nat.{bit_and}
use esp_console_kit.Events.State.{kept_slots, Kept, State}
use esp_console_kit.Events.Ring.{slot, Entry, entry_of}

-- The happenings of `rounds` numbers from n on that the mask wants, each as its slot has it.
pub entries : List Kept → ℕ → ℕ → ℕ → List Entry
entries ring mask n zero = []
entries ring mask n (suc rounds) =
    let rest = entries ring mask (n + 1) rounds in
    if bit_and (slot ring n).bit mask == 0 then rest else entry_of n (slot ring n) ∷ rest

-- Each of the last 32 happenings is in its slot.
abbrev pub IsFull : List Kept → ℕ → Type 0
IsFull ring latest = (n : ℕ) → 0 < n → n ≤ latest → latest < n + kept_slots → (slot ring n).n ≡ n

length-entries :
    (ring : List Kept) (mask n rounds : ℕ)
    → ((k : ℕ) → bit_and (slot ring k).bit mask ≢ 0)
    → length (entries ring mask n rounds) ≡ rounds
unfolding entries
length-entries ring mask n zero h = refl
length-entries ring mask n (suc rounds) h =
    ground (arith, h n, length-entries ring mask (n + 1) rounds h)
