-- ===== src/Events/Kinds/Laws.antt =====
-- events/events.c: the correspondence of a kind's name, index and bit (find, index_of,
-- events_declare, events_bit, events_name).
use esp_console_kit.Prelude.{
  ℕ, zero, suc, ◌+◌, ◌^◌, ◌≤◌, ◌<◌, ◌≡◌, refl, ◌≢◌, Bool, true, false, ◌&&◌, Option, none, some,
  List, [], ◌∷◌, ◌++◌, Bytes, bytes_eq, bytes_eq_iff, length, get_elem?, Option-cases, Bool-cases,
  inl, inr, bytes_eq_refl, ◌==◌, arith,
}
use esp_console_kit.Events.State.{max_kinds, Callback, Kind, State}
use esp_console_kit.Events.Kinds.{
  find_from, find, index_of, set_build, declare_named, declare, kind_bit, kind_name,
}

-- Every bit of a 32-bit mask has its index.
names_index : ℕ → Bool
names_index i = elim (index_of (2 ^ i)) [ none ↦ false | some j ↦ j == i ]

-- What holds of `n` numbers from `first` on.
holds_from : (ℕ → Bool) → ℕ → ℕ → Bool
holds_from ok first zero = true
holds_from ok first (suc n) = ok first && holds_from ok (suc first) n

at_index :
    (ok : ℕ → Bool) (n first k : ℕ) → k < n → holds_from ok first n ≡ true → ok (first + k) ≡ true
unfolding holds_from
at_index ok zero first k h all = absurd (omega arith)
at_index ok (suc n) first zero h all =
    let e : first + 0 ≡ first = omega arith in rw e (ground arith)
at_index ok (suc n) first (suc k) h all =
    let e : first + suc k ≡ suc first + k = omega arith in
    rw e (at_index ok n (suc first) k (omega arith) (ground arith))

every_index : holds_from names_index 0 32 ≡ true
unfolding holds_from names_index index_of
every_index = refl

pub index_of-pow : (i : ℕ) → i < 32 → index_of (2 ^ i) ≡ some i
unfolding names_index
index_of-pow i h = ground (arith, at_index names_index 32 0 i h every_index)

-- Where `find_from` stops, counted from its start: a kind of the name asked for.
record FoundAt (name : Bytes) (ks : List Kind) (i j : ℕ) : Type 0 where
  at : ℕ
  offset : j ≡ i + at
  inside : at < length ks
  kind : Kind
  entry : get_elem? ks at ≡ some kind
  named : kind.name ≡ name

find_from_sound :
    (name : Bytes) (ks : List Kind) (i j : ℕ) → find_from name ks i ≡ some j → FoundAt name ks i j
unfolding find_from
find_from_sound name [] i j h = cc
find_from_sound name (k ∷ ks) i j h = elim (Bool-cases (bytes_eq k.name name)) [
  | inl e ↦ record {
    at = 0;
    offset = ground arith;
    inside = omega arith;
    kind = k;
    entry = refl;
    named = (bytes_eq_iff k.name name).0 e;
  }
  | inr e ↦ later (find_from_sound name ks (i + 1) j (rw e at h))
]
  where
    later : FoundAt name ks (i + 1) j → FoundAt name (k ∷ ks) i j
    later f = record {
      at = suc f.at;
      offset = omega (arith, f.offset);
      inside = omega (arith, f.inside);
      kind = f.kind;
      entry = f.entry;
      named = f.named;
    }

find_sound :
    (s : State) (name : Bytes) (i : ℕ)
    → find s name ≡ some i
    → (i < length s.kinds) × ((k : Kind) × (get_elem? s.kinds i ≡ some k) × (k.name ≡ name))
unfolding find
find_sound s name i h =
    let f = find_from_sound name s.kinds 0 i h in
    let e : i ≡ f.at = omega (arith, f.offset) in rw e ((f.inside, (f.kind, f.entry, f.named)))

pub find-lt : (s : State) (name : Bytes) (i : ℕ) → find s name ≡ some i → i < length s.kinds
find-lt s name i h = (find_sound s name i h).0

-- Where at most 16 kinds are declared, a declared kind's bit names it again.
kind_name-kind_bit :
    (s : State) (name : Bytes)
    → length s.kinds ≤ max_kinds
    → kind_bit s name ≢ 0
    → kind_name s (kind_bit s name) ≡ some name
unfolding kind_bit kind_name
kind_name-kind_bit s name room h = elim (Option-cases (find s name)) [
  | inl e ↦ absurd (h (rw (e, kind_bit)))
  | inr (i, e) ↦
      let f = find_sound s name i e in rw (e, kind_bit) (ground (arith, f, index_of-pow i))
]

-- Declaring finds the kinds that were there at the same index.
find_from-set_build :
    (name : Bytes) (ks : List Kind) (i j : ℕ) (build : Callback)
    → find_from name (set_build ks j build) i ≡ find_from name ks i
unfolding find_from set_build
find_from-set_build name [] i j build = refl
find_from-set_build name (k ∷ ks) i zero build = refl
find_from-set_build name (k ∷ ks) i (suc j) build = rw (find_from-set_build name ks (i + 1) j build)

find_from-append :
    (name : Bytes) (ks : List Kind) (new : Kind) (i j : ℕ)
    → find_from name ks i ≡ some j
    → find_from name (ks ++ new ∷ []) i ≡ some j
unfolding find_from
find_from-append name [] new i j h = cc
find_from-append name (k ∷ ks) new i j h = ground (arith, find_from-append name ks new (i + 1) j)

pub find_from_new :
    (name : Bytes) (ks : List Kind) (build : Callback) (i : ℕ)
    → find_from name ks i ≡ none
    → find_from name (ks ++ record { name = name; build = build } ∷ []) i ≡ some (i + length ks)
unfolding find_from
find_from_new name [] build i h = ground (arith, bytes_eq_refl name)
find_from_new name (k ∷ ks) build i h = ground (arith, find_from_new name ks build (i + 1))

pub find-declare_named :
    (s : State) (name new : Bytes) (build : Callback) (i : ℕ)
    → find s name ≡ some i
    → find (declare_named s new build).1 name ≡ some i
unfolding find declare_named
find-declare_named s name new build i h = ground (
  arith,
  find_from-set_build name s.kinds 0 (elim (find_from new s.kinds 0) [ none ↦ 0 | some j ↦ j ])
      build,
  find_from-append name s.kinds (record { name = new; build = build }) 0 i,
)

-- A declared kind keeps its bit, whatever is declared later, under its own name or another.
kind_bit-declare :
    (s : State) (name : Bytes) (new : Option Bytes) (build : Callback)
    → kind_bit s name ≢ 0
    → kind_bit (declare s new build).1 name ≡ kind_bit s name
unfolding declare
kind_bit-declare s name none build h = refl
kind_bit-declare s name (some new) build h = elim (Option-cases (find s name)) [
  | inl e ↦ absurd (h (unfold kind_bit in rw (e, kind_bit)))
  | inr (i, e) ↦ unfold kind_bit in ground (arith, e, find-declare_named s name new build i e)
]
