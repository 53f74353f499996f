-- ===== src/Events/Sinks/Laws.antt =====
-- events/events.c: what holds of the listeners between any two calls.
use Prim.Native.Nat.{bit_and}
use esp_console_kit.Prelude.{
  ℕ, zero, suc, ◌+◌, ◌^◌, ◌≡◌, refl, Bool, true, false, not, ◌||◌, ◌==◌, ◌&&◌, Option-cases, ap,
  inl, inr, Option, none, some, List, [], ◌∷◌, Bytes, length, length-set, get_or, set, ltb,
  if◌then◌else◌, if_intro, arith,
}
use esp_console_kit.Prelude.Bits.{
  bit, bit-bit_and, bit-bit_or, bit-pow, bit-zero, bit_and-pow, zero-bit_and, pow-ne-zero,
}
use esp_console_kit.Events.State.{State, Sink, Callback, blank_sink, max_sinks, max_kinds}
use esp_console_kit.Prelude.Errors.{EspErr}
use esp_console_kit.Events.Kinds.{find, kind_bit, declare, declare_named}
use esp_console_kit.Events.Sinks.{
  mark, mark_all, notify, changed, listen_from, listen, sink_at, want, unlisten, take_dirty, wants,
  Op, introduce, change, occur, subscribe, rewant, leave, take_op, apply, run,
}

-- A listener is marked dirty only with kinds that it wants, and an unused slot with none.
abbrev pub IsMarked : Sink → Type 0
IsMarked k =
    ((i : ℕ) → (bit k.dirty i && not (bit k.want i)) ≡ false) × ((k.used || k.dirty == 0) ≡ true)

abbrev pub AllMarked : List Sink → Type 0
AllMarked [] = Unit {0}
AllMarked (k ∷ ks) = IsMarked k × AllMarked ks

pub record IsSound (s : State) : Type 0 where
  pub slots : length s.sinks ≡ max_sinks
  pub marked : AllMarked s.sinks

-- One bit is wanted if the listener is there and its mask has it.
pub wants-pow : (k : Sink) (j : ℕ) → wants k (2 ^ j) ≡ (k.used && bit k.want j)
wants-pow k j = ground (arith, bit_and-pow j k.want, pow-ne-zero j)

mark-IsMarked : (state : Bool) (j : ℕ) (k : Sink) → IsMarked k → IsMarked (mark state (2 ^ j) k)
unfolding mark
mark-IsMarked state j k h = (
  λ i. ground (arith, h.0 i, wants-pow k j, bit-bit_or i k.dirty (2 ^ j), bit-pow i j),
  ground (arith, h.1),
)

mark_all-AllMarked :
    (state : Bool) (j : ℕ) (ks : List Sink) → AllMarked ks → AllMarked (mark_all state (2 ^ j) ks)
unfolding mark_all
mark_all-AllMarked state j [] h = tt
mark_all-AllMarked state j (k ∷ ks) h =
    (mark-IsMarked state j k h.0, mark_all-AllMarked state j ks h.1)

pub length-mark_all :
    (state : Bool) (m : ℕ) (ks : List Sink) → length (mark_all state m ks) ≡ length ks
unfolding mark_all
length-mark_all state m [] = refl
length-mark_all state m (k ∷ ks) = omega (arith, length-mark_all state m ks)

IsMarked-blank : IsMarked blank_sink
IsMarked-blank = (λ i. ground (arith, bit-zero i), refl)

set-AllMarked :
    (ks : List Sink) (id : ℕ) (k : Sink) → AllMarked ks → IsMarked k → AllMarked (set ks id k)
set-AllMarked [] id k h hk = tt
set-AllMarked (x ∷ ks) zero k h hk = (hk, h.1)
set-AllMarked (x ∷ ks) (suc id) k h hk = (h.0, set-AllMarked ks id k h.1 hk)

get_or-IsMarked : (ks : List Sink) (id : ℕ) → AllMarked ks → IsMarked (get_or ks id blank_sink)
get_or-IsMarked [] id h = IsMarked-blank
get_or-IsMarked (k ∷ ks) zero h = h.0
get_or-IsMarked (k ∷ ks) (suc id) h = get_or-IsMarked ks id h.1

abbrev Listened : ℕ → Option ℕ × List Sink → Type 0
Listened n r = AllMarked r.1 × (length r.1 ≡ n)

if-Listened :
    (n : ℕ) (b : Bool) (x y : Option ℕ × List Sink)
    → Listened n x
    → Listened n y
    → Listened n (if b then x else y)
if-Listened n true x y hx hy = hx
if-Listened n false x y hx hy = hy

listen_from-Listened :
    (new : Sink) (ks : List Sink) (i : ℕ)
    → IsMarked new
    → AllMarked ks
    → Listened (length ks) (listen_from new ks i)
unfolding listen_from
listen_from-Listened new [] i hn h = (tt, refl)
listen_from-Listened new (k ∷ ks) i hn h =
    let (rest, same) = listen_from-Listened new ks (i + 1) hn h.1 in
    if-Listened (length (k ∷ ks)) k.used _ _ ((h.0, rest), ap suc same) ((hn, h.1), refl)

-- The sinks are kept sound by replacing one.
set-IsSound :
    (s : State) (id : ℕ) (k : Sink)
    → IsSound s
    → IsMarked k
    → IsSound (record s { sinks = set s.sinks id k })
set-IsSound s id k v hk = record {
  slots = omega (arith, length-set s.sinks id k, v.slots);
  marked = set-AllMarked s.sinks id k v.marked hk;
}

notify-IsSound : (s : State) (j : ℕ) (state : Bool) → IsSound s → IsSound (notify s (2 ^ j) state).0
unfolding notify
notify-IsSound s j state v = record {
  slots = omega (arith, length-mark_all state (2 ^ j) s.sinks, v.slots);
  marked = mark_all-AllMarked state j s.sinks v.marked;
}

pub changed-known :
    (s : State) (name : Bytes) (i : ℕ)
    → find s name ≡ some i
    → changed s name ≡ notify s (2 ^ i) true
unfolding changed kind_bit
changed-known s name i e = rw (e, changed, kind_bit) (ground (arith, pow-ne-zero i))

pub changed_unknown : (s : State) (name : Bytes) → find s name ≡ none → changed s name ≡ (s, [])
unfolding changed kind_bit
changed_unknown s name e = rw (e, changed, kind_bit) (ground arith)

changed-IsSound : (s : State) (name : Bytes) → IsSound s → IsSound (changed s name).0
changed-IsSound s name v = elim (Option-cases (find s name)) [
  | inl e ↦ rw (changed_unknown s name e) v
  | inr (i, e) ↦ rw (changed-known s name i e) (notify-IsSound s i true v)
]

if-IsSound : (b : Bool) (s t : State) → IsSound s → IsSound t → IsSound (if b then s else t)
if-IsSound true s t hs ht = hs
if-IsSound false s t hs ht = ht

listen-IsSound :
    (s : State) (mask : ℕ) (fn : Callback) (ctx : ℕ) → IsSound s → IsSound (listen s mask fn ctx).1
unfolding listen
listen-IsSound s mask fn ctx v =
    let new : Sink = record { used = true; want = mask; dirty = 0; notify = fn; ctx = ctx } in
    let (rest, same) =
      listen_from-Listened new s.sinks 0 (λ i. ground (arith, bit-zero i), refl) v.marked in
    record { slots = omega (arith, same, v.slots); marked = rest }

masked : (k : Sink) (mask : ℕ) → k.dirty ≡ 0 → bit_and k.dirty mask ≡ 0
masked k mask e = rw e (zero-bit_and mask)

want-IsSound : (s : State) (id mask : ℕ) → IsSound s → IsSound (want s id mask)
unfolding want
want-IsSound s id mask v =
    let k = sink_at s id in
    let h = get_or-IsMarked s.sinks id v.marked in
    if-IsSound (ltb id max_sinks) _ _
      (set-IsSound s id (record k { want = mask; dirty = bit_and k.dirty mask }) v
        (
          λ i. ground (arith, h.0 i, bit-bit_and i k.dirty mask),
          ground (arith, h.1, masked k mask),
        ))
      v

unlisten-IsSound : (s : State) (id : ℕ) → IsSound s → IsSound (unlisten s id)
unfolding unlisten
unlisten-IsSound s id v =
    if-IsSound (ltb id max_sinks) _ _ (set-IsSound s id blank_sink v IsMarked-blank) v

take_dirty-IsSound : (s : State) (id : ℕ) → IsSound s → IsSound (take_dirty s id).1
unfolding take_dirty
take_dirty-IsSound s id v =
    let h = get_or-IsMarked s.sinks id v.marked in
    take-if (ltb id max_sinks) (
      set-IsSound s id (record (sink_at s id) { dirty = 0 }) v
        (λ i. ground (arith, bit-zero i), ground arith))
  where
    take-if :
        (b : Bool)
        → IsSound (record s { sinks = set s.sinks id (record (sink_at s id) { dirty = 0 }) })
        → IsSound
            (if◌then◌else◌ {A = ℕ × State} b
              (
                (sink_at s id).dirty,
                record s { sinks = set s.sinks id (record (sink_at s id) { dirty = 0 }) },
              )
              (0, s)).1
    take-if true t = t
    take-if false t = v

-- A declaration leaves the listeners as they are.
declare_named-sinks :
    (s : State) (name : Bytes) (build : Callback) → (declare_named s name build).1.sinks ≡ s.sinks
unfolding declare_named
declare_named-sinks s name build = elim (Option-cases (find s name)) [
  | inl e ↦
      rw (e, declare_named)
        (if_intro (λ (r : EspErr × State). r.1.sinks ≡ s.sinks) (ltb (length s.kinds) max_kinds) _ _
          (λ _. refl) (λ _. refl))
  | inr (i, e) ↦ rw (e, declare_named) refl
]

pub declare-sinks :
    (s : State) (name : Option Bytes) (build : Callback) → (declare s name build).1.sinks ≡ s.sinks
unfolding declare
declare-sinks s none build = refl
declare-sinks s (some name) build =
    if_intro (λ (r : EspErr × State). r.1.sinks ≡ s.sinks) (ltb 15 (length name)) _ _ (λ _. refl)
      (λ _. declare_named-sinks s name build)

declare-IsSound :
    (s : State) (name : Option Bytes) (build : Callback)
    → IsSound s
    → IsSound (declare s name build).1
declare-IsSound s name build v =
    let e = declare-sinks s name build in record { slots = rw e v.slots; marked = rw e v.marked }

-- Every call keeps the listeners sound, whatever its arguments.
pub apply-IsSound : (s : State) (op : Op) → IsSound s → IsSound (apply s op)
apply-IsSound s (introduce name build) v = unfold apply in declare-IsSound s name build v
apply-IsSound s (change name) v = unfold apply in changed-IsSound s name v
apply-IsSound s (occur name) v = elim (Option-cases (find s name)) [
  | inl e ↦ unfold apply in rw (e, apply) v
  | inr (i, e) ↦ unfold apply in rw (e, apply) (notify-IsSound s i false v)
]
apply-IsSound s (subscribe mask fn ctx) v = unfold apply in listen-IsSound s mask fn ctx v
apply-IsSound s (rewant id mask) v = unfold apply in want-IsSound s id mask v
apply-IsSound s (leave id) v = unfold apply in unlisten-IsSound s id v
apply-IsSound s (take_op id) v = unfold apply in take_dirty-IsSound s id v

-- Any changes, happenings, declarations and calls of listeners from a sound state leave it sound:
-- a listener is marked only with kinds that it wants, and an unused slot with none.
pub run-IsSound : (ops : List Op) (s : State) → IsSound s → IsSound (run s ops)
unfolding run
run-IsSound [] s v = v
run-IsSound (op ∷ ops) s v = run-IsSound ops (apply s op) (apply-IsSound s op v)
