-- ===== src/Events/Sinks/Changes.antt =====
-- events/events.c: what a change leaves for each listener to take, and that it stays there.
use esp_console_kit.Prelude.{
  ℕ, zero, suc, ◌+◌, ◌^◌, ◌<◌, ◌≡◌, refl, ap, Bool, true, false, not, ◌&&◌, ◌||◌, Option-cases, inl,
  inr, Option, none, some, List, [], ◌∷◌, Bytes, get_or, get_or-set_ne, set, ltb, ◌==◌,
  if◌then◌else◌, arith,
}
use esp_console_kit.Prelude.Bits.{bit, bit-bit_or, bit-pow}
use esp_console_kit.Events.State.{State, Sink, blank_sink, max_sinks}
use esp_console_kit.Events.Kinds.{find, declare}
use esp_console_kit.Events.Sinks.{
  mark, mark_all, notify, changed, listen_from, listen, sink_at, want, unlisten, take_dirty, Op,
  introduce, change, occur, subscribe, rewant, leave, take_op, apply, run,
}
use esp_console_kit.Events.Sinks.Laws.{declare-sinks, wants-pow, changed-known, changed_unknown}

get_or-mark_all :
    (state : Bool) (m : ℕ) (ks : List Sink) (id : ℕ)
    → get_or (mark_all state m ks) id blank_sink ≡ mark state m (get_or ks id blank_sink)
unfolding mark_all mark
get_or-mark_all state m [] id = refl
get_or-mark_all state m (k ∷ ks) zero = refl
get_or-mark_all state m (k ∷ ks) (suc id) = get_or-mark_all state m ks id

-- Whether `name` is kind i.
abbrev pub is_index : Option ℕ → ℕ → Bool
is_index none i = false
is_index (some j) i = i == j

abbrev pub is_kind : State → Bytes → ℕ → Bool
is_kind s name i = is_index (find s name) i

bit-mark :
    (i j : ℕ) (k : Sink)
    → bit (mark true (2 ^ j) k).dirty i ≡ (bit k.dirty i || (k.used && bit k.want i && i == j))
unfolding mark
bit-mark i j k = ground (arith, wants-pow k j, bit-bit_or i k.dirty (2 ^ j), bit-pow i j)

dirty-changed :
    (s : State) (name : Bytes) (id i : ℕ)
    → let k = sink_at s id in
      bit (sink_at (changed s name).0 id).dirty i
      ≡ (bit k.dirty i || (k.used && bit k.want i && is_kind s name i))
dirty-changed s name id i = elim (Option-cases (find s name)) [
  | inl e ↦ rw (changed_unknown s name e, e) (ground arith)
  | inr (j, e) ↦
      rw (changed-known s name j e, e)
        (unfold notify in
          rw (get_or-mark_all true (2 ^ j) s.sinks id) (bit-mark i j (sink_at s id)))
]

-- What the listener of a slot takes right after a change is what it had to take before, and the
-- kind that changed if the listener is there and wants it.
take_dirty-changed :
    (s : State) (name : Bytes) (id i : ℕ)
    → id < max_sinks
    → let k = sink_at s id in
      bit (take_dirty (changed s name).0 id).0 i
      ≡ (bit (take_dirty s id).0 i || (k.used && bit k.want i && is_kind s name i))
unfolding take_dirty
take_dirty-changed s name id i h = ground (arith, dirty-changed s name id i)

-- The calls that a listener makes for itself and that clear what it has to take.
abbrev pub clears : ℕ → Op → Bool
clears id (introduce name build) = false
clears id (change name) = false
clears id (occur name) = false
clears id (subscribe mask fn ctx) = false
clears id (rewant j mask) = j == id
clears id (leave j) = j == id
clears id (take_op j) = j == id

abbrev pub none_clears : ℕ → List Op → Bool
none_clears id [] = true
none_clears id (op ∷ ops) = not (clears id op) && none_clears id ops

-- The listener `id` is there and has kind i to take.
pub record Owes (s : State) (id i : ℕ) : Type 0 where
  pub there : (sink_at s id).used ≡ true
  pub dirty : bit (sink_at s id).dirty i ≡ true

mark-Owes :
    (state : Bool) (j i : ℕ) (k : Sink)
    → k.used ≡ true
    → bit k.dirty i ≡ true
    → ((mark state (2 ^ j) k).used ≡ true) × (bit (mark state (2 ^ j) k).dirty i ≡ true)
unfolding mark
mark-Owes state j i k u d = ground (arith, bit-bit_or i k.dirty (2 ^ j))

notify-Owes :
    (s : State) (j : ℕ) (state : Bool) (id i : ℕ)
    → Owes s id i
    → Owes (notify s (2 ^ j) state).0 id i
unfolding notify
notify-Owes s j state id i o =
    let (u, d) = mark-Owes state j i (sink_at s id) o.there o.dirty in
    record {
      there = rw (get_or-mark_all state (2 ^ j) s.sinks id) u;
      dirty = rw (get_or-mark_all state (2 ^ j) s.sinks id) d;
    }

-- A new listener takes no slot that is in use.
get_or-listen_from :
    (new : Sink) (ks : List Sink) (n id : ℕ)
    → (get_or ks id blank_sink).used ≡ true
    → get_or (listen_from new ks n).1 id blank_sink ≡ get_or ks id blank_sink
unfolding listen_from
get_or-listen_from new [] n id u = cc
get_or-listen_from new (k ∷ ks) n zero u = ground (arith, u)
get_or-listen_from new (k ∷ ks) n (suc id) u =
    ground (arith, get_or-listen_from new ks (n + 1) id u)

-- The sinks of `s` with another at `j`, where it is written at all.
kept_elsewhere :
    (s : State) (j id i : ℕ) (k : Sink) (b : Bool)
    → (j == id) ≡ false
    → Owes s id i
    → Owes (if b then record s { sinks = set s.sinks j k } else s) id i
kept_elsewhere s j id i k false ne o = o
kept_elsewhere s j id i k true ne o =
    let e : get_or (set s.sinks j k) id blank_sink ≡ sink_at s id =
      get_or-set_ne s.sinks j id k blank_sink (λ p. ground (arith, p)) in
    record { there = rw e o.there; dirty = rw e o.dirty }

changed-Owes : (s : State) (name : Bytes) (id i : ℕ) → Owes s id i → Owes (changed s name).0 id i
changed-Owes s name id i o = elim (Option-cases (find s name)) [
  | inl e ↦ rw (changed_unknown s name e) o
  | inr (j, e) ↦ rw (changed-known s name j e) (notify-Owes s j true id i o)
]

take_if-Owes :
    (s t : State) (n id i : ℕ) (b : Bool)
    → Owes t id i
    → Owes s id i
    → Owes (if◌then◌else◌ {A = ℕ × State} b (n, t) (0, s)).1 id i
take_if-Owes s t n id i true ht hs = ht
take_if-Owes s t n id i false ht hs = hs

-- No call but the listener's own clears what it has to take.
apply-Owes :
    (s : State) (op : Op) (id i : ℕ) → clears id op ≡ false → Owes s id i → Owes (apply s op) id i
unfolding apply
apply-Owes s (introduce name build) id i c o =
    let e : sink_at (declare s name build).1 id ≡ sink_at s id =
      ap (λ ks. get_or ks id blank_sink) (declare-sinks s name build) in
    record { there = rw e o.there; dirty = rw e o.dirty }
apply-Owes s (change name) id i c o = changed-Owes s name id i o
apply-Owes s (occur name) id i c o = elim (Option-cases (find s name)) [
  | inl e ↦ rw (e, apply) o
  | inr (j, e) ↦ rw (e, apply) (notify-Owes s j false id i o)
]
apply-Owes s (subscribe mask fn ctx) id i c o =
    let new : Sink = record { used = true; want = mask; dirty = 0; notify = fn; ctx = ctx } in
    let e : get_or (listen_from new s.sinks 0).1 id blank_sink ≡ sink_at s id =
      get_or-listen_from new s.sinks 0 id o.there in
    unfold listen in record { there = rw e o.there; dirty = rw e o.dirty }
apply-Owes s (rewant j mask) id i c o =
    unfold want in kept_elsewhere s j id i _ (ltb j max_sinks) c o
apply-Owes s (leave j) id i c o = unfold unlisten in kept_elsewhere s j id i _ (ltb j max_sinks) c o
apply-Owes s (take_op j) id i c o =
    take_if-Owes s _ (sink_at s j).dirty id i (ltb j max_sinks)
      (kept_elsewhere s j id i (record (sink_at s j) { dirty = 0 }) true c o) o

run-Owes :
    (ops : List Op) (s : State) (id i : ℕ)
    → none_clears id ops ≡ true
    → Owes s id i
    → Owes (run s ops) id i
unfolding run
run-Owes [] s id i c o = o
run-Owes (op ∷ ops) s id i c o =
    run-Owes ops (apply s op) id i (ground arith) (apply-Owes s op id i (ground arith) o)

mark_new :
    (i : ℕ) (k : Sink)
    → k.used ≡ true
    → bit k.want i ≡ true
    → ((mark true (2 ^ i) k).used ≡ true) × (bit (mark true (2 ^ i) k).dirty i ≡ true)
mark_new i k u w = (unfold mark in ground arith, ground (arith, bit-mark i i k))

changed-Owes_new :
    (s : State) (name : Bytes) (id i : ℕ)
    → find s name ≡ some i
    → (sink_at s id).used ≡ true
    → bit (sink_at s id).want i ≡ true
    → Owes (changed s name).0 id i
changed-Owes_new s name id i e u w =
    let (u', d') = mark_new i (sink_at s id) u w in
    rw (changed-known s name i e) (
      unfold notify in
      record {
        there = rw (get_or-mark_all true (2 ^ i) s.sinks id) u';
        dirty = rw (get_or-mark_all true (2 ^ i) s.sinks id) d';
      })

take-owed : (s : State) (id i : ℕ) → id < max_sinks → Owes s id i → bit (take_dirty s id).0 i ≡ true
unfolding take_dirty
take-owed s id i h o = ground (arith, o.dirty)

-- A change of a declared kind that a listener of one of the slots wants is there to take after
-- any further changes, happenings, declarations and calls of listeners, its own to change what it
-- wants, to leave or to take excepted.
pub change_not_lost :
    (s : State) (name : Bytes) (ops : List Op) (id i : ℕ)
    → id < max_sinks
    → find s name ≡ some i
    → (sink_at s id).used ≡ true
    → bit (sink_at s id).want i ≡ true
    → none_clears id ops ≡ true
    → bit (take_dirty (run (changed s name).0 ops) id).0 i ≡ true
change_not_lost s name ops id i h e u w c =
    let sound : Owes (changed s name).0 id i = changed-Owes_new s name id i e u w in
    let o = run-Owes ops (changed s name).0 id i c sound in
    take-owed (run (changed s name).0 ops) id i h o
