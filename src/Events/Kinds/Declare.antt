-- ===== src/Events/Kinds/Declare.antt =====
-- events/events.c: what events_declare leaves (a name that is known, or finds room).
use esp_console_kit.Prelude.{
  ℕ, zero, suc, ◌≤◌, ◌<◌, ◌≡◌, refl, ◌≢◌, false, none, some, List, [], ◌∷◌, ◌++◌, Bytes, length,
  length-append, Option-cases, inl, inr, ◌⊎◌, ltb, arith,
}
use esp_console_kit.Prelude.Errors.{esp_ok}
use esp_console_kit.Events.State.{max_kinds, Callback, Kind, State}
use esp_console_kit.Events.Kinds.{find, set_build, declare_named, declare}
use esp_console_kit.Events.Kinds.Laws.{find_from_new, find-declare_named, find-lt}

length-set_build :
    (ks : List Kind) (j : ℕ) (build : Callback) → length (set_build ks j build) ≡ length ks
unfolding set_build
length-set_build [] j build = refl
length-set_build (k ∷ ks) zero build = refl
length-set_build (k ∷ ks) (suc j) build = omega (arith, length-set_build ks j build)

-- What a state kind is answered by: the builder of the kind of this name.
abbrev pub builder_at : List Kind → ℕ → Callback
builder_at [] i = none
builder_at (k ∷ ks) zero = k.build
builder_at (k ∷ ks) (suc i) = builder_at ks i

builder_at-set_build :
    (ks : List Kind) (j : ℕ) (build : Callback)
    → j < length ks
    → builder_at (set_build ks j build) j ≡ build
unfolding set_build
builder_at-set_build [] j build h = absurd (omega arith)
builder_at-set_build (k ∷ ks) zero build h = refl
builder_at-set_build (k ∷ ks) (suc j) build h = builder_at-set_build ks j build (omega arith)

builder_at-append : (ks : List Kind) (k : Kind) → builder_at (ks ++ k ∷ []) (length ks) ≡ k.build
builder_at-append [] k = refl
builder_at-append (x ∷ ks) k = builder_at-append ks k

-- A declaration that went through: where the kind is found, and with which builder.
pub record Declared (s : State) (name : Bytes) (build : Callback) : Type 0 where
  pub index : ℕ
  pub found : find s name ≡ some index
  pub replaced : builder_at s.kinds index ≡ build
  pub room : length s.kinds ≤ max_kinds

declare_named-known :
    (s : State) (name : Bytes) (build : Callback) (i : ℕ)
    → find s name ≡ some i
    → length s.kinds ≤ max_kinds
    → ((declare_named s name build).0 ≡ esp_ok) × Declared (declare_named s name build).1 name build
declare_named-known s name build i e room = (
  unfold declare_named in rw (e, declare_named),
  record {
    index = i;
    found = find-declare_named s name name build i e;
    replaced =
        unfold declare_named in
        rw (e, declare_named) (builder_at-set_build s.kinds i build (find-lt s name i e));
    room =
        unfold declare_named in
        rw (e, declare_named) (omega (arith, length-set_build s.kinds i build));
  },
)

declare_named_new :
    (s : State) (name : Bytes) (build : Callback)
    → find s name ≡ none
    → length s.kinds < max_kinds
    → ((declare_named s name build).0 ≡ esp_ok) × Declared (declare_named s name build).1 name build
declare_named_new s name build e room = (
  unfold declare_named in rw (e, declare_named) (ground arith),
  record {
    index = length s.kinds;
    found =
        unfold declare_named find in
        rw (e, declare_named, find) (ground (arith, find_from_new name s.kinds build 0));
    replaced =
        unfold declare_named in
        rw (e, declare_named)
          (ground (arith, builder_at-append s.kinds (record { name = name; build = build })));
    room =
        unfold declare_named in
        rw (e, declare_named)
          (ground (arith, length-append s.kinds (record { name = name; build = build } ∷ [])));
  },
)

declare_named_outcome :
    (s : State) (name : Bytes) (build : Callback)
    → length s.kinds ≤ max_kinds
    → (find s name ≢ none) ⊎ (length s.kinds < max_kinds)
    → ((declare_named s name build).0 ≡ esp_ok) × Declared (declare_named s name build).1 name build
declare_named_outcome s name build room free = elim (Option-cases (find s name)) [
  | inr (i, e) ↦ declare_named-known s name build i e room
  | inl e ↦ declare_named_new s name build e (ground (arith, e))
]

-- Where at most 16 kinds are declared, a name of at most 15 bytes that is declared already, or
-- finds room, is declared with ESP_OK: it is then found, with the builder given, and at most 16
-- kinds stand in the table.
pub declare_ok :
    (s : State) (name : Bytes) (build : Callback)
    → length s.kinds ≤ max_kinds
    → length name ≤ 15
    → (find s name ≢ none) ⊎ (length s.kinds < max_kinds)
    → ((declare s (some name) build).0 ≡ esp_ok)
      × Declared (declare s (some name) build).1 name build
declare_ok s name build room short free =
    let e : ltb 15 (length name) ≡ false = ground arith in
    unfold declare in rw e (declare_named_outcome s name build room free)
