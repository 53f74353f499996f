-- ===== src/Events/Parse/Names.antt =====
-- events/events.c: events_parse against the names that the kinds were declared with.
use Prim.Native.Nat.{bit_or}
use esp_console_kit.Prelude.{
  ℕ, zero, suc, ◌+◌, ◌^◌, ◌<◌, ◌≤◌, ◌≡◌, ◌⊎◌, inl, inr, refl, Bool, true, false, not, ◌&&◌, ◌||◌,
  sym, ap, ◌∙◌, Option, none, some, List, [], ◌∷◌, ◌++◌, Bytes, bytes_eq, bytes_eq_iff, length,
  drop, take-drop, drop_all, length-take, min, leb, ltb, ◌==◌, if◌then◌else◌, if_intro, Bool-cases,
  Option-cases, arith,
}
use esp_console_kit.Prelude.Bits.{bit, bit-bit_or, bit-zero, bit-pow, pow-ne-zero}
use esp_console_kit.Events.State.{Kind, State}
use esp_console_kit.Events.Kinds.{all_kinds, find, find_from, kind_bit}
use esp_console_kit.Events.Parse.{mask, bad_name, segment_bit, bad_copy, round, or_all, parse}
use esp_console_kit.Events.Parse.Laws.{segments_of, take_segments, parse-take_segments}

-- Some kind has that name.
abbrev pub named : List Kind → Bytes → Bool
named [] name = false
named (k ∷ ks) name = bytes_eq k.name name || named ks name

-- It is the name of kind i, and of none before.
abbrev pub names : List Kind → ℕ → Bytes → Bool
names [] i name = false
names (k ∷ ks) zero name = bytes_eq k.name name
names (k ∷ ks) (suc i) name = not (bytes_eq k.name name) && names ks i name

-- Every name has at most 15 bytes, as events_declare sees to.
abbrev pub all_short : List Kind → Bool
all_short [] = true
all_short (k ∷ ks) = leb (length k.name) 15 && all_short ks

-- Some segment that is not empty names kind i.
abbrev pub any_names : List Kind → ℕ → List Bytes → Bool
any_names ks i [] = false
any_names ks i ([] ∷ segs) = any_names ks i segs
any_names ks i ((c ∷ cs) ∷ segs) = names ks i (c ∷ cs) || any_names ks i segs

-- The first segment that is neither empty nor the name of a kind.
abbrev pub first_unknown : List Kind → List Bytes → Option Bytes
first_unknown ks [] = none
first_unknown ks ([] ∷ segs) = first_unknown ks segs
first_unknown ks ((c ∷ cs) ∷ segs) =
    if named ks (c ∷ cs) then first_unknown ks segs else some (c ∷ cs)

-- What a buffer of `bad_len` bytes holds of a name: nothing where there is none, or else, before its
-- NUL, all of the name or as much as there is room for.
abbrev pub CutTo : Option ℕ → Bytes → Option Bytes → Type 0
CutTo none seg b = b ≡ none
CutTo (some zero) seg b = b ≡ none
CutTo (some (suc room)) seg none = ⊥
CutTo (some (suc room)) seg (some t) =
    (rest : Bytes) × (seg ≡ t ++ rest)
    × (length t < suc room)
    × ((rest ≡ []) ⊎ (length t + 1 ≡ suc room))

bit_of : Option ℕ → ℕ
bit_of none = 0
bit_of (some j) = 2 ^ j

named_short :
    (ks : List Kind) (name : Bytes) → all_short ks ≡ true → named ks name ≡ true → length name < 16
named_short [] name s h = absurd (cc h)
named_short (k ∷ ks) name s h = elim (Bool-cases (bytes_eq k.name name)) [
  | inl e ↦
      let same = ap (λ xs. length {A = ℕ} xs) ((bytes_eq_iff k.name name).0 e) in
      let short : length k.name ≤ 15 = ground (arith, s) in omega (arith, same, short)
  | inr e ↦ named_short ks name (ground (arith, s)) (ground (arith, h, e))
]

-- No index is below where the search starts.
find_from_below :
    (ks : List Kind) (name : Bytes) (j i : ℕ) → i < j → bit (bit_of (find_from name ks j)) i ≡ false
unfolding find_from bit_of
find_from_below [] name j i h = bit-zero i
find_from_below (k ∷ ks) name j i h =
    if_intro (λ o. bit (bit_of o) i ≡ false) (bytes_eq k.name name) _ _
      (λ _. let p = bit-pow i j in ground (arith, p, h))
      (λ _. find_from_below ks name (j + 1) i (omega (arith, h)))

find_from-names :
    (ks : List Kind) (name : Bytes) (j i : ℕ)
    → bit (bit_of (find_from name ks j)) (j + i) ≡ names ks i name
unfolding find_from bit_of
find_from-names [] name j i = bit-zero (j + i)
find_from-names (k ∷ ks) name j zero =
    if_intro (λ o. bit (bit_of o) (j + 0) ≡ bytes_eq k.name name) (bytes_eq k.name name) _ _
      (λ e. let p = bit-pow (j + 0) j in ground (arith, p, e))
      (λ e. let p = find_from_below ks name (j + 1) (j + 0) (omega arith) in ground (arith, p, e))
find_from-names (k ∷ ks) name j (suc i) =
    if_intro (λ o. bit (bit_of o) (j + suc i) ≡ (not (bytes_eq k.name name) && names ks i name))
      (bytes_eq k.name name) _ _ (λ e. let p = bit-pow (j + suc i) j in ground (arith, p, e))
      (λ e.
        let same : j + suc i ≡ j + 1 + i = omega arith in
        let there = ap (bit (bit_of (find_from name ks (j + 1)))) same in
        let ih = find_from-names ks name (j + 1) i in ground (arith, there, ih, e))

find_from-named :
    (ks : List Kind) (name : Bytes) (j : ℕ)
    → (bit_of (find_from name ks j) == 0) ≡ not (named ks name)
unfolding find_from bit_of
find_from-named [] name j = refl
find_from-named (k ∷ ks) name j =
    if_intro (λ o. (bit_of o == 0) ≡ not (bytes_eq k.name name || named ks name))
      (bytes_eq k.name name) _ _ (λ e. let p = pow-ne-zero j in ground (arith, p, e))
      (λ e. let ih = find_from-named ks name (j + 1) in ground (arith, ih, e))

kind_bit_is : (s : State) (name : Bytes) → kind_bit s name ≡ bit_of (find_from name s.kinds 0)
unfolding kind_bit find bit_of
kind_bit_is s name = elim (Option-cases (find s name)) [
  | inl e ↦ rw (e, kind_bit) refl
  | inr (i, e) ↦ rw (e, kind_bit) refl
]

names_named :
    (ks : List Kind) (i : ℕ) (name : Bytes) → names ks i name ≡ true → named ks name ≡ true
names_named [] i name h = absurd (cc h)
names_named (k ∷ ks) zero name h = ground (arith, h)
names_named (k ∷ ks) (suc i) name h = ground (arith, h, names_named ks i name)

-- What a segment is looked up as.
module _ (s : State) (short : all_short s.kinds ≡ true) (name : Bytes) where
  segment_bit-named : (segment_bit s name == 0) ≡ not (named s.kinds name)
  unfolding segment_bit
  segment_bit-named =
      let is = kind_bit_is s name in
      let known = find_from-named s.kinds name 0 in
      if_intro (λ n. (n == 0) ≡ not (named s.kinds name)) (ltb (length name) 16) _ _
        (λ _. ground (arith, is, known))
        (λ e. let fits = named_short s.kinds name short in ground (arith, e, fits))

  segment_bit-names : (i : ℕ) → bit (segment_bit s name) i ≡ names s.kinds i name
  unfolding segment_bit
  segment_bit-names i =
      let is = ap (λ n. bit n i) (kind_bit_is s name) in
      let known = find_from-names s.kinds name 0 i in
      if_intro (λ n. bit n i ≡ names s.kinds i name) (ltb (length name) 16) _ _
        (λ _.
          let same : i ≡ 0 + i = omega arith in
          is ∙ ap (bit (bit_of (find_from name s.kinds 0))) same ∙ known)
        (λ e.
          let fits = named_short s.kinds name short in
          ground (arith, e, fits, names_named s.kinds i name, bit-zero i))

bad_copy-CutTo : (bad_len : Option ℕ) (seg : Bytes) → CutTo bad_len seg (bad_copy bad_len seg)
unfolding bad_copy
bad_copy-CutTo none seg = refl
bad_copy-CutTo (some zero) seg = refl
bad_copy-CutTo (some (suc room)) seg =
    let n = min (length seg) room in
    let len = length-take n seg in
    (
      drop n seg,
      sym (take-drop n seg),
      omega (arith, len),
      elim (Bool-cases (leb (length seg) room)) [
        | inl e ↦ inl (drop_all n seg (ground (arith, e)))
        | inr e ↦ let more : room < length seg = ground (arith, e) in inr (omega (arith, len, more))
      ],
    )

module _ (s : State) (short : all_short s.kinds ≡ true) (bad_len : Option ℕ) where
  take_segments_known :
      (segs : List Bytes) (m : ℕ)
      → first_unknown s.kinds segs ≡ none
      → (m' : ℕ) × (take_segments s bad_len segs m ≡ mask m')
        × ((i : ℕ) → bit m' i ≡ (bit m i || any_names s.kinds i segs))
  unfolding take_segments round
  take_segments_known [] m h = (m, refl, λ i. ground arith)
  take_segments_known ([] ∷ segs) m h = take_segments_known segs m h
  take_segments_known ((c ∷ cs) ∷ segs) m h =
      let looked = segment_bit-named s short (c ∷ cs) in
      let (m', e, f) =
        take_segments_known segs (bit_or m (segment_bit s (c ∷ cs))) (ground (arith, h)) in
      (
        m',
        ground (arith, e, h, looked),
        λ i. ground (
          arith,
          f i,
          bit-bit_or i m (segment_bit s (c ∷ cs)),
          segment_bit-names s short (c ∷ cs) i,
        ),
      )

  take_segments_unknown :
      (segs : List Bytes) (m : ℕ) (seg : Bytes)
      → first_unknown s.kinds segs ≡ some seg
      → take_segments s bad_len segs m ≡ bad_name (bad_copy bad_len seg)
  unfolding take_segments round
  take_segments_unknown [] m seg h = cc
  take_segments_unknown ([] ∷ segs) m seg h = take_segments_unknown segs m seg h
  take_segments_unknown ((c ∷ cs) ∷ segs) m seg h = ground (
    arith,
    h,
    segment_bit-named s short (c ∷ cs),
    take_segments_unknown segs (bit_or m (segment_bit s (c ∷ cs))) seg,
  )

-- Where no kind has a name of more than 15 bytes, and every segment of the list that is not empty
-- is a kind's name, events_parse returns a mask: its bit i stands exactly if some segment is the
-- name of kind i and of none before, or it is all kinds' bits where no bit would stand.
pub parse_known :
    (s : State) (list : Option Bytes) (bad_len : Option ℕ)
    → all_short s.kinds ≡ true
    → first_unknown s.kinds (segments_of list) ≡ none
    → (m : ℕ) × (parse s list bad_len ≡ some (mask (if m == 0 then all_kinds s else m)))
      × ((i : ℕ) → bit m i ≡ any_names s.kinds i (segments_of list))
unfolding or_all
parse_known s list bad_len short h =
    let (m, e, f) = take_segments_known s short bad_len (segments_of list) 0 h in
    (m, rw (parse-take_segments s list bad_len, e), λ i. ground (arith, f i, bit-zero i))

-- Where no kind has a name of more than 15 bytes, and some segment of the list that is not empty
-- is no kind's name, events_parse fails and writes the first such: nothing where there is no
-- buffer, and otherwise all of it, or as much as fits before the NUL.
pub parse_unknown :
    (s : State) (list : Option Bytes) (bad_len : Option ℕ) (seg : Bytes)
    → all_short s.kinds ≡ true
    → first_unknown s.kinds (segments_of list) ≡ some seg
    → (b : Option Bytes) × (parse s list bad_len ≡ some (bad_name b)) × CutTo bad_len seg b
unfolding or_all
parse_unknown s list bad_len seg short h = (
  bad_copy bad_len seg,
  rw (
    parse-take_segments s list bad_len,
    take_segments_unknown s short bad_len (segments_of list) 0 seg h,
  ),
  bad_copy-CutTo bad_len seg,
)
