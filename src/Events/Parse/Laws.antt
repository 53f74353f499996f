-- ===== src/Events/Parse/Laws.antt =====
-- events/events.c: events_parse against the list of the text's segments.
use esp_console_kit.Prelude.{
  ℕ, zero, suc, ◌≤◌, ◌≡◌, refl, sym, ap, ◌∙◌, Option, none, some, List, [], ◌∷◌, Bytes, split_at,
  length, ◌==◌, if◌then◌else◌, arith,
}
use esp_console_kit.Events.State.{State}
use esp_console_kit.Events.Parse.{
  Parsed, mask, Round, go_on, stop, round, parse_loop, or_all, text_length, parse,
}

-- The text cut at each comma, by its first byte.
abbrev pub push_first : ℕ → List Bytes → List Bytes
push_first c [] = (c ∷ []) ∷ []
push_first c (seg ∷ segs) = (c ∷ seg) ∷ segs

abbrev pub segments : Bytes → List Bytes
segments [] = [] ∷ []
segments (c ∷ cs) = let rest = segments cs in if c == b',' then [] ∷ rest else push_first c rest

-- The segments taken in turn.
unfoldable pub take_segments : State → Option ℕ → List Bytes → ℕ → Parsed
take_segments s bad_len [] m = mask m
take_segments s bad_len (seg ∷ segs) m = elim (round s bad_len seg m) [
  | stop r ↦ r
  | go_on m' ↦ take_segments s bad_len segs m'
]

abbrev pub segments_of : Option Bytes → List Bytes
segments_of none = []
segments_of (some p) = segments p

segments-split_at :
    (p : Bytes) → let (seg, rest) = split_at b',' p in segments p ≡ seg ∷ segments_of rest
unfolding split_at
segments-split_at [] = refl
segments-split_at (c ∷ cs) = ground (arith, segments-split_at cs)

split_at-lt : (c : ℕ) (cs : Bytes) → text_length (split_at b',' (c ∷ cs)).1 ≤ length cs
unfolding split_at text_length
split_at-lt c [] = ground arith
split_at-lt c (d ∷ cs) = ground (arith, split_at-lt d cs)

module _ (s : State) (bad_len : Option ℕ) where
  loop_step :
      (fuel c : ℕ) (cs seg : Bytes) (rest : Option Bytes) (m : ℕ) (r : Round)
      → split_at b',' (c ∷ cs) ≡ (seg, rest)
      → round s bad_len seg m ≡ r
      → parse_loop s bad_len (suc fuel) (some (c ∷ cs)) m
        ≡ elim r [ stop p ↦ some p | go_on m' ↦ parse_loop s bad_len fuel rest m' ]
  unfolding parse_loop
  loop_step fuel c cs seg rest m r e f = ground (arith, e, f)

  segments_step :
      (seg : Bytes) (segs : List Bytes) (m : ℕ) (r : Round)
      → round s bad_len seg m ≡ r
      → take_segments s bad_len (seg ∷ segs) m
        ≡ elim r [ stop p ↦ p | go_on m' ↦ take_segments s bad_len segs m' ]
  unfolding take_segments
  segments_step seg segs m r f = ground (arith, f)

  parse_loop-take_segments :
      (fuel : ℕ) (p : Option Bytes) (m : ℕ)
      → text_length p ≤ fuel
      → parse_loop s bad_len fuel p m ≡ some (take_segments s bad_len (segments_of p) m)
  unfolding text_length
  parse_loop-take_segments fuel none m h = unfold parse_loop take_segments in refl
  parse_loop-take_segments fuel (some []) m h = unfold parse_loop take_segments round in refl
  parse_loop-take_segments zero (some (c ∷ cs)) m h = absurd (omega arith)
  parse_loop-take_segments (suc fuel) (some (c ∷ cs)) m h =
      go (round s bad_len sp.0 m) refl
        (λ m'. parse_loop-take_segments fuel sp.1 m' (omega (arith, split_at-lt c cs)))
    where
      sp : Bytes × Option Bytes
      sp = split_at b',' (c ∷ cs)

      go :
          (r : Round)
          → round s bad_len sp.0 m ≡ r
          → ((m' : ℕ)
              → parse_loop s bad_len fuel sp.1 m'
                ≡ some (take_segments s bad_len (segments_of sp.1) m'))
          → parse_loop s bad_len (suc fuel) (some (c ∷ cs)) m
            ≡ some (take_segments s bad_len (segments (c ∷ cs)) m)
      go (stop p) f ih =
          loop_step fuel c cs sp.0 sp.1 m (stop p) refl f
          ∙ ap some (
              sym (
                ap (λ l. take_segments s bad_len l m) (segments-split_at (c ∷ cs))
                ∙ segments_step sp.0 (segments_of sp.1) m (stop p) f))
      go (go_on m') f ih =
          loop_step fuel c cs sp.0 sp.1 m (go_on m') refl f
          ∙ ih m'
          ∙ ap some (
              sym (
                ap (λ l. take_segments s bad_len l m) (segments-split_at (c ∷ cs))
                ∙ segments_step sp.0 (segments_of sp.1) m (go_on m') f))

-- events_parse always returns, and takes the text's segments in turn, as if they were cut first.
pub parse-take_segments :
    (s : State) (list : Option Bytes) (bad_len : Option ℕ)
    → parse s list bad_len ≡ some (or_all s (take_segments s bad_len (segments_of list) 0))
unfolding parse
parse-take_segments s list bad_len =
    rw (parse_loop-take_segments s bad_len (text_length list) list 0 (omega arith), parse)
