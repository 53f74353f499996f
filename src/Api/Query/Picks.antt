-- ===== src/Api/Query/Picks.antt =====
-- api_core/api_core.c: which segment of a query answers for a key, and with what.
use esp_console_kit.Prelude.{
  ℕ, ◌≡◌, ◌≢◌, ◌⊎◌, inl, inr, refl, sym, ap, ◌∙◌, Option, none, some, List, [], ◌∷◌, ◌++◌,
  append-nil, Bytes, ◌==◌, if_intro, if◌then◌else◌, arith,
}
use esp_console_kit.Segments.{walk-first_answer, first_answer, segments_of, text_length}
use esp_console_kit.Api.Query.{url_decode, after_key, value_of, query}

-- What a segment says of a key: nothing, if it is neither the key nor the key, '=' and a value; or
-- the empty value, or the value as it is decoded.
abbrev pub Reads : ℕ → Bytes → Bytes → Option Bytes → Type 0
Reads out_len key seg none = (seg ≢ key) × ((v : Bytes) → seg ≢ key ++ b'=' ∷ v)
Reads out_len key seg (some x) =
    ((seg ≡ key) × (x ≡ [])) ⊎ ((v : Bytes) × (seg ≡ key ++ b'=' ∷ v) × (x ≡ url_decode v out_len))

-- The first segment that says something answers.
abbrev pub Picks : ℕ → Bytes → List Bytes → Option Bytes → Type 0
Picks out_len key [] a = a ≡ none
Picks out_len key (seg ∷ segs) none = Reads out_len key seg none × Picks out_len key segs none
Picks out_len key (seg ∷ segs) (some x) =
    Reads out_len key seg (some x) ⊎ (Reads out_len key seg none × Picks out_len key segs (some x))

after_key_sound : (key seg rest : Bytes) → after_key key seg ≡ some rest → seg ≡ key ++ rest
unfolding after_key
after_key_sound [] seg rest h = cc h
after_key_sound (k ∷ ks) [] rest h = absurd (cc h)
after_key_sound (k ∷ ks) (c ∷ cs) rest h =
    if_intro (λ (o : Option Bytes). o ≡ some rest → c ∷ cs ≡ k ∷ (ks ++ rest)) (c == k) _ _
      (λ e g.
        let same : c ≡ k = ground (arith, e) in
        ap (λ (a : ℕ). a ∷ cs) same ∙ ap (λ (l : Bytes). k ∷ l) (after_key_sound ks cs rest g))
      (λ _ g. absurd (cc g)) h

after_key-append : (key rest : Bytes) → after_key key (key ++ rest) ≡ some rest
unfolding after_key
after_key-append [] rest = refl
after_key-append (k ∷ ks) rest = ground (arith, after_key-append ks rest)

module _ (out_len : ℕ) (key seg : Bytes) where
  found_behind : (rest : Bytes) → seg ≡ key ++ rest → after_key key seg ≡ some rest
  found_behind rest e = ap (after_key key) e ∙ after_key-append key rest

  found_alone : seg ≡ key → after_key key seg ≡ some []
  found_alone e = found_behind [] (e ∙ sym (append-nil key))

  each_case :
      (o : Option Bytes)
      → after_key key seg ≡ o
      → Reads out_len key seg (elim o [
        | none ↦ none
        | some rest ↦ elim rest [
          | [] ↦ some []
          | c ∷ v ↦ if c == b'=' then some (url_decode v out_len) else none
        ]
      ])
  each_case none e = (λ q. cc (e, found_alone q), λ v q. cc (e, found_behind (b'=' ∷ v) q))
  each_case (some []) e = inl (after_key_sound key seg [] e ∙ append-nil key, refl)
  each_case (some (c ∷ v)) e =
      if_intro (Reads out_len key seg) (c == b'=') _ _
        (λ t.
          let same : c ≡ b'=' = ground (arith, t) in
          inr (v, after_key_sound key seg (c ∷ v) e ∙ ap (λ (a : ℕ). key ++ a ∷ v) same, refl))
        (λ f. (
          λ q. cc (e, found_alone q),
          λ w q.
              let same : some (c ∷ v) ≡ some (b'=' ∷ w) = sym e ∙ found_behind (b'=' ∷ w) q in
              ground (arith, f, same),
        ))

  value_of-Reads : Reads out_len key seg (value_of out_len key seg)
  unfolding value_of
  value_of-Reads = each_case (after_key key seg) refl

module _ (out_len : ℕ) (key : Bytes) where
  goes_on :
      (seg : Bytes) (segs : List Bytes) (o rest : Option Bytes)
      → Reads out_len key seg o
      → Picks out_len key segs rest
      → Picks out_len key (seg ∷ segs) (elim o [ some r ↦ some r | none ↦ rest ])
  goes_on seg segs (some x) rest r p = inl r
  goes_on seg segs none none r p = (r, p)
  goes_on seg segs none (some x) r p = inr (r, p)

  first_answer-Picks :
      (segs : List Bytes) → Picks out_len key segs (first_answer b'&' (value_of out_len key) segs)
  first_answer-Picks [] = refl
  first_answer-Picks (seg ∷ segs) =
      goes_on seg segs (value_of out_len key seg) (first_answer b'&' (value_of out_len key) segs)
        (value_of-Reads out_len key seg) (first_answer-Picks segs)

value_of-nil : (out_len : ℕ) (key : Bytes) → key ≢ [] → value_of out_len key [] ≡ none
unfolding value_of
value_of-nil out_len [] h = absurd (h refl)
value_of-nil out_len (k ∷ ks) h = refl

-- api_query of a key that is not empty always returns: the first segment that is the key, or the
-- key, '=' and a value, answers, with the empty value or with the value decoded; where no segment
-- is either, it returns false.
pub query-Picks :
    (text : Option Bytes) (key : Bytes) (out_len : ℕ)
    → key ≢ []
    → (a : Option Bytes) × (query text key out_len ≡ some a)
      × Picks out_len key (segments_of b'&' text) a
unfolding query
query-Picks text key out_len h = (
  first_answer b'&' (value_of out_len key) (segments_of b'&' text),
  walk-first_answer b'&' (value_of out_len key) (text_length text) text (value_of-nil out_len key h)
      (omega arith),
  first_answer-Picks out_len key (segments_of b'&' text),
)
