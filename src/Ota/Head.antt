-- ===== src/Ota/Head.antt =====
-- cmd_fs/ota_core.c: ota_core_write collects an image's head across pieces of any size.
use esp_console_kit.Prelude.{
  ℕ, ◌+◌, ◌-◌, ◌≤◌, ◌<◌, ◌≡◌, refl, ap, sym, ◌∙◌, Bool, true, false, Option, none, some, ◌++◌,
  Bytes, length, length-append, length-take, length-drop, take_all, take-append_le, take-append_ge,
  take, drop, min, leb, Bool-cases, inl, inr, arith,
}
use esp_console_kit.Prelude.Errors.{EspErr, validate_failed}
use esp_console_kit.Ota.State.{Why, AppDesc, head_len, Core, Board}
use esp_console_kit.Ota.Write.{HeadVerdict, good, refused, check_head, splice, take_head}

abbrev pub passes : HeadVerdict → Bool
passes (good desc) = true
passes (refused why) = false

module _ (head hashed piece : Bytes) (before : ℕ) (counted : before ≡ length hashed)
    (fits : before + length piece ≤ length head) (kept : take before head ≡ hashed) where
  length-splice : length (splice head before piece) ≡ length head
  length-splice = omega (
    arith,
    length-append {0} (take before head) (piece ++ drop (before + length piece) head),
    length-append {0} piece (drop (before + length piece) head),
    length-take {0} before head,
    length-drop {0} (before + length piece) head,
  )

  take-splice : take (before + length piece) (splice head before piece) ≡ hashed ++ piece
  take-splice =
      let rest = drop (before + length piece) head in
      let n : before + length piece - length hashed ≡ length piece = omega arith in
      let inner : take (before + length piece - length hashed) (piece ++ rest) ≡ piece = rw n (
        take-append_le (length piece) piece rest (omega arith)
        ∙ take_all (length piece) piece (omega arith)) in
      rw kept (
        take-append_ge (before + length piece) hashed (piece ++ rest) (omega arith)
        ∙ ap (λ l. hashed ++ l) inner)

-- What is known of the head buffer once `hashed` came in.
pub record Collected (b : Board) (any : Bool) (head hashed : Bytes) (is_checked : Bool)
    : Type 0 where
  pub buffer : length head ≡ head_len
  pub filled :
      is_checked ≡ false → (length hashed < head_len) × (take (length hashed) head ≡ hashed)
  pub checked :
      is_checked ≡ true
      → (head_len ≤ length hashed) × (passes (check_head b any (take head_len hashed)) ≡ true)

-- What a call of take_head leaves, where it refuses nothing.
pub record Taken (b : Board) (c c' : Core) (bytes : Bytes) : Type 0 where
  pub collected : Collected b c.any_project c'.head (c.hashed ++ bytes) c'.head_checked
  pub same : c' ≡ record c {
    head = c'.head;
    head_checked = c'.head_checked;
    session = record (c.session) { app = c'.session.app };
  }

abbrev pub filled_with : Core → ℕ → Bytes → Bytes
filled_with c n bytes = splice c.head c.session.bytes (take n bytes)

take-hashed :
    (hashed bytes : Bytes) (n : ℕ)
    → length hashed + n ≡ head_len
    → hashed ++ take n bytes ≡ take head_len (hashed ++ bytes)
take-hashed hashed bytes n e =
    ap (λ k. hashed ++ take k bytes) (omega arith)
    ∙ sym (take-append_ge head_len hashed bytes (omega arith))

-- What a refusal leaves: the session as it was, but for the buffer.
abbrev pub Outcome : Board → Core → Bytes → Option (EspErr × Why) × Core → Type 0
Outcome b c bytes (none, c') = Taken b c c' bytes
Outcome b c bytes (some r, c') =
    (r.0 ≡ validate_failed)
    × (length c'.head ≡ head_len)
    × (c' ≡ record c { head = c'.head; head_checked = c'.head_checked })

-- The equations of take_head's branches.
module _ (b : Board) (c : Core) (bytes : Bytes) where
  take_head_checked : c.head_checked ≡ true → take_head b c bytes ≡ (none, c)
  unfolding take_head
  take_head_checked e = ground (arith, e)

  take_head_partial :
      c.head_checked ≡ false
      → c.session.bytes + length bytes < head_len
      → take_head b c bytes ≡ (none, record c { head = filled_with c (length bytes) bytes })
  unfolding take_head
  take_head_partial e h = ground (arith, e)

  take_head_good :
      (desc : AppDesc)
      → c.head_checked ≡ false
      → c.session.bytes < head_len
      → head_len ≤ c.session.bytes + length bytes
      → check_head b c.any_project (filled_with c (head_len - c.session.bytes) bytes) ≡ good desc
      → take_head b c bytes ≡ (
        none,
        record c {
          head = filled_with c (head_len - c.session.bytes) bytes;
          head_checked = true;
          session = record (c.session) { app = some desc };
        },
      )
  unfolding take_head
  take_head_good desc e lt ge h =
      let n : min (head_len - c.session.bytes) (length bytes) ≡ head_len - c.session.bytes =
        omega arith in
      ground (arith, e, h, n)

  take_head_refused :
      (why : Why)
      → c.head_checked ≡ false
      → c.session.bytes < head_len
      → head_len ≤ c.session.bytes + length bytes
      → check_head b c.any_project (filled_with c (head_len - c.session.bytes) bytes) ≡ refused why
      → take_head b c bytes ≡ (
        some (validate_failed, why),
        record c { head = filled_with c (head_len - c.session.bytes) bytes; head_checked = true },
      )
  unfolding take_head
  take_head_refused why e lt ge h =
      let n : min (head_len - c.session.bytes) (length bytes) ≡ head_len - c.session.bytes =
        omega arith in
      ground (arith, e, h, n)

-- The buffer once it is whole is the image's first 288 bytes, in whatever pieces they came.
whole_head :
    (c : Core) (bytes : Bytes)
    → c.session.bytes ≡ length c.hashed
    → length c.head ≡ head_len
    → take c.session.bytes c.head ≡ c.hashed
    → c.session.bytes < head_len
    → head_len ≤ c.session.bytes + length bytes
    → let head' = filled_with c (head_len - c.session.bytes) bytes in
      (length head' ≡ head_len) × (head' ≡ take head_len (c.hashed ++ bytes))
whole_head c bytes counted size held lt ge =
    let n = head_len - c.session.bytes in
    let piece = take n bytes in
    let lp : length piece ≡ n = omega (arith, length-take n bytes) in
    let fits : c.session.bytes + length piece ≤ length c.head = omega arith in
    let len = length-splice c.head c.hashed piece c.session.bytes counted fits held in
    let cut = take-splice c.head c.hashed piece c.session.bytes counted fits held in
    (
      len ∙ size,
      sym (take_all head_len (filled_with c n bytes) (omega (arith, len)))
          ∙ ap (λ k. take k (filled_with c n bytes)) {x = head_len} (omega arith)
          ∙ cut
          ∙ take-hashed c.hashed bytes n (omega arith),
    )

take_head_part :
    (b : Board) (c : Core) (bytes : Bytes)
    → c.session.bytes ≡ length c.hashed
    → length c.head ≡ head_len
    → take c.session.bytes c.head ≡ c.hashed
    → c.head_checked ≡ false
    → c.session.bytes + length bytes < head_len
    → Outcome b c bytes (take_head b c bytes)
take_head_part b c bytes counted size held e lt =
    let fits : c.session.bytes + length bytes ≤ length c.head = omega arith in
    let all = take_all (length bytes) bytes (omega arith) in
    let n : length (c.hashed ++ bytes) ≡ c.session.bytes + length bytes =
      omega (arith, length-append c.hashed bytes) in
    rw (take_head_partial b c bytes e lt) (record {
      collected = record {
        buffer =
            rw all (length-splice c.head c.hashed bytes c.session.bytes counted fits held ∙ size);
        filled = λ _. (
          omega arith,
          rw (all, n) (take-splice c.head c.hashed bytes c.session.bytes counted fits held),
        );
        checked = λ q. absurd (cc (e, q));
      };
      same = refl;
    })

take_head_full :
    (b : Board) (c : Core) (bytes : Bytes)
    → c.session.bytes ≡ length c.hashed
    → length c.head ≡ head_len
    → take c.session.bytes c.head ≡ c.hashed
    → c.head_checked ≡ false
    → c.session.bytes < head_len
    → head_len ≤ c.session.bytes + length bytes
    → Outcome b c bytes (take_head b c bytes)
take_head_full b c bytes counted size held e lt ge =
    let (len, same) = whole_head c bytes counted size held lt ge in
    go (check_head b c.any_project (filled_with c (head_len - c.session.bytes) bytes)) refl len same
  where
    go :
        (v : HeadVerdict)
        → check_head b c.any_project (filled_with c (head_len - c.session.bytes) bytes) ≡ v
        → length (filled_with c (head_len - c.session.bytes) bytes) ≡ head_len
        → filled_with c (head_len - c.session.bytes) bytes ≡ take head_len (c.hashed ++ bytes)
        → Outcome b c bytes (take_head b c bytes)
    go (refused why) h len same = rw (take_head_refused b c bytes why e lt ge h) (refl, len, refl)
    go (good desc) h len same = rw (take_head_good b c bytes desc e lt ge h) (record {
      collected = record {
        buffer = len;
        filled = λ q. absurd (cc q);
        checked = λ _. (omega (arith, length-append c.hashed bytes), rw (← same, h) refl);
      };
      same = refl;
    })

-- The head as check_head sees it is the first 288 bytes of the image, in whatever pieces they came.
pub take_head-Outcome :
    (b : Board) (c : Core) (bytes : Bytes)
    → c.session.bytes ≡ length c.hashed
    → Collected b c.any_project c.head c.hashed c.head_checked
    → Outcome b c bytes (take_head b c bytes)
take_head-Outcome b c bytes counted k = elim (Bool-cases c.head_checked) [
  | inl e ↦
      let (long, ok) = k.checked e in
      rw (take_head_checked b c bytes e) (record {
        collected = record {
          buffer = k.buffer;
          filled = λ q. absurd (cc (e, q));
          checked = λ _. (
            omega (arith, length-append c.hashed bytes, long),
            rw (take-append_le head_len c.hashed bytes long) ok,
          );
        };
        same = refl;
      })
  | inr e ↦
      let (short, held) = k.filled e in
      let held' : take c.session.bytes c.head ≡ c.hashed = rw counted held in
      elim (Bool-cases (leb head_len (c.session.bytes + length bytes))) [
        | inl whole ↦ take_head_full b c bytes counted k.buffer held' e (omega arith) (ground arith)
        | inr part ↦ take_head_part b c bytes counted k.buffer held' e (ground arith)
      ]
]
