-- ===== src/Ota/Invariant.antt =====
-- cmd_fs/ota_core.c: what holds of the session between two calls, and that every call keeps it.
use esp_console_kit.Prelude.{
  ℕ, ◌+◌, ◌≤◌, ◌≡◌, refl, ◌⊎◌, ◌≢◌, true, false, none, length, take, arith,
}
use esp_console_kit.Ota.State.{receiving, verifying, staged, Why, head_len, Core, Board, boot}
use esp_console_kit.Ota.Session.{set_failed, release}
use esp_console_kit.Ota.Write.{check_head, part_size, refusal}
use esp_console_kit.Ota.Head.{passes, Collected}

-- While a session receives: the counts, the hash, the flash and the head tell of the same bytes.
pub record Receiving (b : Board) (c : Core) : Type 0 where
  pub hashing : c.hashing ≡ true
  pub counted : c.session.bytes ≡ length c.hashed
  pub in_total : c.session.total ≢ 0 → c.session.bytes ≤ c.session.total
  pub in_slot : c.session.bytes ≤ part_size c.part
  pub writes : c.session.dry_run ≡ false → (c.is_open ≡ true) × (c.flash ≡ c.hashed)
  pub dry : c.session.dry_run ≡ true → c.is_open ≡ false
  pub collected : Collected b c.any_project c.head c.hashed c.head_checked

-- A staged image is whole: it passed the head's check, has the size announced, fits its slot, and
-- what the flash took is what was hashed.
pub record Staged (b : Board) (c : Core) : Type 0 where
  pub counted : c.session.bytes ≡ length c.hashed
  pub total : (c.session.total ≡ 0) ⊎ (c.session.bytes ≡ c.session.total)
  pub in_slot : c.session.bytes ≤ part_size c.part
  pub written : c.flash ≡ c.hashed
  pub long : head_len ≤ length c.hashed
  pub head : passes (check_head b c.any_project (take head_len c.hashed)) ≡ true

pub record Inv (b : Board) (c : Core) : Type 0 where
  pub buffer : length c.head ≡ head_len
  pub receives : c.session.phase ≡ receiving → Receiving b c
  pub closed : c.session.phase ≢ receiving → (c.is_open ≡ false) × (c.hashing ≡ false)
  pub stages : c.session.phase ≡ staged → Staged b c
  pub between : c.session.phase ≢ verifying

-- A session that ended in failure, with everything closed.
pub closed-Inv :
    (b : Board) (c : Core)
    → length c.head ≡ head_len
    → c.is_open ≡ false
    → c.hashing ≡ false
    → c.session.phase ≢ receiving
    → c.session.phase ≢ staged
    → c.session.phase ≢ verifying
    → Inv b c
closed-Inv b c size o h nr ns nv = record {
  buffer = size;
  receives = λ e. absurd (nr e);
  closed = λ _. (o, h);
  stages = λ e. absurd (ns e);
  between = nv;
}

pub boot-Inv : (b : Board) → Inv b boot
boot-Inv b = closed-Inv b boot refl refl refl (λ e. cc) (λ e. cc) (λ e. cc)

pub failed-Inv :
    (b : Board) (c : Core) (now : ℕ) (why : Why)
    → length c.head ≡ head_len
    → Inv b (set_failed now why (release c))
failed-Inv b c now why size =
    closed-Inv b (set_failed now why (release c)) size refl refl (λ e. cc) (λ e. cc) (λ e. cc)

-- refusal lets bytes pass only where they fit.
pub refusal-none :
    (c : Core) (len : ℕ)
    → refusal c len ≡ none
    → (c.session.total ≢ 0 → c.session.bytes + len ≤ c.session.total)
      × (c.session.bytes + len ≤ part_size c.part)
unfolding refusal
refusal-none c len h = ground arith
