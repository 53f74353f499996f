-- ===== src/Nvs/Parse/Grows.antt =====
-- cmd_nvs/nvs_backup.c: what a '+' line adds to a blob.
use esp_console_kit.Prelude.{
  ℕ, ◌+◌, ◌*◌, ◌/◌, ◌%◌, ◌≡◌, refl, not, ◌||◌, if_intro, Option, none, some, [], ◌∷◌, ◌++◌, Bytes,
  length, length-append, ltb, ◌==◌, arith,
}
use esp_console_kit.Ascii.{hex_value}
use esp_console_kit.Nvs.Blobs.{Blob, owed, whole, broken, hex_bytes, pair, grown, plus_taken}

-- What a '+' line makes of a blob.
abbrev pub BlobGrows : ℕ → Blob → Type 0
BlobGrows len (owed l have got) = (l ≡ len) × (length got ≡ have)
BlobGrows len (whole got) = length got ≡ len
BlobGrows len (broken f) = Unit {0}

abbrev Halves : Bytes → Option Bytes → Type 0
Halves hex none = Unit {0}
Halves hex (some b) = 2 * length b ≡ length hex

pair-Halves :
    (h l : ℕ) (hex : Bytes) (hi lo : Option ℕ) (o : Option Bytes)
    → Halves hex o
    → Halves (h ∷ l ∷ hex) (pair hi lo o)
unfolding pair
pair-Halves h l hex none lo o k = tt
pair-Halves h l hex (some hi) none o k = tt
pair-Halves h l hex (some hi) (some lo) none k = tt
pair-Halves h l hex (some hi) (some lo) (some b) k = omega (arith, k)

hex_bytes-Halves : (hex : Bytes) → Halves hex (hex_bytes hex)
unfolding hex_bytes
hex_bytes-Halves [] = omega arith
hex_bytes-Halves (h ∷ []) = tt
hex_bytes-Halves (h ∷ l ∷ hex) =
    pair-Halves h l hex (hex_value h) (hex_value l) (hex_bytes hex) (hex_bytes-Halves hex)

grown-BlobGrows :
    (len have : ℕ) (got hex : Bytes) (o : Option Bytes)
    → length got ≡ have
    → Halves hex o
    → BlobGrows len (grown len (have + length hex / 2) got o)
grown-BlobGrows len have got hex none c k = tt
grown-BlobGrows len have got hex (some b) c k =
    let n : length (got ++ b) ≡ have + length hex / 2 = omega (arith, k, c, length-append got b) in
    if_intro (BlobGrows len) (have + length hex / 2 == len) _ _ (λ e. ground (arith, n))
      (λ _. (refl, n))

pub plus_taken-BlobGrows :
    (len have : ℕ) (got s : Bytes) → length got ≡ have → BlobGrows len (plus_taken len have got s)
unfolding plus_taken
plus_taken-BlobGrows len have got [] c = tt
plus_taken-BlobGrows len have got (b ∷ hex) c =
    if_intro (BlobGrows len) (ltb (length hex) 2 || not (b == b' ') || not (length hex % 2 == 0)) _
      _ (λ _. tt)
      (λ _.
        if_intro (BlobGrows len) (ltb len (have + length hex / 2)) _ _ (λ _. tt)
          (λ _. grown-BlobGrows len have got hex (hex_bytes hex) c (hex_bytes-Halves hex)))
