-- ===== src/Api/Query/Sent.antt =====
-- api_core/api_core.c: what a client may send for a text, and that url_decode reads it.
use esp_console_kit.Prelude.{
  ℕ, zero, suc, ◌+◌, ◌-◌, ◌*◌, ◌<◌, ◌≡◌, ◌≢◌, refl, ap, Bool, true, false, [], ◌∷◌, Bytes, take,
  ltb, if◌then◌else◌, arith, some,
}
use esp_console_kit.Ascii.{hex_digit, hex_value, hex_value-hex_digit}
use esp_console_kit.Api.Query.{byte, unescape, decode, url_decode}

-- A digit of "0123456789ABCDEF", or of the one in lower case.
abbrev pub digit : Bool → ℕ → ℕ
digit true d = if ltb d 10 then b'0' + d else b'A' + (d - 10)
digit false d = hex_digit d

-- A text, and a way to send it: each byte as %XX, its digits in either case, a blank as '+',
-- and any byte but '+' and '%' as itself.
pub data Sent : Bytes → Bytes → Type 0 where
  nothing : Sent [] []
  by_percent :
      (up_hi up_lo : Bool) (hi lo : ℕ) (xs cs : Bytes)
      → hi < 16
      → lo < 16
      → 0 < hi * 16 + lo
      → Sent xs cs
      → Sent ((hi * 16 + lo) ∷ xs) (b'%' ∷ digit up_hi hi ∷ digit up_lo lo ∷ cs)
  plus : (xs cs : Bytes) → Sent xs cs → Sent (b' ' ∷ xs) (b'+' ∷ cs)
  plain : (c : ℕ) (xs cs : Bytes) → c ≢ b'+' → c ≢ b'%' → Sent xs cs → Sent (c ∷ xs) (c ∷ cs)

hex_value-digit : (up : Bool) (d : ℕ) → d < 16 → hex_value (digit up d) ≡ some d
hex_value-digit false d h = hex_value-hex_digit d h
hex_value-digit true d h = unfold hex_value in ground (arith, h)

unescape_escaped :
    (a b : Bool) (hi lo : ℕ) (rest : Bytes)
    → hi < 16
    → lo < 16
    → 0 < hi * 16 + lo
    → unescape b'%' (digit a hi ∷ digit b lo ∷ rest) ≡ byte (hi * 16 + lo) rest
unfolding unescape
unescape_escaped a b hi lo rest h l pos =
    rw (hex_value-digit a hi h, hex_value-digit b lo l) (ground (arith, pos))

unescape_plain : (c : ℕ) (rest : Bytes) → c ≢ b'+' → c ≢ b'%' → unescape c rest ≡ byte c rest
unfolding unescape
unescape_plain c rest p q = ground (arith, p, q)

decode_byte :
    (room c x : ℕ) (cs rest out : Bytes)
    → unescape c cs ≡ byte x rest
    → decode room rest ≡ out
    → decode (suc room) (c ∷ cs) ≡ x ∷ out
decode_byte room c x cs rest out e ih = unfold decode in rw (e, decode) (ap (λ l. x ∷ l) ih)

decode-Sent : (room : ℕ) (text coded : Bytes) → Sent text coded → decode room coded ≡ take room text
decode-Sent zero text coded s = unfold decode in refl
decode-Sent (suc room) _ _ nothing = unfold decode in refl
decode-Sent (suc room) _ _ (by_percent a b hi lo xs cs h l pos s) =
    decode_byte room b'%' (hi * 16 + lo) _ cs (take room xs) (unescape_escaped a b hi lo cs h l pos)
      (decode-Sent room xs cs s)
decode-Sent (suc room) _ _ (plus xs cs s) =
    decode_byte room b'+' b' ' cs cs (take room xs) (unfold unescape in refl)
      (decode-Sent room xs cs s)
decode-Sent (suc room) _ _ (plain c xs cs p q s) =
    decode_byte room c c cs cs (take room xs) (unescape_plain c cs p q) (decode-Sent room xs cs s)

-- Text sent with each byte as %XX, not %00, with digits of either case, a blank as +, or any byte
-- but + and % as itself, mixed in any way, is read by url_decode as itself, cut to what fits.
pub url_decode-Sent :
    (text coded : Bytes) (out_len : ℕ)
    → Sent text coded
    → url_decode coded out_len ≡ take (out_len - 1) text
unfolding url_decode
url_decode-Sent text coded out_len s = decode-Sent (out_len - 1) text coded s
