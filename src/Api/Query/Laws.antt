-- ===== src/Api/Query/Laws.antt =====
-- api_core/api_core.c: how long a value can be.
use esp_console_kit.Prelude.{ℕ, zero, suc, ◌-◌, ◌≤◌, ◌<◌, [], ◌∷◌, Bytes, length, arith}
use esp_console_kit.Api.Query.{Unescaped, byte, ends, unescape, decode, url_decode}

length-decode : (room : ℕ) (text : Bytes) → length (decode room text) ≤ room
unfolding decode
length-decode zero text = omega arith
length-decode (suc room) [] = omega arith
length-decode (suc room) (c ∷ cs) = go (unescape c cs) (length-decode room)
  where
    go :
        (u : Unescaped)
        → ((rest : Bytes) → length (decode room rest) ≤ room)
        → length (elim u [ ends ↦ [] | byte x rest ↦ x ∷ decode room rest ]) ≤ suc room
    go ends ih = omega arith
    go (byte x rest) ih = omega (arith, ih rest)

-- A value and its NUL never overrun a buffer of at least one byte.
length-url_decode :
    (text : Bytes) (out_len : ℕ) → 0 < out_len → length (url_decode text out_len) < out_len
unfolding url_decode
length-url_decode text out_len pos = omega (arith, length-decode (out_len - 1) text)
