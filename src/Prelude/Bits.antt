-- ===== src/Prelude/Bits.antt =====
-- The native bit operations read bit by bit.
use Prim.Native.Nat.{ℕ, zero, suc, ◌+◌, ◌-◌, ◌*◌, ◌/◌, ◌%◌, ◌^◌, ◌≤◌, ◌<◌, min, max}
use Prim.Native.Nat.{digits, bit_and, bit_or, bit_and-bitwise, bit_or-bitwise}
use mathlib.Core.Path.{◌≡◌, refl, ap, ◌∙◌}
use mathlib.Core.Logic.{◌≢◌}
use mathlib.Core.Bool.{Bool, false, ◌&&◌, ◌||◌}
use native.Mathlib.Nat.{pow-suc, one-le-pow}
use native.Mathlib.Omega.{arith}
use esp_console_kit.Prelude.Tests.{ltb, ◌==◌, if◌then◌else◌}

-- bit i of x
unfoldable pub bit : ℕ → ℕ → Bool
bit x zero = x % 2 == 1
bit x (suc i) = bit (x / 2) i

-- The library reads digits off with fuel. One unit more than the number needs changes nothing, so
-- no surplus does, and the lowest digit stands apart.
module _ (pad : ℕ → ℕ) (op : ℕ → ℕ → ℕ) where
  one_more : (k x y : ℕ) → x ≤ k → digits pad op (suc k) x y ≡ digits pad op k x y
  one_more zero zero y h = refl
  one_more (suc k) zero y h = refl
  one_more zero (suc x) y h = absurd (omega arith)
  one_more (suc k) (suc x) y h = rw (one_more k (suc x / 2) (y / 2) (omega arith))

  surplus : (k x y : ℕ) → digits pad op (x + k) x y ≡ digits pad op x x y
  surplus zero x y = ap (λ n. digits pad op n x y) (omega arith)
  surplus (suc k) x y =
      let last : x + suc k ≡ suc (x + k) = omega arith in
      ap (λ n. digits pad op n x y) last ∙ one_more (x + k) x y (omega arith) ∙ surplus k x y

  lowest :
      (x y : ℕ)
      → digits pad op (suc x) (suc x) y
        ≡ digits pad op (suc x / 2) (suc x / 2) (y / 2) * 2 + op (suc x % 2) (y % 2)
  lowest x y =
      let enough : x ≡ suc x / 2 + (x - suc x / 2) = omega arith in
      let settled = surplus (x - suc x / 2) (suc x / 2) (y / 2) in
      omega (arith, ap (λ n. digits pad op n (suc x / 2) (y / 2)) enough ∙ settled)

bit_or_step : (a b : ℕ) → bit_or a b ≡ bit_or (a / 2) (b / 2) * 2 + max (a % 2) (b % 2)
bit_or_step zero b = omega (arith, bit_or-bitwise 0 b, bit_or-bitwise 0 (b / 2))
bit_or_step (suc a) b =
    let all = bit_or-bitwise (suc a) b in
    let rest = bit_or-bitwise (suc a / 2) (b / 2) in
    omega (arith, all, rest, lowest (λ y. y) max a b)

bit_and_step : (a b : ℕ) → bit_and a b ≡ bit_and (a / 2) (b / 2) * 2 + min (a % 2) (b % 2)
bit_and_step zero b = omega (arith, bit_and-bitwise 0 b, bit_and-bitwise 0 (b / 2))
bit_and_step (suc a) b =
    let all = bit_and-bitwise (suc a) b in
    let rest = bit_and-bitwise (suc a / 2) (b / 2) in
    omega (arith, all, rest, lowest (λ y. 0) min a b)

half_or : (a b : ℕ) → bit_or a b / 2 ≡ bit_or (a / 2) (b / 2)
half_or a b = omega (arith, bit_or_step a b)

half_and : (a b : ℕ) → bit_and a b / 2 ≡ bit_and (a / 2) (b / 2)
half_and a b = omega (arith, bit_and_step a b)

pub bit-bit_or : (i a b : ℕ) → bit (bit_or a b) i ≡ (bit a i || bit b i)
unfolding bit
bit-bit_or zero a b = ground (arith, bit_or_step a b)
bit-bit_or (suc i) a b = rw half_or (bit-bit_or i (a / 2) (b / 2))

pub bit-bit_and : (i a b : ℕ) → bit (bit_and a b) i ≡ (bit a i && bit b i)
unfolding bit
bit-bit_and zero a b = ground (arith, bit_and_step a b)
bit-bit_and (suc i) a b = rw half_and (bit-bit_and i (a / 2) (b / 2))

pub bit-zero : (i : ℕ) → bit 0 i ≡ false
unfolding bit
bit-zero zero = refl
bit-zero (suc i) = bit-zero i

half_pow : (j : ℕ) → 2 ^ suc j / 2 ≡ 2 ^ j
half_pow j = omega (arith, pow-suc 2 j)

below_pow : (x : ℕ) → x < 2 ^ x
below_pow zero = omega arith
below_pow (suc x) = omega (arith, pow-suc 2 x, below_pow x)

-- x & 0 halves to itself over and over, so it is 0.
and_nothing : (k x : ℕ) → x < 2 ^ k → bit_and x 0 ≡ 0
and_nothing zero x h = let none : x ≡ 0 = omega arith in rw none (bit_and-bitwise 0 0)
and_nothing (suc k) x h =
    omega (arith, bit_and_step x 0, and_nothing k (x / 2) (omega (arith, pow-suc 2 k)))

bit_and-zero : (x : ℕ) → bit_and x 0 ≡ 0
bit_and-zero x = and_nothing x x (below_pow x)

-- 1 << j has bit j and no other.
pub bit-pow : (i j : ℕ) → bit (2 ^ j) i ≡ (i == j)
unfolding bit
bit-pow zero zero = refl
bit-pow zero (suc j) = ground (arith, pow-suc 2 j)
bit-pow (suc i) zero = rw (bit-zero i) (ground arith)
bit-pow (suc i) (suc j) =
    let e : 2 ^ suc j / 2 ≡ 2 ^ j = omega (arith, pow-suc 2 j) in
    rw e (rw (bit-pow i j) (ground arith))

-- w & (1 << j): the mask's bit j alone.
pub bit_and-pow : (j w : ℕ) → bit_and w (2 ^ j) ≡ (if bit w j then 2 ^ j else 0)
unfolding bit
bit_and-pow zero w = ground (arith, bit_and_step w 1, bit_and-zero (w / 2))
bit_and-pow (suc j) w = ground (
  arith,
  pow-suc 2 j,
  bit_and_step w (2 ^ suc j),
  ap (λ (t : ℕ). bit_and (w / 2) t) (half_pow j),
  bit_and-pow j (w / 2),
)

-- (1 << n) - 1 has the bits below n.
pub bit-ones : (i n : ℕ) → bit (2 ^ n - 1) i ≡ ltb i n
unfolding bit
bit-ones zero zero = refl
bit-ones zero (suc n) = ground (arith, pow-suc 2 n, one-le-pow n 2)
bit-ones (suc i) zero = rw (bit-zero i) (ground arith)
bit-ones (suc i) (suc n) =
    let e : (2 ^ suc n - 1) / 2 ≡ 2 ^ n - 1 = omega (arith, pow-suc 2 n, one-le-pow n 2) in
    rw e (rw (bit-ones i n) (ground arith))

pub pow-ne-zero : (j : ℕ) → 2 ^ j ≢ 0
pow-ne-zero j = omega (arith, one-le-pow j 2)

pub zero-bit_and : (b : ℕ) → bit_and 0 b ≡ 0
zero-bit_and b = bit_and-bitwise 0 b
