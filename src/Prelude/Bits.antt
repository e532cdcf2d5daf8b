-- ===== src/Prelude/Bits.antt =====
-- `|` and `&` on fields of sixteen bits, as sums and remainders.
use Prim.Native.Nat.{ℕ, zero, suc, ◌+◌, ◌*◌, ◌/◌, ◌%◌, ◌^◌, ◌≤◌, ◌<◌, min, max}
use Prim.Native.Nat.{bit_and, bit_or, bitwise, digits, bit_and-bitwise, bit_or-bitwise}
use mathlib.Core.Path.{◌≡◌, refl, ap}
use native.Mathlib.Omega.{arith}
use native.Mathlib.Nat.{pow-suc, one-le-pow}

-- The digit recursion does not depend on its fuel, once that is enough.
module _ (rest : ℕ → ℕ) (op : ℕ → ℕ → ℕ) where
  enough : (k l a b : ℕ) → a ≤ k → a ≤ l → digits rest op k a b ≡ digits rest op l a b
  enough zero zero zero b h h' = refl
  enough zero (suc l) zero b h h' = refl
  enough (suc k) zero zero b h h' = refl
  enough (suc k) (suc l) zero b h h' = refl
  enough zero l (suc a) b h h' = absurd (omega arith)
  enough (suc k) zero (suc a) b h h' = absurd (omega arith)
  enough (suc k) (suc l) (suc a) b h h' =
      rw (enough k l (suc a / 2) (b / 2) (omega arith) (omega arith))

  bitwise_step :
      (a b : ℕ)
      → bitwise rest op (suc a) b ≡ bitwise rest op (suc a / 2) (b / 2) * 2 + op (suc a % 2) (b % 2)
  bitwise_step a b =
      omega (arith, enough a (suc a / 2) (suc a / 2) (b / 2) (omega arith) (omega arith))

or_step : (a b : ℕ) → bit_or a b ≡ bit_or (a / 2) (b / 2) * 2 + max (a % 2) (b % 2)
or_step zero b = simp bit_or-bitwise (omega arith)
or_step (suc a) b = simp bit_or-bitwise (bitwise_step (λ n. n) max a b)

and_step : (a b : ℕ) → bit_and a b ≡ bit_and (a / 2) (b / 2) * 2 + min (a % 2) (b % 2)
and_step zero b = simp bit_and-bitwise (omega arith)
and_step (suc a) b = simp bit_and-bitwise (bitwise_step (λ n. 0) min a b)

or_nothing : (k a : ℕ) → a ≤ k → bit_or a 0 ≡ a
or_nothing k zero h = refl
or_nothing zero (suc a) h = absurd (omega arith)
or_nothing (suc k) (suc a) h =
    omega (arith, or_step (suc a) 0, or_nothing k (suc a / 2) (omega arith))

and_nothing : (k a : ℕ) → a ≤ k → bit_and a 0 ≡ 0
and_nothing k zero h = refl
and_nothing zero (suc a) h = absurd (omega arith)
and_nothing (suc k) (suc a) h =
    omega (arith, and_step (suc a) 0, and_nothing k (suc a / 2) (omega arith))

shift_suc : (q k : ℕ) → q * 2 ^ suc k ≡ 2 * (q * 2 ^ k)
shift_suc q k = omega (arith, ap (λ (t : ℕ). q * t) (pow-suc 2 k))

-- A field above the lowest `k` bits, joined to one that fits them.
pub or_join : (k high low : ℕ) → low < 2 ^ k → bit_or (high * 2 ^ k) low ≡ high * 2 ^ k + low
or_join zero high low h = ground (arith, or_nothing high high)
or_join (suc k) high low h = ground (
  arith,
  or_step (high * 2 ^ suc k) low,
  shift_suc high k,
  pow-suc 2 k,
  or_join k high (low / 2) (omega (arith, pow-suc 2 k)),
)

-- Of a number, the field that a mask of `k` ones keeps.
pub and_low :
    (k high low mask : ℕ) → suc mask ≡ 2 ^ k → low < 2 ^ k → bit_and (high * 2 ^ k + low) mask ≡ low
and_low zero high low zero e h = ground (arith, and_nothing (high * 1 + low) (high * 1 + low))
and_low zero high low (suc mask) e h = absurd (omega arith)
and_low (suc k) high low mask e h = ground (
  arith,
  and_step (high * 2 ^ suc k + low) mask,
  shift_suc high k,
  pow-suc 2 k,
  one-le-pow k 2,
  and_low k high (low / 2) (mask / 2) (omega (arith, pow-suc 2 k)) (omega (arith, pow-suc 2 k)),
)

-- `(high << 16) | low` and `n & 0xffff`.
pub or_join16 : (high low : ℕ) → low < 65536 → bit_or (high * 65536) low ≡ high * 65536 + low
or_join16 high low h = or_join 16 high low h

pub and_low16 : (n : ℕ) → bit_and n 65535 ≡ n % 65536
and_low16 n = ground (arith, and_low 16 (n / 65536) (n % 65536) 65535 refl (omega arith))
