-- ===== src/Hash/Adler/Rolling.antt =====
-- Rolling the checksum agrees with computing it anew.
use delta_sync_engine.Prelude.{
  ℕ, suc, ◌+◌, ◌-◌, ◌*◌, ◌%◌, ◌≤◌, ◌<◌, ◌≡◌, refl, ap, List, [], ◌∷◌, ◌++◌, arith, length,
}
use delta_sync_engine.Hash.Adler.{mod_adler, adler32_loop, adler32, roll_adler32, IsByte}

-- The two sums with no remainder taken.
sum : List ℕ → ℕ
sum [] = 0
sum (x ∷ xs) = x + sum xs

-- From a first sum of `s`, what the second sum gains.
gain : ℕ → List ℕ → ℕ
gain s [] = 0
gain s (x ∷ xs) = (s + x) + gain (s + x) xs

adler32_loop_sums :
    (xs : List ℕ) (s t a b : ℕ)
    → a ≡ s % mod_adler
    → b ≡ t % mod_adler
    → adler32_loop xs a b ≡ ((s + sum xs) % mod_adler, (t + gain s xs) % mod_adler)
unfolding adler32_loop sum gain
adler32_loop_sums [] s t a b ha hb = ground arith
adler32_loop_sums (x ∷ xs) s t a b ha hb = ground (
  arith,
  adler32_loop_sums xs (s + x) (t + (s + x)) ((a + x) % mod_adler)
      ((b + (a + x) % mod_adler) % mod_adler) (omega arith) (omega arith),
)

adler32_sums :
    (xs : List ℕ)
    → adler32 xs
      ≡ record { a = (1 + sum xs) % mod_adler; b = gain 1 xs % mod_adler; block_size = length xs }
unfolding adler32
adler32_sums xs = ground (arith, adler32_loop_sums xs 1 0 1 0 refl refl)

-- A larger first sum is gained once for each byte.
gain_shift : (xs : List ℕ) (s k : ℕ) → gain (s + k) xs ≡ gain s xs + k * length xs
unfolding gain
gain_shift [] s k = omega arith
gain_shift (x ∷ xs) s k =
    let e : s + k + x ≡ s + x + k = omega arith in rw e (omega (arith, gain_shift xs (s + x) k))

sum-append_one : (xs : List ℕ) (y : ℕ) → sum (xs ++ y ∷ []) ≡ sum xs + y
unfolding sum
sum-append_one [] y = omega arith
sum-append_one (x ∷ xs) y = omega (arith, sum-append_one xs y)

gain-append_one : (xs : List ℕ) (s y : ℕ) → gain s (xs ++ y ∷ []) ≡ gain s xs + (s + sum xs + y)
unfolding gain sum
gain-append_one [] s y = omega arith
gain-append_one (x ∷ xs) s y = omega (arith, gain-append_one xs (s + x) y)

length-append_one : (xs : List ℕ) (y : ℕ) → length (xs ++ y ∷ []) ≡ suc (length xs)
length-append_one [] y = refl
length-append_one (x ∷ xs) y = ap suc (length-append_one xs y)

-- With `out` for the product of the block's size and the byte that leaves.
roll_sums :
    (x y s g n out : ℕ)
    → x < 256
    → out ≤ 255 * n
    → (((1 + (x + s)) % mod_adler + y + mod_adler - x) % mod_adler ≡ (1 + (s + y)) % mod_adler)
      × (((1 + g + out) % mod_adler + (1 + (s + y)) % mod_adler + mod_adler * (n + 1) - out - 1)
            % mod_adler
          ≡ (g + (1 + s + y)) % mod_adler)
roll_sums x y s g n out hx ho = omega arith

out_bound : (x n : ℕ) → x < 256 → n * x ≤ 255 * n
out_bound x n h = grind arith

-- Dropping the first byte of a window and taking in the byte behind it rolls the checksum of the
-- old window into the checksum of the new one, at any length, if the byte that leaves is a byte.
pub roll-adler32 :
    (out_byte in_byte : ℕ) (middle : List ℕ)
    → IsByte out_byte
    → roll_adler32 (adler32 (out_byte ∷ middle)) out_byte in_byte ≡ adler32 (middle ++ in_byte ∷ [])
unfolding roll_adler32 sum gain
roll-adler32 x y u hx =
    let n = suc (length u) in
    rw (adler32_sums (x ∷ u), adler32_sums (u ++ y ∷ []))
      (ground (
        arith,
        length-append_one u y,
        sum-append_one u y,
        gain-append_one u 1 y,
        gain_shift u 1 x,
        roll_sums x y (sum u) (gain 1 u) n (n * x) hx (out_bound x n hx),
      ))
