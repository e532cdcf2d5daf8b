-- ===== src/Hash/Adler/Packing.antt =====
-- The packed checksum holds both sums, and the two implementations compute the same value.
use delta_sync_engine.Prelude.{ℕ, ◌+◌, ◌*◌, ◌%◌, ◌^◌, ◌<◌, ◌≡◌, refl, List, [], ◌∷◌, arith}
use delta_sync_engine.Prelude.Bits.{or_join16, and_low16}
use delta_sync_engine.Hash.Adler.{
  mod_adler, adler32_loop, adler32, adler32_hash, weak16, adler32_value,
}

loop_bounds :
    (xs : List ℕ) (a b : ℕ)
    → a < mod_adler
    → b < mod_adler
    → ((adler32_loop xs a b).0 < mod_adler) × ((adler32_loop xs a b).1 < mod_adler)
unfolding adler32_loop
loop_bounds [] a b ha hb = (ha, hb)
loop_bounds (x ∷ xs) a b ha hb =
    loop_bounds xs ((a + x) % mod_adler) ((b + (a + x) % mod_adler) % mod_adler) (omega arith)
      (omega arith)

adler32_bounds : (xs : List ℕ) → ((adler32 xs).a < mod_adler) × ((adler32 xs).b < mod_adler)
unfolding adler32
adler32_bounds xs = loop_bounds xs 1 0 (omega arith) (omega arith)

-- The packed checksum of a block is its second sum times 65536 plus its first, so it is an unsigned
-- 32-bit number; its low sixteen bits, the bucket key, are the first sum; and `adler32` of
-- shared/hash.ts returns the same number.
pub adler32_hash-adler32 :
    (xs : List ℕ)
    → (adler32_hash (adler32 xs) ≡ (adler32 xs).b * 65536 + (adler32 xs).a)
      × (adler32_hash (adler32 xs) < 2 ^ 32)
      × (weak16 (adler32_hash (adler32 xs)) ≡ (adler32 xs).a)
      × (adler32_value xs ≡ adler32_hash (adler32 xs))
unfolding adler32_hash weak16
adler32_hash-adler32 xs =
    let (ha, hb) = adler32_bounds xs in
    let whole : (adler32 xs).b * 65536 % 2 ^ 32 ≡ (adler32 xs).b * 65536 = omega arith in
    let packed : adler32_hash (adler32 xs) ≡ (adler32 xs).b * 65536 + (adler32 xs).a =
      rw whole (or_join16 (adler32 xs).b (adler32 xs).a (omega arith)) in
    (
      packed,
      rw packed (omega arith),
      rw (packed, and_low16) (omega arith),
      unfold adler32_value adler32 in refl,
    )
