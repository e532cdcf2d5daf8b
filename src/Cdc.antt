-- ===== src/Cdc.antt =====
-- shared/fastcdc.ts: content-defined chunking by a rolling polynomial fingerprint.
-- A position is an index into the bytes; each `while` loop over bytes recurs on its rounds left.
pub mod Tiling
pub mod Shift
use Prim.Native.Nat.{bit_and, bit_xor}
use delta_sync_engine.Prelude.{
  ℕ, zero, suc, ◌+◌, ◌-◌, ◌*◌, ◌/◌, ◌%◌, ◌^◌, min, max, Bool, true, false, List, [], ◌∷◌, leb, ltb,
  ◌==◌, if◌then◌else◌, length, get_or,
}

pub record CdcOptions : Type 0 where
  pub min_size : ℕ
  pub avg_size : ℕ
  pub max_size : ℕ

-- `Math.floor(Math.log2(n))` of a positive whole number, by halving; `n` halvings are enough.
unfoldable pub floor_log2 : ℕ → ℕ → ℕ
floor_log2 zero n = 0
floor_log2 (suc fuel) n = let more = floor_log2 fuel (n / 2) in if ltb n 2 then 0 else suc more

unfoldable pub mask_bits : ℕ → ℕ
unfolding floor_log2
mask_bits avg = 2 ^ floor_log2 (max 64 avg) (max 64 avg) - 1

-- `(Math.imul(fp, 0x01000193) ^ byte) >>> 0`
unfoldable pub next_fp : ℕ → ℕ → ℕ
next_fp fp byte = bit_xor (fp * 0x01000193 % 2 ^ 32) byte

-- The first loop: the fingerprint over the bytes from `i` on, for so many rounds, with no test.
unfoldable pub skip_loop : List ℕ → ℕ → ℕ → ℕ → ℕ
unfolding next_fp
skip_loop bytes zero i fp = fp
skip_loop bytes (suc rounds) i fp = skip_loop bytes rounds (i + 1) (next_fp fp (get_or bytes i 0))

-- The second loop: up to `hard_max`, stopping behind the first byte whose fingerprint meets the mask.
unfoldable pub cut_loop : List ℕ → ℕ → ℕ → ℕ → ℕ → ℕ → ℕ
unfolding next_fp
cut_loop bytes mask hard_max zero i fp = hard_max
cut_loop bytes mask hard_max (suc rounds) i fp =
    let fp' = next_fp fp (get_or bytes i 0) in
    let rest = cut_loop bytes mask hard_max rounds (i + 1) fp' in
    if bit_and fp' mask == 0 then i + 1 else rest

-- One round of the outer loop: the end of the chunk that starts at `n`.
unfoldable pub next_cut : List ℕ → CdcOptions → ℕ → ℕ
unfolding skip_loop cut_loop mask_bits
next_cut bytes opts n =
    let len = length bytes in
    let mask = mask_bits opts.avg_size in
    let hard_max = min (n + opts.max_size) len in
    let min_end = min (n + opts.min_size) len in
    let fp = skip_loop bytes (min_end - n) n 0x811c9dc5 in
    let cut = cut_loop bytes mask hard_max (hard_max - min_end) min_end fp in
    if leb cut n then min (n + 1) len else cut

-- The outer loop. Each round ends behind its start, so the length of the bytes is enough fuel.
unfoldable pub cdc_loop : ℕ → List ℕ → CdcOptions → ℕ → List ℕ
unfolding next_cut
cdc_loop zero bytes opts n = []
cdc_loop (suc fuel) bytes opts n =
    let rest = cdc_loop fuel bytes opts (next_cut bytes opts n) in
    if ltb n (length bytes) then next_cut bytes opts n ∷ rest else []

unfoldable pub cdc_chunk_ends : List ℕ → CdcOptions → List ℕ
unfolding cdc_loop
cdc_chunk_ends bytes opts = cdc_loop (length bytes) bytes opts 0

pub record Range : Type 0 where
  pub start : ℕ
  pub end : ℕ

unfoldable pub ranges_from : ℕ → List ℕ → List Range
ranges_from prev [] = []
ranges_from prev (end ∷ ends) = record { start = prev; end = end } ∷ ranges_from end ends

unfoldable pub cdc_ranges : List ℕ → CdcOptions → List Range
unfolding cdc_chunk_ends ranges_from
cdc_ranges bytes opts = ranges_from 0 (cdc_chunk_ends bytes opts)
