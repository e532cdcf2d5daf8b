-- ===== src/Cdc/Tiling.antt =====
-- The chunks cover the bytes in order, with no gap and no overlap, and their sizes are bounded.
use delta_sync_engine.Prelude.{
  ℕ, zero, suc, ◌+◌, ◌-◌, ◌≤◌, ◌<◌, min, ◌≡◌, refl, inl, inr, List, [], ◌∷◌, arith, leb, ltb,
  Bool-cases, length, get_or,
}
use delta_sync_engine.Cdc.{
  CdcOptions, mask_bits, next_fp, skip_loop, cut_loop, next_cut, cdc_loop, cdc_chunk_ends, Range,
  ranges_from, cdc_ranges,
}

-- Ranges that lead from `n` to `stop`, each starting where the one before it ends and not empty.
abbrev pub Tiles : ℕ → ℕ → List Range → Type 0
Tiles n stop [] = n ≡ stop
Tiles n stop (r ∷ rs) = (r.start ≡ n) × (n < r.end) × (r.end ≤ stop) × Tiles r.end stop rs

-- No range is longer than the greatest size, and none but the last is shorter than the least size.
abbrev pub Sized : CdcOptions → List Range → Type 0
Sized opts [] = Unit
Sized opts (r ∷ []) = r.end ≤ r.start + opts.max_size
Sized opts (r ∷ s ∷ rs) =
    (r.end ≤ r.start + opts.max_size) × (r.start + opts.min_size ≤ r.end) × Sized opts (s ∷ rs)

cut_loop_bounds :
    (bytes : List ℕ) (mask hard_max rounds i fp : ℕ)
    → i + rounds ≤ hard_max
    → (i ≤ cut_loop bytes mask hard_max rounds i fp)
      × (cut_loop bytes mask hard_max rounds i fp ≤ hard_max)
unfolding cut_loop
cut_loop_bounds bytes mask hard_max zero i fp h = omega arith
cut_loop_bounds bytes mask hard_max (suc rounds) i fp h = ground (
  arith,
  cut_loop_bounds bytes mask hard_max rounds (i + 1) (next_fp fp (get_or bytes i 0)) (omega arith),
)

-- What one round promises: it makes progress, stays inside the bytes, and keeps to the sizes.
pub record IsCut (opts : CdcOptions) (n len cut : ℕ) : Type 0 where
  pub ahead : n < cut
  pub inside : cut ≤ len
  pub at_most : 0 < opts.max_size → cut ≤ n + opts.max_size
  pub at_least : opts.min_size ≤ opts.max_size → min (n + opts.min_size) len ≤ cut

pub next_cut-IsCut :
    (bytes : List ℕ) (opts : CdcOptions) (n : ℕ)
    → n < length bytes
    → IsCut opts n (length bytes) (next_cut bytes opts n)
unfolding next_cut
next_cut-IsCut bytes opts n h =
    let len = length bytes in
    let hard_max = min (n + opts.max_size) len in
    let min_end = min (n + opts.min_size) len in
    let fp = skip_loop bytes (min_end - n) n 0x811c9dc5 in
    let mask = mask_bits opts.avg_size in
    elim (Bool-cases (leb min_end hard_max)) [
      | inl below ↦
          let bounds =
            cut_loop_bounds bytes mask hard_max (hard_max - min_end) min_end fp (ground arith) in
          record {
            ahead = ground (arith, bounds);
            inside = ground (arith, bounds);
            at_most = λ p. ground (arith, bounds);
            at_least = λ p. ground (arith, bounds);
          }
      | inr above ↦
          let no_rounds : hard_max - min_end ≡ 0 = ground arith in
          rw no_rounds (
            unfold cut_loop in
            record {
              ahead = ground arith;
              inside = ground arith;
              at_most = λ p. ground arith;
              at_least = λ p. ground arith;
            })
    ]

-- Enough fuel: the loop reaches the end of the bytes.
ranges-cdc_loop-Tiles :
    (fuel : ℕ) (bytes : List ℕ) (opts : CdcOptions) (n : ℕ)
    → n ≤ length bytes
    → length bytes ≤ n + fuel
    → Tiles n (length bytes) (ranges_from n (cdc_loop fuel bytes opts n))
unfolding cdc_loop ranges_from
ranges-cdc_loop-Tiles zero bytes opts n h f = omega arith
ranges-cdc_loop-Tiles (suc fuel) bytes opts n h f = elim (Bool-cases (ltb n (length bytes))) [
  | inl more ↦
      let cut = next_cut-IsCut bytes opts n (ground arith) in
      rw more (
        refl,
        cut.ahead,
        cut.inside,
        ranges-cdc_loop-Tiles fuel bytes opts (next_cut bytes opts n) cut.inside
            (omega (arith, cut.ahead)),
      )
  | inr done ↦ rw done (ground arith)
]

-- For any options, also with a greatest size of 0, the ranges cover all bytes from the first to the
-- last: each starts where the one before it ends, and none is empty.
pub cdc_ranges-Tiles :
    (bytes : List ℕ) (opts : CdcOptions) → Tiles 0 (length bytes) (cdc_ranges bytes opts)
unfolding cdc_ranges cdc_chunk_ends
cdc_ranges-Tiles bytes opts =
    ranges-cdc_loop-Tiles (length bytes) bytes opts 0 (omega arith) (omega arith)

Sized-cons :
    (opts : CdcOptions) (r : Range) (rs : List Range) (stop : ℕ)
    → r.end ≤ r.start + opts.max_size
    → min (r.start + opts.min_size) stop ≤ r.end
    → Tiles r.end stop rs
    → Sized opts rs
    → Sized opts (r ∷ rs)
Sized-cons opts r [] stop upper lower tiles sized = upper
Sized-cons opts r (s ∷ rs) stop upper lower tiles sized =
    (upper, omega (arith, tiles.0, tiles.1, tiles.2), sized)

ranges-cdc_loop-Sized :
    (fuel : ℕ) (bytes : List ℕ) (opts : CdcOptions) (n : ℕ)
    → 0 < opts.max_size
    → opts.min_size ≤ opts.max_size
    → n ≤ length bytes
    → length bytes ≤ n + fuel
    → Sized opts (ranges_from n (cdc_loop fuel bytes opts n))
unfolding cdc_loop ranges_from
ranges-cdc_loop-Sized zero bytes opts n p q h f = tt
ranges-cdc_loop-Sized (suc fuel) bytes opts n p q h f = elim (Bool-cases (ltb n (length bytes))) [
  | inl more ↦
      let cut = next_cut-IsCut bytes opts n (ground arith) in
      let next = next_cut bytes opts n in
      let enough : length bytes ≤ next + fuel = omega (arith, cut.ahead) in
      rw more (
        Sized-cons opts (record { start = n; end = next }) _ (length bytes) (cut.at_most p)
          (cut.at_least q) (ranges-cdc_loop-Tiles fuel bytes opts next cut.inside enough)
          (ranges-cdc_loop-Sized fuel bytes opts next p q cut.inside enough))
  | inr done ↦ rw done tt
]

-- Where the least size is at most the greatest and the greatest is not 0, every chunk is at most
-- the greatest size, and every chunk but the last is at least the least size.
pub cdc_ranges-Sized :
    (bytes : List ℕ) (opts : CdcOptions)
    → 0 < opts.max_size
    → opts.min_size ≤ opts.max_size
    → Sized opts (cdc_ranges bytes opts)
unfolding cdc_ranges cdc_chunk_ends
cdc_ranges-Sized bytes opts p q =
    ranges-cdc_loop-Sized (length bytes) bytes opts 0 p q (omega arith) (omega arith)
