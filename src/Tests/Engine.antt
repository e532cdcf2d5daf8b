-- ===== src/Tests/Engine.antt =====
-- The delta engine on small files; the digest is the identity, which has no collisions.
use delta_sync_engine.Prelude.{ℕ, ◌+◌, ◌≡◌, refl, List, [], ◌∷◌, some, arith, length, map, ok}
use delta_sync_engine.Hash.Adler.{adler32, roll_adler32}
use delta_sync_engine.Hash.Adler.Rolling.{roll-adler32}
use delta_sync_engine.Cdc.{
  CdcOptions, cdc_ranges, cdc_chunk_ends, next_cut, cdc_loop, cut_loop, skip_loop, mask_bits,
  floor_log2, next_fp,
}
use delta_sync_engine.Cdc.Tiling.{Tiles, Sized, cdc_ranges-Tiles, cdc_ranges-Sized}
use delta_sync_engine.Cdc.Shift.{cdc_chunk_ends-behind_cut}
use delta_sync_engine.Rsync.Signatures.{BlockSignature, cdc, fixed, sign, compute_signatures}
use delta_sync_engine.Rsync.Delta.{
  DeltaResult, compute_delta, compute_delta_fixed, build_buckets_fixed,
}
use delta_sync_engine.Rsync.Patch.{apply_delta}
use delta_sync_engine.Rsync.RoundTrip.{apply_delta-compute_delta, compute_delta_bytes}
use delta_sync_engine.Rsync.Window.{plain_loop, compute_delta_fixed-plain_loop}

abbrev identity : List ℕ → List ℕ
identity bytes = bytes

abbrev old_file : List ℕ
old_file = 1 ∷ 2 ∷ 3 ∷ 4 ∷ 5 ∷ 6 ∷ 7 ∷ []

abbrev new_file : List ℕ
new_file = 9 ∷ 1 ∷ 2 ∷ 3 ∷ 8 ∷ 4 ∷ 5 ∷ 6 ∷ []

abbrev small : CdcOptions
small = record { min_size = 1; avg_size = 2; max_size = 3 }

apply_delta-compute_delta_example :
    (sigs : List BlockSignature) × (result : DeltaResult) × (compute_signatures identity old_file 3
        fixed
      ≡ some sigs)
    × (compute_delta identity new_file sigs 3 fixed ≡ some result)
    × (apply_delta old_file sigs result.ops (length new_file) ≡ ok new_file)
apply_delta-compute_delta_example =
    apply_delta-compute_delta identity old_file new_file 3 fixed fixed (λ a b i j same. same)
      (omega arith)

compute_delta_bytes_example :
    (sigs : List BlockSignature) × (result : DeltaResult) × (compute_signatures identity old_file 3
        fixed
      ≡ some sigs)
    × (compute_delta identity new_file sigs 3 cdc ≡ some result)
    × (result.stats.copied_bytes + result.stats.literal_bytes ≡ result.stats.total_new_bytes)
    × (result.stats.total_new_bytes ≡ length new_file)
compute_delta_bytes_example =
    compute_delta_bytes identity old_file new_file 3 fixed cdc (λ a b i j same. same) (omega arith)

cdc_ranges-Tiles_example : Tiles 0 7 (cdc_ranges old_file small)
cdc_ranges-Tiles_example = cdc_ranges-Tiles old_file small

cdc_ranges-Sized_example : Sized small (cdc_ranges old_file small)
cdc_ranges-Sized_example = cdc_ranges-Sized old_file small (omega arith) (omega arith)

abbrev pairs : CdcOptions
pairs = record { min_size = 2; avg_size = 2; max_size = 2 }

abbrev head_bytes : List ℕ
head_bytes = 1 ∷ 2 ∷ []

abbrev tail_bytes : List ℕ
tail_bytes = 3 ∷ 4 ∷ 5 ∷ []

abbrev tail_cuts : List ℕ
tail_cuts = 4 ∷ 5 ∷ []

cdc_chunk_ends-behind_cut_example :
    tail_cuts ≡ map (λ e. length head_bytes + e) (cdc_chunk_ends tail_bytes pairs)
unfolding cdc_chunk_ends cdc_loop next_cut cut_loop skip_loop mask_bits floor_log2 next_fp
cdc_chunk_ends-behind_cut_example =
    cdc_chunk_ends-behind_cut pairs head_bytes tail_bytes [] tail_cuts refl

roll-adler32_example : roll_adler32 (adler32 (255 ∷ 2 ∷ 3 ∷ [])) 255 4 ≡ adler32 (2 ∷ 3 ∷ 4 ∷ [])
roll-adler32_example = roll-adler32 255 4 (2 ∷ 3 ∷ []) (omega arith)

abbrev old_sigs : List BlockSignature
old_sigs = sign identity old_file 0 0 3 ∷ sign identity old_file 1 3 6 ∷ []

compute_delta_fixed-plain_loop_example :
    compute_delta_fixed identity old_file old_sigs 3
    ≡ plain_loop identity 8 old_file (build_buckets_fixed old_sigs 3 []) 3 0 0
compute_delta_fixed-plain_loop_example =
    compute_delta_fixed-plain_loop identity old_file old_sigs 3
      (
        omega arith,
        (
          omega arith,
          (omega arith, (omega arith, (omega arith, (omega arith, (omega arith, tt))))),
        ),
      )
      (omega arith)
