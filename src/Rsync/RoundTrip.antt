-- ===== src/Rsync/RoundTrip.antt =====
-- The delta of any new file, applied to the old file, gives the new file back.
use delta_sync_engine.Prelude.{
  ℕ, zero, suc, ◌+◌, ◌-◌, ◌≤◌, ◌<◌, ◌≡◌, refl, sym, ap, ◌∙◌, inl, inr, List, [], ◌∷◌, ◌++◌, some,
  arith, leb, ltb, Bool-cases, Option-cases, if◌then◌else◌, length, get_or, drop, slice, All,
  length-take, length-drop, take-all, ok,
}
use mathlib.Core.Path.{subst}
use mathlib.Core.List.{append-nil}
use delta_sync_engine.Hash.Adler.{Adler32State, adler32, adler32_hash, roll_adler32}
use delta_sync_engine.Hash.Strong.{sha256, sha256-injective}
use delta_sync_engine.Cdc.{Range, cdc_ranges}
use delta_sync_engine.Cdc.Tiling.{Tiles, cdc_ranges-Tiles}
use delta_sync_engine.Rsync.Signatures.{
  BlockSignature, ChunkingMode, cdc, fixed, cdc_options, compute_signatures,
}
use delta_sync_engine.Rsync.Delta.{
  DeltaOp, DeltaStats, DeltaResult, count_op, count_ops, no_stats, copy, literal,
  build_buckets_fixed, build_buckets_all, match_window, match_chunk, yield_literal, rolling_loop,
  compute_delta_fixed, chunk_op, chunk_loop, compute_delta_cdc, compute_delta_chunked,
  compute_delta,
}
use delta_sync_engine.Rsync.Patch.{apply_delta}
use delta_sync_engine.Rsync.Matching.{match_window_sound, match_chunk_sound}
use delta_sync_engine.Rsync.Signed.{IsSigOf, compute_signatures-IsSigOf}
use delta_sync_engine.Rsync.Rebuild.{
  Rebuilds, yield_literal-Rebuilds, apply_delta-Rebuilds, count_ops-Rebuilds,
}

-- The digest tells a block of the old file from a window of the new file.
abbrev pub NoCollision : (List ℕ → List ℕ) → List ℕ → List ℕ → Type 0
NoCollision digest old new =
    (a b i j : ℕ) → digest (slice old a b) ≡ digest (slice new i j) → slice old a b ≡ slice new i j

total_lem :
    (ops : List DeltaOp) (stats : DeltaStats)
    → (count_ops ops stats).total_new_bytes ≡ stats.total_new_bytes
unfolding count_ops count_op
total_lem [] stats = refl
total_lem (copy index offset len ∷ ops) stats = total_lem ops _
total_lem (literal offset bytes ∷ ops) stats = total_lem ops _

module _ (digest : List ℕ → List ℕ) (old new : List ℕ) (sigs : List BlockSignature)
    (no_collision : NoCollision digest old new) (signed : All (IsSigOf digest old sigs) sigs) where
  -- A signature with the strong hash of a part of the new file serves for a copy of it.
  copy-Rebuilds :
      {s : BlockSignature} (pos len : ℕ) (ops : List DeltaOp)
      → IsSigOf digest old sigs s
      → s.strong ≡ sha256 digest (slice new pos (pos + len))
      → pos + len ≤ length new
      → Rebuilds old sigs new (pos + len) ops
      → Rebuilds old sigs new pos (copy s.index pos len ∷ ops)
  copy-Rebuilds {s} pos len ops is_sig strong inside h = (
    refl,
    inside,
    (
      s,
      is_sig.at,
      sha256-injective digest _ _ (no_collision s.offset (s.offset + s.length) pos (pos + len))
          (sym is_sig.hashed ∙ strong),
    ),
    h,
  )

  finish :
      (from : ℕ)
      → from ≤ length new
      → Rebuilds old sigs new from (yield_literal new from (length new))
  finish from le =
      subst (λ l. Rebuilds old sigs new from l) (append-nil _)
        (yield_literal-Rebuilds old sigs new from (length new) [] le (omega arith) refl)

  every_block :
      (block_size : ℕ) (list : List BlockSignature)
      → All (IsSigOf digest old sigs) list
      → All (λ s. s.length ≡ block_size → IsSigOf digest old sigs s) list
  every_block n [] h = tt
  every_block n (s ∷ list) (p, h) = ((λ e. p), every_block n list h)

  rolling_loop-Rebuilds :
      (block_size fuel i literal_start : ℕ) (state : Adler32State)
      → 0 < block_size
      → length new < i + fuel
      → 0 < fuel
      → i ≤ length new
      → literal_start ≤ i
      → (ops : List DeltaOp) × (rolling_loop digest fuel new
            (build_buckets_fixed sigs block_size [])
            block_size
            i
            literal_start
            state
          ≡ some ops)
        × Rebuilds old sigs new literal_start ops
  unfolding rolling_loop
  rolling_loop-Rebuilds n zero i ls state pos enough some_fuel le below = elim some_fuel [ ]
  rolling_loop-Rebuilds n (suc fuel) i ls state pos enough some_fuel le below =
      let buckets = build_buckets_fixed sigs n [] in
      let next = i + n in
      let hash = adler32_hash state in
      elim (Bool-cases (leb next (length new))) [
        | inr past_end ↦ (_, rw past_end, finish ls (omega arith))
        | inl room ↦ elim (Option-cases (match_window digest buckets hash (slice new i next))) [
          | inl unmatched ↦ elim (Bool-cases (leb (length new) next)) [
            | inl at_end ↦ (_, rw (room, unmatched, at_end), finish ls (omega arith))
            | inr more ↦
                let rolled = roll_adler32 state (get_or new i 0) (get_or new next 0) in
                let (ops, e, h) =
                  rolling_loop-Rebuilds n fuel (i + 1) ls rolled pos (omega arith) (ground arith)
                    (ground arith) (omega arith) in
                (ops, rw (room, unmatched, more) e, h)
          ]
          | inr (sig, matched) ↦
              let (is_sig, strong) =
                match_window_sound (IsSigOf digest old sigs) digest sigs n hash (slice new i next)
                  (every_block n sigs signed) matched in
              let inside : next ≤ length new = ground arith in
              elim (Bool-cases (leb (next + n) (length new))) [
                | inl again ↦
                    let anew = adler32 (slice new next (next + n)) in
                    let (ops, e, h) =
                      rolling_loop-Rebuilds n fuel next next anew pos (omega arith) (ground arith)
                        inside (omega arith) in
                    (
                      yield_literal new ls i ++ (copy sig.index i n ∷ ops),
                      rw (room, matched, again, e),
                      yield_literal-Rebuilds old sigs new ls i _ below le
                          (copy-Rebuilds i n ops is_sig strong inside h),
                    )
                | inr no_more ↦ (
                  yield_literal new ls i
                      ++ (copy sig.index i n ∷ yield_literal new next (length new)),
                  rw (room, matched, no_more),
                  yield_literal-Rebuilds old sigs new ls i _ below le
                      (copy-Rebuilds i n _ is_sig strong inside (finish next inside)),
                )
              ]
        ]
      ]

  chunk_op-Rebuilds :
      (start end : ℕ) (rest : List DeltaOp)
      → start < end
      → end ≤ length new
      → Rebuilds old sigs new end rest
      → let window = slice new start end in
        let found = match_chunk digest (build_buckets_all sigs []) window in
        Rebuilds old sigs new start (chunk_op window start found ∷ rest)
  unfolding chunk_op
  chunk_op-Rebuilds start end rest more inside h =
      let window = slice new start end in
      let size : length window ≡ end - start =
        length-take (end - start) (drop start new) ∙ omega (arith, length-drop start new) in
      let total : start + length window ≡ end = omega arith in
      let same : slice new start (start + length window) ≡ window = rw total refl in
      let rest' = rw (← total) at h in
      elim (Option-cases (match_chunk digest (build_buckets_all sigs []) window)) [
        | inl unmatched ↦ rw unmatched (refl, omega arith, sym same, rest')
        | inr (sig, matched) ↦
            let (is_sig, strong, len) =
              match_chunk_sound (IsSigOf digest old sigs) digest sigs window signed matched in
            rw matched (
              copy-Rebuilds start (length window) rest is_sig
                (strong ∙ ap (sha256 digest) (sym same)) (omega arith) rest')
      ]

  chunk_loop-Rebuilds :
      (ranges : List Range) (pos : ℕ)
      → Tiles pos (length new) ranges
      → Rebuilds old sigs new pos (chunk_loop digest new (build_buckets_all sigs []) ranges)
  unfolding chunk_loop
  chunk_loop-Rebuilds [] pos h = h
  chunk_loop-Rebuilds (r ∷ ranges) pos (start, more, inside, h) =
      let buckets = build_buckets_all sigs [] in
      subst (λ p. Rebuilds old sigs new p (chunk_loop digest new buckets (r ∷ ranges))) start
        (chunk_op-Rebuilds r.start r.end _ (omega arith) inside
          (chunk_loop-Rebuilds ranges r.end h))

  whole-Rebuilds : Rebuilds old sigs new 0 (if ltb 0 (length new) then literal 0 new ∷ [] else [])
  whole-Rebuilds = elim (Bool-cases (ltb 0 (length new))) [
    | inl some_bytes ↦
        let len = length new in
        let all : slice new 0 (0 + len) ≡ new = take-all new (0 + len - 0) (omega arith) in
        rw some_bytes (refl, omega arith, sym all, omega arith)
    | inr empty ↦ rw empty (ground arith)
  ]

  compute_delta_cdc-Rebuilds :
      (list : List BlockSignature) (block_size : ℕ)
      → list ≡ sigs
      → Rebuilds old sigs new 0 (compute_delta_cdc digest new list block_size)
  unfolding compute_delta_cdc
  compute_delta_cdc-Rebuilds [] n e = whole-Rebuilds
  compute_delta_cdc-Rebuilds (s ∷ list) n e =
      let ranges = cdc_ranges new (cdc_options n) in
      subst (λ l. Rebuilds old sigs new 0 (chunk_loop digest new (build_buckets_all l []) ranges))
        (sym e) (chunk_loop-Rebuilds ranges 0 (cdc_ranges-Tiles new (cdc_options n)))

  compute_delta_chunked-Rebuilds :
      (block_size : ℕ) (mode : ChunkingMode)
      → 0 < block_size
      → (ops : List DeltaOp) × (compute_delta_chunked digest new sigs block_size mode ≡ some ops)
        × Rebuilds old sigs new 0 ops
  unfolding compute_delta_chunked compute_delta_fixed
  compute_delta_chunked-Rebuilds n cdc pos = (_, refl, compute_delta_cdc-Rebuilds sigs n refl)
  compute_delta_chunked-Rebuilds n fixed pos = elim (Bool-cases (ltb (length new) n)) [
    | inl short ↦ (_, rw short, whole-Rebuilds)
    | inr long ↦
        let (ops, e, h) =
          rolling_loop-Rebuilds n (length new + 1) 0 0 (adler32 (slice new 0 n)) pos (omega arith)
            (omega arith) (omega arith) (omega arith) in
        (ops, rw long e, h)
  ]

  compute_delta-Rebuilds :
      (block_size : ℕ) (mode : ChunkingMode)
      → 0 < block_size
      → (result : DeltaResult) × (compute_delta digest new sigs block_size mode ≡ some result)
        × Rebuilds old sigs new 0 result.ops
        × (result.stats.copied_bytes + result.stats.literal_bytes ≡ result.stats.total_new_bytes)
        × (result.stats.total_new_bytes ≡ length new)
  unfolding compute_delta
  compute_delta-Rebuilds n mode pos =
      let (ops, e, h) = compute_delta_chunked-Rebuilds n mode pos in
      let none_yet = no_stats (length new) in
      let total = total_lem ops none_yet in
      (
        record { ops = ops; stats = count_ops ops none_yet; block_size = n; mode = mode },
        rw e,
        h,
        omega (arith, total, count_ops-Rebuilds old sigs new 0 ops none_yet h),
        total,
      )

-- Signatures of any old file and the delta of any new file are computed, in either chunking mode and
-- for any block size but 0, and applying the delta to the old file returns exactly the new file: if
-- the digest never takes a part of the old file for a different part of the new one.
pub apply_delta-compute_delta :
    (digest : List ℕ → List ℕ) (old new : List ℕ) (block_size : ℕ)
    (signature_mode delta_mode : ChunkingMode)
    → NoCollision digest old new
    → 0 < block_size
    → (sigs : List BlockSignature) × (result : DeltaResult) × (compute_signatures digest old
          block_size signature_mode
        ≡ some sigs)
      × (compute_delta digest new sigs block_size delta_mode ≡ some result)
      × (apply_delta old sigs result.ops (length new) ≡ ok new)
apply_delta-compute_delta digest old new n signature_mode delta_mode apart pos =
    let (sigs, signed, h) = compute_signatures-IsSigOf digest old n signature_mode pos in
    let (result, e, rebuilds, bytes, total) =
      compute_delta-Rebuilds digest old new sigs apart h n delta_mode pos in
    (sigs, result, signed, e, apply_delta-Rebuilds old sigs new result.ops rebuilds)

-- If the digest never takes a part of the old file for a different part of the new one and the block
-- size is not 0, then the statistics of the delta account for every byte: what is copied and what is
-- sent literally add up to the reported size, which is the length of the new file.
pub compute_delta_bytes :
    (digest : List ℕ → List ℕ) (old new : List ℕ) (block_size : ℕ)
    (signature_mode delta_mode : ChunkingMode)
    → NoCollision digest old new
    → 0 < block_size
    → (sigs : List BlockSignature) × (result : DeltaResult) × (compute_signatures digest old
          block_size signature_mode
        ≡ some sigs)
      × (compute_delta digest new sigs block_size delta_mode ≡ some result)
      × (result.stats.copied_bytes + result.stats.literal_bytes ≡ result.stats.total_new_bytes)
      × (result.stats.total_new_bytes ≡ length new)
compute_delta_bytes digest old new n signature_mode delta_mode apart pos =
    let (sigs, signed, h) = compute_signatures-IsSigOf digest old n signature_mode pos in
    let (result, e, rebuilds, bytes, total) =
      compute_delta-Rebuilds digest old new sigs apart h n delta_mode pos in
    (sigs, result, signed, e, bytes, total)
