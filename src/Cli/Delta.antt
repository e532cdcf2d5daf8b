-- ===== src/Cli/Delta.antt =====
-- cli/src/rsync.ts without the native addon: the client's signatures, and its deltas, whose literals are
-- gathered in one buffer.
pub mod Leading
pub mod Upload
use mathlib.Core.Option
use delta_sync_engine.Prelude.{
  ℕ, zero, suc, ◌+◌, ◌-◌, ◌*◌, ◌/◌, List, [], ◌∷◌, ◌++◌, Option, none, some, Bool, true, ◌&&◌, ◌==◌,
  ltb, leb, if◌then◌else◌, length, slice, min, max,
}
use delta_sync_engine.Prelude.Texts.{text_eq}
use delta_sync_engine.Hash.Adler.{adler32_value, weak16}
use delta_sync_engine.Hash.Strong.{sha256}
use delta_sync_engine.Cdc.{CdcOptions, Range, cdc_ranges}
use delta_sync_engine.Wire.OpsBinary.{UploadOp, copy, literal}
use delta_sync_engine.Rsync.Signatures.{BlockSignature, ChunkingMode, cdc, fixed}
use delta_sync_engine.Rsync.Delta.{Buckets, bucket_get, build_buckets_all, find}

-- 0 stands for a file that is not cut into chunks.
unfoldable pub adaptive_chunk_size : ℕ → ℕ
adaptive_chunk_size file_size =
    if ltb file_size (32 * 1024)
    then 0
    else (if ltb file_size (256 * 1024)
        then 4096
        else (if ltb file_size (10 * 1024 * 1024) then 16384 else 65536))

unfoldable pub client_options : ℕ → CdcOptions
client_options avg = record {
  min_size = max 512 (avg / 4);
  avg_size = avg;
  max_size = min (4 * 1024 * 1024) (avg * 64);
}

unfoldable pub client_signature : (List ℕ → List ℕ) → List ℕ → ℕ → ℕ → ℕ → BlockSignature
client_signature digest bytes index offset end =
    let chunk = slice bytes offset end in
    record {
      index = index;
      offset = offset;
      length = end - offset;
      weak = adler32_value chunk;
      strong = sha256 digest chunk;
    }

-- `none` is a loop that has not ended when the fuel is used up, as with blocks of size 0.
unfoldable pub fixed_signatures :
    (List ℕ → List ℕ) → ℕ → List ℕ → ℕ → ℕ → ℕ → Option (List BlockSignature)
unfolding client_signature
fixed_signatures digest zero bytes block_size offset index = none
fixed_signatures digest (suc fuel) bytes block_size offset index =
    let end = min (offset + block_size) (length bytes) in
    let rest = fixed_signatures digest fuel bytes block_size end (index + 1) in
    if ltb offset (length bytes)
    then Option.map (λ sigs. client_signature digest bytes index offset end ∷ sigs) rest
    else some []

unfoldable pub cdc_signatures : (List ℕ → List ℕ) → List ℕ → ℕ → List Range → List BlockSignature
unfolding client_signature
cdc_signatures digest bytes index [] = []
cdc_signatures digest bytes index (r ∷ ranges) =
    client_signature digest bytes index r.start r.end
    ∷ cdc_signatures digest bytes (index + 1) ranges

unfoldable pub build_signatures :
    (List ℕ → List ℕ) → List ℕ → ChunkingMode → ℕ → Option (List BlockSignature)
unfolding fixed_signatures cdc_signatures client_options
build_signatures digest bytes fixed block_size =
    fixed_signatures digest (length bytes + 1) bytes block_size 0 0
build_signatures digest bytes cdc block_size =
    some (cdc_signatures digest bytes 0 (cdc_ranges bytes (client_options block_size)))

-- The operations, and the bytes of their literals one behind the other.
pub record ClientDelta : Type 0 where
  pub ops : List UploadOp
  pub literal_bytes : List ℕ

-- `flushLiteral`: what it adds to the operations and to the literals.
unfoldable pub flush_literal : List ℕ → ℕ → ℕ → ℕ → ClientDelta
flush_literal bytes lit_start until literal_cursor =
    let chunk = slice bytes lit_start until in
    if ltb lit_start until
    then record { ops = literal literal_cursor (length chunk) ∷ []; literal_bytes = chunk }
    else record { ops = []; literal_bytes = [] }

unfoldable pub then_delta : ClientDelta → ClientDelta → ClientDelta
then_delta d e = record { ops = d.ops ++ e.ops; literal_bytes = d.literal_bytes ++ e.literal_bytes }

unfoldable pub match_slice :
    (List ℕ → List ℕ) → Buckets → List ℕ → (BlockSignature → Bool) → Option BlockSignature
unfolding find bucket_get
match_slice digest buckets window fits =
    let weak = adler32_value window in
    let strong = sha256 digest window in
    elim (bucket_get (weak16 weak) buckets) [
      | none ↦ none
      | some candidates ↦ find (λ c. c.weak == weak && text_eq c.strong strong && fits c) candidates
    ]

-- The loop over the positions, from the state (i, litStart, literalCursor); the length
-- of a match is not compared. `none` is a loop that has not ended when the fuel is used up.
unfoldable pub delta_fixed_loop :
    (List ℕ → List ℕ) → ℕ → List ℕ → Buckets → ℕ → ℕ → ℕ → ℕ → Option ClientDelta
unfolding flush_literal then_delta match_slice
delta_fixed_loop digest zero bytes buckets block_size i lit_start literal_cursor = none
delta_fixed_loop digest (suc fuel) bytes buckets block_size i lit_start literal_cursor =
    let next = i + block_size in
    let flushed = flush_literal bytes lit_start i literal_cursor in
    let jump =
      delta_fixed_loop digest fuel bytes buckets block_size next next
        (literal_cursor + length flushed.literal_bytes) in
    let step =
      delta_fixed_loop digest fuel bytes buckets block_size (i + 1) lit_start literal_cursor in
    if leb next (length bytes)
    then elim (match_slice digest buckets (slice bytes i next) (λ c. true)) [
      | none ↦ step
      | some sig ↦
          Option.map
            (λ rest.
              then_delta flushed
                (record { ops = copy sig.index ∷ rest.ops; literal_bytes = rest.literal_bytes }))
            jump
    ]
    else some (flush_literal bytes lit_start (length bytes) literal_cursor)

unfoldable pub compute_delta_fixed :
    (List ℕ → List ℕ) → List ℕ → List BlockSignature → ℕ → Option ClientDelta
unfolding delta_fixed_loop build_buckets_all
compute_delta_fixed digest bytes sigs block_size =
    delta_fixed_loop digest (length bytes + 1) bytes (build_buckets_all sigs []) block_size 0 0 0

unfoldable pub delta_cdc_loop : (List ℕ → List ℕ) → List ℕ → Buckets → List Range → ℕ → ClientDelta
unfolding match_slice
delta_cdc_loop digest bytes buckets [] literal_cursor = record { ops = []; literal_bytes = [] }
delta_cdc_loop digest bytes buckets (r ∷ ranges) literal_cursor =
    let window = slice bytes r.start r.end in
    let kept = delta_cdc_loop digest bytes buckets ranges literal_cursor in
    let rest = delta_cdc_loop digest bytes buckets ranges (literal_cursor + length window) in
    elim (match_slice digest buckets window (λ c. c.length == length window)) [
      | some sig ↦ record { ops = copy sig.index ∷ kept.ops; literal_bytes = kept.literal_bytes }
      | none ↦ record {
        ops = literal literal_cursor (length window) ∷ rest.ops;
        literal_bytes = window ++ rest.literal_bytes;
      }
    ]

unfoldable pub compute_delta_cdc :
    (List ℕ → List ℕ) → List ℕ → List BlockSignature → ℕ → ClientDelta
unfolding delta_cdc_loop build_buckets_all client_options
compute_delta_cdc digest bytes sigs block_size =
    delta_cdc_loop digest bytes (build_buckets_all sigs [])
      (cdc_ranges bytes (client_options block_size)) 0

unfoldable pub compute_delta :
    (List ℕ → List ℕ) → List ℕ → List BlockSignature → ChunkingMode → ℕ → Option ClientDelta
unfolding compute_delta_fixed compute_delta_cdc
compute_delta digest bytes [] mode block_size =
    some (record { ops = literal 0 (length bytes) ∷ []; literal_bytes = bytes })
compute_delta digest bytes (s ∷ sigs) fixed block_size =
    compute_delta_fixed digest bytes (s ∷ sigs) block_size
compute_delta digest bytes (s ∷ sigs) cdc block_size =
    some (compute_delta_cdc digest bytes (s ∷ sigs) block_size)
