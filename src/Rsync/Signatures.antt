-- ===== src/Rsync/Signatures.antt =====
-- src/lib/rsync/signatures.ts: signatures of fixed-size blocks or of content-defined chunks.
use delta_sync_engine.Prelude.{
  ℕ, zero, suc, ◌+◌, ◌-◌, ◌*◌, ◌/◌, min, max, List, [], ◌∷◌, Option, none, some, ltb, if◌then◌else◌,
  length, slice,
}
use mathlib.Core.Option
use delta_sync_engine.Prelude.Texts.{Text}
use delta_sync_engine.Hash.Adler.{adler32, adler32_hash}
use delta_sync_engine.Hash.Strong.{sha256}
use delta_sync_engine.Cdc.{CdcOptions, Range, cdc_ranges}

pub record BlockSignature : Type 0 where
  pub index : ℕ
  pub offset : ℕ
  pub length : ℕ
  pub weak : ℕ
  pub strong : Text

pub data ChunkingMode : Type 0 where
  cdc fixed : ChunkingMode

-- The signature of the bytes from `offset` to `end`.
unfoldable pub sign : (List ℕ → List ℕ) → List ℕ → ℕ → ℕ → ℕ → BlockSignature
sign digest bytes index offset end = record {
  index = index;
  offset = offset;
  length = end - offset;
  weak = adler32_hash (adler32 (slice bytes offset end));
  strong = sha256 digest (slice bytes offset end);
}

-- `for (let offset = 0; offset < bytes.length; offset += blockSize)`; `none` is a loop that has not
-- ended when the fuel is used up, as with blocks of size 0.
unfoldable pub fixed_loop :
    (List ℕ → List ℕ) → ℕ → List ℕ → ℕ → ℕ → ℕ → Option (List BlockSignature)
unfolding sign
fixed_loop digest zero bytes block_size offset index = none
fixed_loop digest (suc fuel) bytes block_size offset index =
    let end = min (offset + block_size) (length bytes) in
    let rest = fixed_loop digest fuel bytes block_size (offset + block_size) (index + 1) in
    if ltb offset (length bytes)
    then Option.map (λ sigs. sign digest bytes index offset end ∷ sigs) rest
    else some []

unfoldable pub cdc_sigs : (List ℕ → List ℕ) → List ℕ → ℕ → List Range → List BlockSignature
unfolding sign
cdc_sigs digest bytes index [] = []
cdc_sigs digest bytes index (r ∷ ranges) =
    sign digest bytes index r.start r.end ∷ cdc_sigs digest bytes (index + 1) ranges

-- The options that signatures and deltas share.
unfoldable pub cdc_options : ℕ → CdcOptions
cdc_options block_size = record {
  min_size = max 256 (block_size / 4);
  avg_size = block_size;
  max_size = min (256 * 1024) (block_size * 32);
}

unfoldable pub compute_signatures :
    (List ℕ → List ℕ) → List ℕ → ℕ → ChunkingMode → Option (List BlockSignature)
unfolding fixed_loop cdc_sigs cdc_options
compute_signatures digest bytes block_size fixed =
    fixed_loop digest (length bytes + 1) bytes block_size 0 0
compute_signatures digest bytes block_size cdc =
    some (cdc_sigs digest bytes 0 (cdc_ranges bytes (cdc_options block_size)))
