-- ===== src/Server/Upload/Literals.antt =====
-- The literals of an upload, read from the body's stream and moved to the object store:
-- src/routes/api/public/sync/upload.ts, the loop over the operations.
pub mod Streaming
use mathlib.Core.Option
use delta_sync_engine.Prelude.{
  ℕ, suc, ◌+◌, ◌-◌, List, [], ◌∷◌, ◌++◌, Option, none, some, Bool, true, false, ◌==◌, leb,
  if◌then◌else◌, length, take, drop,
}
use delta_sync_engine.Prelude.Texts.{Text, codes}
use delta_sync_engine.Prelude.Maps.{lookup, insert, erase}
use delta_sync_engine.Hash.Strong.{sha256}
use delta_sync_engine.Hash.Adler.{adler32_value}
use delta_sync_engine.Wire.OpsBinary.{UploadOp, copy, literal}
use delta_sync_engine.Wire.Manifest.{ManifestRow, ManifestChunk}

-- The bucket: the bytes of each key.
abbrev pub Objects : Type 0
Objects = List (Text × List ℕ)

-- `prevByIndex.get(i)`: of two chunks with one index the later counts.
unfoldable pub chunk_at : ℕ → List ManifestChunk → Option ManifestChunk
chunk_at i [] = none
chunk_at i (c ∷ chunks) = elim (chunk_at i chunks) [
  | some d ↦ some d
  | none ↦ if c.block_index == i then some c else none
]

-- `remaining` bytes: first of the piece in hand, then of the pieces that `reader.read()` gives.
-- The result is the bytes, the rest of the piece in hand and the pieces not yet read; `none` is
-- "Unexpected end of stream".
unfoldable pub read_literal :
    ℕ → List ℕ → List (List ℕ) → Option (List ℕ × (List ℕ × List (List ℕ)))
read_literal remaining current [] =
    if leb remaining (length current)
    then some (take remaining current, (drop remaining current, []))
    else none
read_literal remaining current (piece ∷ pieces) =
    let rest = read_literal (remaining - length current) piece pieces in
    if leb remaining (length current)
    then some (take remaining current, (drop remaining current, piece ∷ pieces))
    else elim rest [ none ↦ none | some (bytes, left) ↦ some (current ++ bytes, left) ]

-- Upload under a temporary key, copy to the hash unless an object is there, delete the temporary.
unfoldable pub store_literal : Text → Text → List ℕ → Objects → Objects
unfolding lookup insert erase
store_literal temp_key strong_hash bytes objects =
    let uploaded = insert temp_key bytes objects in
    elim (lookup strong_hash uploaded) [
      | some there ↦ erase temp_key uploaded
      | none ↦ erase temp_key (insert strong_hash bytes uploaded)
    ]

-- The state of the loop: what is left of the stream, the bucket, and the running totals.
pub record Progress : Type 0 where
  pub current : List ℕ
  pub pieces : List (List ℕ)
  pub objects : Objects
  pub bytes_transferred : ℕ
  pub running_offset : ℕ

unfoldable pub copy_row : ℕ → ManifestChunk → ManifestRow
copy_row offset pc = record {
  offset = offset;
  length = pc.length;
  weak_hash = pc.weak_hash;
  strong_hash_hex = pc.strong_hash_hex;
}

-- `digest` is SHA-256, `temp_keys` the keys `temp-<uuid>` that are drawn for the literals in turn.
-- The rows are `none` when the body ends too early, and for a copy of an unknown block, which the
-- handler excludes; what the bucket holds by then stays in it.
unfoldable pub upload_ops :
    (List ℕ → List ℕ)
    → (ℕ → Text)
    → ℕ
    → List ManifestChunk
    → List UploadOp
    → Progress
    → Option (List ManifestRow) × Progress
unfolding chunk_at copy_row read_literal store_literal adler32_value sha256
upload_ops digest temp_keys n prev [] s = (some [], s)
upload_ops digest temp_keys n prev (copy i ∷ ops) s = elim (chunk_at i prev) [
  | none ↦ (none, s)
  | some pc ↦
      let (rows, s') =
        upload_ops digest temp_keys n prev ops
          (record s { running_offset = s.running_offset + pc.length }) in
      (Option.map (λ rows. copy_row s.running_offset pc ∷ rows) rows, s')
]
upload_ops digest temp_keys n prev (literal o len ∷ ops) s =
    elim (read_literal len s.current s.pieces) [
      | none ↦ (none, s)
      | some (bytes, (current, pieces)) ↦
          let row : ManifestRow = record {
            offset = s.running_offset;
            length = len;
            weak_hash = adler32_value bytes;
            strong_hash_hex = sha256 digest bytes;
          } in
          let (rows, s') = upload_ops digest temp_keys (n + 1) prev ops (record {
            current = current;
            pieces = pieces;
            objects = store_literal (temp_keys n) (sha256 digest bytes) bytes s.objects;
            bytes_transferred = s.bytes_transferred + len;
            running_offset = s.running_offset + len;
          }) in
          (Option.map (λ rows. row ∷ rows) rows, s')
    ]

-- Without a literals field only the copies are carried out.
unfoldable pub copy_ops : List ManifestChunk → List UploadOp → ℕ → List ManifestRow × ℕ
unfolding chunk_at copy_row
copy_ops prev [] offset = ([], offset)
copy_ops prev (literal o len ∷ ops) offset = copy_ops prev ops offset
copy_ops prev (copy i ∷ ops) offset = elim (chunk_at i prev) [
  | none ↦ copy_ops prev ops offset
  | some pc ↦
      let (rows, end) = copy_ops prev ops (offset + pc.length) in (copy_row offset pc ∷ rows, end)
]
