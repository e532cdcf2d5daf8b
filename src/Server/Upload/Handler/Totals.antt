-- ===== src/Server/Upload/Handler/Totals.antt =====
-- What the rows of an upload add up to.
use mathlib.Core.Option
use mathlib.Core.Path.{subst}
use delta_sync_engine.Prelude.{
  ℕ, ◌+◌, ◌≡◌, refl, inl, inr, List, [], ◌∷◌, Option, none, some, arith, Option-cases,
}
use delta_sync_engine.Prelude.Texts.{Text}
use delta_sync_engine.Wire.OpsBinary.{UploadOp, copy, literal}
use delta_sync_engine.Wire.Manifest.{ManifestRow, ManifestChunk}
use delta_sync_engine.Server.Upload.Literals.{
  Progress, chunk_at, copy_row, read_literal, store_literal, upload_ops,
}
use delta_sync_engine.Hash.Strong.{sha256}
use delta_sync_engine.Hash.Adler.{adler32_value}

-- The rows lie one behind the other from `start` to `end`.
abbrev pub Consecutive : ℕ → ℕ → List ManifestRow → Type 0
Consecutive start end [] = start ≡ end
Consecutive start end (row ∷ rows) =
    (row.offset ≡ start) × Consecutive (start + row.length) end rows

-- The bytes of the literals of the operations.
abbrev pub literal_total : List UploadOp → ℕ
literal_total [] = 0
literal_total (copy i ∷ ops) = literal_total ops
literal_total (literal o len ∷ ops) = len + literal_total ops

-- What is to be shown of the loop's result, which has no rows where the body ends too early.
abbrev Fits : Progress → List UploadOp → Option (List ManifestRow) × Progress → Type 0
Fits s ops (none, s') = Unit {0}
Fits s ops (some rows, s') =
    Consecutive s.running_offset s'.running_offset rows
    × (s'.bytes_transferred ≡ s.bytes_transferred + literal_total ops)

Fits-row :
    (s s1 : Progress) (op : UploadOp) (ops : List UploadOp) (row : ManifestRow)
    (r : Option (List ManifestRow) × Progress)
    → row.offset ≡ s.running_offset
    → s1.running_offset ≡ s.running_offset + row.length
    → s1.bytes_transferred + literal_total ops ≡ s.bytes_transferred + literal_total (op ∷ ops)
    → Fits s1 ops r
    → Fits s (op ∷ ops) (Option.map (λ rows. row ∷ rows) r.0, r.1)
Fits-row s s1 op ops row (none, s') o w b h = tt
Fits-row s s1 op ops row (some rows, s') o w b h =
    ((o, subst (λ x. Consecutive x s'.running_offset rows) w h.0), omega (arith, b, h.1))

upload_ops-Fits :
    (digest : List ℕ → List ℕ) (temp_keys : ℕ → Text) (n : ℕ) (prev : List ManifestChunk)
    (ops : List UploadOp) (s : Progress)
    → Fits s ops (upload_ops digest temp_keys n prev ops s)
unfolding upload_ops copy_row
upload_ops-Fits digest keys n prev [] s = (refl, omega arith)
upload_ops-Fits digest keys n prev (copy i ∷ ops) s = elim (Option-cases (chunk_at i prev)) [
  | inl unknown ↦ rw (unknown, upload_ops) tt
  | inr (pc, there) ↦
      let s1 : Progress = record s { running_offset = s.running_offset + pc.length } in
      rw (there, upload_ops)
        (Fits-row s s1 (copy i) ops (copy_row s.running_offset pc)
          (upload_ops digest keys n prev ops s1) refl refl refl
          (upload_ops-Fits digest keys n prev ops s1))
]
upload_ops-Fits digest keys n prev (literal o len ∷ ops) s =
    elim (Option-cases (read_literal len s.current s.pieces)) [
      | inl short ↦ rw (short, upload_ops) tt
      | inr ((bytes, (current, pieces)), there) ↦
          let row : ManifestRow = record {
            offset = s.running_offset;
            length = len;
            weak_hash = adler32_value bytes;
            strong_hash_hex = sha256 digest bytes;
          } in
          let s1 : Progress = record {
            current = current;
            pieces = pieces;
            objects = store_literal (keys n) (sha256 digest bytes) bytes s.objects;
            bytes_transferred = s.bytes_transferred + len;
            running_offset = s.running_offset + len;
          } in
          rw (there, upload_ops)
            (Fits-row s s1 (literal o len) ops row (upload_ops digest keys (n + 1) prev ops s1) refl
              refl (omega arith) (upload_ops-Fits digest keys (n + 1) prev ops s1))
    ]

-- Where a body is read to its end, the rows lie one behind the other from the offset at which the
-- loop starts to the one at which it ends, and what is counted as transferred is exactly the bytes of
-- the literals.
pub upload_ops-Consecutive :
    (digest : List ℕ → List ℕ) (temp_keys : ℕ → Text) (n : ℕ) (prev : List ManifestChunk)
    (ops : List UploadOp) (s s' : Progress) (rows : List ManifestRow)
    → upload_ops digest temp_keys n prev ops s ≡ (some rows, s')
    → Consecutive s.running_offset s'.running_offset rows
      × (s'.bytes_transferred ≡ s.bytes_transferred + literal_total ops)
upload_ops-Consecutive digest keys n prev ops s s' rows e =
    subst (Fits s ops) e (upload_ops-Fits digest keys n prev ops s)
