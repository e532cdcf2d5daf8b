-- ===== src/Cli/Delta/Upload.antt =====
-- A client's delta, uploaded: the rows that the server's loop over the operations makes of it.
use mathlib.Core.Path.{subst}
use mathlib.Core.List.{flatten}
use delta_sync_engine.Prelude.{
  ℕ, ◌+◌, ◌-◌, ◌≤◌, ◌<◌, ◌≡◌, refl, sym, ap, ◌∙◌, List, [], ◌∷◌, ◌++◌, some, arith, length, take,
  drop, slice, All, length-take, length-drop, length-append, take-append, drop-append,
}
use delta_sync_engine.Prelude.Texts.{Text}
use delta_sync_engine.Hash.Adler.{adler32_value}
use delta_sync_engine.Hash.Strong.{sha256}
use delta_sync_engine.Wire.OpsBinary.{UploadOp, copy, literal}
use delta_sync_engine.Wire.Manifest.{ManifestRow, ManifestChunk}
use delta_sync_engine.Rsync.Signatures.{BlockSignature, ChunkingMode}
use delta_sync_engine.Server.Upload.Literals.{
  Objects, Progress, copy_row, store_literal, upload_ops,
}
use delta_sync_engine.Server.Upload.Literals.Streaming.{read_literal_lem}
use delta_sync_engine.Server.Upload.Handler.Totals.{Consecutive}
use delta_sync_engine.Cli.Delta.{ClientDelta, compute_delta}
use delta_sync_engine.Cli.Delta.Leading.{IsServed, Leads, compute_delta-Leads}

module _ (digest : List ℕ → List ℕ) (prev : List ManifestChunk) (new : List ℕ) where
  -- What is uploaded describes the new file from `pos` on.
  abbrev pub Described : List ManifestRow → Type 0
  Described rows =
      All
        (λ row.
          row.strong_hash_hex ≡ sha256 digest (slice new row.offset (row.offset + row.length)))
        rows

  length-window : (pos len : ℕ) → pos + len ≤ length new → length (slice new pos (pos + len)) ≡ len
  length-window pos len inside =
      length-take (pos + len - pos) (drop pos new) ∙ omega (arith, length-drop pos new)

  upload_ops-Leads :
      (temp_keys : ℕ → Text) (n : ℕ) (ops : List UploadOp) (s : Progress)
      → Leads digest prev new s.running_offset ops (s.current ++ flatten s.pieces)
      → (rows : List ManifestRow) × (s' : Progress) × (upload_ops digest temp_keys n prev ops s
          ≡ (some rows, s'))
        × Consecutive s.running_offset (length new) rows
        × Described rows
  unfolding upload_ops copy_row
  upload_ops-Leads keys n [] s (at_end, no_more) = ([], s, refl, at_end, tt)
  upload_ops-Leads keys n (copy i ∷ ops) s (c, there, inside, hashed, rest) =
      let s1 : Progress = record s { running_offset = s.running_offset + c.length } in
      let (rows, s', e, tiles, described) = upload_ops-Leads keys n ops s1 rest in
      (
        copy_row s.running_offset c ∷ rows,
        s',
        rw (there, upload_ops, e) refl,
        (refl, tiles),
        (hashed, described),
      )
  upload_ops-Leads keys n (literal o len ∷ ops) s (left, inside, front, rest) =
      let window = slice new s.running_offset (s.running_offset + len) in
      let size = length-window s.running_offset len inside in
      let stream = s.current ++ flatten s.pieces in
      let (current, pieces, e, behind) =
        read_literal_lem len s.current s.pieces
          (omega (arith, ap length front, length-append window left)) in
      let bytes : take len stream ≡ window =
        ap (take len) front ∙ take-append window left len size in
      let after : current ++ flatten pieces ≡ left =
        behind ∙ ap (drop len) front ∙ drop-append window left len size in
      let s1 : Progress = record {
        current = current;
        pieces = pieces;
        objects =
            store_literal (keys n) (sha256 digest (take len stream)) (take len stream) s.objects;
        bytes_transferred = s.bytes_transferred + len;
        running_offset = s.running_offset + len;
      } in
      let (rows, s', e', tiles, described) =
        upload_ops-Leads keys (n + 1) ops s1
          (subst (λ l. Leads digest prev new (s.running_offset + len) ops l) (sym after) rest) in
      (
        record {
          offset = s.running_offset;
          length = len;
          weak_hash = adler32_value (take len stream);
          strong_hash_hex = sha256 digest (take len stream);
        }
            ∷ rows,
        s',
        rw (e, upload_ops, e') refl,
        (refl, tiles),
        (ap (sha256 digest) bytes, described),
      )

-- A new file's delta against the served signatures of the previous version, in either mode and for any
-- block size but 0, is computed, and its upload succeeds, however `cut` cuts the body into pieces: the
-- rows lie one behind the other from 0 to the file's length, and each carries the strong hash of its part
-- of the new file. Condition: each signature is that of the previous chunk with its index, and its strong
-- hash is that of no part of the new file with another length.
pub upload_ops-compute_delta :
    (digest : List ℕ → List ℕ) (prev : List ManifestChunk) (new : List ℕ)
    (sigs : List BlockSignature) (mode : ChunkingMode) (block_size : ℕ) (temp_keys : ℕ → Text)
    (objects : Objects) (cut : List ℕ → List (List ℕ))
    → All (IsServed digest prev new) sigs
    → 0 < block_size
    → ((body : List ℕ) → flatten (cut body) ≡ body)
    → (d : ClientDelta) × (rows : List ManifestRow) × (s' : Progress) × (compute_delta digest new
          sigs mode block_size
        ≡ some d)
      × (upload_ops digest temp_keys 0 prev d.ops (record {
        current = [];
        pieces = cut d.literal_bytes;
        objects = objects;
        bytes_transferred = 0;
        running_offset = 0;
      })
          ≡ (some rows, s'))
      × Consecutive 0 (length new) rows
      × Described digest prev new rows
upload_ops-compute_delta digest prev new sigs mode n keys objects cut served pos whole =
    let (d, e, leads) = compute_delta-Leads digest prev new sigs mode n served pos in
    let (rows, s', e', tiles, described) =
      upload_ops-Leads digest prev new keys 0 d.ops _
        (subst (λ l. Leads digest prev new 0 d.ops l) (sym (whole d.literal_bytes)) leads) in
    (d, rows, s', e, e', tiles, described)
