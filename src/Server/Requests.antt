-- ===== src/Server/Requests.antt =====
-- What the handlers of negotiate.ts and upload.ts share: the schemas' rules, and the chunks of the
-- version that a file's row points at.
use delta_sync_engine.Prelude.{
  ℕ, List, [], Option, none, some, Bool, not, ◌&&◌, leb, length, Result, ok,
}
use delta_sync_engine.Prelude.Texts.{Text, codes, starts_with, includes}
use delta_sync_engine.Wire.Manifest.{ManifestChunk, ManifestError}
use delta_sync_engine.Server.Database.{FileRow, Database, find_version}
use delta_sync_engine.Server.VersionChunks.{load_version_chunks}

-- `z.string().min(1).max(1024).refine(…)`
unfoldable pub valid_path : Text → Bool
unfolding starts_with includes
valid_path p =
    leb 1 (length p)
    && leb (length p) 1024
    && not (starts_with p (codes "/"))
    && not (includes p (codes "../"))
    && not (includes p (codes "./"))

unfoldable pub valid_block_size : ℕ → Bool
valid_block_size n = leb 256 n && leb n 1_048_576

-- `existingFile?.currentVersionId ? loadVersionChunks(…) : []`
unfoldable pub previous_chunks :
    Database → Option FileRow → Result ManifestError (List ManifestChunk)
unfolding find_version load_version_chunks
previous_chunks db none = ok []
previous_chunks db (some f) = elim f.current_version_id [
  | none ↦ ok []
  | some version_id ↦ elim (find_version version_id db.file_versions) [
    | none ↦ ok []
    | some v ↦ load_version_chunks db version_id v
  ]
]
