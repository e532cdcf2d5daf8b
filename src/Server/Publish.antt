-- ===== src/Server/Publish.antt =====
-- The transaction that makes a new file version, which the handlers of
-- src/routes/api/public/sync/upload.ts and commit.ts share word for word.
pub mod Effects
pub mod Races
pub mod Rows
use delta_sync_engine.Prelude.{
  ℕ, ◌+◌, List, [], ◌∷◌, ◌++◌, Option, none, some, Bool, true, false, not, if◌then◌else◌, length,
  Result, ok, err, ensure, ◌>>=◌, ◌>>◌,
}
use delta_sync_engine.Prelude.Texts.{Text, text_eq}
use delta_sync_engine.Rsync.Signatures.{ChunkingMode}
use delta_sync_engine.Wire.Manifest.{ManifestRow, encode_chunk_manifest_v1}
use delta_sync_engine.Server.Database.{
  FileRow, FileVersionRow, SyncJobRow, Payload, OutboxRow, Database, pending, file_version_created,
  find_file, versions_of, max_version_no, has_version_no, point_file,
}

-- What the handler knows when the transaction begins, and the identifiers that it draws.
pub record Publication : Type 0 where
  pub user_id : Text
  pub path : Text
  pub snapshot : Option Text
  pub new_size : ℕ
  pub block_size : ℕ
  pub chunking : ChunkingMode
  pub content_sha256 : Text
  pub rows : List ManifestRow
  pub bytes_transferred : ℕ
  pub bytes_saved : ℕ
  pub new_file_id : Text
  pub version_id : Text
  pub event_id : Text

pub data PublishError : Type 0 where
  stale conflict : PublishError

unfoldable pub same_version : Option Text → Option Text → Bool
unfolding text_eq
same_version none none = true
same_version (some a) (some b) = text_eq a b
same_version _ _ = false

unfoldable pub current_version : Option FileRow → Option Text
current_version none = none
current_version (some f) = f.current_version_id

-- The file's row, found or inserted: its id, and the table.
unfoldable pub file_to_publish : Publication → Database → Text × List FileRow
file_to_publish p db = elim (find_file p.user_id p.path db.files) [
  | some f ↦ (f.id, db.files)
  | none ↦ (
    p.new_file_id,
    db.files
        ++ record {
          id = p.new_file_id;
          user_id = p.user_id;
          path = p.path;
          current_version_id = none;
          total_size = p.new_size;
        }
          ∷ [],
  )
]

unfoldable pub new_version : (ℕ → List ℕ) → Publication → Text → ℕ → FileVersionRow
new_version alloc_unsafe p file_id version_no = record {
  id = p.version_id;
  file_id = file_id;
  version_no = version_no;
  size = p.new_size;
  total_blocks = length p.rows;
  block_size = p.block_size;
  chunk_manifest = some (encode_chunk_manifest_v1 alloc_unsafe p.rows);
  chunking_mode = p.chunking;
  content_sha256 = p.content_sha256;
  verification_status = pending;
}

unfoldable pub new_event : Publication → Text → OutboxRow
new_event p file_id = record {
  id = p.event_id;
  event_type = file_version_created;
  aggregate_id = p.version_id;
  payload = record {
    version_id = p.version_id;
    file_id = file_id;
    total_blocks = length p.rows;
    chunk_hashes = [];
    missing_hashes = [];
    total_hashes = 0;
    missing_count = 0;
  };
  processed = false;
}

-- `stale` is thrown before anything is written. `conflict` stands for the error code of a broken unique index; where the
-- transaction's reads see one state it does not arise (Races), so that no rollback is relied on here.
-- Failures of the database's own requests are left out.
unfoldable pub publish : (ℕ → List ℕ) → Publication → Database → Result PublishError (Database × ℕ)
unfolding same_version current_version file_to_publish new_version new_event
publish alloc_unsafe p db = do
  ensure (same_version (current_version (find_file p.user_id p.path db.files)) p.snapshot) stale
  let (file_id, files) = file_to_publish p db
  let next_ver = max_version_no (versions_of file_id db.file_versions) + 1
  ensure (not (has_version_no file_id next_ver db.file_versions)) conflict
  ok (
    record {
      files = point_file file_id p.version_id p.new_size files;
      file_versions = db.file_versions ++ new_version alloc_unsafe p file_id next_ver ∷ [];
      blocks = db.blocks;
      sync_jobs =
          db.sync_jobs
          ++ record {
            user_id = p.user_id;
            file_id = file_id;
            bytes_transferred = p.bytes_transferred;
            bytes_saved = p.bytes_saved;
          }
            ∷ [];
      outbox_events = db.outbox_events ++ new_event p file_id ∷ [];
    },
    next_ver,
  )
