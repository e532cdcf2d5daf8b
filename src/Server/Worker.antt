-- ===== src/Server/Worker.antt =====
-- server/worker.ts: the verification of a version's chunks, and the deletion of a file's chunks.
pub mod Verdict
use mathlib.Core.Option
use delta_sync_engine.Prelude.{
  ℕ, zero, suc, ◌+◌, List, [], ◌∷◌, ◌++◌, Option, none, some, Bool, true, false, ◌==◌, ltb,
  if◌then◌else◌, length, take, map, Result, ok, err, ◌>>=◌, ◌>>◌,
}
use delta_sync_engine.Prelude.Texts.{Text, text_eq}
use delta_sync_engine.Wire.Manifest.{ManifestError, iterate_manifest_hash_pages, pages_from}
use delta_sync_engine.Hash.Strong.{get_s3_key}
use delta_sync_engine.Server.Database.{
  FileVersionRow, Database, OutboxRow, find_version, set_verification, verified, corrupted,
  chunk_verification_failed,
}
use delta_sync_engine.Server.Objects.{Head, has_block}

unfoldable pub missing_of_batch : (Text → Head) → List Text → List Text
unfolding has_block
missing_of_batch head [] = []
missing_of_batch head (hash ∷ batch) =
    if has_block head hash then missing_of_batch head batch else hash ∷ missing_of_batch head batch

unfoldable pub missing_of_batches : (Text → Head) → List (List Text) → List Text
unfolding missing_of_batch
missing_of_batches head [] = []
missing_of_batches head (batch ∷ batches) =
    missing_of_batch head batch ++ missing_of_batches head batches

-- The batches of 50 of each page. `none` is a loop that has not ended when its fuel is used up.
unfoldable pub missing_of_pages : (Text → Head) → List (List Text) → Option (List Text)
unfolding missing_of_batches pages_from
missing_of_pages head [] = some []
missing_of_pages head (page ∷ pages) = elim (pages_from (length page + 1) page 50 0) [
  | none ↦ none
  | some batches ↦
      Option.map (λ rest. missing_of_batches head batches ++ rest) (missing_of_pages head pages)
]

unfoldable pub total_length : List (List Text) → ℕ
total_length [] = 0
total_length (page ∷ pages) = length page + total_length pages

unfoldable pub failure_event : Text → FileVersionRow → List Text → ℕ → Text → OutboxRow
failure_event version_id v missing total event_id = record {
  id = event_id;
  event_type = chunk_verification_failed;
  aggregate_id = version_id;
  payload = record {
    version_id = version_id;
    file_id = v.file_id;
    total_blocks = 0;
    chunk_hashes = [];
    missing_hashes = take 100 missing;
    total_hashes = total;
    missing_count = length missing;
  };
  processed = false;
}

-- What is recorded of a version when its missing chunks are known.
unfoldable pub record_verdict : Text → FileVersionRow → List Text → ℕ → Text → Database → Database
unfolding set_verification failure_event
record_verdict version_id v [] total event_id db = record db {
  file_versions = set_verification version_id verified db.file_versions;
}
record_verdict version_id v (hash ∷ missing) total event_id db = record db {
  file_versions = set_verification version_id corrupted db.file_versions;
  outbox_events =
      db.outbox_events ++ failure_event version_id v (hash ∷ missing) total event_id ∷ [];
}

unfoldable pub verify_manifest :
    (Text → Head)
    → Text
    → FileVersionRow
    → List ℕ
    → Text
    → Database
    → Result ManifestError (Option Database)
unfolding iterate_manifest_hash_pages missing_of_pages total_length record_verdict
verify_manifest head version_id v manifest event_id db = do
  pages ← iterate_manifest_hash_pages manifest 10000
  ok (elim pages [
    | none ↦ none
    | some pages ↦
        Option.map (λ missing. record_verdict version_id v missing (total_length pages) event_id db)
          (missing_of_pages head pages)
  ])

-- `event_id` is the id that the alert's row would draw.
unfoldable pub handle_verify_chunks :
    (Text → Head) → Text → Text → Database → Result ManifestError (Option Database)
unfolding verify_manifest find_version text_eq
handle_verify_chunks head version_id event_id db =
    if text_eq version_id []
    then ok (some db)
    else elim (find_version version_id db.file_versions) [
      | none ↦ ok (some db)
      | some v ↦ elim v.chunk_manifest [
        | none ↦ ok (some db)
        | some manifest ↦ verify_manifest head version_id v manifest event_id db
      ]
    ]

-- The deletion requests that succeed: `deletes` says whether the object store carries one out.
unfoldable pub delete_chunks : (List Text → Bool) → List (List Text) → List (List Text) × ℕ
unfolding get_s3_key
delete_chunks deletes [] = ([], 0)
delete_chunks deletes (batch ∷ batches) =
    let (requests, deleted) = delete_chunks deletes batches in
    let keys = map get_s3_key batch in
    (keys ∷ requests, if deletes keys then length batch + deleted else deleted)

-- The requests made and the number of chunks deleted.
unfoldable pub handle_cleanup_file :
    (List Text → Bool) → Text → List Text → Option (List (List Text) × ℕ)
unfolding delete_chunks pages_from text_eq
handle_cleanup_file deletes file_id chunk_hashes =
    if text_eq file_id []
    then some ([], 0)
    else Option.map (delete_chunks deletes)
        (pages_from (length chunk_hashes + 1) chunk_hashes 1000 0)
