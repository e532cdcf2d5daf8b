-- ===== src/Tests/Handlers.antt =====
-- The handlers on small requests.
use delta_sync_engine.Prelude.{
  true, ℕ, ◌+◌, ◌≡◌, refl, sym, ap, List, [], ◌∷◌, ◌++◌, none, some, false, arith, length-replicate,
  take, drop, ok, err, if◌then◌else◌,
}
use mathlib.Core.List.{flatten}
use mathlib.Core.Option.{some-injective}
use delta_sync_engine.Prelude.Texts.{Text, text_eq}
use delta_sync_engine.Prelude.Maps.{lookup}
use delta_sync_engine.Rsync.Signatures.{cdc}
use delta_sync_engine.Wire.OpsBinary.{UploadOp, literal}
use delta_sync_engine.Wire.Manifest.{ManifestRow, encode_chunk_manifest_v1}
use delta_sync_engine.Wire.Manifest.Pages.{hashes}
use delta_sync_engine.Wire.Manifest.RoundTrip.{chunks_of, decode-encode_chunk_manifest_v1}
use delta_sync_engine.Server.Database.{
  OutboxRow, FileRow, FileVersionRow, Database, pending, verified, corrupted, find_file,
  find_version, versions_of, max_version_no, has_version_no, point_file,
}
use delta_sync_engine.Server.Publish.{
  Publication, stale, publish, same_version, current_version, file_to_publish, new_version,
  new_event,
}
use delta_sync_engine.Server.Publish.Effects.{publish-stale}
use delta_sync_engine.Server.Publish.Rows.{
  IsNewVersion, IsNewEvent, IsPointed, publish-IsNewVersion,
}
use delta_sync_engine.Hash.Adler.{adler32_value}
use delta_sync_engine.Hash.Strong.{sha256}
use delta_sync_engine.Server.Objects.{Head, absent}
use delta_sync_engine.Server.Worker.{handle_verify_chunks}
use delta_sync_engine.Server.Worker.Verdict.{all_stored, handle_verify_chunks-status}
use delta_sync_engine.Server.NegotiationStore.{NegotiationPayload}
use delta_sync_engine.Server.Commit.{
  Ids, commit_negotiation, manifest_rows, publication, sum_lengths, weak_hash_or_0,
}
use delta_sync_engine.Server.Commit.Accounting.{IsCommitted, commit_negotiation-IsCommitted}
use delta_sync_engine.Server.Upload.Literals.{Progress, read_literal, upload_ops, store_literal}
use delta_sync_engine.Server.Upload.Literals.Streaming.{read_literal_lem}
use delta_sync_engine.Server.Upload.Handler.Totals.{
  Consecutive, literal_total, upload_ops-Consecutive,
}
use delta_sync_engine.Tests.Formats.{memory, two_rows, hashed}
use delta_sync_engine.Cli.Sync.{World, Options, Meets, get_file, sync_file, is_changed, ancestor_of}
use delta_sync_engine.Cli.Sync.Safety.{sync_file-disk}

abbrev user : Text
user = 117 ∷ []

abbrev path : Text
path = 112 ∷ []

abbrev pub no_data : Database
no_data = record { files = []; file_versions = []; blocks = []; sync_jobs = []; outbox_events = [] }

abbrev pub first_upload : Publication
first_upload = record {
  user_id = user;
  path = path;
  snapshot = none;
  new_size = 10;
  block_size = 4096;
  chunking = cdc;
  content_sha256 = [];
  rows = two_rows;
  bytes_transferred = 0;
  bytes_saved = 0;
  new_file_id = 1 ∷ [];
  version_id = 2 ∷ [];
  event_id = 3 ∷ [];
}

abbrev pub uploaded_once : Database
uploaded_once = record {
  files =
      record {
        id = 1 ∷ [];
        user_id = user;
        path = path;
        current_version_id = some (2 ∷ []);
        total_size = 10;
      }
      ∷ [];
  file_versions = new_version memory first_upload (1 ∷ []) 1 ∷ [];
  blocks = [];
  sync_jobs =
      record { user_id = user; file_id = 1 ∷ []; bytes_transferred = 0; bytes_saved = 0 } ∷ [];
  outbox_events = new_event first_upload (1 ∷ []) ∷ [];
}

publish-IsNewVersion_example :
    (same_version none none ≡ true)
    × ((v : FileVersionRow) × (uploaded_once.file_versions ≡ v ∷ [])
        × IsNewVersion memory first_upload 1 [] v
        × ((f : FileRow) × IsPointed first_upload v uploaded_once.files f)
        × ((e : OutboxRow) × (uploaded_once.outbox_events ≡ e ∷ []) × IsNewEvent first_upload v e))
unfolding publish same_version current_version file_to_publish find_file max_version_no versions_of
    has_version_no point_file text_eq
publish-IsNewVersion_example = publish-IsNewVersion memory first_upload no_data uploaded_once 1 refl

publish-stale_example : publish memory first_upload uploaded_once ≡ err stale
unfolding publish same_version current_version file_to_publish find_file max_version_no versions_of
    has_version_no point_file text_eq
publish-stale_example =
    publish-stale memory first_upload first_upload no_data (uploaded_once, 1) refl refl refl refl

abbrev two_row_manifest : List ℕ
two_row_manifest = encode_chunk_manifest_v1 memory two_rows

abbrev stored : FileVersionRow
stored = record {
  id = 2 ∷ [];
  file_id = 1 ∷ [];
  version_no = 1;
  size = 10;
  total_blocks = 2;
  block_size = 4096;
  chunk_manifest = some two_row_manifest;
  chunking_mode = cdc;
  content_sha256 = [];
  verification_status = pending;
}

abbrev one_version : Database
one_version = record {
  files = [];
  file_versions = stored ∷ [];
  blocks = [];
  sync_jobs = [];
  outbox_events = [];
}

abbrev nothing_stored : Text → Head
nothing_stored key = absent

handle_verify_chunks-status_example :
    (db' : Database) × (handle_verify_chunks nothing_stored (2 ∷ []) (9 ∷ []) one_version
      ≡ ok (some db'))
    × (find_version (2 ∷ []) db'.file_versions
        ≡ some (record stored {
          verification_status =
              if all_stored nothing_stored (hashes (chunks_of 0 two_rows))
              then verified
              else corrupted;
        }))
unfolding find_version text_eq
handle_verify_chunks-status_example =
    handle_verify_chunks-status nothing_stored (2 ∷ []) (9 ∷ []) one_version stored two_row_manifest
      (chunks_of 0 two_rows) refl refl refl
      (decode-encode_chunk_manifest_v1 memory two_rows (λ n. length-replicate n 0) hashed
        (omega arith))

abbrev ids : Ids
ids = record { new_file_id = 1 ∷ []; version_id = 2 ∷ []; event_id = 3 ∷ [] }

abbrev one_chunk : NegotiationPayload
one_chunk = record {
  user_id = user;
  path = path;
  chunking = cdc;
  block_size = 4096;
  new_size = 8;
  content_sha256 = [];
  chunks = record { strong_hash = path; length = 8; weak_hash = none } ∷ [];
  snapshot_current_version_id = none;
}

commit_negotiation-IsCommitted_example :
    IsCommitted memory ids user path one_chunk [] no_data 1 0
      (commit_negotiation memory ids user path one_chunk [] no_data)
unfolding commit_negotiation publication sum_lengths manifest_rows weak_hash_or_0 publish
    same_version current_version file_to_publish find_file max_version_no versions_of has_version_no
    point_file text_eq
commit_negotiation-IsCommitted_example =
    commit_negotiation-IsCommitted memory ids user path one_chunk [] no_data 1 0 refl

abbrev pieces : List (List ℕ)
pieces = (2 ∷ 3 ∷ []) ∷ [] ∷ (4 ∷ 5 ∷ []) ∷ []

abbrev in_hand : List ℕ
in_hand = 1 ∷ []

read_literal_lem_example :
    (current' : List ℕ) × (pieces' : List (List ℕ)) × (read_literal 4 in_hand pieces
      ≡ some (take 4 (in_hand ++ flatten pieces), (current', pieces')))
    × (current' ++ flatten pieces' ≡ drop 4 (in_hand ++ flatten pieces))
unfolding flatten
read_literal_lem_example = read_literal_lem 4 in_hand pieces (omega arith)

abbrev started : Progress
started = record {
  current = [];
  pieces = (2 ∷ 3 ∷ []) ∷ [];
  objects = [];
  bytes_transferred = 0;
  running_offset = 0;
}

abbrev identity : List ℕ → List ℕ
identity bytes = bytes

abbrev temp_keys : ℕ → Text
temp_keys n = n ∷ []

abbrev one_literal : List UploadOp
one_literal = literal 0 2 ∷ []

abbrev literal_bytes : List ℕ
literal_bytes = 2 ∷ 3 ∷ []

abbrev one_row : List ManifestRow
one_row =
    record {
      offset = 0;
      length = 2;
      weak_hash = adler32_value literal_bytes;
      strong_hash_hex = sha256 identity literal_bytes;
    }
    ∷ []

abbrev ended : Progress
ended = record {
  current = [];
  pieces = [];
  objects = store_literal (temp_keys 0) (sha256 identity literal_bytes) literal_bytes [];
  bytes_transferred = 2;
  running_offset = 2;
}

upload_ops-Consecutive_example : Consecutive 0 2 one_row × (2 ≡ 0 + literal_total one_literal)
unfolding upload_ops read_literal
upload_ops-Consecutive_example =
    upload_ops-Consecutive identity temp_keys 0 [] one_literal started ended one_row refl

abbrev edited : World
edited = record { disk = (path, 1 ∷ []) ∷ []; cache = [] }

abbrev offline : Meets
offline = record {
  content_hash = identity;
  server_info = none;
  download = none;
  perform_push = λ w. some w;
  mtime = 5;
  now = 6;
}

abbrev gentle : Options
gentle = record { force_push = false; force_pull = false }

sync_file-disk_example : (sync_file offline gentle path edited).1.disk ≡ edited.disk
unfolding lookup text_eq get_file is_changed ancestor_of
sync_file-disk_example =
    sync_file-disk offline gentle path (1 ∷ []) edited
      (λ v v' done. ap (λ (w : World). w.disk) (some-injective _ _ (sym done))) refl refl refl
