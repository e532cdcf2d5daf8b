-- ===== src/Tests/Pushes.antt =====
-- A push, an upload of a delta, and a download on small files; the digest is the identity.
use mathlib.Core.List.{flatten, append-nil}
use delta_sync_engine.Prelude.{
  ℕ, ◌≡◌, refl, ap, List, [], ◌∷◌, Option, none, some, true, ◌&&◌, not, arith, length,
  length-replicate, replicate, All, ok,
}
use delta_sync_engine.Prelude.Texts.{Text, text_eq, text_mem, codes}
use delta_sync_engine.Prelude.Maps.{lookup, insert, erase}
use delta_sync_engine.Hash.Strong.{sha256, buf_to_hex, buf_to_hex-injective}
use delta_sync_engine.Cdc.{cdc_ranges}
use delta_sync_engine.Rsync.Signatures.{BlockSignature, fixed}
use delta_sync_engine.Wire.Manifest.{ManifestRow, ManifestChunk}
use delta_sync_engine.Server.Database.{
  find_file, versions_of, max_version_no, has_version_no, point_file,
}
use delta_sync_engine.Server.Publish.{publish, same_version, current_version, file_to_publish}
use delta_sync_engine.Server.RateLimiter.{
  Limits, Config, check_byte_quota, charge_bytes, open_window,
}
use delta_sync_engine.Server.Upload.Literals.{Progress, chunk_at, upload_ops}
use delta_sync_engine.Server.Upload.Handler.Totals.{Consecutive}
use delta_sync_engine.Server.Download.{streamed, download_body}
use delta_sync_engine.Server.Download.AfterPublish.{download_body-publish}
use delta_sync_engine.Cli.Sync.{get_file, upsert_file}
use delta_sync_engine.Cli.Journal.{ChunkTransfer, get_completed_chunks, clear_negotiation_chunks}
use delta_sync_engine.Cli.Uploads.{Upload, Uploader, start_uploads}
use delta_sync_engine.Cli.Uploads.Invariant.{queued}
use delta_sync_engine.Cli.Delta.{ClientDelta, compute_delta, build_signatures}
use delta_sync_engine.Cli.Delta.Leading.{IsServed}
use delta_sync_engine.Cli.Delta.Upload.{Described, upload_ops-compute_delta}
use delta_sync_engine.Cli.Push.Answered.{Signed, Answered}
use delta_sync_engine.Cli.Push.{
  LocalDb, MissingUpload, PushServer, prepare_push, perform_push, known_version, start_push,
  prepare_uploads, establish, resume_session, start_uploading, plan_uploads, with_metadata,
  remaining_uploads, finish_push, seal_push, record_commit,
}
use delta_sync_engine.Cli.Push.Payload.{IsUploadOf, missing_hashes, prepare_push-IsUploadOf}
use delta_sync_engine.Cli.Push.Sealing.{perform_push-perform_push}
use delta_sync_engine.Tests.Formats.{memory, hashed}
use delta_sync_engine.Tests.Handlers.{no_data, first_upload, uploaded_once}

abbrev ten_bytes : List ℕ
ten_bytes = replicate 10 7

abbrev five_bytes_each : Text → Option (List ℕ)
five_bytes_each key = some (replicate 5 7)

abbrev no_limits : Limits
no_limits = record { upload_limits = []; download_limits = []; byte_limits = [] }

abbrev config : Config
config = record { max_upload_rpm = 10; max_download_rpm = 10; max_byte_quota = 100 }

download_body-publish_example :
    (download_body config five_bytes_each 5
      (117 ∷ [])
      (record { path = 112 ∷ []; version = none; force = true })
      no_limits
      uploaded_once).0
    ≡ streamed 10 ten_bytes
unfolding publish same_version current_version file_to_publish find_file max_version_no versions_of
    has_version_no point_file text_eq check_byte_quota charge_bytes open_window lookup
download_body-publish_example =
    download_body-publish config five_bytes_each 5 memory first_upload no_data uploaded_once 1
      no_limits ten_bytes refl (λ n. length-replicate n 0) hashed (omega arith) (refl, (refl, refl))
      (refl, (refl, tt)) refl refl

abbrev identity : List ℕ → List ℕ
identity bytes = bytes

abbrev old_block : List ℕ
old_block = 1 ∷ 2 ∷ []

abbrev old_chunk : ManifestChunk
old_chunk = record {
  block_index = 0;
  offset = 0;
  length = 2;
  weak_hash = 9;
  strong_hash_hex = sha256 identity old_block;
}

abbrev old_signature : BlockSignature
old_signature = record {
  index = 0;
  offset = 0;
  length = 2;
  weak = 9;
  strong = sha256 identity old_block;
}

abbrev new_file : List ℕ
new_file = 5 ∷ 1 ∷ 2 ∷ []

served : All (IsServed identity (old_chunk ∷ []) new_file) (old_signature ∷ [])
unfolding chunk_at sha256
served = (
  record {
    chunk = old_chunk;
    at = refl;
    hashed = refl;
    sized = λ i j e. ap length (buf_to_hex-injective old_block _ e);
  },
  tt,
)

abbrev one_piece : List ℕ → List (List ℕ)
one_piece body = body ∷ []

abbrev temp_keys : ℕ → Text
temp_keys n = n ∷ []

upload_ops-compute_delta_example :
    (d : ClientDelta) × (rows : List ManifestRow) × (s' : Progress) × (compute_delta identity
        new_file
        (old_signature ∷ [])
        fixed
        2
      ≡ some d)
    × (upload_ops identity temp_keys 0 (old_chunk ∷ []) d.ops (record {
      current = [];
      pieces = one_piece d.literal_bytes;
      objects = [];
      bytes_transferred = 0;
      running_offset = 0;
    })
        ≡ (some rows, s'))
    × Consecutive 0 (length new_file) rows
    × Described identity (old_chunk ∷ []) new_file rows
unfolding flatten
upload_ops-compute_delta_example =
    upload_ops-compute_delta identity (old_chunk ∷ []) new_file (old_signature ∷ []) fixed 2
      temp_keys [] one_piece served (omega arith) append-nil

abbrev empty_db : LocalDb
empty_db = record { files = []; chunk_transfers = []; negotiation_sessions = [] }

abbrev pushed : List ℕ
pushed = 1 ∷ 2 ∷ 3 ∷ 4 ∷ []

abbrev wanted : List MissingUpload
wanted = (sha256 identity pushed, codes "url") ∷ []

-- A server that misses the file's only chunk, and one that misses nothing.
abbrev server : PushServer
server = record {
  resume = λ id. none;
  negotiate = λ sigs. some (codes "n", wanted);
  commit = λ id. some (1, 0);
}

abbrev full_server : PushServer
full_server = record server { negotiate = λ sigs. some (codes "n", []) }

abbrev one_upload : List Upload
one_upload =
    record {
      strong_hash = sha256 identity pushed;
      upload_url = codes "url";
      offset = 0;
      length = 4;
    }
    ∷ []

abbrev negotiated : LocalDb
negotiated = record empty_db {
  negotiation_sessions =
      (112 ∷ [], record { negotiation_id = codes "n"; content_sha256 = sha256 identity pushed })
      ∷ [];
}

prepare_push-IsUploadOf_example :
    All (IsUploadOf identity pushed) one_upload
    × ((t : Text)
        → text_mem t (queued one_upload) ≡ (
            text_mem t (missing_hashes wanted)
            && not (text_mem t (get_completed_chunks (codes "n") []))))
    × ((sigs : List BlockSignature) × (Signed identity pushed sigs)
        × Answered server (112 ∷ []) (sha256 identity pushed) [] sigs (codes "n") wanted)
unfolding prepare_push known_version start_push prepare_uploads establish resume_session
    start_uploading plan_uploads with_metadata remaining_uploads get_file build_signatures lookup
    insert cdc_ranges buf_to_hex
prepare_push-IsUploadOf_example =
    prepare_push-IsUploadOf identity server 5 (112 ∷ []) pushed empty_db negotiated (codes "n")
      wanted one_upload refl

abbrev no_run : Text → List Upload → List ChunkTransfer → Uploader
no_run id uploads journal = start_uploads 1 [] journal

abbrev sealed : LocalDb
sealed = record empty_db {
  files =
      (
        112 ∷ [],
        record {
          last_mtime = 6;
          last_size = 4;
          last_hash = sha256 identity pushed;
          server_version = 1;
          last_accessed = 5;
        },
      )
      ∷ [];
}

perform_push-perform_push_example :
    (perform_push identity server no_run 8 9 (112 ∷ []) pushed sealed).0 ≡ ok (1, 0)
unfolding perform_push prepare_push known_version start_push prepare_uploads establish
    resume_session start_uploading plan_uploads with_metadata remaining_uploads get_file
    build_signatures lookup insert erase finish_push seal_push record_commit upsert_file
    clear_negotiation_chunks text_eq
perform_push-perform_push_example =
    perform_push-perform_push identity (112 ∷ []) pushed full_server server no_run no_run 5 8 6 9
      empty_db sealed 1 0 refl
