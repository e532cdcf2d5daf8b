-- ===== src/Cli/Push.antt =====
-- cli/src/push.ts: the push of one file, from the reconciliation with an unfinished session to the commit.
pub mod Sealing
pub mod Payload
pub mod Answered
use mathlib.Core.Option
use delta_sync_engine.Prelude.{
  ℕ, ◌+◌, List, [], ◌∷◌, Option, none, some, Bool, true, false, ◌==◌, if◌then◌else◌, length, ltb,
  Result, ok, err,
}
use delta_sync_engine.Prelude.Texts.{Text, text_eq, text_mem}
use delta_sync_engine.Prelude.Maps.{lookup, insert, erase}
use delta_sync_engine.Hash.Strong.{sha256}
use delta_sync_engine.Rsync.Signatures.{BlockSignature, cdc}
use delta_sync_engine.Cli.Sync.{CachedFile, get_file, upsert_file}
use delta_sync_engine.Cli.Journal.{
  ChunkTransfer, Session, get_completed_chunks, clear_negotiation_chunks,
}
use delta_sync_engine.Cli.Uploads.{Upload, Uploader}
use delta_sync_engine.Cli.Delta.{adaptive_chunk_size, build_signatures}

-- The tables of the client's database.
pub record LocalDb : Type 0 where
  pub files : List (Text × CachedFile)
  pub chunk_transfers : List ChunkTransfer
  pub negotiation_sessions : List (Text × Session)

-- The hash and the presigned URL of a chunk that the server misses.
abbrev pub MissingUpload : Type 0
MissingUpload = Text × Text

-- The server's answers to the requests of api.ts, `none` where a request fails.
pub record PushServer : Type 0 where
  pub resume : Text → Option (Text × List MissingUpload)
  pub negotiate : List BlockSignature → Option (Text × List MissingUpload)
  pub commit : Text → Option (ℕ × ℕ)

pub data PushError : Type 0 where
  negotiation_failed hash_mismatch upload_failed commit_failed : PushError

-- What is known when the uploads start, if they do.
pub data PushStart : Type 0 where
  unchanged : (version_no : ℕ) → PushStart
  refused : PushError → PushStart
  prepared :
      (negotiation_id : Text) (missing : List MissingUpload) (uploads : List Upload) → PushStart

unfoldable pub block_size_of : ℕ → ℕ
unfolding adaptive_chunk_size
block_size_of size =
    let adaptive = adaptive_chunk_size size in if ltb 0 adaptive then adaptive else 16384

-- The unfinished session of the same content, if the server resumes it; one that it does not is deleted.
unfoldable pub resume_session :
    PushServer
    → Text
    → Text
    → List (Text × Session)
    → Option (Text × List MissingUpload) × List (Text × Session)
unfolding lookup erase text_eq
resume_session server path hash sessions = elim (lookup path sessions) [
  | none ↦ (none, sessions)
  | some session ↦
      if text_eq session.content_sha256 hash
      then elim (server.resume session.negotiation_id) [
        | none ↦ (none, erase path sessions)
        | some (id, missing) ↦ (if length id == 0 then none else some (id, missing), sessions)
      ]
      else (none, sessions)
]

-- A resumed session, or a new negotiation, which is saved as the session of the path.
unfoldable pub establish :
    PushServer
    → Text
    → Text
    → List BlockSignature
    → List (Text × Session)
    → Option (Text × List MissingUpload) × List (Text × Session)
unfolding resume_session insert
establish server path hash sigs sessions =
    let (resumed, sessions') = resume_session server path hash sessions in
    elim resumed [
      | some r ↦ (some r, sessions')
      | none ↦ elim (server.negotiate sigs) [
        | none ↦ (none, sessions')
        | some (id, missing) ↦ (
          some (id, missing),
          insert path (record { negotiation_id = id; content_sha256 = hash }) sessions',
        )
      ]
    ]

-- `missingChunks.filter((c) => !completedLocal.has(c.strongHash))`
unfoldable pub remaining_uploads : List Text → List MissingUpload → List MissingUpload
unfolding text_mem
remaining_uploads completed_local [] = []
remaining_uploads completed_local ((hash, url) ∷ missing) =
    if text_mem hash completed_local
    then remaining_uploads completed_local missing
    else (hash, url) ∷ remaining_uploads completed_local missing

unfoldable pub find_signature : Text → List BlockSignature → Option BlockSignature
unfolding text_eq
find_signature hash [] = none
find_signature hash (s ∷ sigs) = if text_eq s.strong hash then some s else find_signature hash sigs

-- A chunk that is no chunk of the file is an error.
unfoldable pub with_metadata : List BlockSignature → List MissingUpload → Option (List Upload)
unfolding find_signature
with_metadata sigs [] = some []
with_metadata sigs ((hash, url) ∷ missing) = elim (find_signature hash sigs) [
  | none ↦ none
  | some sig ↦
      Option.map
        (λ uploads.
          record { strong_hash = hash; upload_url = url; offset = sig.offset; length = sig.length }
          ∷ uploads)
        (with_metadata sigs missing)
]

unfoldable pub plan_uploads : Text → List MissingUpload → Option (List Upload) → PushStart
plan_uploads id missing none = refused hash_mismatch
plan_uploads id missing (some uploads) = prepared id missing uploads

-- The uploads of a negotiation, without the chunks that the journal has as completed.
unfoldable pub start_uploading :
    List BlockSignature → List ChunkTransfer → Option (Text × List MissingUpload) → PushStart
unfolding plan_uploads with_metadata remaining_uploads get_completed_chunks
start_uploading sigs transfers none = refused negotiation_failed
start_uploading sigs transfers (some (id, missing)) =
    plan_uploads id missing
      (with_metadata sigs (remaining_uploads (get_completed_chunks id transfers) missing))

unfoldable pub prepare_uploads :
    PushServer → Text → Text → Option (List BlockSignature) → LocalDb → PushStart × LocalDb
unfolding establish start_uploading
prepare_uploads server path hash none db = (refused hash_mismatch, db)
prepare_uploads server path hash (some sigs) db =
    let (established, sessions) = establish server path hash sigs db.negotiation_sessions in
    (
      start_uploading sigs db.chunk_transfers established,
      record db { negotiation_sessions = sessions },
    )

-- `cached?.last_hash === hash`, with the row's version.
unfoldable pub known_version : Option CachedFile → Text → Option ℕ
unfolding text_eq
known_version none hash = none
known_version (some row) hash = if text_eq row.last_hash hash then some row.server_version else none

unfoldable pub start_push :
    (List ℕ → List ℕ) → PushServer → Text → List ℕ → Option ℕ → LocalDb → PushStart × LocalDb
unfolding sha256 build_signatures block_size_of prepare_uploads
start_push digest server path bytes (some version_no) db = (unchanged version_no, db)
start_push digest server path bytes none db =
    prepare_uploads server path (sha256 digest bytes)
      (build_signatures digest bytes cdc (block_size_of (length bytes))) db

-- A file whose content is that of its last synchronisation is left alone.
unfoldable pub prepare_push :
    (List ℕ → List ℕ) → PushServer → ℕ → Text → List ℕ → LocalDb → PushStart × LocalDb
unfolding get_file known_version start_push sha256
prepare_push digest server now path bytes db =
    let (cached, files) = get_file now path db.files in
    start_push digest server path bytes (known_version cached (sha256 digest bytes))
      (record db { files = files })

-- The records that go with a commit's answer.
unfoldable pub record_commit :
    ℕ → ℕ → Text → ℕ → Text → Text → LocalDb → Option (ℕ × ℕ) → Result PushError (ℕ × ℕ) × LocalDb
unfolding clear_negotiation_chunks erase upsert_file
record_commit now mtime path size hash id db none = (err commit_failed, db)
record_commit now mtime path size hash id db (some (version_no, bytes_saved)) = (
  ok (version_no, bytes_saved),
  record {
    files = upsert_file now path mtime size hash version_no db.files;
    chunk_transfers = clear_negotiation_chunks id db.chunk_transfers;
    negotiation_sessions = erase path db.negotiation_sessions;
  },
)

unfoldable pub seal_push :
    (List ℕ → List ℕ)
    → PushServer
    → ℕ
    → ℕ
    → Text
    → List ℕ
    → Text
    → LocalDb
    → Result PushError (ℕ × ℕ) × LocalDb
unfolding record_commit sha256
seal_push digest server now mtime path bytes id db =
    record_commit now mtime path (length bytes) (sha256 digest bytes) id db (server.commit id)

-- `run` is the state in which the uploads of a negotiation end.
unfoldable pub finish_push :
    (List ℕ → List ℕ)
    → PushServer
    → (Text → List Upload → List ChunkTransfer → Uploader)
    → ℕ
    → ℕ
    → Text
    → List ℕ
    → PushStart
    → LocalDb
    → Result PushError (ℕ × ℕ) × LocalDb
unfolding seal_push
finish_push digest server run now mtime path bytes (unchanged version_no) db =
    (ok (version_no, 0), db)
finish_push digest server run now mtime path bytes (refused e) db = (err e, db)
finish_push digest server run now mtime path bytes (prepared id missing []) db =
    seal_push digest server now mtime path bytes id db
finish_push digest server run now mtime path bytes (prepared id missing (upload ∷ uploads)) db =
    let u = run id (upload ∷ uploads) db.chunk_transfers in
    let db' : LocalDb = record db { chunk_transfers = u.journal } in
    if u.upload_error
    then (err upload_failed, db')
    else seal_push digest server now mtime path bytes id db'

unfoldable pub perform_push :
    (List ℕ → List ℕ)
    → PushServer
    → (Text → List Upload → List ChunkTransfer → Uploader)
    → ℕ
    → ℕ
    → Text
    → List ℕ
    → LocalDb
    → Result PushError (ℕ × ℕ) × LocalDb
unfolding prepare_push finish_push
perform_push digest server run now mtime path bytes db =
    let (start, db') = prepare_push digest server now path bytes db in
    finish_push digest server run now mtime path bytes start db'
