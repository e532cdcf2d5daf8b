-- ===== src/Server/Database.antt =====
-- shared/schema.ts: the rows that the sync protocol reads and writes, and the queries that its code
-- makes of them. A table is the list of its rows in the order of insertion; identifiers that the
-- source draws at random, and times, are arguments of the operations.
use delta_sync_engine.Prelude.{
  ℕ, List, [], ◌∷◌, Option, none, some, Bool, false, ◌&&◌, ◌||◌, ◌==◌, if◌then◌else◌, max,
}
use delta_sync_engine.Prelude.Texts.{Text, text_eq}
use delta_sync_engine.Rsync.Signatures.{ChunkingMode}

pub data Verification : Type 0 where
  pending verified corrupted : Verification

pub data EventType : Type 0 where
  file_version_created file_deleted gc_requested chunk_verification chunk_verification_failed :
      EventType

pub record FileRow : Type 0 where
  pub id : Text
  pub user_id : Text
  pub path : Text
  pub current_version_id : Option Text
  pub total_size : ℕ

pub record FileVersionRow : Type 0 where
  pub id : Text
  pub file_id : Text
  pub version_no : ℕ
  pub size : ℕ
  pub total_blocks : ℕ
  pub block_size : ℕ
  pub chunk_manifest : Option (List ℕ)
  pub chunking_mode : ChunkingMode
  pub content_sha256 : Text
  pub verification_status : Verification

pub record BlockRow : Type 0 where
  pub version_id : Text
  pub block_index : ℕ
  pub weak_hash : ℕ
  pub strong_hash : Text

pub record SyncJobRow : Type 0 where
  pub user_id : Text
  pub file_id : Text
  pub bytes_transferred : ℕ
  pub bytes_saved : ℕ

-- The fields of the events' JSON payloads; a field that an event lacks is empty or 0.
pub record Payload : Type 0 where
  pub version_id : Text
  pub file_id : Text
  pub total_blocks : ℕ
  pub chunk_hashes : List Text
  pub missing_hashes : List Text
  pub total_hashes : ℕ
  pub missing_count : ℕ

pub record OutboxRow : Type 0 where
  pub id : Text
  pub event_type : EventType
  pub aggregate_id : Text
  pub payload : Payload
  pub processed : Bool

pub record Database : Type 0 where
  pub files : List FileRow
  pub file_versions : List FileVersionRow
  pub blocks : List BlockRow
  pub sync_jobs : List SyncJobRow
  pub outbox_events : List OutboxRow

-- `select().from(files).where(and(eq(userId), eq(path)))`, its first row.
unfoldable pub find_file : Text → Text → List FileRow → Option FileRow
unfolding text_eq
find_file user_id path [] = none
find_file user_id path (f ∷ files) =
    if text_eq f.user_id user_id && text_eq f.path path
    then some f
    else find_file user_id path files

-- `select().from(fileVersions).where(eq(id))`, its first row.
unfoldable pub find_version : Text → List FileVersionRow → Option FileVersionRow
unfolding text_eq
find_version id [] = none
find_version id (v ∷ versions) = if text_eq v.id id then some v else find_version id versions

unfoldable pub versions_of : Text → List FileVersionRow → List FileVersionRow
unfolding text_eq
versions_of file_id [] = []
versions_of file_id (v ∷ versions) =
    if text_eq v.file_id file_id
    then v ∷ versions_of file_id versions
    else versions_of file_id versions

-- `select({ maxVer: max(versionNo) })`, with 0 for no row, as `maxVer ?? 0` reads it.
unfoldable pub max_version_no : List FileVersionRow → ℕ
max_version_no [] = 0
max_version_no (v ∷ versions) = max v.version_no (max_version_no versions)

-- The unique index on (file_id, version_no).
unfoldable pub has_version_no : Text → ℕ → List FileVersionRow → Bool
unfolding text_eq
has_version_no file_id version_no [] = false
has_version_no file_id version_no (v ∷ versions) =
    (text_eq v.file_id file_id && v.version_no == version_no)
    || has_version_no file_id version_no versions

-- `update(files).set({ currentVersionId, totalSize }).where(eq(id))`
unfoldable pub point_file : Text → Text → ℕ → List FileRow → List FileRow
unfolding text_eq
point_file id version_id size [] = []
point_file id version_id size (f ∷ files) =
    (if text_eq f.id id
      then record f { current_version_id = some version_id; total_size = size }
      else f)
    ∷ point_file id version_id size files

-- `update(fileVersions).set({ verificationStatus }).where(eq(id))`
unfoldable pub set_verification : Text → Verification → List FileVersionRow → List FileVersionRow
unfolding text_eq
set_verification id status [] = []
set_verification id status (v ∷ versions) =
    (if text_eq v.id id then record v { verification_status = status } else v)
    ∷ set_verification id status versions
