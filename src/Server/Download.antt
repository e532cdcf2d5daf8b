-- ===== src/Server/Download.antt =====
-- src/routes/api/public/sync/download.ts: the bytes of a stored version.
pub mod AfterPublish
use delta_sync_engine.Prelude.{
  ℕ, List, [], ◌∷◌, ◌++◌, Option, none, some, Bool, true, false, not, ◌&&◌, ◌==◌, if◌then◌else◌, ok,
  err,
}
use delta_sync_engine.Prelude.Texts.{Text, text_eq}
use delta_sync_engine.Hash.Strong.{get_s3_key}
use delta_sync_engine.Wire.Manifest.{ManifestChunk}
use delta_sync_engine.Server.RateLimiter.{
  Limits, Config, check_download_rate_limit, check_byte_quota,
}
use delta_sync_engine.Server.Database.{
  FileVersionRow, Database, Verification, pending, corrupted, find_file, versions_of,
}
use delta_sync_engine.Server.VersionPruner.{newest_first}
use delta_sync_engine.Server.VersionChunks.{load_version_chunks}

pub record DownloadBody : Type 0 where
  pub path : Text
  pub version : Option ℕ
  pub force : Bool

-- A stream ends, or it breaks off at the first block that cannot be fetched. A content length of 0 stands for a reply
-- without that header.
pub data DownloadReply : Type 0 where
  unauthorized rate_limited path_required file_not_found version_not_found quota_exceeded failed :
      DownloadReply
  corrupted_version pending_verification : (version_id : Text) (version_no : ℕ) → DownloadReply
  streamed : (content_length : ℕ) (bytes : List ℕ) → DownloadReply
  broken_off : (bytes : List ℕ) (hash : Text) → DownloadReply

unfoldable pub find_version_no : ℕ → List FileVersionRow → Option FileVersionRow
find_version_no n [] = none
find_version_no n (v ∷ versions) = if v.version_no == n then some v else find_version_no n versions

unfoldable pub first_version : List FileVersionRow → Option FileVersionRow
first_version [] = none
first_version (v ∷ versions) = some v

unfoldable pub requested_version : Option ℕ → List FileVersionRow → Option FileVersionRow
unfolding find_version_no first_version newest_first
requested_version (some n) versions = find_version_no n versions
requested_version none versions = first_version (newest_first versions)

-- `fetch` answers with the bytes of the object of a key, or not at all.
unfoldable pub stream_chunks :
    (Text → Option (List ℕ)) → ℕ → List ManifestChunk → List ℕ → DownloadReply
unfolding get_s3_key
stream_chunks fetch size [] sent = streamed size sent
stream_chunks fetch size (c ∷ chunks) sent = elim (fetch (get_s3_key c.strong_hash_hex)) [
  | none ↦ broken_off sent c.strong_hash_hex
  | some block ↦ stream_chunks fetch size chunks (sent ++ block)
]

unfoldable pub is_corrupted : Verification → Bool
is_corrupted corrupted = true
is_corrupted _ = false

unfoldable pub is_pending : Verification → Bool
is_pending pending = true
is_pending _ = false

unfoldable pub send_version :
    Config
    → (Text → Option (List ℕ))
    → ℕ
    → Text
    → FileVersionRow
    → Limits
    → Database
    → DownloadReply × Limits
unfolding check_byte_quota load_version_chunks stream_chunks
send_version config fetch now user_id v limits db =
    let (limits', allowed) = check_byte_quota config limits user_id v.size now in
    if not allowed then (quota_exceeded, limits') else elim (load_version_chunks db v.id v) [
      | err e ↦ (failed, limits')
      | ok chunks ↦ (stream_chunks fetch v.size chunks [], limits')
    ]

unfoldable pub download_body :
    Config
    → (Text → Option (List ℕ))
    → ℕ
    → Text
    → DownloadBody
    → Limits
    → Database
    → DownloadReply × Limits
unfolding find_file versions_of requested_version is_corrupted is_pending send_version text_eq
download_body config fetch now user_id body limits db =
    if text_eq body.path []
    then (path_required, limits)
    else elim (find_file user_id body.path db.files) [
      | none ↦ (file_not_found, limits)
      | some file ↦ elim (requested_version body.version (versions_of file.id db.file_versions)) [
        | none ↦ (version_not_found, limits)
        | some v ↦
            if is_corrupted v.verification_status
            then (corrupted_version v.id v.version_no, limits)
            else (if is_pending v.verification_status && not body.force
                then (pending_verification v.id v.version_no, limits)
                else send_version config fetch now user_id v limits db)
      ]
    ]

unfoldable pub download :
    Config
    → (Text → Option (List ℕ))
    → ℕ
    → Option Text
    → DownloadBody
    → Limits
    → Database
    → DownloadReply × Limits
unfolding check_download_rate_limit download_body
download config fetch now none body limits db = (unauthorized, limits)
download config fetch now (some user_id) body limits db =
    let (limits', allowed) = check_download_rate_limit config limits user_id now in
    if not allowed
    then (rate_limited, limits')
    else download_body config fetch now user_id body limits' db
