-- ===== src/Server/Commit.antt =====
-- src/routes/api/public/sync/commit.ts: the second phase of the upload handshake.
pub mod Accounting
use delta_sync_engine.Prelude.{
  ℕ, ◌+◌, ◌-◌, List, [], ◌∷◌, Option, none, some, Bool, true, false, not, ◌==◌, if◌then◌else◌,
  Result, ok, err,
}
use delta_sync_engine.Prelude.Texts.{Text, text_eq}
use delta_sync_engine.Wire.Manifest.{ManifestRow}
use delta_sync_engine.Server.NegotiationStore.{
  ChunkInfo, NegotiationPayload, Store, get_negotiation, clear_negotiation,
}
use delta_sync_engine.Server.Database.{FileRow, Database, find_file}
use delta_sync_engine.Server.Publish.{Publication, PublishError, stale, conflict, publish}

pub data CommitReply : Type 0 where
  unauthorized invalid_request expired user_mismatch stale_remote sync_conflict : CommitReply
  size_mismatch : (reconstructed new_size : ℕ) → CommitReply
  committed : (version_no bytes_saved : ℕ) → CommitReply

-- The reply, the state that is left, whether the dispatcher is notified, and the file whose versions
-- the pruner is started on.
pub record Outcome : Type 0 where
  pub reply : CommitReply
  pub store : Store
  pub db : Database
  pub notified : Bool
  pub prune : Option Text

-- The ids that the database draws in the transaction.
pub record Ids : Type 0 where
  pub new_file_id : Text
  pub version_id : Text
  pub event_id : Text

-- `chunk.weakHash ?? 0`
unfoldable pub weak_hash_or_0 : Option ℕ → ℕ
weak_hash_or_0 none = 0
weak_hash_or_0 (some w) = w

unfoldable pub manifest_rows : List ChunkInfo → ℕ → List ManifestRow × ℕ
unfolding weak_hash_or_0
manifest_rows [] running_offset = ([], running_offset)
manifest_rows (c ∷ chunks) running_offset =
    let (rows, end) = manifest_rows chunks (running_offset + c.length) in
    (
      record {
        offset = running_offset;
        length = c.length;
        weak_hash = weak_hash_or_0 c.weak_hash;
        strong_hash_hex = c.strong_hash;
      }
          ∷ rows,
      end,
    )

-- `negotiation.chunks.reduce((sum, c) => sum + c.length, 0)`
unfoldable pub sum_lengths : List ChunkInfo → ℕ
sum_lengths [] = 0
sum_lengths (c ∷ chunks) = c.length + sum_lengths chunks

unfoldable pub refuse : CommitReply → Store → Database → Outcome
refuse reply store db = record {
  reply = reply;
  store = store;
  db = db;
  notified = false;
  prune = none;
}

unfoldable pub publication : Ids → Text → NegotiationPayload → Publication
unfolding manifest_rows sum_lengths
publication ids user_id n = record {
  user_id = user_id;
  path = n.path;
  snapshot = n.snapshot_current_version_id;
  new_size = n.new_size;
  block_size = n.block_size;
  chunking = n.chunking;
  content_sha256 = n.content_sha256;
  rows = (manifest_rows n.chunks 0).0;
  bytes_transferred = sum_lengths n.chunks;
  bytes_saved = n.new_size - sum_lengths n.chunks;
  new_file_id = ids.new_file_id;
  version_id = ids.version_id;
  event_id = ids.event_id;
}

-- The id of the committed file, when its row is found again.
unfoldable pub id_of : Option FileRow → Option Text
id_of none = none
id_of (some f) = some f.id

unfoldable pub commit_negotiation :
    (ℕ → List ℕ) → Ids → Text → Text → NegotiationPayload → Store → Database → Outcome
unfolding manifest_rows refuse publication publish clear_negotiation find_file id_of
commit_negotiation alloc_unsafe ids user_id negotiation_id n store db =
    let running_offset = (manifest_rows n.chunks 0).1 in
    let p = publication ids user_id n in
    if not (running_offset == n.new_size)
    then refuse (size_mismatch running_offset n.new_size) store db
    else elim (publish alloc_unsafe p db) [
      | err stale ↦ refuse stale_remote store db
      | err conflict ↦ refuse sync_conflict store db
      | ok (db', version_no) ↦ record {
        reply = committed version_no p.bytes_saved;
        store = clear_negotiation negotiation_id store;
        db = db';
        notified = true;
        prune = id_of (find_file user_id n.path db'.files);
      }
    ]

-- `user` is what `validateApiKey` answers, `body` the negotiation id of a body that parses.
unfoldable pub commit :
    (ℕ → List ℕ) → Ids → ℕ → Option Text → Option Text → Store → Database → Outcome
unfolding refuse get_negotiation commit_negotiation text_eq
commit alloc_unsafe ids now none body store db = refuse unauthorized store db
commit alloc_unsafe ids now (some user_id) none store db = refuse invalid_request store db
commit alloc_unsafe ids now (some user_id) (some negotiation_id) store db =
    let (found, store') = get_negotiation negotiation_id now store in
    elim found [
      | none ↦ refuse expired store' db
      | some n ↦
          if not (text_eq n.user_id user_id)
          then refuse user_mismatch store' db
          else commit_negotiation alloc_unsafe ids user_id negotiation_id n store' db
    ]
