-- ===== src/Server/Negotiate.antt =====
-- src/routes/api/public/sync/negotiate.ts: the first phase of the upload handshake.
pub mod Offers
use delta_sync_engine.Prelude.{
  ℕ, ◌+◌, ◌-◌, List, [], ◌∷◌, ◌++◌, Option, none, some, Bool, true, false, not, ◌&&◌, ◌||◌, ◌==◌,
  leb, if◌then◌else◌, length, map, ok, err,
}
use delta_sync_engine.Prelude.Texts.{text_add, Text, text_mem}
use delta_sync_engine.Prelude.Maps.{lookup, insert, keys}
use delta_sync_engine.Rsync.Signatures.{ChunkingMode}
use delta_sync_engine.Wire.Manifest.{ManifestChunk, pages_from}
use delta_sync_engine.Hash.Strong.{get_s3_key}
use delta_sync_engine.Server.RateLimiter.{Limits, Config, check_rate_limit}
use delta_sync_engine.Server.NegotiationStore.{
  ChunkInfo, NegotiationPayload, Store, set_negotiation,
}
use delta_sync_engine.Server.Database.{Database, find_file}
use delta_sync_engine.Server.Publish.{current_version}
use delta_sync_engine.Server.Objects.{Head, block_exists}
use delta_sync_engine.Server.Requests.{valid_path, valid_block_size, previous_chunks}

-- A body whose fields have the schema's types, the default of `chunking` filled in.
pub record NegotiateBody : Type 0 where
  pub path : Text
  pub chunking : ChunkingMode
  pub block_size : ℕ
  pub new_size : ℕ
  pub content_sha256 : Text
  pub chunks : List ChunkInfo

unfoldable pub valid_chunks : List ChunkInfo → Bool
valid_chunks [] = true
valid_chunks (c ∷ chunks) =
    length c.strong_hash == 64 && leb 1 c.length && leb c.length 4_194_304 && valid_chunks chunks

unfoldable pub valid_negotiation : NegotiateBody → Bool
unfolding valid_path valid_block_size valid_chunks
valid_negotiation body =
    valid_path body.path
    && valid_block_size body.block_size
    && length body.content_sha256 == 64
    && valid_chunks body.chunks
    && leb (length body.chunks) 10_000_000

pub record MissingChunk : Type 0 where
  pub index : ℕ
  pub strong_hash : Text
  pub upload_url : Text

pub data NegotiateReply : Type 0 where
  unauthorized rate_limited invalid_request failed : NegotiateReply
  negotiated :
      (negotiation_id : Text) (missing_chunks : List MissingChunk)
      (total_chunks existing_chunks presign_expiry : ℕ)
      → NegotiateReply

-- The chunks that the previous version has are existing; the others are to be checked.
unfoldable pub to_check : List Text → ℕ → List ChunkInfo → List Text → List (ℕ × Text) × List Text
unfolding text_mem text_add
to_check prev i [] existing = ([], existing)
to_check prev i (c ∷ chunks) existing =
    let here = to_check prev (i + 1) chunks (text_add c.strong_hash existing) in
    let (later, existing') = to_check prev (i + 1) chunks existing in
    if text_mem c.strong_hash prev || text_mem c.strong_hash existing
    then here
    else ((i, c.strong_hash) ∷ later, existing')

-- `uniqueHashMap`: the indices of each hash, in the order in which the hashes first come.
unfoldable pub unique_hash_map : List (ℕ × Text) → List (Text × List ℕ) → List (Text × List ℕ)
unfolding lookup insert
unique_hash_map [] m = m
unique_hash_map ((i, hash) ∷ items) m = elim (lookup hash m) [
  | none ↦ unique_hash_map items (insert hash (i ∷ []) m)
  | some indices ↦ unique_hash_map items (insert hash (indices ++ i ∷ []) m)
]

-- `Promise.all`: one error fails the batch.
unfoldable pub check_batch : (Text → Head) → List Text → List Text → Option (List Text)
unfolding block_exists text_add
check_batch head [] existing = some existing
check_batch head (hash ∷ batch) existing = elim (block_exists head hash) [
  | none ↦ none
  | some true ↦ check_batch head batch (text_add hash existing)
  | some false ↦ check_batch head batch existing
]

unfoldable pub check_batches : (Text → Head) → List (List Text) → List Text → Option (List Text)
unfolding check_batch
check_batches head [] existing = some existing
check_batches head (batch ∷ batches) existing = elim (check_batch head batch existing) [
  | none ↦ none
  | some existing' ↦ check_batches head batches existing'
]

-- `indices[0]!`
unfoldable pub first_index : List ℕ → ℕ
first_index [] = 0
first_index (i ∷ indices) = i

unfoldable pub missing_chunks : (Text → Text) → List (Text × List ℕ) → List Text → List MissingChunk
unfolding text_mem first_index get_s3_key
missing_chunks sign [] existing = []
missing_chunks sign ((hash, indices) ∷ entries) existing =
    if text_mem hash existing
    then missing_chunks sign entries existing
    else record {
      index = first_index indices;
      strong_hash = hash;
      upload_url = sign (get_s3_key hash);
    }
      ∷ missing_chunks sign entries existing

-- The chunks to upload, or `none` when the object store fails; the last case, of a loop that has
-- not ended, does not occur.
unfoldable pub find_missing :
    (Text → Head) → (Text → Text) → List Text → List ChunkInfo → Option (List MissingChunk)
unfolding to_check unique_hash_map pages_from check_batches missing_chunks
find_missing head sign prev chunks =
    let (items, existing) = to_check prev 0 chunks [] in
    let entries = unique_hash_map items [] in
    let hashes = keys entries in
    elim (pages_from (length hashes + 1) hashes 50 0) [
      | none ↦ none
      | some batches ↦ elim (check_batches head batches existing) [
        | none ↦ none
        | some existing' ↦ some (missing_chunks sign entries existing')
      ]
    ]

unfoldable pub new_negotiation : Text → NegotiateBody → Option Text → NegotiationPayload
new_negotiation user_id body snapshot = record {
  user_id = user_id;
  path = body.path;
  chunking = body.chunking;
  block_size = body.block_size;
  new_size = body.new_size;
  content_sha256 = body.content_sha256;
  chunks = body.chunks;
  snapshot_current_version_id = snapshot;
}

-- `head` and `sign` are the object store's answers, `negotiation_id` the id drawn, `now` the clock.
unfoldable pub negotiate_body :
    (Text → Head)
    → (Text → Text)
    → Text
    → ℕ
    → Text
    → NegotiateBody
    → Store
    → Database
    → NegotiateReply × Store
unfolding find_file current_version previous_chunks find_missing set_negotiation new_negotiation
negotiate_body head sign negotiation_id now user_id body store db =
    let existing_file = find_file user_id body.path db.files in
    elim (previous_chunks db existing_file) [
      | err e ↦ (failed, store)
      | ok prev_chunks ↦
          elim (find_missing head sign (map (λ (c : ManifestChunk). c.strong_hash_hex) prev_chunks)
            body.chunks) [
              | none ↦ (failed, store)
              | some missing ↦ (
                negotiated negotiation_id missing (length body.chunks)
                    (length body.chunks - length missing) 3600,
                set_negotiation negotiation_id
                    (new_negotiation user_id body (current_version existing_file)) now store,
              )
            ]
    ]

unfoldable pub negotiate :
    Config
    → (Text → Head)
    → (Text → Text)
    → Text
    → ℕ
    → Option Text
    → Option NegotiateBody
    → Limits
    → Store
    → Database
    → NegotiateReply × (Limits × Store)
unfolding check_rate_limit valid_negotiation negotiate_body
negotiate config head sign negotiation_id now none body limits store db =
    (unauthorized, (limits, store))
negotiate config head sign negotiation_id now (some user_id) body limits store db =
    let (limits', allowed) = check_rate_limit config limits user_id now in
    if not allowed then (rate_limited, (limits', store)) else elim body [
      | none ↦ (invalid_request, (limits', store))
      | some b ↦
          if not (valid_negotiation b)
          then (invalid_request, (limits', store))
          else let (reply, store') =
              negotiate_body head sign negotiation_id now user_id b store db in
            (reply, (limits', store'))
    ]
