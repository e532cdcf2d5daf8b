-- ===== src/Tests/Transfers.antt =====
-- Negotiations, collections, pushes and downloads on small inputs.
use delta_sync_engine.Prelude.{
  true, ◌==◌, ◌-◌, ◌≡◌, refl, List, [], ◌∷◌, ◌++◌, map, none, some, false, ◌&&◌, ◌||◌, not, arith,
  length, All,
}
use delta_sync_engine.Prelude.Texts.{Text, text_eq, text_mem, text_add_all, Distinct, codes}
use delta_sync_engine.Hash.Strong.{get_s3_key}
use delta_sync_engine.Rsync.Signatures.{cdc}
use delta_sync_engine.Server.Database.{BlockRow, FileVersionRow, pending}
use delta_sync_engine.Server.NegotiationStore.{ChunkInfo, NegotiationPayload, hashes_of}
use delta_sync_engine.Server.Objects.{Head, absent}
use delta_sync_engine.Server.Objects.Answers.{is_stored, Answers}
use delta_sync_engine.Server.Resume.{resumed, resume_negotiation}
use delta_sync_engine.Server.Resume.Progress.{resume_negotiation_lem}
use delta_sync_engine.Server.Negotiate.{MissingChunk, find_missing}
use delta_sync_engine.Server.Negotiate.Offers.{missing_hash, find_missing_lem}
use delta_sync_engine.Server.Gc.{text_lt, CompressedHashSet, build_reference_set, has}
use delta_sync_engine.Server.Gc.Inventory.{orphaned_keys}
use delta_sync_engine.Server.Gc.Paging.{referenced}
use delta_sync_engine.Server.Gc.Spared.{orphaned_keys-build_reference_set}
use delta_sync_engine.Server.Gc.Completeness.{block_hashes, build_reference_set_lem}

abbrev absent_everywhere : Text → Head
absent_everywhere key = absent

abbrev hash : Text
hash = codes "2f0e"

abbrev old_hash : Text
old_hash = codes "aabb"

abbrev chunk_of_hash : Text → ChunkInfo
chunk_of_hash h = record { strong_hash = h; length = 4; weak_hash = none }

abbrev three_chunks : List ChunkInfo
three_chunks = chunk_of_hash hash ∷ chunk_of_hash old_hash ∷ chunk_of_hash hash ∷ []

abbrev negotiation : NegotiationPayload
negotiation = record {
  user_id = codes "u";
  path = codes "p";
  chunking = cdc;
  block_size = 4096;
  new_size = 12;
  content_sha256 = [];
  chunks = three_chunks;
  snapshot_current_version_id = none;
}

answered : Answers absent_everywhere (hashes_of three_chunks)
answered t m = refl

abbrev sign_url : Text → Text
sign_url key = codes "s3:" ++ key

find_missing_lem_example :
    (missing : List MissingChunk) × (find_missing absent_everywhere sign_url
        (old_hash ∷ [])
        three_chunks
      ≡ some missing)
    × Distinct (map missing_hash missing)
    × ((t : Text)
        → text_mem t (map missing_hash missing) ≡ (
            text_mem t (hashes_of three_chunks)
            && not (text_mem t (old_hash ∷ []))
            && not (is_stored absent_everywhere t)))
    × All (λ c. c.upload_url ≡ sign_url (get_s3_key c.strong_hash)) missing
find_missing_lem_example =
    find_missing_lem absent_everywhere sign_url (old_hash ∷ []) three_chunks answered

resume_negotiation_lem_example :
    (missing : List Text) × (resume_negotiation absent_everywhere sign_url (codes "n") negotiation
      ≡ resumed
          (codes "n")
          (map (λ hash. (hash, sign_url (get_s3_key hash))) missing)
          (length (text_add_all [] (hashes_of three_chunks)))
          (length (text_add_all [] (hashes_of three_chunks)) - length missing)
          3600)
    × Distinct missing
    × ((t : Text)
        → text_mem t missing
          ≡ (text_mem t (hashes_of three_chunks) && not (is_stored absent_everywhere t)))
resume_negotiation_lem_example =
    resume_negotiation_lem absent_everywhere sign_url (codes "n") negotiation answered

abbrev one_block : List BlockRow
one_block =
    record { version_id = codes "v"; block_index = 0; weak_hash = 1; strong_hash = hash } ∷ []

abbrev version_named : Text → FileVersionRow
version_named id = record {
  id = id;
  file_id = codes "f";
  version_no = 1;
  size = 4;
  total_blocks = 1;
  block_size = 4096;
  chunk_manifest = none;
  chunking_mode = cdc;
  content_sha256 = [];
  verification_status = pending;
}

abbrev two_versions : List FileVersionRow
two_versions = version_named (codes "a") ∷ version_named (codes "b") ∷ []

build_reference_set_lem_example :
    (set : CompressedHashSet) × (build_reference_set 4 one_block two_versions ≡ some set)
    × ((h : Text)
        → has h set ≡ (text_mem h (block_hashes one_block) || text_mem h (referenced two_versions)))
unfolding text_lt text_eq
build_reference_set_lem_example =
    build_reference_set_lem 4 one_block two_versions ((refl, tt), (tt, tt)) (refl, (refl, tt))
      (omega arith) (omega arith)

orphaned_keys-build_reference_set_example :
    (set : CompressedHashSet) × (build_reference_set 4 one_block two_versions ≡ some set)
    × ((hash : Text)
        → All (λ c. (c == b'/') ≡ false) hash
        → (text_mem hash (block_hashes one_block) || text_mem hash (referenced two_versions)) ≡ true
        → text_mem (get_s3_key hash) (orphaned_keys set (codes "\"b\",\"2f/2f0e\"" ∷ [])) ≡ false)
unfolding text_lt text_eq
orphaned_keys-build_reference_set_example =
    orphaned_keys-build_reference_set 4 one_block two_versions (codes "\"b\",\"2f/2f0e\"" ∷ [])
      ((refl, tt), (tt, tt)) (refl, (refl, tt)) (omega arith) (omega arith)
