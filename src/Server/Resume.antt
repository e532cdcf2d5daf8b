-- ===== src/Server/Resume.antt =====
-- src/routes/api/public/sync/resume.ts: what is still to be uploaded of a negotiation.
pub mod Progress
use delta_sync_engine.Prelude.{
  ℕ, ◌+◌, ◌-◌, List, [], ◌∷◌, Option, none, some, true, false, not, if◌then◌else◌, length, map,
}
use delta_sync_engine.Prelude.Texts.{text_add, text_add_all, Text, text_eq}
use delta_sync_engine.Wire.Manifest.{pages_from}
use delta_sync_engine.Hash.Strong.{get_s3_key}
use delta_sync_engine.Server.NegotiationStore.{
  ChunkInfo, NegotiationPayload, Store, get_negotiation,
}
use delta_sync_engine.Server.Objects.{Head, block_exists}

pub data ResumeReply : Type 0 where
  unauthorized invalid_request expired user_mismatch failed : ResumeReply
  resumed :
      (negotiation_id : Text) (missing_chunks : List (Text × Text))
      (total_chunks already_uploaded presign_expiry : ℕ)
      → ResumeReply

-- `Promise.all`: one error fails the batch.
unfoldable pub add_missing : (Text → Head) → List Text → List Text → Option (List Text)
unfolding block_exists text_add
add_missing head [] missing = some missing
add_missing head (hash ∷ batch) missing = elim (block_exists head hash) [
  | none ↦ none
  | some true ↦ add_missing head batch missing
  | some false ↦ add_missing head batch (text_add hash missing)
]

unfoldable pub missing_set : (Text → Head) → List (List Text) → List Text → Option (List Text)
unfolding add_missing
missing_set head [] missing = some missing
missing_set head (batch ∷ batches) missing = elim (add_missing head batch missing) [
  | none ↦ none
  | some missing' ↦ missing_set head batches missing'
]

unfoldable pub resume_negotiation :
    (Text → Head) → (Text → Text) → Text → NegotiationPayload → ResumeReply
unfolding text_add_all pages_from missing_set get_s3_key
resume_negotiation head sign negotiation_id n =
    let unique_hashes = text_add_all [] (map (λ (c : ChunkInfo). c.strong_hash) n.chunks) in
    elim (pages_from (length unique_hashes + 1) unique_hashes 50 0) [
      | none ↦ failed
      | some batches ↦ elim (missing_set head batches []) [
        | none ↦ failed
        | some missing ↦
            resumed negotiation_id (map (λ hash. (hash, sign (get_s3_key hash))) missing)
              (length unique_hashes) (length unique_hashes - length missing) 3600
      ]
    ]

unfoldable pub resume :
    (Text → Head) → (Text → Text) → ℕ → Option Text → Option Text → Store → ResumeReply × Store
unfolding get_negotiation resume_negotiation text_eq
resume head sign now none body store = (unauthorized, store)
resume head sign now (some user_id) none store = (invalid_request, store)
resume head sign now (some user_id) (some negotiation_id) store =
    let (found, store') = get_negotiation negotiation_id now store in
    elim found [
      | none ↦ (expired, store')
      | some n ↦
          if not (text_eq n.user_id user_id)
          then (user_mismatch, store')
          else (resume_negotiation head sign negotiation_id n, store')
    ]
