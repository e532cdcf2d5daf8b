-- ===== src/Cli/Journal.antt =====
-- cli/src/db.ts: the journal of chunk transfers and the sessions of unfinished negotiations.
use delta_sync_engine.Prelude.{
  ◌≡◌, refl, ap, inl, inr, List, [], ◌∷◌, Bool, Bool-cases, true, false, ◌&&◌, ◌||◌, arith,
  if◌then◌else◌,
}
use delta_sync_engine.Prelude.Texts.{Text, text_eq, text_eq_refl, text_eq-eq, text_mem}

pub data TransferStatus : Type 0 where
  pending completed : TransferStatus

unfoldable pub is_completed : TransferStatus → Bool
is_completed pending = false
is_completed completed = true

-- A row of `chunk_transfers`, whose key is the negotiation and the hash.
pub record ChunkTransfer : Type 0 where
  pub negotiation_id : Text
  pub strong_hash : Text
  pub status : TransferStatus

unfoldable pub record_chunk_status :
    Text → Text → TransferStatus → List ChunkTransfer → List ChunkTransfer
unfolding text_eq
record_chunk_status negotiation_id strong_hash status [] =
    record { negotiation_id = negotiation_id; strong_hash = strong_hash; status = status } ∷ []
record_chunk_status negotiation_id strong_hash status (row ∷ rows) =
    if text_eq row.negotiation_id negotiation_id && text_eq row.strong_hash strong_hash
    then record row { status = status } ∷ rows
    else row ∷ record_chunk_status negotiation_id strong_hash status rows

-- The completed chunks of a negotiation, as the list of their hashes.
unfoldable pub get_completed_chunks : Text → List ChunkTransfer → List Text
unfolding text_eq is_completed
get_completed_chunks negotiation_id [] = []
get_completed_chunks negotiation_id (row ∷ rows) =
    if text_eq row.negotiation_id negotiation_id && is_completed row.status
    then row.strong_hash ∷ get_completed_chunks negotiation_id rows
    else get_completed_chunks negotiation_id rows

unfoldable pub clear_negotiation_chunks : Text → List ChunkTransfer → List ChunkTransfer
unfolding text_eq
clear_negotiation_chunks negotiation_id [] = []
clear_negotiation_chunks negotiation_id (row ∷ rows) =
    if text_eq row.negotiation_id negotiation_id
    then clear_negotiation_chunks negotiation_id rows
    else row ∷ clear_negotiation_chunks negotiation_id rows

-- A row of `negotiation_sessions`; its key, the path, is that of the table.
pub record Session : Type 0 where
  pub negotiation_id : Text
  pub content_sha256 : Text

-- A chunk that is recorded as completed joins the completed chunks of its negotiation, which loses none.
pub record_chunk_status-completed :
    (negotiation_id hash t : Text) (rows : List ChunkTransfer)
    → text_mem t (
        get_completed_chunks negotiation_id
          (record_chunk_status negotiation_id hash completed rows))
      ≡ (text_eq t hash || text_mem t (get_completed_chunks negotiation_id rows))
unfolding record_chunk_status get_completed_chunks text_mem is_completed
record_chunk_status-completed n hash t [] = rw (text_eq_refl n)
record_chunk_status-completed n hash t (row ∷ rows) =
    elim (Bool-cases (text_eq row.negotiation_id n)) [
      | inr other ↦
          rw (other, get_completed_chunks, other) (record_chunk_status-completed n hash t rows)
      | inl mine ↦ elim (Bool-cases (text_eq row.strong_hash hash)) [
        | inl same ↦
            let alike : text_eq t row.strong_hash ≡ text_eq t hash =
              ap (text_eq t) (text_eq-eq row.strong_hash hash same) in
            elim (Bool-cases (is_completed row.status)) [
              | inl was ↦ rw (mine, same, get_completed_chunks, mine, was) (ground (arith, alike))
              | inr was_not ↦
                  rw (mine, same, get_completed_chunks, mine, was_not) (ground (arith, alike))
            ]
        | inr new ↦
            let later = record_chunk_status-completed n hash t rows in
            elim (Bool-cases (is_completed row.status)) [
              | inl was ↦ rw (mine, new, get_completed_chunks, mine, was) (ground (arith, later))
              | inr was_not ↦
                  rw (mine, new, get_completed_chunks, mine, was_not) (ground (arith, later))
            ]
      ]
    ]

pub clear_negotiation_chunks-none :
    (negotiation_id : Text) (rows : List ChunkTransfer)
    → get_completed_chunks negotiation_id (clear_negotiation_chunks negotiation_id rows) ≡ []
unfolding clear_negotiation_chunks get_completed_chunks
clear_negotiation_chunks-none n [] = refl
clear_negotiation_chunks-none n (row ∷ rows) = elim (Bool-cases (text_eq row.negotiation_id n)) [
  | inl mine ↦ rw mine (clear_negotiation_chunks-none n rows)
  | inr other ↦ rw (other, get_completed_chunks, other) (clear_negotiation_chunks-none n rows)
]
