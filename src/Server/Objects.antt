-- ===== src/Server/Objects.antt =====
-- The object store as the source's code sees it: a request about a key is answered, and an answer
-- has one of three forms that the source tells apart.
pub mod Answers
use delta_sync_engine.Prelude.{Option, none, some, Bool, true, false}
use delta_sync_engine.Prelude.Texts.{Text}
use delta_sync_engine.Hash.Strong.{get_s3_key}

pub data Head : Type 0 where
  present absent failed : Head

-- `blockExists` of negotiate.ts and resume.ts: an error that is not "not found" is thrown, `none` here.
unfoldable pub block_exists : (Text → Head) → Text → Option Bool
unfolding get_s3_key
block_exists head hash = elim (head (get_s3_key hash)) [
  | present ↦ some true
  | absent ↦ some false
  | failed ↦ none
]

-- `hasBlock` of server/block-store.ts, and the check of server/worker.ts: every error means "no".
unfoldable pub has_block : (Text → Head) → Text → Bool
unfolding get_s3_key
has_block head hash = elim (head (get_s3_key hash)) [
  | present ↦ true
  | absent ↦ false
  | failed ↦ false
]
