-- ===== src/Cli/Uploads.antt =====
-- cli/src/push.ts: the concurrent upload of the missing chunks, each worker's requests interleaved with
-- those of the others.
pub mod Invariant
pub mod Attempts
pub mod Interleaving
pub mod Complete
use delta_sync_engine.Prelude.{
  ℕ, zero, suc, ◌+◌, ◌-◌, List, [], ◌∷◌, ◌++◌, Bool, true, false, not, ◌&&◌, ◌||◌, ◌==◌, ltb, leb,
  if◌then◌else◌, length, min, max,
}
use delta_sync_engine.Prelude.Texts.{Text}
use delta_sync_engine.Cli.Journal.{ChunkTransfer, record_chunk_status, completed}

-- A chunk with its place in the file.
pub record Upload : Type 0 where
  pub strong_hash : Text
  pub upload_url : Text
  pub offset : ℕ
  pub length : ℕ

-- A worker waits for the answer to its request, or for the delay before the next one. `attempts` is the
-- source's, where 0 also stands for -1. `awaited` tells the first workers from those spawned later.
pub data Phase : Type 0 where
  requesting delayed : Phase

pub record UploadWorker : Type 0 where
  pub chunk : Upload
  pub attempts : ℕ
  pub phase : Phase
  pub awaited : Bool

-- What a request meets: success after `latency` milliseconds, HTTP 503 or 429, or any other failure.
pub data PutAnswer : Type 0 where
  stored : (latency : ℕ) → PutAnswer
  slow_down failed : PutAnswer

-- `queue` is `uploadsWithMetadata` from `index` on.
pub record Uploader : Type 0 where
  pub queue : List Upload
  pub active_count : ℕ
  pub active_limit : ℕ
  pub consecutive_successes : ℕ
  pub upload_error : Bool
  pub workers : List UploadWorker
  pub journal : List ChunkTransfer

-- `activeCount--`, of a worker that ends.
unfoldable pub end_worker : Uploader → Uploader
end_worker u = record u { active_count = u.active_count - 1 }

unfoldable pub add_worker : UploadWorker → Uploader → Uploader
add_worker w u = record u { workers = u.workers ++ w ∷ [] }

unfoldable pub send : Bool → Upload → List Upload → Uploader → Uploader
unfolding add_worker
send awaited chunk rest u =
    add_worker (record { chunk = chunk; attempts = 3; phase = requesting; awaited = awaited })
      (record u { queue = rest })

-- The head of the worker's loop: the next chunk is requested, or the worker ends.
unfoldable pub take_from : Bool → List Upload → Uploader → Uploader
unfolding send end_worker
take_from awaited [] u = end_worker u
take_from awaited (chunk ∷ rest) u =
    if u.upload_error || ltb u.active_limit u.active_count
    then end_worker u
    else send awaited chunk rest u

unfoldable pub take_next : Bool → Uploader → Uploader
unfolding take_from
take_next awaited u = take_from awaited u.queue u

unfoldable pub run_worker : Bool → Uploader → Uploader
unfolding take_next
run_worker awaited u = take_next awaited (record u { active_count = u.active_count + 1 })

-- `activeCount < activeLimit && index < uploadsWithMetadata.length && !uploadError`
unfoldable pub wants_worker : Uploader → Bool
wants_worker u = ltb u.active_count u.active_limit && ltb 0 (length u.queue) && not u.upload_error

unfoldable pub spawn_loop : ℕ → Uploader → Uploader
unfolding wants_worker run_worker
spawn_loop zero u = u
spawn_loop (suc rounds) u =
    let more = spawn_loop rounds (run_worker false u) in if wants_worker u then more else u

-- After a chunk: each worker that is spawned takes a chunk, so that the queue bounds the rounds.
unfoldable pub finish_chunk : UploadWorker → Uploader → Uploader
unfolding spawn_loop take_next
finish_chunk w u = take_next w.awaited (spawn_loop (length u.queue) u)

unfoldable pub delay : UploadWorker → ℕ → Uploader → Uploader
unfolding add_worker
delay w attempts u = add_worker (record w { attempts = attempts; phase = delayed }) u

-- The `catch` clause.
unfoldable pub caught : UploadWorker → ℕ → Uploader → Uploader
unfolding finish_chunk delay
caught w attempts u =
    if attempts == 1
    then finish_chunk w (record u { upload_error = true })
    else delay w (attempts - 1) u

module _ (upload_concurrency : ℕ) where
  unfoldable pub note_latency : ℕ → Uploader → Uploader
  note_latency latency u =
      if ltb latency 400
      then (if leb 5 (u.consecutive_successes + 1)
          then record u {
            active_limit = min upload_concurrency (u.active_limit + 1);
            consecutive_successes = 0;
          }
          else record u { consecutive_successes = u.consecutive_successes + 1 })
      else record u { consecutive_successes = 0 }

  unfoldable pub slow : Uploader → Uploader
  slow u = record u { active_limit = max 1 (u.active_limit - 1); consecutive_successes = 0 }

  -- The answer to the request of a worker that is taken out of `workers`.
  unfoldable pub on_answer : Text → UploadWorker → PutAnswer → Uploader → Uploader
  unfolding note_latency slow caught delay finish_chunk record_chunk_status
  on_answer negotiation_id w (stored latency) u =
      let u' = note_latency latency u in
      finish_chunk w (record u' {
        journal = record_chunk_status negotiation_id w.chunk.strong_hash completed u'.journal;
      })
  on_answer negotiation_id w slow_down u =
      if ltb 0 (w.attempts - 1)
      then delay w (w.attempts - 1) (slow u)
      else caught w (w.attempts - 1) (slow u)
  on_answer negotiation_id w failed u = caught w w.attempts u

  -- The end of a delay, for a worker that is taken out of `workers`.
  unfoldable pub on_delay : UploadWorker → Uploader → Uploader
  unfolding add_worker finish_chunk
  on_delay w u =
      if ltb 0 w.attempts && not u.upload_error
      then add_worker (record w { phase = requesting }) u
      else finish_chunk w u

  unfoldable pub first_workers : ℕ → Uploader → Uploader
  unfolding run_worker
  first_workers zero u = u
  first_workers (suc n) u = first_workers n (run_worker true u)

  -- The counters before the first worker.
  unfoldable pub no_uploads_yet : List Upload → List ChunkTransfer → Uploader
  no_uploads_yet uploads journal = record {
    queue = uploads;
    active_count = 0;
    active_limit = upload_concurrency;
    consecutive_successes = 0;
    upload_error = false;
    workers = [];
    journal = journal;
  }

  unfoldable pub start_uploads : List Upload → List ChunkTransfer → Uploader
  unfolding first_workers no_uploads_yet
  start_uploads uploads journal =
      first_workers (min upload_concurrency (length uploads)) (no_uploads_yet uploads journal)
