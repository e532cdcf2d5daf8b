-- ===== src/Tests/Queues.antt =====
-- The queues of requests, of verification tasks and of uploads on short histories.
use delta_sync_engine.Prelude.{
  ℕ, zero, suc, ◌+◌, ◌≤◌, ◌<◌, ◌≡◌, ◌⊎◌, refl, Bool, List, [], ◌∷◌, ◌++◌, false, true, arith,
  length,
}
use delta_sync_engine.Prelude.Texts.{Text, text_eq, text_mem}
use delta_sync_engine.Server.S3Limiter.{new_limiter}
use delta_sync_engine.Server.S3Limiter.Fairness
use delta_sync_engine.Server.WorkerPool.{Task, fast, submit, process_queues, take_tasks}
use delta_sync_engine.Server.WorkerPool.Conservation
use delta_sync_engine.Server.WorkerPool.Loops.{waiting}
use delta_sync_engine.Server.WorkerPool.Draining.{run_exits, run_exits-waiting}
use delta_sync_engine.Server.Database.{
  Database, find_version, EventType, OutboxRow, file_version_created, gc_requested, file_deleted,
}
use delta_sync_engine.Server.Outbox.{
  Jobs, unprocessed, dispatch, dispatch_all, mark_processed, record_processed, poll_and_dispatch,
}
use delta_sync_engine.Server.Objects.{absent}
use delta_sync_engine.Server.Worker.{handle_verify_chunks}
use delta_sync_engine.Server.Outbox.WorkerJobs.{settled, worker_jobs, worker_jobs-Adds}
use delta_sync_engine.Server.Outbox.Polling.{ids_of, poll_and_dispatch-unprocessed}
use delta_sync_engine.Cli.Journal.{get_completed_chunks}
use delta_sync_engine.Cli.Uploads.{
  Upload, UploadWorker, Uploader, stored, slow_down, requesting, delayed, start_uploads, on_answer,
  on_delay, first_workers, no_uploads_yet, run_worker, take_next, take_from, send, add_worker,
  end_worker, finish_chunk, spawn_loop, wants_worker, note_latency, slow, delay,
}
use delta_sync_engine.Cli.Uploads.Invariant.{Sound}
use delta_sync_engine.Cli.Uploads.Interleaving.{Reach-Sound}
use delta_sync_engine.Cli.Uploads.Attempts.{times}
use delta_sync_engine.Cli.Uploads.Complete.{uploads_complete}
use delta_sync_engine.Cli.Uploads.Interleaving

-- Two calls at a limit of 1: the second waits.
abbrev two_calls : Fairness.History ℕ
two_calls = Fairness.after_run 1 8 (
    Fairness.after_run 1 7
      (record { limiter = new_limiter; submitted = []; started = []; settled = 0 }))

limiter-Inv_example :
    (two_calls.limiter.active ≤ 1)
    × (two_calls.started ++ two_calls.limiter.queue ≡ two_calls.submitted)
    × (length two_calls.started ≡ two_calls.settled + two_calls.limiter.active)
    × (0 < length two_calls.limiter.queue → two_calls.limiter.active ≡ 1)
limiter-Inv_example =
    Fairness.limiter-Inv 1 two_calls (Fairness.call 8 (Fairness.call 7 Fairness.fresh))

settle_all_lem_example :
    let h' = Fairness.settle_all 1 (length two_calls.limiter.queue) two_calls in
    Fairness.Reach 1 h' × (h'.started ≡ two_calls.submitted)
settle_all_lem_example =
    Fairness.settle_all_lem 1 two_calls (omega arith)
      (Fairness.call 8 (Fairness.call 7 Fairness.fresh))

abbrev small_task : Task
small_task = record { id = 1 ∷ []; version_id = 2 ∷ []; total_blocks = 10 }

pool-Inv_example : Conservation.Inv (Conservation.after_submit small_task Conservation.new_history)
pool-Inv_example = Conservation.pool-Inv (Conservation.submits small_task Conservation.fresh)

-- As many submissions of one task as the number says.
abbrev submissions : ℕ → Conservation.History
submissions zero = Conservation.new_history
submissions (suc n) = Conservation.after_submit small_task (submissions n)

submissions-Reach : (n : ℕ) → Conservation.Reach (submissions n)
submissions-Reach zero = Conservation.fresh
submissions-Reach (suc n) = Conservation.submits small_task (submissions-Reach n)

run_exits-waiting_example :
    Conservation.Reach (run_exits (fast ∷ []) (submissions 7))
    × (waiting (run_exits (fast ∷ []) (submissions 7)).pool ≡ 0)
unfolding submit process_queues take_tasks
run_exits-waiting_example = run_exits-waiting (fast ∷ []) (submissions 7) (submissions-Reach 7) refl

abbrev chunk : Upload
chunk = record { strong_hash = 97 ∷ []; upload_url = 98 ∷ []; offset = 0; length = 4 }

abbrev session : Text
session = 110 ∷ []

abbrev first_worker : UploadWorker
first_worker = record { chunk = chunk; attempts = 3; phase = requesting; awaited = true }

abbrev slowed_worker : UploadWorker
slowed_worker = record first_worker { attempts = 2; phase = delayed }

-- The first request meets 503, the second is stored.
abbrev uploading : Uploader
uploading = start_uploads 1 (chunk ∷ []) []

abbrev slowed : Uploader
slowed = on_answer 1 session first_worker slow_down (record uploading { workers = [] })

abbrev retried : Uploader
retried = on_delay 1 slowed_worker (record slowed { workers = [] })

abbrev retrying_worker : UploadWorker
retrying_worker = record first_worker { attempts = 2 }

abbrev uploaded : Uploader
uploaded = on_answer 1 session retrying_worker (stored 10) (record retried { workers = [] })

Reach-Sound_example : Sound 1 session (chunk ∷ []) 0 [] slowed
unfolding start_uploads no_uploads_yet first_workers run_worker take_next take_from send add_worker
Reach-Sound_example =
    Reach-Sound 1 session (chunk ∷ []) {journal = []} (omega arith) (omega arith)
      (Interleaving.answered [] [] first_worker slow_down Interleaving.starts refl refl)

uploads_complete_example :
    (text_mem (97 ∷ []) (get_completed_chunks session uploaded.journal) ≡ true)
    ⊎ (3 ≤ times (97 ∷ []) ((97 ∷ []) ∷ []))
unfolding start_uploads no_uploads_yet first_workers run_worker take_next take_from send add_worker
    on_answer on_delay slow delay note_latency finish_chunk spawn_loop wants_worker end_worker
    text_mem text_eq
uploads_complete_example =
    uploads_complete 1 session (chunk ∷ []) {journal = []} {refused = (97 ∷ []) ∷ []} {lost = []}
      {u = uploaded} (omega arith) (omega arith)
      (Interleaving.answered [] [] retrying_worker (stored 10)
        (Interleaving.woken [] [] slowed_worker
          (Interleaving.answered [] [] first_worker slow_down Interleaving.starts refl refl) refl
          refl)
        refl refl)
      refl refl (97 ∷ []) refl

-- After three answers 503 the chunk is neither stored nor an error.
abbrev third_worker : UploadWorker
third_worker = record first_worker { attempts = 1 }

abbrev given_up_worker : UploadWorker
given_up_worker = record first_worker { attempts = 0; phase = delayed }

abbrev abandoned : Uploader
abandoned =
    on_delay 1 given_up_worker
      (record (on_answer 1 session third_worker slow_down (record uploading { workers = [] })) {
        workers = [];
      })

abandoned_unnoticed :
    (abandoned.workers ≡ [])
    × (abandoned.upload_error ≡ false)
    × (get_completed_chunks session abandoned.journal ≡ [])
unfolding start_uploads no_uploads_yet first_workers run_worker take_next take_from send add_worker
    on_answer on_delay slow delay finish_chunk spawn_loop wants_worker end_worker
    get_completed_chunks
abandoned_unnoticed = (refl, refl, refl)

abbrev event : ℕ → EventType → Bool → OutboxRow
event n kind processed = record {
  id = n ∷ [];
  event_type = kind;
  aggregate_id = [];
  payload = record {
    version_id = 9 ∷ [];
    file_id = [];
    total_blocks = 3;
    chunk_hashes = [];
    missing_hashes = [];
    total_hashes = 0;
    missing_count = 0;
  };
  processed = processed;
}

-- The worker's jobs, with an object store that has nothing.
abbrev jobs : Jobs
jobs = worker_jobs (λ hash. absent) (λ keys. true) (λ db. 8 ∷ []) (λ db. true)

abbrev two_waiting : Database
two_waiting = record {
  files = [];
  file_versions = [];
  blocks = [];
  sync_jobs = [];
  outbox_events =
      event 1 file_deleted true
      ∷ event 2 file_version_created false
      ∷ event 3 gc_requested false
      ∷ [];
}

poll_and_dispatch-unprocessed_example :
    ((poll_and_dispatch jobs two_waiting).1 ≡ 2)
    × ((added : List OutboxRow) × (ids_of (poll_and_dispatch jobs two_waiting).0.outbox_events
          ≡ (1 ∷ []) ∷ (2 ∷ []) ∷ (3 ∷ []) ∷ ids_of added)
        × (unprocessed (poll_and_dispatch jobs two_waiting).0.outbox_events ≡ unprocessed added))
unfolding poll_and_dispatch unprocessed dispatch_all dispatch mark_processed record_processed
    worker_jobs settled handle_verify_chunks find_version text_mem text_eq
poll_and_dispatch-unprocessed_example =
    poll_and_dispatch-unprocessed jobs two_waiting
      (worker_jobs-Adds (λ hash. absent) (λ keys. true) (λ db. 8 ∷ []) (λ db. true))
      (refl, (refl, tt)) (refl, (refl, (refl, tt)))
