-- ===== src/Server/Outbox.antt =====
-- server/outbox-dispatcher.ts: one poll of the outbox and the event that requests a collection. The jobs are an
-- interface: what they do to the database, and whether they end without throwing. The rows' creation times
-- are the order of their insertion, and a payload is parsed. The loop's timer and its wake-up are left out.
pub mod Polling
pub mod WorkerJobs
use delta_sync_engine.Prelude.{
  ℕ, List, [], ◌∷◌, ◌++◌, Bool, true, false, ◌||◌, if◌then◌else◌, length, take,
}
use delta_sync_engine.Prelude.Texts.{Text, text_mem, codes}
use delta_sync_engine.Server.Database.{
  EventType, Payload, OutboxRow, Database, file_version_created, file_deleted, gc_requested,
  chunk_verification, chunk_verification_failed,
}

abbrev pub batch_size : ℕ
batch_size = 50

-- `workerPool.submit`, `handleCleanupFile` and `runGarbageCollection`. A job that throws returns `false` with
-- what it has changed by then.
pub record Jobs : Type 0 where
  pub submit : Text → ℕ → Database → Database × Bool
  pub cleanup_file : Payload → Database → Database × Bool
  pub collect_garbage : Database → Database × Bool

-- `select().from(outboxEvents).where(isNull(processedAt))`
unfoldable pub unprocessed : List OutboxRow → List OutboxRow
unprocessed [] = []
unprocessed (e ∷ events) = if e.processed then unprocessed events else e ∷ unprocessed events

-- The job of an event by its type; `EventType` has every type that the code writes.
unfoldable pub dispatch : Jobs → EventType → Payload → Database → Database × Bool
dispatch jobs file_version_created payload db =
    jobs.submit payload.version_id payload.total_blocks db
dispatch jobs chunk_verification payload db = jobs.submit payload.version_id payload.total_blocks db
dispatch jobs file_deleted payload db = jobs.cleanup_file payload db
dispatch jobs gc_requested payload db = jobs.collect_garbage db
dispatch jobs chunk_verification_failed payload db = (db, true)

-- The rounds over the claimed events, and the ids of those whose jobs end without throwing.
unfoldable pub dispatch_all : Jobs → List OutboxRow → Database → Database × List Text
unfolding dispatch
dispatch_all jobs [] db = (db, [])
dispatch_all jobs (e ∷ events) db =
    let (after, done) = dispatch jobs e.event_type e.payload db in
    let (last, processed_ids) = dispatch_all jobs events after in
    (last, if done then e.id ∷ processed_ids else processed_ids)

-- `update(outboxEvents).set({ processedAt }).where(inArray(id, processedIds))`
unfoldable pub mark_processed : List Text → List OutboxRow → List OutboxRow
unfolding text_mem
mark_processed ids [] = []
mark_processed ids (e ∷ events) =
    record e { processed = e.processed || text_mem e.id ids } ∷ mark_processed ids events

-- The update is made when there is something to mark.
unfoldable pub record_processed : List Text → Database → Database
unfolding mark_processed
record_processed [] db = db
record_processed (id ∷ ids) db = record db {
  outbox_events = mark_processed (id ∷ ids) db.outbox_events;
}

-- No claimed event means no round, and no update.
unfoldable pub poll_and_dispatch : Jobs → Database → Database × ℕ
unfolding unprocessed dispatch_all record_processed
poll_and_dispatch jobs db =
    let (after, processed_ids) =
      dispatch_all jobs (take batch_size (unprocessed db.outbox_events)) db in
    (record_processed processed_ids after, length processed_ids)

-- `event_id` is the id that the row would draw.
unfoldable pub schedule_gc : Text → Database → Database
schedule_gc event_id db = record db {
  outbox_events =
      db.outbox_events
      ++ record {
        id = event_id;
        event_type = gc_requested;
        aggregate_id = codes "scheduled";
        payload = record {
          version_id = [];
          file_id = [];
          total_blocks = 0;
          chunk_hashes = [];
          missing_hashes = [];
          total_hashes = 0;
          missing_count = 0;
        };
        processed = false;
      }
        ∷ [];
}
