-- ===== src/Server/Outbox/WorkerJobs.antt =====
-- The dispatcher's jobs as server/worker.ts carries them out. The pool of server/worker-pool.ts runs the
-- verification in a thread, and its promise ends as the handler does.
use mathlib.Core.List.{append-nil}
use mathlib.Core.Option
use delta_sync_engine.Prelude.{
  ℕ, ◌≡◌, refl, sym, List, [], ◌∷◌, ◌++◌, Option, none, some, Bool, true, false, Bool-cases, inl,
  inr, Result, ok, err, ◌>>=◌,
}
use delta_sync_engine.Prelude.Texts.{Text, text_eq}
use delta_sync_engine.Wire.Manifest.{ManifestError, iterate_manifest_hash_pages}
use delta_sync_engine.Server.Objects.{Head}
use delta_sync_engine.Server.Database.{
  Database, FileVersionRow, OutboxRow, find_version, file_version_created, file_deleted,
  gc_requested, chunk_verification, chunk_verification_failed,
}
use delta_sync_engine.Server.Worker.{
  failure_event, record_verdict, missing_of_pages, total_length, verify_manifest,
  handle_verify_chunks, handle_cleanup_file,
}
use delta_sync_engine.Server.Outbox.{Jobs, dispatch}
use delta_sync_engine.Server.Outbox.Polling.{Adds}

-- A handler that throws leaves the database as it was. One whose fuel is used up counts as one that throws.
unfoldable pub settled : Database → Result ManifestError (Option Database) → Database × Bool
settled db (ok (some after)) = (after, true)
settled db (ok none) = (db, false)
settled db (err e) = (db, false)

unfoldable pub cleaned : Option (List (List Text) × ℕ) → Bool
cleaned (some requests) = true
cleaned none = false

-- `head` and `deletes` answer for the object store, `event_id` is the id that an alert's row would draw, and
-- `collects` says whether a collection ends without throwing: it changes no table of the model.
unfoldable pub worker_jobs :
    (Text → Head) → (List Text → Bool) → (Database → Text) → (Database → Bool) → Jobs
unfolding handle_verify_chunks handle_cleanup_file settled cleaned
worker_jobs head deletes event_id collects = record {
  submit = λ version_id total_blocks db.
      settled db (handle_verify_chunks head version_id (event_id db) db);
  cleanup_file = λ payload db.
      (db, cleaned (handle_cleanup_file deletes payload.file_id payload.chunk_hashes));
  collect_garbage = λ db. (db, collects db);
}

abbrev AddsTo : Database → Database → Type 0
AddsTo db after = (added : List OutboxRow) × (after.outbox_events ≡ db.outbox_events ++ added)

AddsTo-refl : (db : Database) → AddsTo db db
AddsTo-refl db = ([], sym (append-nil db.outbox_events))

record_verdict-AddsTo :
    (version_id : Text) (v : FileVersionRow) (missing : List Text) (total : ℕ) (event_id : Text)
    (db : Database)
    → AddsTo db (record_verdict version_id v missing total event_id db)
unfolding record_verdict
record_verdict-AddsTo version_id v [] total event_id db = AddsTo-refl db
record_verdict-AddsTo version_id v (hash ∷ missing) total event_id db =
    (failure_event version_id v (hash ∷ missing) total event_id ∷ [], refl)

settled-map-AddsTo :
    {A : Type 0} (f : A → Database) (found : Option A) (db : Database)
    → ((x : A) → AddsTo db (f x))
    → AddsTo db (settled db (ok (Option.map f found))).0
unfolding settled
settled-map-AddsTo f none db h = AddsTo-refl db
settled-map-AddsTo f (some x) db h = h x

settled-verify_manifest-AddsTo :
    (head : Text → Head) (version_id : Text) (v : FileVersionRow) (manifest : List ℕ)
    (event_id : Text) (db : Database)
    → AddsTo db (settled db (verify_manifest head version_id v manifest event_id db)).0
unfolding verify_manifest settled
settled-verify_manifest-AddsTo head version_id v manifest event_id db =
    elim (iterate_manifest_hash_pages manifest 10000)
      as (λ found.
        AddsTo db
          (settled db (
            found >>= λ pages. ok (elim pages [
              | none ↦ none
              | some pages ↦
                  Option.map
                    (λ missing.
                      record_verdict version_id v missing (total_length pages) event_id db)
                    (missing_of_pages head pages)
            ]))).0) [
              | ok none ↦ AddsTo-refl db
              | ok (some pages) ↦
                  settled-map-AddsTo
                    (λ missing.
                      record_verdict version_id v missing (total_length pages) event_id db)
                    (missing_of_pages head pages) db
                    (λ missing.
                      record_verdict-AddsTo version_id v missing (total_length pages) event_id db)
              | err e ↦ AddsTo-refl db
            ]

settled-handle_verify_chunks-AddsTo :
    (head : Text → Head) (version_id event_id : Text) (db : Database)
    → AddsTo db (settled db (handle_verify_chunks head version_id event_id db)).0
unfolding handle_verify_chunks settled
settled-handle_verify_chunks-AddsTo head version_id event_id db =
    elim (Bool-cases (text_eq version_id [])) [
      | inl empty ↦ rw empty (AddsTo-refl db)
      | inr named ↦
          rw named
            (elim (find_version version_id db.file_versions)
              as (λ found.
                AddsTo db
                  (settled db (elim found [
                    | none ↦ ok (some db)
                    | some v ↦ elim v.chunk_manifest [
                      | none ↦ ok (some db)
                      | some manifest ↦ verify_manifest head version_id v manifest event_id db
                    ]
                  ])).0) [
                    | none ↦ AddsTo-refl db
                    | some v ↦
                        elim v.chunk_manifest
                          as (λ stored.
                            AddsTo db
                              (settled db (elim stored [
                                | none ↦ ok (some db)
                                | some manifest ↦
                                    verify_manifest head version_id v manifest event_id db
                              ])).0) [
                                | none ↦ AddsTo-refl db
                                | some manifest ↦
                                    settled-verify_manifest-AddsTo head version_id v manifest
                                      event_id db
                              ]
                  ])
    ]

-- The worker's jobs change the outbox by adding rows at most.
pub worker_jobs-Adds :
    (head : Text → Head) (deletes : List Text → Bool) (event_id : Database → Text)
    (collects : Database → Bool)
    → Adds (worker_jobs head deletes event_id collects)
unfolding worker_jobs dispatch
worker_jobs-Adds head deletes event_id collects file_version_created payload db =
    settled-handle_verify_chunks-AddsTo head payload.version_id (event_id db) db
worker_jobs-Adds head deletes event_id collects chunk_verification payload db =
    settled-handle_verify_chunks-AddsTo head payload.version_id (event_id db) db
worker_jobs-Adds head deletes event_id collects file_deleted payload db = AddsTo-refl db
worker_jobs-Adds head deletes event_id collects gc_requested payload db = AddsTo-refl db
worker_jobs-Adds head deletes event_id collects chunk_verification_failed payload db =
    AddsTo-refl db
