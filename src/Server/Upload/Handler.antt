-- ===== src/Server/Upload/Handler.antt =====
-- The upload's handler, from the request to the reply.
pub mod Totals
use delta_sync_engine.Prelude.{
  ℕ, ◌+◌, ◌-◌, ◌*◌, List, [], ◌∷◌, Option, none, some, Bool, true, false, not, ◌==◌, ltb,
  if◌then◌else◌, Result, ok, err,
}
use delta_sync_engine.Prelude.Texts.{Text}
use delta_sync_engine.Wire.OpsBinary.{UploadOp}
use delta_sync_engine.Wire.Manifest.{ManifestRow, ManifestChunk, ManifestError}
use delta_sync_engine.Server.RateLimiter.{Limits, Config, check_rate_limit}
use delta_sync_engine.Server.Database.{FileRow, Database, find_file}
use delta_sync_engine.Server.Publish.{
  Publication, PublishError, stale, conflict, current_version, publish,
}
use delta_sync_engine.Server.Commit.{Ids, id_of}
use delta_sync_engine.Server.Requests.{previous_chunks}
use delta_sync_engine.Server.Upload.{
  Meta, Form, UploadRequest, UploadReply, unauthorized, rate_limited, payload_too_large,
  expected_multipart, missing_meta, invalid_meta, stale_remote, sync_conflict, failed,
  unknown_block, size_mismatch, uploaded, valid_meta, read_ops, read_literals, first_unknown,
}
use delta_sync_engine.Server.Upload.Literals.{Objects, Progress, upload_ops, copy_ops}

-- The reply, the state that is left, whether the dispatcher is notified, and the file whose versions
-- the pruner is started on.
pub record Outcome : Type 0 where
  pub reply : UploadReply
  pub limits : Limits
  pub objects : Objects
  pub db : Database
  pub notified : Bool
  pub prune : Option Text

-- What the handler takes from outside: SHA-256, uninitialised memory, the ids drawn.
pub record Outside : Type 0 where
  pub digest : List ℕ → List ℕ
  pub alloc_unsafe : ℕ → List ℕ
  pub temp_keys : ℕ → Text
  pub ids : Ids

unfoldable pub refuse : UploadReply → Limits → Objects → Database → Outcome
refuse reply limits objects db = record {
  reply = reply;
  limits = limits;
  objects = objects;
  db = db;
  notified = false;
  prune = none;
}

-- The rows and the totals, with and without literals.
unfoldable pub run_ops :
    Outside
    → List ManifestChunk
    → List UploadOp
    → Option (List (List ℕ))
    → Objects
    → Option (List ManifestRow) × Progress
unfolding upload_ops copy_ops
run_ops out prev ops (some pieces) objects =
    upload_ops out.digest out.temp_keys 0 prev ops (record {
      current = [];
      pieces = pieces;
      objects = objects;
      bytes_transferred = 0;
      running_offset = 0;
    })
run_ops out prev ops none objects =
    let (rows, end) = copy_ops prev ops 0 in
    (
      some rows,
      record {
        current = [];
        pieces = [];
        objects = objects;
        bytes_transferred = 0;
        running_offset = end;
      },
    )

unfoldable pub publication :
    Ids → Text → Meta → Option Text → List ManifestRow → Progress → Publication
publication ids user_id m snapshot rows s = record {
  user_id = user_id;
  path = m.path;
  snapshot = snapshot;
  new_size = m.new_size;
  block_size = m.block_size;
  chunking = m.chunking;
  content_sha256 = m.content_sha256;
  rows = rows;
  bytes_transferred = s.bytes_transferred;
  bytes_saved = m.new_size - s.bytes_transferred;
  new_file_id = ids.new_file_id;
  version_id = ids.version_id;
  event_id = ids.event_id;
}

-- `later` is the database when the transaction begins, which other requests may have changed since.
unfoldable pub finish_upload :
    Outside → Text → Meta → Option Text → List ManifestRow → Progress → Limits → Database → Outcome
unfolding publication publish refuse find_file id_of
finish_upload out user_id m snapshot rows s limits later =
    let p = publication out.ids user_id m snapshot rows s in
    if not (s.running_offset == m.new_size)
    then refuse (size_mismatch s.running_offset m.new_size) limits s.objects later
    else elim (publish out.alloc_unsafe p later) [
      | err stale ↦ refuse stale_remote limits s.objects later
      | err conflict ↦ refuse sync_conflict limits s.objects later
      | ok (db', version_no) ↦ record {
        reply = uploaded version_no p.bytes_saved;
        limits = limits;
        objects = s.objects;
        db = db';
        notified = true;
        prune = id_of (find_file user_id m.path db'.files);
      }
    ]

-- From the operations on.
unfoldable pub upload_operations :
    Outside
    → Text
    → Meta
    → List UploadOp
    → Option (List (List ℕ))
    → Limits
    → Objects
    → Database
    → Database
    → Outcome
unfolding find_file previous_chunks first_unknown run_ops current_version finish_upload refuse
upload_operations out user_id m ops literals limits objects db later =
    let existing_file = find_file user_id m.path db.files in
    elim (previous_chunks db existing_file) [
      | err e ↦ refuse failed limits objects later
      | ok prev ↦ elim (first_unknown prev ops) [
        | some i ↦ refuse (unknown_block i) limits objects later
        | none ↦
            let (rows, s) = run_ops out prev ops literals objects in
            elim rows [
              | none ↦ refuse failed limits s.objects later
              | some rows ↦
                  finish_upload out user_id m (current_version existing_file) rows s limits later
            ]
      ]
    ]

unfoldable pub upload_form :
    Outside → Text → Form → Limits → Objects → Database → Database → Outcome
unfolding valid_meta read_ops read_literals upload_operations refuse
upload_form out user_id f limits objects db later = elim f.meta_field [
  | none ↦ refuse missing_meta limits objects later
  | some none ↦ refuse invalid_meta limits objects later
  | some (some m) ↦
      if not (valid_meta m)
      then refuse invalid_meta limits objects later
      else elim (read_ops m.ops_encoding m f) [
        | err reply ↦ refuse reply limits objects later
        | ok ops ↦ elim (read_literals f.literals) [
          | err reply ↦ refuse reply limits objects later
          | ok literals ↦ upload_operations out user_id m ops literals limits objects db later
        ]
      ]
]

unfoldable pub upload :
    Config → Outside → ℕ → UploadRequest → Limits → Objects → Database → Database → Outcome
unfolding check_rate_limit upload_form refuse
upload config out now r limits objects db later = elim r.user [
  | none ↦ refuse unauthorized limits objects later
  | some user_id ↦
      let (limits', allowed) = check_rate_limit config limits user_id now in
      if not allowed
      then refuse rate_limited limits' objects later
      else (if ltb (500 * 1024 * 1024) r.content_length
          then refuse payload_too_large limits' objects later
          else elim r.form [
            | none ↦ refuse expected_multipart limits' objects later
            | some f ↦ upload_form out user_id f limits' objects db later
          ])
]
