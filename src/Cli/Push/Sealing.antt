-- ===== src/Cli/Push/Sealing.antt =====
-- What a successful push leaves behind.
use mathlib.Core.Path.{subst}
use mathlib.Core.Option.{some-injective}
use delta_sync_engine.Prelude.{
  ℕ, ◌≡◌, refl, sym, ap, ◌∙◌, inl, inr, List, [], ◌∷◌, Option, none, some, true, Bool-cases,
  Option-cases, length, Result, ok, ok-injective,
}
use delta_sync_engine.Prelude.Texts.{Text, text_eq, text_eq-eq, text_eq_refl}
use delta_sync_engine.Prelude.Maps.{lookup, lookup-insert}
use delta_sync_engine.Hash.Strong.{sha256}
use delta_sync_engine.Rsync.Signatures.{BlockSignature, cdc}
use delta_sync_engine.Cli.Sync.{CachedFile, get_file, upsert_file}
use delta_sync_engine.Cli.Journal.{ChunkTransfer}
use delta_sync_engine.Cli.Uploads.{Upload, Uploader}
use delta_sync_engine.Cli.Delta.{build_signatures}
use delta_sync_engine.Cli.Push.{
  LocalDb, PushServer, PushError, PushStart, unchanged, refused, prepared, block_size_of,
  MissingUpload, plan_uploads, start_uploading, known_version, start_push, record_commit,
  prepare_uploads, prepare_push, seal_push, finish_push, perform_push,
}

-- The cache has the path's row, with this hash and version.
pub record IsKnown (path hash : Text) (version_no : ℕ) (db : LocalDb) : Type 0 where
  pub row : CachedFile
  pub there : lookup path db.files ≡ some row
  pub hashed : row.last_hash ≡ hash
  pub versioned : row.server_version ≡ version_no

-- A start that is no verdict that nothing changed.
abbrev IsFresh : PushStart → Type 0
IsFresh (unchanged v) = ⊥
IsFresh (refused e) = Unit {0}
IsFresh (prepared id missing uploads) = Unit {0}

plan_uploads-IsFresh :
    (id : Text) (missing : List MissingUpload) (planned : Option (List Upload))
    → IsFresh (plan_uploads id missing planned)
unfolding plan_uploads
plan_uploads-IsFresh id missing none = tt
plan_uploads-IsFresh id missing (some uploads) = tt

start_uploading-IsFresh :
    (sigs : List BlockSignature) (transfers : List ChunkTransfer)
    (established : Option (Text × List MissingUpload))
    → IsFresh (start_uploading sigs transfers established)
unfolding start_uploading
start_uploading-IsFresh sigs transfers none = tt
start_uploading-IsFresh sigs transfers (some (id, missing)) = plan_uploads-IsFresh id missing _

prepare_uploads-IsFresh :
    (server : PushServer) (path hash : Text) (sigs : Option (List BlockSignature)) (db : LocalDb)
    → IsFresh (prepare_uploads server path hash sigs db).0
unfolding prepare_uploads
prepare_uploads-IsFresh server path hash none db = tt
prepare_uploads-IsFresh server path hash (some sigs) db =
    start_uploading-IsFresh sigs db.chunk_transfers _

module _ (digest : List ℕ → List ℕ) (path : Text) (bytes : List ℕ) where
  abbrev Outcome : Type 0
  Outcome = Result PushError (ℕ × ℕ) × LocalDb

  record_commit-IsKnown :
      (now mtime size : ℕ) (hash id : Text) (db db' : LocalDb) (answer : Option (ℕ × ℕ))
      (version_no saved : ℕ)
      → record_commit now mtime path size hash id db answer ≡ (ok (version_no, saved), db')
      → IsKnown path hash version_no db'
  unfolding record_commit upsert_file
  record_commit-IsKnown now mtime size hash id db db' none version_no saved e =
      absurd (cc (ap (λ (r : Outcome). r.0) e))
  record_commit-IsKnown now mtime size hash id db db' (some (v, s)) version_no saved e =
      let row : CachedFile = record {
        last_mtime = mtime;
        last_size = size;
        last_hash = hash;
        server_version = v;
        last_accessed = now;
      } in
      record {
        row = row;
        there =
            ap (λ (r : Outcome). lookup path r.1.files) (sym e)
            ∙ lookup-insert path path row db.files
            ∙ rw (text_eq_refl path) refl;
        hashed = refl;
        versioned = ap (λ (p : ℕ × ℕ). p.0) (ok-injective _ _ (ap (λ (r : Outcome). r.0) e));
      }

  finish_push-IsKnown :
      (server : PushServer) (run : Text → List Upload → List ChunkTransfer → Uploader)
      (now mtime : ℕ) (start : PushStart) (db db' : LocalDb) (version_no saved : ℕ)
      → IsFresh start
      → finish_push digest server run now mtime path bytes start db ≡ (ok (version_no, saved), db')
      → IsKnown path (sha256 digest bytes) version_no db'
  unfolding finish_push seal_push
  finish_push-IsKnown server run now mtime (unchanged v) db db' version_no saved fresh e =
      elim fresh [ ]
  finish_push-IsKnown server run now mtime (refused r) db db' version_no saved fresh e =
      absurd (cc (ap (λ (r : Outcome). r.0) e))
  finish_push-IsKnown server run now mtime (prepared id missing []) db db' version_no saved fresh
        e =
      record_commit-IsKnown now mtime (length bytes) (sha256 digest bytes) id db db' _ version_no
        saved e
  finish_push-IsKnown server run now mtime (prepared id missing (u ∷ us)) db db' version_no saved
        fresh e =
      let ended = run id (u ∷ us) db.chunk_transfers in
      elim (Bool-cases (ended.upload_error)) [
        | inl wrong ↦ absurd (cc (ap (λ (r : Outcome). r.0) (rw (wrong, finish_push) at e)))
        | inr fine ↦
            record_commit-IsKnown now mtime (length bytes) (sha256 digest bytes) id
              (record db { chunk_transfers = ended.journal }) db' _ version_no saved
              (rw (fine, finish_push) at e)
      ]

  -- The row that a push finds unchanged is kept.
  known_version-IsKnown :
      (now version_no : ℕ) (db : LocalDb)
      → known_version (get_file now path db.files).0 (sha256 digest bytes) ≡ some version_no
      → IsKnown path
          (sha256 digest bytes)
          version_no
          (record db { files = (get_file now path db.files).1 })
  unfolding known_version get_file
  known_version-IsKnown now version_no db e = elim (Option-cases (lookup path db.files)) [
    | inl unknown ↦ absurd (cc (rw (unknown, known_version) at e))
    | inr (row, there) ↦ elim (Bool-cases (text_eq row.last_hash (sha256 digest bytes))) [
      | inr other ↦ absurd (cc (rw (there, known_version, other) at e))
      | inl same ↦
          let row' : CachedFile = record row { last_accessed = now } in
          record {
            row = row';
            there =
                rw (get_file, there)
                  (lookup-insert path path row' db.files ∙ rw (text_eq_refl path) refl);
            hashed = text_eq-eq row.last_hash (sha256 digest bytes) same;
            versioned = some-injective _ _ (rw (there, known_version, same) at e);
          }
    ]
  ]

  start_push-IsFresh :
      (server : PushServer) (db : LocalDb) → IsFresh (start_push digest server path bytes none db).0
  unfolding start_push
  start_push-IsFresh server db =
      prepare_uploads-IsFresh server path (sha256 digest bytes)
        (build_signatures digest bytes cdc (block_size_of (length bytes))) db

  perform_push-IsKnown :
      (server : PushServer) (run : Text → List Upload → List ChunkTransfer → Uploader)
      (now mtime : ℕ) (db db' : LocalDb) (version_no saved : ℕ)
      → perform_push digest server run now mtime path bytes db ≡ (ok (version_no, saved), db')
      → IsKnown path (sha256 digest bytes) version_no db'
  unfolding perform_push prepare_push start_push finish_push
  perform_push-IsKnown server run now mtime db db' version_no saved e =
      elim (Option-cases (known_version (get_file now path db.files).0 (sha256 digest bytes))) [
        | inr (v, known) ↦
            let e' = rw (known, perform_push) at e in
            let same : v ≡ version_no =
              ap (λ (p : ℕ × ℕ). p.0) (ok-injective _ _ (ap (λ (r : Outcome). r.0) e')) in
            subst (λ d. IsKnown path (sha256 digest bytes) version_no d)
              (ap (λ (r : Outcome). r.1) e')
              (known_version-IsKnown now version_no db (known ∙ ap some same))
        | inl changed ↦
            finish_push-IsKnown server run now mtime _ _ db' version_no saved
              (start_push-IsFresh server (record db { files = (get_file now path db.files).1 }))
              (rw (changed, perform_push) at e)
      ]

  -- After a successful push, a push of the same content returns the same version without any request, whatever
  -- the server would answer.
  pub perform_push-perform_push :
      (server server' : PushServer) (run run' : Text → List Upload → List ChunkTransfer → Uploader)
      (now now' mtime mtime' : ℕ) (db db' : LocalDb) (version_no saved : ℕ)
      → perform_push digest server run now mtime path bytes db ≡ (ok (version_no, saved), db')
      → (perform_push digest server' run' now' mtime' path bytes db').0 ≡ ok (version_no, 0)
  unfolding perform_push prepare_push get_file known_version start_push finish_push
  perform_push-perform_push server server' run run' now now' mtime mtime' db db' version_no saved
        e =
      let k = perform_push-IsKnown server run now mtime db db' version_no saved e in
      let same : text_eq k.row.last_hash (sha256 digest bytes) ≡ true =
        ap (λ h. text_eq h (sha256 digest bytes)) k.hashed ∙ text_eq_refl (sha256 digest bytes) in
      let known : known_version (get_file now' path db'.files).0 (sha256 digest bytes)
          ≡ some version_no =
        rw (get_file, k.there, known_version, same) (ap some k.versioned) in
      rw (perform_push, known) refl
