-- ===== src/Server/Publish/Rows.antt =====
-- The rows that a publication leaves, field by field: src/routes/api/public/sync/upload.ts and commit.ts.
use mathlib.Core.Path.{subst}
use delta_sync_engine.Prelude.{
  ℕ, ◌+◌, ◌<◌, ◌≡◌, refl, sym, ap, ◌∙◌, List, [], ◌∷◌, ◌++◌, some, true, false, length, All,
  All-weaken, ok, arith,
}
use delta_sync_engine.Prelude.Texts.{Text}
use delta_sync_engine.Wire.Manifest.{encode_chunk_manifest_v1}
use delta_sync_engine.Server.Database.{
  FileRow, FileVersionRow, OutboxRow, Database, pending, file_version_created, find_file,
  versions_of, max_version_no,
}
use delta_sync_engine.Server.Publish.{
  Publication, same_version, current_version, file_to_publish, new_version, new_event, publish,
}
use delta_sync_engine.Server.Publish.Effects.{publish-Adds, publish-find_file}

-- The new version's row, for a publication, its number and the versions before.
pub record IsNewVersion (alloc_unsafe : ℕ → List ℕ) (p : Publication) (n : ℕ)
    (versions : List FileVersionRow) (v : FileVersionRow) : Type 0 where
  pub id : v.id ≡ p.version_id
  pub number : v.version_no ≡ n
  pub next : n ≡ max_version_no (versions_of v.file_id versions) + 1
  pub above : All (λ (w : FileVersionRow). w.version_no < n) (versions_of v.file_id versions)
  pub size : v.size ≡ p.new_size
  pub blocks : v.total_blocks ≡ length p.rows
  pub manifest : v.chunk_manifest ≡ some (encode_chunk_manifest_v1 alloc_unsafe p.rows)
  pub content : v.content_sha256 ≡ p.content_sha256
  pub unverified : v.verification_status ≡ pending

-- The event's row, which names the version and its file.
pub record IsNewEvent (p : Publication) (v : FileVersionRow) (e : OutboxRow) : Type 0 where
  pub id : e.id ≡ p.event_id
  pub kind : e.event_type ≡ file_version_created
  pub aggregate : e.aggregate_id ≡ v.id
  pub version : e.payload.version_id ≡ v.id
  pub file : e.payload.file_id ≡ v.file_id
  pub total : e.payload.total_blocks ≡ v.total_blocks
  pub waiting : e.processed ≡ false

-- The file's row, as it is found for the user and the path, points at the version.
pub record IsPointed (p : Publication) (v : FileVersionRow) (files : List FileRow) (f : FileRow)
    : Type 0 where
  pub found : find_file p.user_id p.path files ≡ some f
  pub own : f.id ≡ v.file_id
  pub current : f.current_version_id ≡ some v.id

max_version_no-bound :
    (versions : List FileVersionRow)
    → All (λ (w : FileVersionRow). w.version_no < max_version_no versions + 1) versions
unfolding max_version_no
max_version_no-bound [] = tt
max_version_no-bound (v ∷ versions) = (
  omega arith,
  All-weaken
      (λ (w : FileVersionRow) (h : w.version_no < max_version_no versions + 1). omega (arith, h))
      versions (max_version_no-bound versions),
)

new_version-IsNewVersion :
    (alloc_unsafe : ℕ → List ℕ) (p : Publication) (file_id : Text) (n : ℕ)
    (versions : List FileVersionRow)
    → n ≡ max_version_no (versions_of file_id versions) + 1
    → IsNewVersion alloc_unsafe p n versions (new_version alloc_unsafe p file_id n)
unfolding new_version
new_version-IsNewVersion alloc p file_id n versions next = record {
  id = refl;
  number = refl;
  next = next;
  above =
      subst (λ m. All (λ (w : FileVersionRow). w.version_no < m) (versions_of file_id versions))
        (sym next) (max_version_no-bound (versions_of file_id versions));
  size = refl;
  blocks = refl;
  manifest = refl;
  content = refl;
  unverified = refl;
}

new_event-IsNewEvent :
    (alloc_unsafe : ℕ → List ℕ) (p : Publication) (file_id : Text) (n : ℕ)
    → IsNewEvent p (new_version alloc_unsafe p file_id n) (new_event p file_id)
unfolding new_version new_event
new_event-IsNewEvent alloc p file_id n = record {
  id = refl;
  kind = refl;
  aggregate = refl;
  version = refl;
  file = refl;
  total = refl;
  waiting = refl;
}

publish-IsPointed :
    (alloc_unsafe : ℕ → List ℕ) (p : Publication) (db : Database) (r : Database × ℕ)
    → publish alloc_unsafe p db ≡ ok r
    → (f : FileRow) × IsPointed p
        (new_version alloc_unsafe p (file_to_publish p db).0 r.1)
        r.0.files
        f
unfolding new_version current_version
publish-IsPointed alloc p db r e =
    let (f, found, own) = publish-find_file alloc p db r e in
    let adds = publish-Adds alloc p db r e in
    let current : f.current_version_id ≡ some p.version_id =
      ap current_version (sym found) ∙ adds.3 in
    (f, record { found = found; own = own; current = current })

-- When a publication succeeds with a number, its snapshot was the file's current version. The versions' table has
-- one row more at its end: it has the publication's id, size, hash and manifest, waits for its verification, and its
-- number is the one returned, which is one above the largest of the file's versions and so above all of them.
-- The file that is found for the user and the path is that row's file and points at it. The outbox has one row
-- more at its end: an event of a new version, not processed, that names the version and its file.
pub publish-IsNewVersion :
    (alloc_unsafe : ℕ → List ℕ) (p : Publication) (db db' : Database) (n : ℕ)
    → publish alloc_unsafe p db ≡ ok (db', n)
    → (same_version (current_version (find_file p.user_id p.path db.files)) p.snapshot ≡ true)
      × ((v : FileVersionRow) × (db'.file_versions ≡ db.file_versions ++ v ∷ [])
          × IsNewVersion alloc_unsafe p n db.file_versions v
          × ((f : FileRow) × IsPointed p v db'.files f)
          × ((e : OutboxRow) × (db'.outbox_events ≡ db.outbox_events ++ e ∷ []) × IsNewEvent p v e))
publish-IsNewVersion alloc p db db' n e =
    let (same, next, versions, current, events, blocks) = publish-Adds alloc p db (db', n) e in
    let file_id = (file_to_publish p db).0 in
    (
      same,
      (
        new_version alloc p file_id n,
        versions,
        new_version-IsNewVersion alloc p file_id n db.file_versions next,
        publish-IsPointed alloc p db (db', n) e,
        (new_event p file_id, events, new_event-IsNewEvent alloc p file_id n),
      ),
    )
