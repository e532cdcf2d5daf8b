-- ===== src/Server/Download/AfterPublish.antt =====
-- A file that was published is downloaded again.
use delta_sync_engine.Prelude.{
  ℕ, ◌+◌, ◌-◌, ◌<◌, ◌^◌, ◌≡◌, refl, ap, ◌∙◌, inl, inr, List, [], ◌∷◌, ◌++◌, Option, some, none,
  true, false, arith, Bool-cases, leb, length, slice, take, take-add, take-all, All, ok,
}
use delta_sync_engine.Prelude.Texts.{Text, text_eq, text_eq_refl}
use delta_sync_engine.Hash.Strong.{get_s3_key}
use delta_sync_engine.Wire.Manifest.{ManifestRow}
use delta_sync_engine.Wire.Manifest.RoundTrip.{IsHashed, chunks_of, decode-encode_chunk_manifest_v1}
use delta_sync_engine.Server.RateLimiter.{Limits, Config, check_byte_quota}
use delta_sync_engine.Server.Database.{FileVersionRow, Database, versions_of, max_version_no}
use delta_sync_engine.Server.Publish.{Publication, publish, file_to_publish, new_version}
use delta_sync_engine.Server.Publish.Effects.{publish-Adds, publish-find_file}
use delta_sync_engine.Server.VersionPruner.{newest_first, insert_newest}
use delta_sync_engine.Server.VersionChunks.{load_version_chunks}
use delta_sync_engine.Server.Upload.Handler.Totals.{Consecutive}
use delta_sync_engine.Server.Download.{
  streamed, first_version, requested_version, stream_chunks, is_corrupted, is_pending, send_version,
  download_body,
}

-- A newer version than all others comes first.
newest_first-new :
    (versions : List FileVersionRow) (v : FileVersionRow)
    → max_version_no versions < v.version_no
    → (rest : List FileVersionRow) × (newest_first (versions ++ v ∷ []) ≡ v ∷ rest)
unfolding newest_first insert_newest max_version_no
newest_first-new [] v above = ([], refl)
newest_first-new (w ∷ versions) v above =
    let (rest, e) = newest_first-new versions v (ground arith) in
    let older : leb v.version_no w.version_no ≡ false = ground arith in
    (insert_newest w rest, rw (e, insert_newest, older))

versions_of-new :
    (file_id : Text) (versions : List FileVersionRow) (v : FileVersionRow)
    → v.file_id ≡ file_id
    → versions_of file_id (versions ++ v ∷ []) ≡ versions_of file_id versions ++ v ∷ []
unfolding versions_of
versions_of-new file_id [] v e =
    let mine : text_eq v.file_id file_id ≡ true =
      ap (λ t. text_eq t file_id) e ∙ text_eq_refl file_id in
    rw mine
versions_of-new file_id (w ∷ versions) v e = elim (Bool-cases (text_eq w.file_id file_id)) [
  | inl mine ↦ rw (mine, versions_of-new file_id versions v e)
  | inr other ↦ rw (other, versions_of-new file_id versions v e)
]

-- The object store has the part of the file that each row describes, under the key of its hash.
abbrev pub Stores : (Text → Option (List ℕ)) → List ℕ → List ManifestRow → Type 0
Stores fetch file rows =
    All
      (λ row.
        fetch (get_s3_key row.strong_hash_hex)
        ≡ some (slice file row.offset (row.offset + row.length)))
      rows

-- Rows that lie one behind the other are streamed one behind the other.
stream_chunks_lem :
    (fetch : Text → Option (List ℕ)) (file : List ℕ) (rows : List ManifestRow) (size i start : ℕ)
    → Consecutive start (length file) rows
    → Stores fetch file rows
    → stream_chunks fetch size (chunks_of i rows) (take start file) ≡ streamed size file
unfolding stream_chunks
stream_chunks_lem fetch file [] size i start end stored =
    ap (streamed size) (take-all file start (omega (arith, end)))
stream_chunks_lem fetch file (row ∷ rows) size i start (here, tiles) (stored, later) =
    let grown : take start file ++ slice file row.offset (row.offset + row.length)
        ≡ take (start + row.length) file =
      let width : row.offset + row.length - row.offset ≡ row.length = omega arith in
      rw (width, here) (take-add start row.length (start + row.length) file refl) in
    rw (stored, stream_chunks)
      (ap (stream_chunks fetch size (chunks_of (i + 1) rows)) grown
        ∙ stream_chunks_lem fetch file rows size (i + 1) (start + row.length) tiles later)

newest-published :
    (alloc_unsafe : ℕ → List ℕ) (p : Publication) (db db' : Database) (version_no : ℕ)
    → publish alloc_unsafe p db ≡ ok (db', version_no)
    → let file_id = (file_to_publish p db).0 in
      requested_version none (versions_of file_id db'.file_versions)
      ≡ some (new_version alloc_unsafe p file_id version_no)
unfolding requested_version first_version new_version
newest-published alloc p db db' n e =
    let (same, number, versions, current, event, blocks) = publish-Adds alloc p db (db', n) e in
    let file_id = (file_to_publish p db).0 in
    let v = new_version alloc p file_id n in
    let own = ap (versions_of file_id) versions ∙ versions_of-new file_id db.file_versions v refl in
    let (rest, first) =
      newest_first-new (versions_of file_id db.file_versions) v (omega (arith, number)) in
    rw (own, first) refl

-- What is published can be downloaded: after a publication succeeds, a forced download of the path by its user
-- streams exactly the file, with the published size as its length. Conditions: the rows lie one behind the other
-- over the file, their hashes are hexadecimal texts of 32 bytes, the store has the part of the file that each row
-- describes under the key of its hash, there are fewer than 2^32 rows, the path is not empty, and the user's byte
-- quota allows the size.
pub download_body-publish :
    (config : Config) (fetch : Text → Option (List ℕ)) (now : ℕ) (alloc_unsafe : ℕ → List ℕ)
    (p : Publication) (db db' : Database) (version_no : ℕ) (limits : Limits) (file : List ℕ)
    → publish alloc_unsafe p db ≡ ok (db', version_no)
    → ((n : ℕ) → length (alloc_unsafe n) ≡ n)
    → All IsHashed p.rows
    → length p.rows < 2 ^ 32
    → Consecutive 0 (length file) p.rows
    → Stores fetch file p.rows
    → text_eq p.path [] ≡ false
    → (check_byte_quota config limits p.user_id p.new_size now).1 ≡ true
    → (download_body config fetch now p.user_id
        (record { path = p.path; version = none; force = true })
        limits
        db').0
      ≡ streamed p.new_size file
unfolding download_body send_version load_version_chunks is_corrupted is_pending new_version
download_body-publish config fetch now alloc p db db' n limits file e sized hashed few tiles stored
      named quota =
    let (f, found, own) = publish-find_file alloc p db (db', n) e in
    let newest = newest-published alloc p db db' n e in
    let requested : requested_version none (versions_of f.id db'.file_versions)
        ≡ some (new_version alloc p (file_to_publish p db).0 n) =
      ap (λ id. requested_version none (versions_of id db'.file_versions)) own ∙ newest in
    let decoded = decode-encode_chunk_manifest_v1 alloc p.rows sized hashed few in
    rw (named, found, download_body, requested, quota, decoded)
      (stream_chunks_lem fetch file p.rows p.new_size 0 0 tiles stored)
