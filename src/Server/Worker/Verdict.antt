-- ===== src/Server/Worker/Verdict.antt =====
-- The verdict of the verification is `verified` exactly when the store says of every chunk that it is there.
use mathlib.Core.List.{flatten}
use mathlib.Core.Option
use delta_sync_engine.Prelude.{
  ℕ, ◌+◌, ◌≡◌, refl, sym, ap, ◌∙◌, inl, inr, List, [], ◌∷◌, ◌++◌, some, Bool, true, false, ◌&&◌,
  arith, if◌then◌else◌, length, Bool-cases, ok,
}
use delta_sync_engine.Prelude.Texts.{Text, text_eq, text_eq-eq, text_eq_refl, text_mem}
use delta_sync_engine.Wire.Manifest.{ManifestChunk, decode_chunk_manifest_v1}
use delta_sync_engine.Wire.Manifest.Pages.{hashes, iterate_manifest_hash_pages_lem, pages_lem}
use delta_sync_engine.Server.Database.{
  FileVersionRow, Database, Verification, verified, corrupted, find_version, set_verification,
}
use delta_sync_engine.Server.Objects.{Head, has_block}
use delta_sync_engine.Server.Objects.Answers.{is_stored}
use delta_sync_engine.Server.Worker.{
  missing_of_batch, missing_of_batches, missing_of_pages, total_length, record_verdict,
  verify_manifest, handle_verify_chunks,
}

-- The store says of each hash of the list, asked about the key that it is stored under, that it is there.
abbrev pub all_stored : (Text → Head) → List Text → Bool
all_stored head [] = true
all_stored head (hash ∷ hashes) = is_stored head hash && all_stored head hashes

missing_of_batch-append :
    (head : Text → Head) (xs ys : List Text)
    → missing_of_batch head (xs ++ ys) ≡ missing_of_batch head xs ++ missing_of_batch head ys
unfolding missing_of_batch
missing_of_batch-append head [] ys = refl
missing_of_batch-append head (x ∷ xs) ys = elim (Bool-cases (has_block head x)) [
  | inl here ↦ rw (here, missing_of_batch-append head xs ys)
  | inr gone ↦ rw (gone, missing_of_batch-append head xs ys)
]

missing_of_batches-flatten :
    (head : Text → Head) (batches : List (List Text))
    → missing_of_batches head batches ≡ missing_of_batch head (flatten batches)
unfolding missing_of_batches missing_of_batch flatten
missing_of_batches-flatten head [] = refl
missing_of_batches-flatten head (b ∷ batches) =
    rw (missing_of_batches-flatten head batches, missing_of_batch-append head b (flatten batches))

missing_of_pages-flatten :
    (head : Text → Head) (pages : List (List Text))
    → missing_of_pages head pages ≡ some (missing_of_batch head (flatten pages))
unfolding missing_of_pages missing_of_batch flatten
missing_of_pages-flatten head [] = refl
missing_of_pages-flatten head (page ∷ pages) =
    let (batches, e, joined, sized) =
      pages_lem (length page + 1) page 50 0 (omega arith) (omega arith) (omega arith) in
    let here : missing_of_batches head batches ≡ missing_of_batch head page =
      missing_of_batches-flatten head batches ∙ ap (missing_of_batch head) joined in
    rw (
      e,
      missing_of_pages,
      missing_of_pages-flatten head pages,
      here,
      missing_of_batch-append head page (flatten pages),
    )

-- Which of two lists with the same members is asked makes no difference.
all_stored-mem :
    (head : Text → Head) (xs : List Text) (t : Text)
    → all_stored head xs ≡ true
    → text_mem t xs ≡ true
    → is_stored head t ≡ true
unfolding text_mem
all_stored-mem head [] t all h = cc
all_stored-mem head (x ∷ xs) t all h = elim (Bool-cases (text_eq t x)) [
  | inl same ↦ ap (is_stored head) (text_eq-eq t x same) ∙ ground arith
  | inr other ↦ all_stored-mem head xs t (ground arith) (rw other at h)
]

all_stored-of :
    (head : Text → Head) (xs : List Text)
    → ((t : Text) → text_mem t xs ≡ true → is_stored head t ≡ true)
    → all_stored head xs ≡ true
unfolding text_mem
all_stored-of head [] h = refl
all_stored-of head (x ∷ xs) h =
    let here : is_stored head x ≡ true = h x (rw (text_eq_refl x)) in
    rw here (all_stored-of head xs (λ t m. h t (ground arith)))

all_stored-same :
    (head : Text → Head) (xs ys : List Text)
    → ((t : Text) → text_mem t xs ≡ text_mem t ys)
    → all_stored head xs ≡ all_stored head ys
all_stored-same head xs ys same = elim (Bool-cases (all_stored head xs)) [
  | inl all ↦ all ∙ sym (all_stored-of head ys (λ t m. all_stored-mem head xs t all (same t ∙ m)))
  | inr some_missing ↦ elim (Bool-cases (all_stored head ys)) [
    | inl all ↦
        let bad = all_stored-of head xs (λ t m. all_stored-mem head ys t all (sym (same t) ∙ m)) in
        cc
    | inr missing ↦ some_missing ∙ sym missing
  ]
]

find_version-set_verification :
    (id : Text) (status : Verification) (versions : List FileVersionRow) (v : FileVersionRow)
    → find_version id versions ≡ some v
    → find_version id (set_verification id status versions)
      ≡ some (record v { verification_status = status })
unfolding find_version set_verification
find_version-set_verification id status [] v h = cc
find_version-set_verification id status (w ∷ versions) v h = elim (Bool-cases (text_eq w.id id)) [
  | inl here ↦
      rw (here, here)
        (ap (Option.map (λ (x : FileVersionRow). record x { verification_status = status }))
          (rw here at h))
  | inr there ↦
      rw (there, there) (find_version-set_verification id status versions v (rw there at h))
]

-- The verdict, as the row of the version afterwards.
record_verdict-status :
    (head : Text → Head) (id : Text) (v w : FileVersionRow) (hashes : List Text) (total : ℕ)
    (event_id : Text) (db : Database)
    → find_version id db.file_versions ≡ some w
    → find_version id
        (record_verdict id v (missing_of_batch head hashes) total event_id db).file_versions
      ≡ some (record w {
        verification_status = if all_stored head hashes then verified else corrupted;
      })
unfolding record_verdict missing_of_batch
record_verdict-status head id v w [] total event_id db h =
    find_version-set_verification id verified db.file_versions w h
record_verdict-status head id v w (x ∷ xs) total event_id db h =
    elim (Bool-cases (has_block head x)) [
      | inl here ↦ rw here (record_verdict-status head id v w xs total event_id db h)
      | inr gone ↦ rw gone (find_version-set_verification id corrupted db.file_versions w h)
    ]

handle_verify_chunks-verify_manifest :
    (head : Text → Head) (id event_id : Text) (db : Database) (v : FileVersionRow)
    (manifest : List ℕ)
    → text_eq id [] ≡ false
    → find_version id db.file_versions ≡ some v
    → v.chunk_manifest ≡ some manifest
    → handle_verify_chunks head id event_id db ≡ verify_manifest head id v manifest event_id db
unfolding handle_verify_chunks
handle_verify_chunks-verify_manifest head id event_id db v manifest named there stored =
    rw (named, there, stored)

-- For a version whose manifest decodes: the verification ends without an error, and afterwards the
-- version is `verified` when the store, asked about the sharded key of each hash of the manifest, says of
-- each that it is there. Otherwise, if one is absent or a request fails, the version is `corrupted`.
pub handle_verify_chunks-status :
    (head : Text → Head) (id event_id : Text) (db : Database) (v : FileVersionRow)
    (manifest : List ℕ) (chunks : List ManifestChunk)
    → text_eq id [] ≡ false
    → find_version id db.file_versions ≡ some v
    → v.chunk_manifest ≡ some manifest
    → decode_chunk_manifest_v1 manifest ≡ ok chunks
    → (db' : Database) × (handle_verify_chunks head id event_id db ≡ ok (some db'))
      × (find_version id db'.file_versions
          ≡ some (record v {
            verification_status = if all_stored head (hashes chunks) then verified else corrupted;
          }))
unfolding verify_manifest
handle_verify_chunks-status head id event_id db v manifest chunks named there stored decoded =
    let (pages, e, distinct, members, sized) =
      iterate_manifest_hash_pages_lem manifest 10000 chunks (omega arith) decoded in
    let missing = missing_of_pages-flatten head pages in
    let status =
      record_verdict-status head id v v (flatten pages) (total_length pages) event_id db there in
    let same = all_stored-same head (flatten pages) (hashes chunks) members in
    (
      record_verdict id v (missing_of_batch head (flatten pages)) (total_length pages) event_id db,
      handle_verify_chunks-verify_manifest head id event_id db v manifest named there stored
          ∙ rw (e, missing),
      rw same at status,
    )
