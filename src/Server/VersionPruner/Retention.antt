-- ===== src/Server/VersionPruner/Retention.antt =====
-- What the pruner keeps, by the ids that it collects.
use mathlib.Core.Path.{subst}
use delta_sync_engine.Prelude.{
  ℕ, ◌≡◌, refl, inl, inr, List, [], ◌∷◌, none, some, true, false, leb, length, map, Bool-cases,
}
use delta_sync_engine.Prelude.Texts.{Text, text_eq, text_eq-eq, text_mem}
use delta_sync_engine.Server.Database.{FileRow, FileVersionRow, Database, find_version, versions_of}
use delta_sync_engine.Server.VersionPruner.{
  file_by_id, newest_first, keep_ids, ids_to_delete, delete_versions, prune_file_versions,
}

-- What is deleted is never kept.
ids_to_delete-keep :
    (id : Text) (keep : List Text) (versions : List FileVersionRow)
    → text_mem id keep ≡ true
    → text_mem id (ids_to_delete keep versions) ≡ false
unfolding ids_to_delete text_mem
ids_to_delete-keep id keep [] h = refl
ids_to_delete-keep id keep (v ∷ versions) h = elim (Bool-cases (text_mem v.id keep)) [
  | inl kept ↦ rw (kept) (ids_to_delete-keep id keep versions h)
  | inr gone ↦ elim (Bool-cases (text_eq id v.id)) [
    | inl same ↦ let bad = subst (λ t. text_mem t keep ≡ true) (text_eq-eq id v.id same) h in cc
    | inr other ↦ rw (gone, other) (ids_to_delete-keep id keep versions h)
  ]
]

-- A version that is not deleted is found as before.
find_version-delete_versions :
    (id : Text) (ids : List Text) (versions : List FileVersionRow)
    → text_mem id ids ≡ false
    → find_version id (delete_versions ids versions) ≡ find_version id versions
unfolding find_version delete_versions
find_version-delete_versions id ids [] h = refl
find_version-delete_versions id ids (v ∷ versions) h = elim (Bool-cases (text_mem v.id ids)) [
  | inl gone ↦ elim (Bool-cases (text_eq v.id id)) [
    | inl same ↦ let bad = subst (λ t. text_mem t ids ≡ true) (text_eq-eq v.id id same) gone in cc
    | inr other ↦ rw (gone, other) (find_version-delete_versions id ids versions h)
  ]
  | inr kept ↦ rw (kept, find_version-delete_versions id ids versions h)
]

pub find_version-kept :
    (max_versions : ℕ) (file_id id : Text) (db : Database) (file : FileRow)
    → file_by_id file_id db.files ≡ some file
    → text_mem id (
        keep_ids max_versions file.current_version_id
          (newest_first (versions_of file_id db.file_versions)))
      ≡ true
    → find_version id (prune_file_versions max_versions file_id db).1.file_versions
      ≡ find_version id db.file_versions
unfolding prune_file_versions
find_version-kept max_versions file_id id db file there kept =
    let all_versions = newest_first (versions_of file_id db.file_versions) in
    elim (Bool-cases (leb (length all_versions) max_versions)) [
      | inl few ↦ rw (there, prune_file_versions) (rw few)
      | inr many ↦
          rw (there, prune_file_versions)
            (rw many (
              find_version-delete_versions id _ db.file_versions
                (ids_to_delete-keep id _ all_versions kept)))
    ]

ids_to_delete-other :
    (id : Text) (keep : List Text) (versions : List FileVersionRow)
    → text_mem id keep ≡ false
    → text_mem id (map (λ (v : FileVersionRow). v.id) versions) ≡ true
    → text_mem id (ids_to_delete keep versions) ≡ true
unfolding ids_to_delete text_mem
ids_to_delete-other id keep [] h there = cc
ids_to_delete-other id keep (v ∷ versions) h there = elim (Bool-cases (text_eq id v.id)) [
  | inl same ↦
      let gone = subst (λ t. text_mem t keep ≡ false) (text_eq-eq id v.id same) h in
      rw gone (rw same)
  | inr other ↦
      let rest = ids_to_delete-other id keep versions h (rw other at there) in
      elim (Bool-cases (text_mem v.id keep)) [
        | inl kept ↦ rw kept rest
        | inr gone ↦ rw (gone, other) rest
      ]
]

find_version-deleted :
    (id : Text) (ids : List Text) (versions : List FileVersionRow)
    → text_mem id ids ≡ true
    → find_version id (delete_versions ids versions) ≡ none
unfolding find_version delete_versions
find_version-deleted id ids [] h = refl
find_version-deleted id ids (v ∷ versions) h = elim (Bool-cases (text_mem v.id ids)) [
  | inl gone ↦ rw gone (find_version-deleted id ids versions h)
  | inr kept ↦ elim (Bool-cases (text_eq v.id id)) [
    | inl same ↦ let bad = subst (λ t. text_mem t ids ≡ false) (text_eq-eq v.id id same) kept in cc
    | inr other ↦ rw (kept, other) (find_version-deleted id ids versions h)
  ]
]

pub find_version-spare :
    (max_versions : ℕ) (file_id id : Text) (db : Database) (file : FileRow)
    → file_by_id file_id db.files ≡ some file
    → let all_versions = newest_first (versions_of file_id db.file_versions) in
      leb (length all_versions) max_versions ≡ false
      → text_mem id (keep_ids max_versions file.current_version_id all_versions) ≡ false
      → text_mem id (map (λ (v : FileVersionRow). v.id) all_versions) ≡ true
      → find_version id (prune_file_versions max_versions file_id db).1.file_versions ≡ none
unfolding prune_file_versions
find_version-spare max_versions file_id id db file there many spare old =
    let all_versions = newest_first (versions_of file_id db.file_versions) in
    rw (there, prune_file_versions)
      (rw many (
        find_version-deleted id _ db.file_versions
          (ids_to_delete-other id _ all_versions spare old)))
