-- ===== src/Server/VersionPruner/Newest.antt =====
-- server/version-pruner.ts: the versions that the pruner keeps are the newest ones, and the current one.
use delta_sync_engine.Prelude.{
  ℕ, suc, ◌≤◌, ◌≡◌, ◌∙◌, ◌⊎◌, inl, inr, List, [], ◌∷◌, Option, none, some, Bool, true, false, ◌||◌,
  take, arith,
}
use delta_sync_engine.Prelude.Texts.{Text, text_eq, text_mem, text_mem-append}
use delta_sync_engine.Server.Database.{FileRow, FileVersionRow, Database, find_version, versions_of}
use delta_sync_engine.Server.VersionPruner.{file_by_id, newest_first, keep_ids, prune_file_versions}
use delta_sync_engine.Server.VersionPruner.Order.{
  has_version, count_from, count_above, ids_of, has_version-newest_first, count_from-newest_first,
  newest_first-Descending, has_version-ids_of, take-newest, take-older, Numbered, All-newest_first,
  count_above-length,
}
use delta_sync_engine.Server.VersionPruner.Retention.{find_version-kept, find_version-spare}

abbrev pub is_current : Text → Option Text → Bool
is_current id none = false
is_current id (some current) = text_eq id current

keep_ids-mem :
    (id : Text) (k : ℕ) (current : Option Text) (versions : List FileVersionRow)
    → text_mem id (keep_ids k current versions)
      ≡ (text_mem id (ids_of (take k versions)) || is_current id current)
unfolding keep_ids text_mem
keep_ids-mem id k none versions = text_mem-append id (ids_of (take k versions)) []
keep_ids-mem id k (some current) versions =
    text_mem-append id (ids_of (take k versions)) (current ∷ []) ∙ ground arith

-- A version is found after the pruning of its file as it was before, if it is the file's current version, or if it
-- is a version of the file and at most `max_versions` versions of the file, itself among them, have a number
-- that is not smaller.
pub find_version-prune :
    (max_versions : ℕ) (file_id id : Text) (n : ℕ) (db : Database) (file : FileRow)
    → file_by_id file_id db.files ≡ some file
    → (is_current id file.current_version_id ≡ true)
      ⊎ ((has_version id n (versions_of file_id db.file_versions) ≡ true)
          × (count_from n (versions_of file_id db.file_versions) ≤ max_versions))
    → find_version id (prune_file_versions max_versions file_id db).1.file_versions
      ≡ find_version id db.file_versions
find_version-prune k file_id id n db file there newest =
    let versions = versions_of file_id db.file_versions in
    let kept = keep_ids-mem id k file.current_version_id (newest_first versions) in
    find_version-kept k file_id id db file there (elim newest [
      | inl current ↦ kept ∙ ground (arith, current)
      | inr (m, few) ↦
          let taken =
            take-newest id n k (newest_first versions) (newest_first-Descending versions)
              (has_version-newest_first id n versions ∙ m)
              (omega (arith, few, count_from-newest_first n versions)) in
          kept ∙ ground (arith, taken)
    ])

-- A version of a file that is not its current one is gone after the pruning of the file, if at least `max_versions`
-- versions of the file have a larger number, and no other number goes with its id.
pub find_version-pruned :
    (max_versions : ℕ) (file_id id : Text) (n : ℕ) (db : Database) (file : FileRow)
    → file_by_id file_id db.files ≡ some file
    → is_current id file.current_version_id ≡ false
    → has_version id n (versions_of file_id db.file_versions) ≡ true
    → Numbered id n (versions_of file_id db.file_versions)
    → max_versions ≤ count_above n (versions_of file_id db.file_versions)
    → find_version id (prune_file_versions max_versions file_id db).1.file_versions ≡ none
find_version-pruned k file_id id n db file there spare m own many =
    let versions = versions_of file_id db.file_versions in
    let all_versions = newest_first versions in
    let there_too = has_version-newest_first id n versions ∙ m in
    let enough : k ≤ count_above n all_versions =
      omega (arith, many, count_from-newest_first (suc n) versions) in
    let older =
      take-older id n k all_versions (newest_first-Descending versions)
        (All-newest_first _ versions own) enough in
    let size = count_above-length id n all_versions there_too in
    find_version-spare k file_id id db file there (ground (arith, size, enough))
      (keep_ids-mem id k file.current_version_id all_versions ∙ ground (arith, older, spare))
      (has_version-ids_of id n all_versions there_too)
