-- ===== src/Server/VersionPruner.antt =====
-- server/version-pruner.ts: the retention of a file's versions.
pub mod Retention
pub mod Order
pub mod Newest
use delta_sync_engine.Prelude.{
  ℕ, List, [], ◌∷◌, ◌++◌, Option, none, some, Bool, not, leb, ◌==◌, if◌then◌else◌, length, take,
  map,
}
use delta_sync_engine.Prelude.Texts.{Text, text_eq, text_mem}
use delta_sync_engine.Server.Database.{FileRow, FileVersionRow, BlockRow, Database, versions_of}

unfoldable pub file_by_id : Text → List FileRow → Option FileRow
unfolding text_eq
file_by_id id [] = none
file_by_id id (f ∷ files) = if text_eq f.id id then some f else file_by_id id files

-- `orderBy(desc(versionNo))`
unfoldable pub insert_newest : FileVersionRow → List FileVersionRow → List FileVersionRow
insert_newest v [] = v ∷ []
insert_newest v (w ∷ versions) =
    if leb w.version_no v.version_no then v ∷ w ∷ versions else w ∷ insert_newest v versions

unfoldable pub newest_first : List FileVersionRow → List FileVersionRow
unfolding insert_newest
newest_first [] = []
newest_first (v ∷ versions) = insert_newest v (newest_first versions)

-- `keepIds`: the ids of the newest versions, and of the current one.
unfoldable pub keep_ids : ℕ → Option Text → List FileVersionRow → List Text
keep_ids max_versions current versions =
    map (λ (v : FileVersionRow). v.id) (take max_versions versions)
    ++ elim current [ none ↦ [] | some id ↦ id ∷ [] ]

unfoldable pub ids_to_delete : List Text → List FileVersionRow → List Text
unfolding text_mem
ids_to_delete keep [] = []
ids_to_delete keep (v ∷ versions) =
    if text_mem v.id keep then ids_to_delete keep versions else v.id ∷ ids_to_delete keep versions

-- `delete(fileVersions).where(inArray(id, toDeleteIds))`
unfoldable pub delete_versions : List Text → List FileVersionRow → List FileVersionRow
unfolding text_mem
delete_versions ids [] = []
delete_versions ids (v ∷ versions) =
    if text_mem v.id ids then delete_versions ids versions else v ∷ delete_versions ids versions

-- The cascade of the deletion to the table of blocks.
unfoldable pub delete_blocks : List Text → List BlockRow → List BlockRow
unfolding text_mem
delete_blocks ids [] = []
delete_blocks ids (b ∷ blocks) =
    if text_mem b.version_id ids then delete_blocks ids blocks else b ∷ delete_blocks ids blocks

-- `Math.max(1, parseInt(MAX_VERSIONS_PER_FILE || "10") || 10)`, where the text is no number for `none`;
-- a negative number, for which the source keeps one version, is left out.
unfoldable pub max_versions_of : Option ℕ → ℕ
max_versions_of none = 10
max_versions_of (some n) = if n == 0 then 10 else n

-- The number of versions deleted, and the database that is left.
unfoldable pub prune_file_versions : ℕ → Text → Database → ℕ × Database
unfolding file_by_id versions_of newest_first keep_ids ids_to_delete delete_versions delete_blocks
prune_file_versions max_versions file_id db = elim (file_by_id file_id db.files) [
  | none ↦ (0, db)
  | some file ↦
      let all_versions = newest_first (versions_of file_id db.file_versions) in
      if leb (length all_versions) max_versions
      then (0, db)
      else let to_delete =
          ids_to_delete (keep_ids max_versions file.current_version_id all_versions) all_versions in
        (
          length to_delete,
          record db {
            file_versions = delete_versions to_delete db.file_versions;
            blocks = delete_blocks to_delete db.blocks;
          },
        )
]
