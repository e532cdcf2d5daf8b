-- ===== src/Server/Publish/Effects.antt =====
-- What a successful publication leaves in the database.
use delta_sync_engine.Prelude.{
  ℕ, ◌+◌, ◌≡◌, refl, sym, ap, ◌∙◌, inl, inr, List, [], ◌∷◌, ◌++◌, none, some, true, false, ◌&&◌,
  Bool-cases, Option-cases, ok, err, ok-injective,
}
use mathlib.Core.Path.{subst}
use mathlib.Core.Option.{some-injective}
use delta_sync_engine.Prelude.Texts.{Text, text_eq, text_eq_refl}
use delta_sync_engine.Server.Publish.Races.{next_version-is_free}
use delta_sync_engine.Server.Database.{
  FileRow, Database, find_file, versions_of, max_version_no, point_file,
}
use delta_sync_engine.Server.Publish.{
  Publication, stale, same_version, current_version, file_to_publish, new_version, new_event,
  publish,
}

find_file-point_file :
    (user_id path version_id : Text) (size : ℕ) (files : List FileRow) (f : FileRow)
    → find_file user_id path files ≡ some f
    → find_file user_id path (point_file f.id version_id size files)
      ≡ some (record f { current_version_id = some version_id; total_size = size })
unfolding find_file point_file
find_file-point_file user_id path version_id size [] f h = cc
find_file-point_file user_id path version_id size (g ∷ files) f h =
    elim (Bool-cases (text_eq g.user_id user_id && text_eq g.path path)) [
      | inl here ↦
          let same : g ≡ f = some-injective _ _ (rw here at h) in
          let own : text_eq g.id f.id ≡ true =
            ap (λ (r : FileRow). text_eq g.id r.id) (sym same) ∙ text_eq_refl g.id in
          rw (own, here)
            (ap
              (λ (r : FileRow).
                some (record r { current_version_id = some version_id; total_size = size }))
              same)
      | inr there ↦
          let rest = find_file-point_file user_id path version_id size files f (rw there at h) in
          elim (Bool-cases (text_eq g.id f.id)) [
            | inl same ↦ rw (same, there) rest
            | inr other ↦ rw (other, there) rest
          ]
    ]

find_file-new :
    (user_id path : Text) (files : List FileRow) (f : FileRow)
    → find_file user_id path files ≡ none
    → (text_eq f.user_id user_id && text_eq f.path path) ≡ true
    → find_file user_id path (files ++ f ∷ []) ≡ some f
unfolding find_file
find_file-new user_id path [] f h mine = rw mine
find_file-new user_id path (g ∷ files) f h mine =
    elim (Bool-cases (text_eq g.user_id user_id && text_eq g.path path)) [
      | inl here ↦ let bad = rw here at h in cc
      | inr there ↦ rw there (find_file-new user_id path files f (rw there at h) mine)
    ]

-- The file of the publication, once it is pointed at the new version.
pointed :
    (p : Publication) (db : Database)
    → let (file_id, files) = file_to_publish p db in
      (f : FileRow) × (find_file p.user_id p.path (point_file file_id p.version_id p.new_size files)
        ≡ some f)
      × (f.id ≡ file_id)
      × (f.current_version_id ≡ some p.version_id)
unfolding file_to_publish
pointed p db = elim (Option-cases (find_file p.user_id p.path db.files)) [
  | inl missing ↦
      let new : FileRow = record {
        id = p.new_file_id;
        user_id = p.user_id;
        path = p.path;
        current_version_id = none;
        total_size = p.new_size;
      } in
      let mine : (text_eq p.user_id p.user_id && text_eq p.path p.path) ≡ true =
        rw (text_eq_refl p.user_id, text_eq_refl p.path) in
      rw (missing, file_to_publish)
        (
          _,
          find_file-point_file p.user_id p.path p.version_id p.new_size (db.files ++ new ∷ []) new
              (find_file-new p.user_id p.path db.files new missing mine),
          refl,
          refl,
        )
  | inr (f, there) ↦
      rw (there, file_to_publish)
        (
          _,
          find_file-point_file p.user_id p.path p.version_id p.new_size db.files f there,
          refl,
          refl,
        )
]

-- What a successful publication adds, given the database and the version number that it returns.
abbrev pub Adds : (ℕ → List ℕ) → Publication → Database → Database × ℕ → Type 0
Adds alloc_unsafe p db (db', n) =
    (same_version (current_version (find_file p.user_id p.path db.files)) p.snapshot ≡ true)
    × (n ≡ max_version_no (versions_of (file_to_publish p db).0 db.file_versions) + 1)
    × (db'.file_versions
        ≡ db.file_versions ++ new_version alloc_unsafe p (file_to_publish p db).0 n ∷ [])
    × (current_version (find_file p.user_id p.path db'.files) ≡ some p.version_id)
    × (db'.outbox_events ≡ db.outbox_events ++ new_event p (file_to_publish p db).0 ∷ [])
    × (db'.blocks ≡ db.blocks)

pointed_version :
    (p : Publication) (db : Database)
    → let (file_id, files) = file_to_publish p db in
      current_version
        (find_file p.user_id p.path (point_file file_id p.version_id p.new_size files))
      ≡ some p.version_id
unfolding current_version
pointed_version p db = let (f, e, own, current) = pointed p db in rw e current

-- A successful publication leaves the file's row in the table.
pub publish-find_file :
    (alloc_unsafe : ℕ → List ℕ) (p : Publication) (db : Database) (r : Database × ℕ)
    → publish alloc_unsafe p db ≡ ok r
    → (f : FileRow) × (find_file p.user_id p.path r.0.files ≡ some f)
      × (f.id ≡ (file_to_publish p db).0)
unfolding publish
publish-find_file alloc p db r e =
    let found = pointed p db in
    elim (Bool-cases
      (same_version (current_version (find_file p.user_id p.path db.files)) p.snapshot)) [
        | inl same ↦
            let e' = rw (next_version-is_free alloc p db) at (rw same at e) in
            subst
              (λ (q : Database × ℕ).
                (f : FileRow) × (find_file p.user_id p.path q.0.files ≡ some f)
                × (f.id ≡ (file_to_publish p db).0))
              (ok-injective _ _ e') (found.0, found.1, found.2)
        | inr moved ↦ let e' = rw moved at e in cc
      ]

-- When a publication succeeds, its snapshot was the file's current version, the new version is one
-- row more whose number is one above the largest of the file's, the file points at it, exactly one
-- event is added, and the legacy blocks are as before.
pub publish-Adds :
    (alloc_unsafe : ℕ → List ℕ) (p : Publication) (db : Database) (r : Database × ℕ)
    → publish alloc_unsafe p db ≡ ok r
    → Adds alloc_unsafe p db r
unfolding publish
publish-Adds alloc p db r e =
    elim (Bool-cases
      (same_version (current_version (find_file p.user_id p.path db.files)) p.snapshot)) [
        | inl same ↦
            let e' = rw (next_version-is_free alloc p db) at (rw same at e) in
            subst (Adds alloc p db) (ok-injective _ _ e')
              (same, refl, refl, pointed_version p db, refl, refl)
        | inr moved ↦ let e' = rw moved at e in cc
      ]

-- After a publication succeeds, every publication for the same user and path whose snapshot is not
-- the version just made is refused as stale.
pub publish-stale :
    (alloc_unsafe : ℕ → List ℕ) (p q : Publication) (db : Database) (r : Database × ℕ)
    → publish alloc_unsafe p db ≡ ok r
    → q.user_id ≡ p.user_id
    → q.path ≡ p.path
    → same_version (some p.version_id) q.snapshot ≡ false
    → publish alloc_unsafe q r.0 ≡ err stale
unfolding publish
publish-stale alloc p q db r e u path apart =
    let adds = publish-Adds alloc p db r e in rw (u, path, adds.3, apart)
