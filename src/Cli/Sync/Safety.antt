-- ===== src/Cli/Sync/Safety.antt =====
-- Work that only the disk has is never overwritten by a synchronisation that is not told to.
use delta_sync_engine.Prelude.{
  ℕ, ◌≡◌, inl, inr, List, Option, none, some, Bool, true, false, Bool-cases, Option-cases,
}
use delta_sync_engine.Prelude.Texts.{Text}
use delta_sync_engine.Prelude.Maps.{lookup}
use delta_sync_engine.Cli.Sync.{
  World, FileInfo, Options, Meets, get_file, push, resolve, sync_copies, hash_of, server_hash_of,
  ancestor_of, is_changed, is_convergent, sync_file,
}

push-disk :
    (m : Meets) (w : World)
    → ((v v' : World) → m.perform_push v ≡ some v' → v'.disk ≡ v.disk)
    → (push m w).1.disk ≡ w.disk
unfolding push
push-disk m w h = elim (Option-cases (m.perform_push w)) [
  | inl failed ↦ rw (failed, push)
  | inr (w', done) ↦ rw (done, push) (h w w' done)
]

resolve-disk :
    (m : Meets) (opts : Options) (server_changed : Bool) (path : Text) (info : FileInfo) (w : World)
    → ((v v' : World) → m.perform_push v ≡ some v' → v'.disk ≡ v.disk)
    → opts.force_pull ≡ false
    → (resolve m opts true server_changed path info w).1.disk ≡ w.disk
unfolding resolve
resolve-disk m opts false path info w h gentle = push-disk m w h
resolve-disk m opts true path info w h gentle = elim (Bool-cases opts.force_push) [
  | inl forced ↦ rw forced (push-disk m w h)
  | inr free ↦ rw (free, gentle)
]

sync_copies-disk :
    (m : Meets) (opts : Options) (server_changed : Bool) (path : Text) (local : List ℕ)
    (info : Option FileInfo) (w : World)
    → ((v v' : World) → m.perform_push v ≡ some v' → v'.disk ≡ v.disk)
    → opts.force_pull ≡ false
    → (sync_copies m opts true server_changed path (some local) info w).1.disk ≡ w.disk
unfolding sync_copies
sync_copies-disk m opts server_changed path local none w h gentle = push-disk m w h
sync_copies-disk m opts server_changed path local (some info) w h gentle =
    elim (Bool-cases (is_convergent (hash_of m (some local)) (server_hash_of (some info)))) [
      | inl same ↦ rw same
      | inr apart ↦ rw apart (resolve-disk m opts server_changed path info w h gentle)
    ]

-- When a file on disk differs from what was last synchronised and `--force-pull` is not given, the
-- synchronisation leaves every file on disk as it is, whatever the server answers, provided that a
-- push writes no file.
pub sync_file-disk :
    (m : Meets) (opts : Options) (path : Text) (local : List ℕ) (w : World)
    → ((v v' : World) → m.perform_push v ≡ some v' → v'.disk ≡ v.disk)
    → opts.force_pull ≡ false
    → lookup path w.disk ≡ some local
    → is_changed (some (m.content_hash local)) (ancestor_of (get_file m.now path w.cache).0) ≡ true
    → (sync_file m opts path w).1.disk ≡ w.disk
unfolding sync_file hash_of
sync_file-disk m opts path local w h gentle there changed =
    rw (there, changed) (sync_copies-disk m opts _ path local m.server_info _ h gentle)
