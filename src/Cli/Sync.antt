-- ===== src/Cli/Sync.antt =====
-- cli/src/sync.ts: what a synchronisation does with each file, and the cache of cli/src/db.ts that
-- it keeps.
pub mod Safety
use delta_sync_engine.Prelude.{
  ℕ, ◌+◌, List, [], ◌∷◌, ◌++◌, Option, none, some, Bool, true, false, not, ◌&&◌, ◌||◌, ◌==◌,
  if◌then◌else◌, length,
}
use delta_sync_engine.Prelude.Texts.{Text, text_eq}
use delta_sync_engine.Prelude.Maps.{lookup, insert}

pub record CachedFile : Type 0 where
  pub last_mtime : ℕ
  pub last_size : ℕ
  pub last_hash : Text
  pub server_version : ℕ
  pub last_accessed : ℕ

-- The files on disk and the rows of the cache, by their paths.
pub record World : Type 0 where
  pub disk : List (Text × List ℕ)
  pub cache : List (Text × CachedFile)

pub record FileInfo : Type 0 where
  pub content_sha256 : Text
  pub version_no : ℕ

pub record Options : Type 0 where
  pub force_push : Bool
  pub force_pull : Bool

pub data SyncAction : Type 0 where
  pushed pulled conflicts skipped : SyncAction

-- What a synchronisation of one file meets: `content_hash` is SHA-256 as text, `server_info` and
-- `download` the server's answers, `perform_push` the push of cli/src/push.ts (Push), as an argument.
pub record Meets : Type 0 where
  pub content_hash : List ℕ → Text
  pub server_info : Option FileInfo
  pub download : Option (List ℕ)
  pub perform_push : World → Option World
  pub mtime : ℕ
  pub now : ℕ

-- `getFile`: a row that is read is marked as used.
unfoldable pub get_file :
    ℕ → Text → List (Text × CachedFile) → Option CachedFile × List (Text × CachedFile)
unfolding lookup insert
get_file now path cache = elim (lookup path cache) [
  | none ↦ (none, cache)
  | some row ↦ (some row, insert path (record row { last_accessed = now }) cache)
]

unfoldable pub upsert_file :
    ℕ → Text → ℕ → ℕ → Text → ℕ → List (Text × CachedFile) → List (Text × CachedFile)
unfolding insert
upsert_file now path mtime size hash version cache =
    insert path
      (record {
        last_mtime = mtime;
        last_size = size;
        last_hash = hash;
        server_version = version;
        last_accessed = now;
      })
      cache

-- `hash !== null && hash !== ancestorHash`
unfoldable pub is_changed : Option Text → Option Text → Bool
unfolding text_eq
is_changed none ancestor = false
is_changed (some hash) none = true
is_changed (some hash) (some ancestor) = not (text_eq hash ancestor)

-- `localHash && serverHash && localHash === serverHash`, an empty text counting as no hash.
unfoldable pub is_convergent : Option Text → Option Text → Bool
unfolding text_eq
is_convergent (some a) (some b) = not (length a == 0) && not (length b == 0) && text_eq a b
is_convergent _ _ = false

unfoldable pub push : Meets → World → SyncAction × World
push m w = elim (m.perform_push w) [ some w' ↦ (pushed, w') | none ↦ (conflicts, w) ]

unfoldable pub pull : Meets → Text → FileInfo → World → SyncAction × World
unfolding insert upsert_file
pull m path info w = elim m.download [
  | none ↦ (conflicts, w)
  | some buf ↦ (
    pulled,
    record {
      disk = insert path buf w.disk;
      cache =
          upsert_file m.now path m.now (length buf) (m.content_hash buf) info.version_no w.cache;
    },
  )
]

-- The convergent case: the cache is brought up to date.
unfoldable pub adopt : Meets → Text → List ℕ → FileInfo → World → World
unfolding upsert_file
adopt m path local info w = record w {
  cache =
      upsert_file m.now path m.mtime (length local) (m.content_hash local) info.version_no w.cache;
}

-- A file on disk and on the server, neither hash that of the other.
unfoldable pub resolve :
    Meets → Options → Bool → Bool → Text → FileInfo → World → SyncAction × World
unfolding push pull
resolve m opts local_changed server_changed path info w =
    if local_changed && not server_changed
    then push m w
    else (if not local_changed && server_changed
        then pull m path info w
        else (if not (local_changed && server_changed)
            then (skipped, w)
            else (if opts.force_push
                then push m w
                else (if opts.force_pull then pull m path info w else (conflicts, w)))))

unfoldable pub hash_of : Meets → Option (List ℕ) → Option Text
hash_of m none = none
hash_of m (some bytes) = some (m.content_hash bytes)

unfoldable pub server_hash_of : Option FileInfo → Option Text
server_hash_of none = none
server_hash_of (some info) = some info.content_sha256

unfoldable pub ancestor_of : Option CachedFile → Option Text
ancestor_of none = none
ancestor_of (some row) = some row.last_hash

-- The cases once it is known that something changed: with one copy, that copy is the one that did.
unfoldable pub sync_copies :
    Meets
    → Options
    → Bool
    → Bool
    → Text
    → Option (List ℕ)
    → Option FileInfo
    → World
    → SyncAction × World
unfolding is_convergent adopt push pull resolve hash_of server_hash_of
sync_copies m opts local_changed server_changed path (some local) (some info) w =
    if is_convergent (hash_of m (some local)) (server_hash_of (some info))
    then (skipped, adopt m path local info w)
    else resolve m opts local_changed server_changed path info w
sync_copies m opts local_changed server_changed path (some local) none w = push m w
sync_copies m opts local_changed server_changed path none (some info) w = pull m path info w
sync_copies m opts local_changed server_changed path none none w = (skipped, w)

unfoldable pub sync_file : Meets → Options → Text → World → SyncAction × World
unfolding get_file lookup hash_of server_hash_of ancestor_of is_changed sync_copies
sync_file m opts path w =
    let (cached, cache) = get_file m.now path w.cache in
    let w' : World = record w { cache = cache } in
    let local = lookup path w.disk in
    let ancestor_hash = ancestor_of cached in
    let local_changed = is_changed (hash_of m local) ancestor_hash in
    let server_changed = is_changed (server_hash_of m.server_info) ancestor_hash in
    if not local_changed && not server_changed
    then (skipped, w')
    else sync_copies m opts local_changed server_changed path local m.server_info w'
