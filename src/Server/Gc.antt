-- ===== src/Server/Gc.antt =====
-- server/gc.ts: the set of referenced hashes, and its reconciliation with the object store's report.
pub mod References
pub mod Inventory
pub mod Paging
pub mod Completeness
pub mod Spared
use delta_sync_engine.Prelude.{
  ℕ, zero, suc, ◌+◌, List, [], ◌∷◌, ◌++◌, Option, none, some, Bool, true, false, ◌||◌, ◌&&◌, not,
  ◌==◌, leb, ltb, if◌then◌else◌, length, take, drop, map, Result, ok, err,
}
use delta_sync_engine.Prelude.Texts.{Text, text_add, text_eq, text_mem, codes, starts_with}
use delta_sync_engine.Prelude.Maps.{lookup, insert}
use delta_sync_engine.Wire.Manifest.{ManifestChunk, ManifestError, decode_chunk_manifest_v1}
use delta_sync_engine.Hash.Strong.{get_s3_key}
use delta_sync_engine.Server.Database.{BlockRow, FileVersionRow, Database}

-- Buckets by the first two characters, and the number of hashes.
pub record CompressedHashSet : Type 0 where
  pub buckets : List (Text × List Text)
  pub size : ℕ

abbrev pub new_hash_set : CompressedHashSet
new_hash_set = record { buckets = []; size = 0 }

abbrev pub or_empty : Option (List Text) → List Text
or_empty none = []
or_empty (some bucket) = bucket

unfoldable pub bucket_of : Text → CompressedHashSet → List Text
unfolding lookup
bucket_of prefix set = or_empty (lookup prefix set.buckets)

unfoldable pub add : Text → CompressedHashSet → CompressedHashSet
unfolding bucket_of text_add insert
add hash set =
    let prefix = take 2 hash in
    let suffix = drop 2 hash in
    let bucket = bucket_of prefix set in
    let bucket' = text_add suffix bucket in
    record {
      buckets = insert prefix bucket' set.buckets;
      size = if ltb (length bucket) (length bucket') then set.size + 1 else set.size;
    }

unfoldable pub has : Text → CompressedHashSet → Bool
unfolding bucket_of text_mem
has hash set = text_mem (drop 2 hash) (bucket_of (take 2 hash) set)

unfoldable pub add_all : List Text → CompressedHashSet → CompressedHashSet
unfolding add
add_all [] set = set
add_all (hash ∷ hashes) set = add_all hashes (add hash set)

-- The loop over the pages of the table of blocks, in one order of its rows for all pages: the query has no ORDER BY.
-- `fuel` bounds the pages, `block_offset` is where
-- the next one starts.
unfoldable pub block_pages :
    ℕ → ℕ → ℕ → List BlockRow → CompressedHashSet → Option CompressedHashSet
unfolding add_all
block_pages zero block_page block_offset blocks set = none
block_pages (suc fuel) block_page block_offset blocks set =
    let rows = take block_page (drop block_offset blocks) in
    let set' = add_all (map (λ (b : BlockRow). b.strong_hash) rows) set in
    let rest = block_pages fuel block_page (block_offset + block_page) blocks set' in
    if ltb (length rows) block_page then some set' else rest

-- A manifest that does not decode is skipped.
unfoldable pub manifest_hashes : FileVersionRow → List Text
unfolding decode_chunk_manifest_v1
manifest_hashes v = elim v.chunk_manifest [
  | none ↦ []
  | some manifest ↦ elim (decode_chunk_manifest_v1 manifest) [
    | ok chunks ↦ map (λ (c : ManifestChunk). c.strong_hash_hex) chunks
    | err e ↦ []
  ]
]

unfoldable pub version_page : List FileVersionRow → CompressedHashSet → CompressedHashSet
unfolding add_all manifest_hashes
version_page [] set = set
version_page (v ∷ rows) set = version_page rows (add_all (manifest_hashes v) set)

-- `gt` on the column of ids.
unfoldable pub text_lt : Text → Text → Bool
text_lt [] [] = false
text_lt [] (y ∷ ys) = true
text_lt (x ∷ xs) [] = false
text_lt (x ∷ xs) (y ∷ ys) = ltb x y || (x == y && text_lt xs ys)

-- The two queries of a page, on the table in the order of its ids.
unfoldable pub has_manifest : Option (List ℕ) → Bool
has_manifest none = false
has_manifest (some manifest) = true

unfoldable pub with_manifest : List FileVersionRow → List FileVersionRow
unfolding has_manifest
with_manifest [] = []
with_manifest (v ∷ versions) =
    if has_manifest v.chunk_manifest then v ∷ with_manifest versions else with_manifest versions

unfoldable pub behind_id : Text → List FileVersionRow → List FileVersionRow
unfolding text_lt
behind_id last_id [] = []
behind_id last_id (v ∷ versions) =
    if text_lt last_id v.id then v ∷ behind_id last_id versions else behind_id last_id versions

unfoldable pub last_of : Text → List FileVersionRow → Text
last_of last_id [] = last_id
last_of last_id (v ∷ rows) = last_of v.id rows

-- The loop over the pages of versions by a cursor: `fuel` bounds the pages.
unfoldable pub version_pages :
    ℕ → ℕ → Text → List FileVersionRow → CompressedHashSet → Option CompressedHashSet
unfolding version_page with_manifest behind_id last_of text_eq
version_pages zero page_size last_id versions set = none
version_pages (suc fuel) page_size last_id versions set =
    let rows =
      take page_size
        (if text_eq last_id [] then with_manifest versions else behind_id last_id versions) in
    let set' = version_page rows set in
    let rest = version_pages fuel page_size (last_of last_id rows) versions set' in
    if length rows == 0 then some set else (if ltb (length rows) page_size then some set' else rest)

-- `versions` is the table in the order of its ids.
unfoldable pub build_reference_set :
    ℕ → List BlockRow → List FileVersionRow → Option CompressedHashSet
unfolding block_pages version_pages
build_reference_set fuel blocks versions = elim (block_pages fuel 5000 0 blocks new_hash_set) [
  | none ↦ none
  | some set ↦ version_pages fuel 80 [] versions set
]
