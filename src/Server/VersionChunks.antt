-- ===== src/Server/VersionChunks.antt =====
-- server/version-chunks.ts: the chunks of a stored version, from its manifest or, for the versions
-- of old, from the table of blocks.
use delta_sync_engine.Prelude.{
  ℕ, ◌-◌, ◌*◌, min, List, [], ◌∷◌, none, some, leb, if◌then◌else◌, Result, ok, map,
}
use delta_sync_engine.Prelude.Texts.{Text, text_eq}
use delta_sync_engine.Wire.Manifest.{ManifestChunk, ManifestError, decode_chunk_manifest_v1}
use delta_sync_engine.Server.Database.{BlockRow, FileVersionRow, Database}

-- `where(eq(versionId))`
unfoldable pub blocks_of : Text → List BlockRow → List BlockRow
unfolding text_eq
blocks_of version_id [] = []
blocks_of version_id (b ∷ blocks) =
    if text_eq b.version_id version_id
    then b ∷ blocks_of version_id blocks
    else blocks_of version_id blocks

-- `orderBy(asc(blockIndex))`, rows with the same index in the order of the table.
unfoldable pub insert_by_index : BlockRow → List BlockRow → List BlockRow
insert_by_index b [] = b ∷ []
insert_by_index b (c ∷ blocks) =
    if leb b.block_index c.block_index then b ∷ c ∷ blocks else c ∷ insert_by_index b blocks

unfoldable pub order_by_index : List BlockRow → List BlockRow
unfolding insert_by_index
order_by_index [] = []
order_by_index (b ∷ blocks) = insert_by_index b (order_by_index blocks)

-- The last block may be short. A block that begins behind the end, for which the source has a
-- negative length, has length 0 here.
unfoldable pub chunk_of_block : ℕ → ℕ → BlockRow → ManifestChunk
chunk_of_block block_size file_size b = record {
  block_index = b.block_index;
  offset = b.block_index * block_size;
  length = min block_size (file_size - b.block_index * block_size);
  weak_hash = b.weak_hash;
  strong_hash_hex = b.strong_hash;
}

unfoldable pub load_version_chunks :
    Database → Text → FileVersionRow → Result ManifestError (List ManifestChunk)
unfolding blocks_of order_by_index chunk_of_block decode_chunk_manifest_v1
load_version_chunks db version_id v = elim v.chunk_manifest [
  | some manifest ↦ decode_chunk_manifest_v1 manifest
  | none ↦
      ok
        (map (chunk_of_block v.block_size v.size) (order_by_index (blocks_of version_id db.blocks)))
]
