-- ===== src/Server/Gc/Inventory.antt =====
-- The reconciliation with the object store's report: server/gc.ts, `reconcileWithInventory`.
pub mod Orphans
use delta_sync_engine.Prelude.{
  ℕ, zero, suc, ◌+◌, ◌-◌, List, [], ◌∷◌, ◌++◌, Option, none, some, Bool, true, false, ◌||◌, not,
  ◌==◌, leb, ltb, if◌then◌else◌, length, take, drop, map, slice, ◌&&◌,
}
use delta_sync_engine.Prelude.Texts.{Text, text_eq, codes, starts_with}
use delta_sync_engine.Hash.Strong.{get_s3_key}
use delta_sync_engine.Server.Gc.{CompressedHashSet, has}

-- `text.split(c)` for a separator of one character.
unfoldable pub split_on : ℕ → Text → List Text
split_on c [] = [] ∷ []
split_on c (x ∷ text) = elim (split_on c text) [
  | [] ↦ [] ∷ []
  | piece ∷ pieces ↦ if x == c then [] ∷ piece ∷ pieces else (x ∷ piece) ∷ pieces
]

-- What `trim` removes.
abbrev pub is_space : ℕ → Bool
is_space c =
    (leb 9 c && leb c 13)
    || c == 32
    || c == 160
    || c == 5760
    || (leb 8192 c && leb c 8202)
    || c == 8232
    || c == 8233
    || c == 8239
    || c == 8287
    || c == 12288
    || c == 65279

unfoldable pub trim_start : Text → Text
trim_start [] = []
trim_start (c ∷ text) = if is_space c then trim_start text else c ∷ text

unfoldable pub trim_end : Text → Text
trim_end [] = []
trim_end (c ∷ text) = elim (trim_end text) [
  | [] ↦ if is_space c then [] else c ∷ []
  | d ∷ rest ↦ c ∷ d ∷ rest
]

unfoldable pub trim : Text → Text
unfolding trim_start trim_end
trim text = trim_end (trim_start text)

-- `text.replace(/c/g, "")`
unfoldable pub remove : ℕ → Text → Text
remove c [] = []
remove c (x ∷ text) = if x == c then remove c text else x ∷ remove c text

-- `pieces.pop()!` of a list that `split` made, which is not empty.
unfoldable pub last_piece : List Text → Text
last_piece [] = []
last_piece (piece ∷ []) = piece
last_piece (piece ∷ next ∷ pieces) = last_piece (next ∷ pieces)

-- The key in the second column of a line; empty where the line is passed over.
unfoldable pub key_of_line : Text → Text
unfolding split_on trim remove
key_of_line line = if length (trim line) == 0 then [] else elim (split_on b',' line) [
  | [] ↦ []
  | bucket ∷ [] ↦ []
  | bucket ∷ key ∷ parts ↦ trim (remove b'"' key)
]

-- `key.includes("/") ? key.split("/").pop() : key`, whose two sides agree on a key without a slash.
unfoldable pub raw_hash : Text → Text
unfolding split_on last_piece
raw_hash key = last_piece (split_on b'/' key)

unfoldable pub orphaned_keys : CompressedHashSet → List Text → List Text
unfolding key_of_line starts_with raw_hash has
orphaned_keys set [] = []
orphaned_keys set (line ∷ lines) =
    let key = key_of_line line in
    let rest = orphaned_keys set lines in
    if length key == 0 || starts_with key (codes "temp-")
    then rest
    else (if not (has (raw_hash key) set) then key ∷ rest else rest)

-- The requests of deletion, one for each batch, and the count; `fuel` bounds the batches.
unfoldable pub delete_batches : ℕ → ℕ → List Text → ℕ → Option (List (List Text) × ℕ)
unfolding get_s3_key
delete_batches zero delete_batch orphans deleted_count = none
delete_batches (suc fuel) delete_batch orphans deleted_count =
    let batch = take delete_batch orphans in
    let rest =
      delete_batches fuel delete_batch (drop delete_batch orphans) (deleted_count + length batch) in
    if length orphans == 0 then some ([], deleted_count) else elim rest [
      | none ↦ none
      | some (requests, count) ↦ some (map get_s3_key batch ∷ requests, count)
    ]

unfoldable pub reconcile_with_inventory :
    ℕ → CompressedHashSet → Text → Option (List (List Text) × ℕ)
unfolding orphaned_keys split_on delete_batches
reconcile_with_inventory fuel set body =
    delete_batches fuel 1000 (orphaned_keys set (split_on 10 body)) 0
