-- ===== src/Server/Gc/Inventory/Orphans.antt =====
-- What the reconciliation deletes.
use mathlib.Core.List.{flatten}
use delta_sync_engine.Prelude.{
  ℕ, zero, suc, ◌+◌, ◌<◌, ◌≡◌, refl, sym, ap, ◌∙◌, inl, inr, List, [], ◌∷◌, ◌++◌, some, false, ◌||◌,
  ◌==◌, arith, length, length-drop, length-take, take, drop, map, take-append-drop, All, Bool-cases,
  map-append,
}
use delta_sync_engine.Prelude.Texts.{Text, codes, starts_with}
use delta_sync_engine.Hash.Strong.{get_s3_key}
use delta_sync_engine.Server.Gc.{CompressedHashSet, has}
use delta_sync_engine.Server.Gc.Inventory.{key_of_line, raw_hash, orphaned_keys, delete_batches}

-- No key that the collector picks has a hash in the reference set, and none is temporary.
pub orphaned_keys-unreferenced :
    (set : CompressedHashSet) (lines : List Text)
    → All
        (λ key. (has (raw_hash key) set ≡ false) × (starts_with key (codes "temp-") ≡ false))
        (orphaned_keys set lines)
unfolding orphaned_keys
orphaned_keys-unreferenced set [] = tt
orphaned_keys-unreferenced set (line ∷ lines) =
    let rest = orphaned_keys-unreferenced set lines in
    elim (Bool-cases
      (length (key_of_line line) == 0 || starts_with (key_of_line line) (codes "temp-"))) [
        | inl skipped ↦ rw skipped rest
        | inr read ↦ elim (Bool-cases (has (raw_hash (key_of_line line)) set)) [
          | inl there ↦ rw (read, there) rest
          | inr orphan ↦ rw (read, orphan) ((orphan, ground arith), rest)
        ]
      ]

append_halves :
    (b : ℕ) (keys : List Text)
    → map get_s3_key (take b keys) ++ map get_s3_key (drop b keys) ≡ map get_s3_key keys
append_halves b keys =
    sym (map-append get_s3_key (take b keys) (drop b keys))
    ∙ ap (map get_s3_key) (take-append-drop b keys)

left_over :
    (b : ℕ) (keys : List Text)
    → length keys ≡ length (take (suc b) keys) + length (drop (suc b) keys)
left_over b keys = omega (arith, length-take (suc b) keys, length-drop (suc b) keys)

shorter :
    (b : ℕ) (k : Text) (keys : List Text) (fuel : ℕ)
    → length (k ∷ keys) < suc fuel
    → length (drop (suc b) (k ∷ keys)) < fuel
shorter b k keys fuel h = omega (arith, length-drop b keys)

-- With fuel for one batch more than there are keys the deletion ends, whatever the batch size above 0. Its requests
-- have `get_s3_key` of each key once, in order, and the count is the number of keys.
pub delete_batches-all :
    (fuel b : ℕ) (keys : List Text) (n : ℕ)
    → length keys < fuel
    → (requests : List (List Text)) × (delete_batches fuel (suc b) keys n
        ≡ some (requests, n + length keys))
      × (flatten requests ≡ map get_s3_key keys)
unfolding delete_batches flatten
delete_batches-all zero b keys n h = absurd (omega arith)
delete_batches-all (suc fuel) b [] n h = ([], ap (λ x. some ([], x)) (omega arith), refl)
delete_batches-all (suc fuel) b (k ∷ keys) n h =
    let batch = take (suc b) (k ∷ keys) in
    let (requests, deleted, all) =
      delete_batches-all fuel b (drop (suc b) (k ∷ keys)) (n + length batch)
        (shorter b k keys fuel h) in
    let total : n + length batch + length (drop (suc b) (k ∷ keys)) ≡ n + length (k ∷ keys) =
      omega (arith, left_over b (k ∷ keys)) in
    let some_left : (length (k ∷ keys) == 0) ≡ false = ground arith in
    (
      map get_s3_key batch ∷ requests,
      rw (some_left, deleted, total),
      ap (λ r. map get_s3_key batch ++ r) all ∙ append_halves (suc b) (k ∷ keys),
    )

-- The key that is asked for in place of a key that is below two characters already.
abbrev pub resharded : Text → Text
resharded key = take 2 key ++ (b'/' ∷ key)
