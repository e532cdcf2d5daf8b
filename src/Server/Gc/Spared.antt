-- ===== src/Server/Gc/Spared.antt =====
-- server/gc.ts: a collection spares the keys of the chunks that the database refers to.
use mathlib.Core.Path.{subst}
use delta_sync_engine.Prelude.{
  ℕ, ◌+◌, ◌<◌, ◌≡◌, refl, sym, ap, ◌∙◌, inl, inr, List, [], ◌∷◌, ◌++◌, some, true, false, ◌||◌,
  ◌==◌, Bool-cases, length, take, All, arith,
}
use delta_sync_engine.Prelude.Texts.{Text, text_eq, text_eq-eq, text_mem, codes, starts_with}
use delta_sync_engine.Hash.Strong.{get_s3_key}
use delta_sync_engine.Server.Database.{BlockRow, FileVersionRow}
use delta_sync_engine.Server.Gc.{CompressedHashSet, has, build_reference_set}
use delta_sync_engine.Server.Gc.Paging.{ById, referenced}
use delta_sync_engine.Server.Gc.Completeness.{Named, block_hashes, build_reference_set_lem}
use delta_sync_engine.Server.Gc.Inventory.{orphaned_keys, raw_hash, split_on, last_piece}
use delta_sync_engine.Server.Gc.Inventory.Orphans.{orphaned_keys-unreferenced}

split_on-whole :
    (c : ℕ) (hash : Text) → All (λ x. (x == c) ≡ false) hash → split_on c hash ≡ hash ∷ []
unfolding split_on
split_on-whole c [] h = refl
split_on-whole c (x ∷ hash) (other, h) = rw (split_on-whole c hash h, split_on, other) refl

-- The last piece of a text that ends in a slash and a hash without one.
split_on-prefixed :
    (c : ℕ) (prefix hash : Text)
    → All (λ x. (x == c) ≡ false) hash
    → (p q : Text) × (ps : List Text) × (split_on c (prefix ++ (c ∷ hash)) ≡ p ∷ q ∷ ps)
      × (last_piece (q ∷ ps) ≡ hash)
unfolding split_on last_piece
split_on-prefixed c [] hash h =
    let same : (c == c) ≡ true = ground arith in
    ([], hash, [], rw (split_on-whole c hash h, split_on, same) refl, refl)
split_on-prefixed c (x ∷ prefix) hash h =
    let (p, q, ps, e, last) = split_on-prefixed c prefix hash h in
    elim (Bool-cases (x == c)) [
      | inl cut ↦ ([], p, q ∷ ps, rw (e, split_on, cut) refl, last)
      | inr inside ↦ (x ∷ p, q, ps, rw (e, split_on, inside) refl, last)
    ]

raw_hash-get_s3_key :
    (hash : Text) → All (λ x. (x == b'/') ≡ false) hash → raw_hash (get_s3_key hash) ≡ hash
unfolding raw_hash get_s3_key last_piece
raw_hash-get_s3_key hash h = elim (Bool-cases (starts_with hash (codes "temp-"))) [
  | inl temporary ↦ rw temporary (ap last_piece (split_on-whole b'/' hash h))
  | inr sharded ↦
      let (p, q, ps, e, last) = split_on-prefixed b'/' (take 2 hash) hash h in
      rw sharded (ap last_piece e ∙ last)
]

All-text_mem :
    (P : Text → Type 0) (t : Text) (ts : List Text) → All P ts → text_mem t ts ≡ true → P t
unfolding text_mem
All-text_mem P t [] h m = absurd (cc m)
All-text_mem P t (s ∷ ts) (p, h) m = elim (Bool-cases (text_eq t s)) [
  | inl same ↦ subst P (sym (text_eq-eq t s same)) p
  | inr other ↦ All-text_mem P t ts h (rw other at m)
]

-- With fuel for two pages more than there are rows, where versions have distinct ids that are not empty and are read
-- in their order: the key under which the chunk of a hash without a slash is stored is not among those
-- that a collection picks from the object store's report, if a legacy block or a decodable manifest has the hash.
pub orphaned_keys-build_reference_set :
    (fuel : ℕ) (blocks : List BlockRow) (versions : List FileVersionRow) (lines : List Text)
    → ById versions
    → Named versions
    → length blocks < fuel
    → length versions + 1 < fuel
    → (set : CompressedHashSet) × (build_reference_set fuel blocks versions ≡ some set)
      × ((hash : Text)
          → All (λ c. (c == b'/') ≡ false) hash
          → (text_mem hash (block_hashes blocks) || text_mem hash (referenced versions)) ≡ true
          → text_mem (get_s3_key hash) (orphaned_keys set lines) ≡ false)
orphaned_keys-build_reference_set fuel blocks versions lines s named enough more =
    let (set, e, members) = build_reference_set_lem fuel blocks versions s named enough more in
    (
      set,
      e,
      λ hash plain used. elim (Bool-cases (text_mem (get_s3_key hash) (orphaned_keys set lines))) [
        | inr spared ↦ spared
        | inl picked ↦
            let free =
              All-text_mem _ (get_s3_key hash) (orphaned_keys set lines)
                (orphaned_keys-unreferenced set lines) picked in
            let held : has hash set ≡ true = members hash ∙ used in
            let bad : false ≡ true =
              sym free.0 ∙ ap (λ h. has h set) (raw_hash-get_s3_key hash plain) ∙ held in
            absurd (cc bad)
      ],
    )
