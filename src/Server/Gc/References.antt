-- ===== src/Server/Gc/References.antt =====
-- The compressed set is a set of texts.
use delta_sync_engine.Prelude.{
  ◌≡◌, refl, ap, ◌∙◌, inl, inr, List, [], ◌∷◌, ◌||◌, ◌&&◌, arith, if◌then◌else◌, take, drop,
  Bool-cases,
}
use delta_sync_engine.Prelude.Texts.{
  text_add, text_mem-text_add, Text, text_eq, text_eq-eq, text_mem,
}
use delta_sync_engine.Prelude.Maps.{lookup-insert}
use delta_sync_engine.Server.Gc.{CompressedHashSet, or_empty, bucket_of, add, has, add_all}

text_eq-split :
    (h k : Text) → text_eq h k ≡ (text_eq (take 2 k) (take 2 h) && text_eq (drop 2 h) (drop 2 k))
unfolding text_eq
text_eq-split [] [] = refl
text_eq-split [] (y ∷ []) = refl
text_eq-split [] (y ∷ y' ∷ ys) = refl
text_eq-split (x ∷ []) [] = refl
text_eq-split (x ∷ x' ∷ xs) [] = refl
text_eq-split (x ∷ []) (y ∷ []) = ground arith
text_eq-split (x ∷ []) (y ∷ y' ∷ ys) = ground arith
text_eq-split (x ∷ x' ∷ xs) (y ∷ []) = ground arith
text_eq-split (x ∷ x' ∷ xs) (y ∷ y' ∷ ys) = ground arith

bucket_of-add :
    (prefix : Text) (hash : Text) (set : CompressedHashSet)
    → bucket_of prefix (add hash set) ≡ (
        if text_eq (take 2 hash) prefix
        then text_add (drop 2 hash) (bucket_of (take 2 hash) set)
        else bucket_of prefix set)
unfolding add bucket_of
bucket_of-add prefix hash set =
    let there =
      lookup-insert (take 2 hash) prefix (text_add (drop 2 hash) (bucket_of (take 2 hash) set))
        set.buckets in
    elim (Bool-cases (text_eq (take 2 hash) prefix)) [
      | inl same ↦ rw same (ap or_empty (rw same at there))
      | inr other ↦ rw other (ap or_empty (rw other at there))
    ]

-- A hash is in the set after an `add` exactly when it is the one added or was in the set before.
pub has-add :
    (h k : Text) (set : CompressedHashSet) → has h (add k set) ≡ (text_eq h k || has h set)
unfolding has
has-add h k set = elim (Bool-cases (text_eq (take 2 k) (take 2 h))) [
  | inl same ↦
      let shared : take 2 k ≡ take 2 h = text_eq-eq (take 2 k) (take 2 h) same in
      rw (bucket_of-add (take 2 h) k set, same, text_mem-text_add, text_eq-split h k, same, shared)
  | inr other ↦ rw (bucket_of-add (take 2 h) k set, other, text_eq-split h k, other)
]

-- After hashes are added in turn, a text is in the set exactly when it is one of them or was in it before.
pub has-add_all :
    (h : Text) (hashes : List Text) (set : CompressedHashSet)
    → has h (add_all hashes set) ≡ (text_mem h hashes || has h set)
unfolding add_all text_mem
has-add_all h [] set = refl
has-add_all h (k ∷ hashes) set =
    has-add_all h hashes (add k set) ∙ rw (has-add h k set) (ground arith)
