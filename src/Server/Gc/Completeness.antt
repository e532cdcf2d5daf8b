-- ===== src/Server/Gc/Completeness.antt =====
-- The reference set has exactly the hashes that the database refers to.
use delta_sync_engine.Prelude.{
  ℕ, zero, suc, ◌+◌, ◌≤◌, ◌<◌, ◌≡◌, refl, sym, ap, ◌∙◌, inl, inr, List, [], ◌∷◌, ◌++◌, map, some,
  Bool, true, false, ◌||◌, ◌==◌, ltb, arith, Bool-cases, length, take, drop, length-take,
  length-drop, take-all, drop-drop, take-append-drop, map-append, All,
}
use delta_sync_engine.Prelude.Texts.{Text, text_eq, text_mem, text_mem-append}
use delta_sync_engine.Server.Database.{BlockRow, FileVersionRow}
use delta_sync_engine.Server.Gc.{
  CompressedHashSet, new_hash_set, has, add_all, block_pages, version_page, has_manifest,
  with_manifest, text_lt, behind_id, last_of, version_pages, build_reference_set,
}
use delta_sync_engine.Server.Gc.References.{has-add_all}
use delta_sync_engine.Server.Gc.Paging.{
  Behind, ById, referenced, Adds, version_page_lem, referenced-append, referenced-with_manifest,
  behind_id-Behind, last_of-nonempty, behind_id-last_of, version_pages-Adds,
}

with_manifest-Behind :
    (a : Text) (versions : List FileVersionRow)
    → Behind a versions
    → Behind a (with_manifest versions)
unfolding with_manifest
with_manifest-Behind a [] b = tt
with_manifest-Behind a (v ∷ versions) (here, b) =
    elim (Bool-cases (has_manifest v.chunk_manifest)) [
      | inl full ↦ rw full (here, with_manifest-Behind a versions b)
      | inr bare ↦ rw bare (with_manifest-Behind a versions b)
    ]

with_manifest-ById :
    (versions : List FileVersionRow) → ById versions → ById (with_manifest versions)
unfolding with_manifest
with_manifest-ById [] s = tt
with_manifest-ById (v ∷ versions) (b, s) = elim (Bool-cases (has_manifest v.chunk_manifest)) [
  | inl full ↦ rw full (with_manifest-Behind v.id versions b, with_manifest-ById versions s)
  | inr bare ↦ rw bare (with_manifest-ById versions s)
]

behind_id-kept :
    (a b : Text) (versions : List FileVersionRow)
    → Behind a versions
    → Behind a (behind_id b versions)
unfolding behind_id
behind_id-kept a b [] k = tt
behind_id-kept a b (v ∷ versions) (here, k) = elim (Bool-cases (text_lt b v.id)) [
  | inl behind ↦ rw behind (here, behind_id-kept a b versions k)
  | inr before ↦ rw before (behind_id-kept a b versions k)
]

behind_id-ById :
    (b : Text) (versions : List FileVersionRow) → ById versions → ById (behind_id b versions)
unfolding behind_id
behind_id-ById b [] s = tt
behind_id-ById b (v ∷ versions) (k, s) = elim (Bool-cases (text_lt b v.id)) [
  | inl behind ↦ rw behind (behind_id-kept v.id b versions k, behind_id-ById b versions s)
  | inr before ↦ rw before (behind_id-ById b versions s)
]

length-behind_id :
    (b : Text) (versions : List FileVersionRow) → length (behind_id b versions) ≤ length versions
unfolding behind_id
length-behind_id b [] = omega arith
length-behind_id b (v ∷ versions) = elim (Bool-cases (text_lt b v.id)) [
  | inl behind ↦ rw behind (omega (arith, length-behind_id b versions))
  | inr before ↦ rw before (omega (arith, length-behind_id b versions))
]

with_manifest-behind_id :
    (b : Text) (versions : List FileVersionRow)
    → with_manifest (behind_id b versions) ≡ behind_id b (with_manifest versions)
unfolding with_manifest behind_id
with_manifest-behind_id b [] = refl
with_manifest-behind_id b (v ∷ versions) =
    let later = with_manifest-behind_id b versions in
    elim (Bool-cases (text_lt b v.id)) [
      | inl behind ↦ elim (Bool-cases (has_manifest v.chunk_manifest)) [
        | inl full ↦ rw (behind, full, behind, later)
        | inr bare ↦ rw (behind, bare, later)
      ]
      | inr before ↦ elim (Bool-cases (has_manifest v.chunk_manifest)) [
        | inl full ↦ rw (before, full, before, later)
        | inr bare ↦ rw (before, bare, later)
      ]
    ]

-- No id is empty.
abbrev pub Named : List FileVersionRow → Type 0
Named versions = All (λ (v : FileVersionRow). text_eq v.id [] ≡ false) versions

with_manifest-Named :
    (versions : List FileVersionRow) → Named versions → Named (with_manifest versions)
unfolding with_manifest
with_manifest-Named [] s = tt
with_manifest-Named (v ∷ versions) (b, s) = elim (Bool-cases (has_manifest v.chunk_manifest)) [
  | inl full ↦ rw full (b, with_manifest-Named versions s)
  | inr bare ↦ rw bare (with_manifest-Named versions s)
]

text_lt-none : (t : Text) → text_eq t [] ≡ false → text_lt [] t ≡ true
unfolding text_lt text_eq
text_lt-none [] h = absurd (cc)
text_lt-none (x ∷ t) h = refl

Named-Behind : (versions : List FileVersionRow) → Named versions → Behind [] versions
Named-Behind [] h = tt
Named-Behind (v ∷ versions) (here, h) = (text_lt-none v.id here, Named-Behind versions h)

-- All pages, the first of which reads only rows with a manifest.
version_pages_lem :
    (fuel n : ℕ) (versions with : List FileVersionRow) (set : CompressedHashSet)
    → with_manifest versions ≡ with
    → ById versions
    → ById with
    → Named with
    → length versions < fuel
    → Adds (version_pages (suc fuel) (suc n) [] versions set) set (referenced with)
unfolding version_pages text_mem last_of text_eq
version_pages_lem fuel n versions [] set e s s' named enough = (set, rw e, λ h. refl)
version_pages_lem fuel n versions (v ∷ rest) set e s (b', s') (here, named) enough =
    let page = take (suc n) (v ∷ rest) in
    let size = length-take (suc n) (v ∷ rest) in
    let some_rows : (length page == 0) ≡ false = ground arith in
    elim (Bool-cases (ltb (length page) (suc n))) [
      | inl short ↦
          let whole : page ≡ v ∷ rest = take-all (v ∷ rest) (suc n) (ground (arith, short, size)) in
          (
            version_page page set,
            rw (e, some_rows, short),
            λ h.
                version_page_lem h page set
                ∙ ap (λ p. text_mem h (referenced p) || has h set) whole,
          )
      | inr full ↦
          let last = last_of v.id (take n rest) in
          let left = behind_id last versions in
          let same : referenced left ≡ referenced (drop n rest) =
            sym (referenced-with_manifest left)
            ∙ ap referenced (
                with_manifest-behind_id last versions
                ∙ ap (behind_id last) e
                ∙ behind_id-last_of [] (suc n) (v ∷ rest) (Named-Behind (v ∷ rest) (here, named))
                    (b', s')) in
          let (set', done, members) =
            version_pages-Adds fuel n last versions left (version_page page set)
              (last_of-nonempty v.id n rest here b' s') refl (behind_id-Behind last versions)
              (behind_id-ById last versions s) (omega (arith, length-behind_id last versions)) in
          (
            set',
            rw (e, some_rows, full, done),
            λ h.
                members h
                ∙ ground (
                  arith,
                  version_page_lem h page set,
                  referenced-append page (drop n rest) h,
                  ap (λ l. text_mem h l) same,
                  ap (λ l. text_mem h (referenced l)) (take-append-drop (suc n) (v ∷ rest)),
                ),
          )
    ]

abbrev pub block_hashes : List BlockRow → List Text
block_hashes blocks = map (λ (b : BlockRow). b.strong_hash) blocks

block_pages-Adds :
    (fuel n offset : ℕ) (blocks : List BlockRow) (set : CompressedHashSet)
    → length blocks < offset + fuel
    → 0 < fuel
    → Adds (block_pages fuel (suc n) offset blocks set) set (block_hashes (drop offset blocks))
unfolding block_pages text_mem
block_pages-Adds zero n offset blocks set enough some_fuel = elim some_fuel [ ]
block_pages-Adds (suc fuel) n offset blocks set enough some_fuel =
    let rest = drop offset blocks in
    let page = take (suc n) rest in
    let size = length-take (suc n) rest in
    let left = length-drop offset blocks in
    let added = λ (h : Text). has-add_all h (block_hashes page) set in
    elim (Bool-cases (ltb (length page) (suc n))) [
      | inl short ↦
          let whole : page ≡ rest = take-all rest (suc n) (ground (arith, short, size)) in
          (
            add_all (block_hashes page) set,
            rw short,
            λ h. added h ∙ ap (λ p. text_mem h (block_hashes p) || has h set) whole,
          )
      | inr full ↦
          let (set', e, members) =
            block_pages-Adds fuel n (offset + suc n) blocks (add_all (block_hashes page) set)
              (omega arith) (ground (arith, full, size, left)) in
          let further : drop (suc n) rest ≡ drop (offset + suc n) blocks =
            drop-drop offset (suc n) (offset + suc n) blocks refl in
          let parts : block_hashes page ++ block_hashes (drop (suc n) rest) ≡ block_hashes rest =
            sym (map-append (λ (b : BlockRow). b.strong_hash) page (drop (suc n) rest))
            ∙ ap block_hashes (take-append-drop (suc n) rest) in
          (
            set',
            rw (full, e),
            λ h.
                members h
                ∙ ground (
                  arith,
                  added h,
                  ap (λ l. text_mem h (block_hashes l)) further,
                  ap (text_mem h) parts,
                  text_mem-append h (block_hashes page) (block_hashes (drop (suc n) rest)),
                ),
          )
    ]

joined : (m m' first has1 : Bool) → m ≡ m' → has1 ≡ (first || false) → (m || has1) ≡ (first || m')
joined m m' first has1 e f = ground (arith, e, f)

-- With fuel for two pages more than there are rows, where versions have distinct ids that are not empty and are read in their order,
-- the reference set is built, and a text is in it exactly when it is the hash of a legacy block or a hash of a
-- manifest that decodes.
pub build_reference_set_lem :
    (fuel : ℕ) (blocks : List BlockRow) (versions : List FileVersionRow)
    → ById versions
    → Named versions
    → length blocks < fuel
    → length versions + 1 < fuel
    → (set : CompressedHashSet) × (build_reference_set fuel blocks versions ≡ some set)
      × ((h : Text)
          → has h set ≡ (text_mem h (block_hashes blocks) || text_mem h (referenced versions)))
unfolding build_reference_set has text_mem
build_reference_set_lem zero blocks versions s named enough more = absurd (omega arith)
build_reference_set_lem (suc fuel) blocks versions s named enough more =
    let (set1, e1, members1) =
      block_pages-Adds (suc fuel) 4999 0 blocks new_hash_set (omega arith) (omega arith) in
    let (set2, e2, members2) =
      version_pages_lem fuel 79 versions (with_manifest versions) set1 refl s
        (with_manifest-ById versions s) (with_manifest-Named versions named) (omega arith) in
    (
      set2,
      rw (e1, build_reference_set, e2),
      λ h.
          members2 h
          ∙ joined (text_mem h (referenced (with_manifest versions)))
              (text_mem h (referenced versions)) _ _
              (ap (text_mem h) (referenced-with_manifest versions)) (members1 h),
    )
