-- ===== src/Server/VersionPruner/Order.antt =====
-- server/version-pruner.ts: the order of the versions, and which are among the newest.
use delta_sync_engine.Prelude.{
  ℕ, zero, suc, ◌+◌, ◌≤◌, ◌<◌, ◌≡◌, refl, ap, ◌∙◌, inl, inr, List, [], ◌∷◌, Bool, true, false, ◌&&◌,
  ◌||◌, ◌==◌, leb, if◌then◌else◌, length, take, map, All, All-weaken, Bool-cases, arith,
}
use delta_sync_engine.Prelude.Texts.{Text, text_eq, text_mem}
use delta_sync_engine.Server.Database.{FileVersionRow}
use delta_sync_engine.Server.VersionPruner.{insert_newest, newest_first}

-- A row with this id and this number.
abbrev pub has_version : Text → ℕ → List FileVersionRow → Bool
has_version id n [] = false
has_version id n (v ∷ versions) =
    (text_eq id v.id && v.version_no == n) || has_version id n versions

-- The number of rows whose number is at least `n`, and above `n`.
abbrev pub count_from : ℕ → List FileVersionRow → ℕ
count_from n [] = 0
count_from n (v ∷ versions) = (if leb n v.version_no then 1 else 0) + count_from n versions

abbrev pub count_above : ℕ → List FileVersionRow → ℕ
count_above n versions = count_from (suc n) versions

abbrev pub ids_of : List FileVersionRow → List Text
ids_of versions = map (λ (v : FileVersionRow). v.id) versions

has_version-insert_newest :
    (id : Text) (n : ℕ) (v : FileVersionRow) (versions : List FileVersionRow)
    → has_version id n (insert_newest v versions) ≡ has_version id n (v ∷ versions)
unfolding insert_newest
has_version-insert_newest id n v [] = refl
has_version-insert_newest id n v (w ∷ versions) =
    elim (Bool-cases (leb w.version_no v.version_no)) [
      | inl here ↦ rw here refl
      | inr later ↦ rw later (ground (arith, has_version-insert_newest id n v versions))
    ]

pub has_version-newest_first :
    (id : Text) (n : ℕ) (versions : List FileVersionRow)
    → has_version id n (newest_first versions) ≡ has_version id n versions
unfolding newest_first
has_version-newest_first id n [] = refl
has_version-newest_first id n (v ∷ versions) =
    has_version-insert_newest id n v (newest_first versions)
    ∙ ap (λ b. (text_eq id v.id && v.version_no == n) || b) (has_version-newest_first id n versions)

count_from-insert_newest :
    (n : ℕ) (v : FileVersionRow) (versions : List FileVersionRow)
    → count_from n (insert_newest v versions) ≡ count_from n (v ∷ versions)
unfolding insert_newest
count_from-insert_newest n v [] = refl
count_from-insert_newest n v (w ∷ versions) = elim (Bool-cases (leb w.version_no v.version_no)) [
  | inl here ↦ rw here refl
  | inr later ↦ rw later (omega (arith, count_from-insert_newest n v versions))
]

pub count_from-newest_first :
    (n : ℕ) (versions : List FileVersionRow)
    → count_from n (newest_first versions) ≡ count_from n versions
unfolding newest_first
count_from-newest_first n [] = refl
count_from-newest_first n (v ∷ versions) =
    count_from-insert_newest n v (newest_first versions)
    ∙ ap (λ k. (if leb n v.version_no then 1 else 0) + k) (count_from-newest_first n versions)

-- No row has a larger number than one before it.
abbrev pub Descending : List FileVersionRow → Type 0
Descending [] = Unit {0}
Descending (v ∷ versions) =
    All (λ (w : FileVersionRow). w.version_no ≤ v.version_no) versions × Descending versions

All-insert_newest :
    (P : FileVersionRow → Type 0) (v : FileVersionRow) (versions : List FileVersionRow)
    → P v
    → All P versions
    → All P (insert_newest v versions)
unfolding insert_newest
All-insert_newest P v [] p h = (p, tt)
All-insert_newest P v (w ∷ versions) p (q, h) = elim (Bool-cases (leb w.version_no v.version_no)) [
  | inl here ↦ rw here (p, (q, h))
  | inr later ↦ rw later (q, All-insert_newest P v versions p h)
]

insert_newest-Descending :
    (v : FileVersionRow) (versions : List FileVersionRow)
    → Descending versions
    → Descending (insert_newest v versions)
unfolding insert_newest
insert_newest-Descending v [] d = (tt, tt)
insert_newest-Descending v (w ∷ versions) (below, d) =
    elim (Bool-cases (leb w.version_no v.version_no)) [
      | inl here ↦
          let under : w.version_no ≤ v.version_no = ground (arith, here) in
          rw here (
            (
              under,
              All-weaken
                  (λ (x : FileVersionRow) (le : x.version_no ≤ w.version_no).
                    omega (arith, le, under))
                  versions below,
            ),
            (below, d),
          )
      | inr later ↦ rw later (
        All-insert_newest (λ x. x.version_no ≤ w.version_no) v versions (ground (arith, later))
            below,
        insert_newest-Descending v versions d,
      )
    ]

pub newest_first-Descending : (versions : List FileVersionRow) → Descending (newest_first versions)
unfolding newest_first
newest_first-Descending [] = tt
newest_first-Descending (v ∷ versions) =
    insert_newest-Descending v (newest_first versions) (newest_first-Descending versions)

-- A row of the list is not below all of it.
has_version-bound :
    (id : Text) (n b : ℕ) (versions : List FileVersionRow)
    → All (λ (w : FileVersionRow). w.version_no ≤ b) versions
    → has_version id n versions ≡ true
    → n ≤ b
has_version-bound id n b [] h m = absurd (cc m)
has_version-bound id n b (v ∷ versions) (le, h) m =
    elim (Bool-cases (text_eq id v.id && v.version_no == n)) [
      | inl here ↦ ground (arith, here, le)
      | inr other ↦ has_version-bound id n b versions h (rw other at m)
    ]

has_version-count_from :
    (id : Text) (n : ℕ) (versions : List FileVersionRow)
    → has_version id n versions ≡ true
    → 0 < count_from n versions
has_version-count_from id n [] m = absurd (cc m)
has_version-count_from id n (v ∷ versions) m =
    elim (Bool-cases (text_eq id v.id && v.version_no == n)) [
      | inl here ↦
          let reached : leb n v.version_no ≡ true = ground (arith, here) in rw reached (omega arith)
      | inr other ↦ omega (arith, has_version-count_from id n versions (rw other at m))
    ]

pub has_version-ids_of :
    (id : Text) (n : ℕ) (versions : List FileVersionRow)
    → has_version id n versions ≡ true
    → text_mem id (ids_of versions) ≡ true
unfolding text_mem
has_version-ids_of id n [] m = m
has_version-ids_of id n (v ∷ versions) m =
    elim (Bool-cases (text_eq id v.id && v.version_no == n)) [
      | inl here ↦ ground (arith, here)
      | inr other ↦ ground (arith, has_version-ids_of id n versions (rw other at m))
    ]

pub take-newest :
    (id : Text) (n k : ℕ) (versions : List FileVersionRow)
    → Descending versions
    → has_version id n versions ≡ true
    → count_from n versions ≤ k
    → text_mem id (ids_of (take k versions)) ≡ true
unfolding text_mem
take-newest id n k [] d m few = absurd (cc m)
take-newest id n zero (v ∷ versions) (below, d) m few =
    absurd (omega (arith, few, has_version-count_from id n (v ∷ versions) m))
take-newest id n (suc k) (v ∷ versions) (below, d) m few = elim (Bool-cases (text_eq id v.id)) [
  | inl here ↦ rw here refl
  | inr other ↦
      let later : has_version id n versions ≡ true = ground (arith, m, other) in
      let above : leb n v.version_no ≡ true =
        ground (arith, has_version-bound id n v.version_no versions below later) in
      rw other (take-newest id n k versions d later (omega (arith, rw above at few)))
]

none_above :
    (n : ℕ) (versions : List FileVersionRow)
    → All (λ (w : FileVersionRow). w.version_no ≤ n) versions
    → count_above n versions ≡ 0
none_above n [] h = refl
none_above n (v ∷ versions) (le, h) =
    let under : leb (suc n) v.version_no ≡ false = ground (arith, le) in
    rw under (omega (arith, none_above n versions h))

-- Rows with this id have this number.
abbrev pub Numbered : Text → ℕ → List FileVersionRow → Type 0
Numbered id n versions =
    All (λ (w : FileVersionRow). text_eq id w.id ≡ true → w.version_no ≡ n) versions

pub take-older :
    (id : Text) (n k : ℕ) (versions : List FileVersionRow)
    → Descending versions
    → Numbered id n versions
    → k ≤ count_above n versions
    → text_mem id (ids_of (take k versions)) ≡ false
unfolding text_mem
take-older id n zero versions d own many = refl
take-older id n (suc k) [] d own many = refl
take-older id n (suc k) (v ∷ versions) (below, d) (own_v, own) many =
    elim (Bool-cases (leb (suc n) v.version_no)) [
      | inl above ↦ elim (Bool-cases (text_eq id v.id)) [
        | inl same ↦
            let higher : n < v.version_no = ground (arith, above) in
            absurd (omega (arith, own_v same, higher))
        | inr other ↦ rw other (take-older id n k versions d own (omega (arith, rw above at many)))
      ]
      | inr under ↦
          let le : v.version_no ≤ n = ground (arith, under) in
          let rest = none_above n versions (
            All-weaken
              (λ (x : FileVersionRow) (h : x.version_no ≤ v.version_no). omega (arith, h, le))
              versions below) in
          absurd (omega (arith, rest, rw under at many))
    ]

pub All-newest_first :
    (P : FileVersionRow → Type 0) (versions : List FileVersionRow)
    → All P versions
    → All P (newest_first versions)
unfolding newest_first
All-newest_first P [] h = tt
All-newest_first P (v ∷ versions) (p, h) =
    All-insert_newest P v (newest_first versions) p (All-newest_first P versions h)

count_from-length :
    (n : ℕ) (versions : List FileVersionRow) → count_from n versions ≤ length versions
count_from-length n [] = omega arith
count_from-length n (v ∷ versions) = elim (Bool-cases (leb n v.version_no)) [
  | inl counted ↦ rw counted (omega (arith, count_from-length n versions))
  | inr below ↦ rw below (omega (arith, count_from-length n versions))
]

pub count_above-length :
    (id : Text) (n : ℕ) (versions : List FileVersionRow)
    → has_version id n versions ≡ true
    → count_above n versions < length versions
count_above-length id n [] m = absurd (cc m)
count_above-length id n (v ∷ versions) m =
    elim (Bool-cases (text_eq id v.id && v.version_no == n)) [
      | inl here ↦
          let under : leb (suc n) v.version_no ≡ false = ground (arith, here) in
          rw under (omega (arith, count_from-length (suc n) versions))
      | inr other ↦
          let rest = count_above-length id n versions (rw other at m) in
          elim (Bool-cases (leb (suc n) v.version_no)) [
            | inl counted ↦ rw counted (omega (arith, rest))
            | inr below ↦ rw below (omega (arith, rest))
          ]
    ]
