-- ===== src/Server/Gc/Paging.antt =====
-- The pages of a table that is read in the order of its ids, by a cursor.
use mathlib.Core.Path.{subst}
use delta_sync_engine.Prelude.{
  ℕ, zero, suc, ◌<◌, ◌≡◌, refl, sym, ap, ◌∙◌, inl, inr, List, [], ◌∷◌, ◌++◌, Option, some, true,
  false, ◌||◌, ◌==◌, ltb, arith, Bool-cases, Option-cases, length, take, drop, length-take,
  length-drop, take-all, take-append-drop, All,
}
use delta_sync_engine.Prelude.Texts.{Text, text_eq, text_mem, text_mem-append}
use delta_sync_engine.Server.Database.{FileVersionRow}
use delta_sync_engine.Server.Gc.{
  CompressedHashSet, has, add_all, manifest_hashes, version_page, text_lt, has_manifest,
  with_manifest, behind_id, last_of, version_pages,
}
use delta_sync_engine.Server.Gc.References.{has-add_all}

text_lt_irrefl : (t : Text) → text_lt t t ≡ false
unfolding text_lt
text_lt_irrefl [] = refl
text_lt_irrefl (x ∷ t) = ground (arith, text_lt_irrefl t)

text_lt_trans : (a b c : Text) → text_lt a b ≡ true → text_lt b c ≡ true → text_lt a c ≡ true
unfolding text_lt
text_lt_trans [] [] c h k = absurd (cc)
text_lt_trans [] (y ∷ b) [] h k = absurd (cc)
text_lt_trans [] (y ∷ b) (z ∷ c) h k = refl
text_lt_trans (x ∷ a) [] c h k = absurd (cc)
text_lt_trans (x ∷ a) (y ∷ b) [] h k = absurd (cc)
text_lt_trans (x ∷ a) (y ∷ b) (z ∷ c) h k = ground (arith, text_lt_trans a b c)

-- What lies behind a text is not empty.
text_lt-nonempty : (a b : Text) → text_lt a b ≡ true → text_eq b [] ≡ false
unfolding text_lt text_eq
text_lt-nonempty a (y ∷ b) h = refl
text_lt-nonempty [] [] h = absurd (cc)
text_lt-nonempty (x ∷ a) [] h = absurd (cc)

abbrev pub Behind : Text → List FileVersionRow → Type 0
Behind a versions = All (λ (v : FileVersionRow). text_lt a v.id ≡ true) versions

-- A table in the order of its ids, which are distinct.
abbrev pub ById : List FileVersionRow → Type 0
ById [] = Unit {0}
ById (v ∷ versions) = Behind v.id versions × ById versions

-- Every hash of every manifest that decodes.
abbrev pub referenced : List FileVersionRow → List Text
referenced [] = []
referenced (v ∷ versions) = manifest_hashes v ++ referenced versions

pub version_page_lem :
    (h : Text) (rows : List FileVersionRow) (set : CompressedHashSet)
    → has h (version_page rows set) ≡ (text_mem h (referenced rows) || has h set)
unfolding version_page text_mem
version_page_lem h [] set = refl
version_page_lem h (v ∷ rows) set =
    let later = version_page_lem h rows (add_all (manifest_hashes v) set) in
    later
    ∙ ground (
      arith,
      has-add_all h (manifest_hashes v) set,
      text_mem-append h (manifest_hashes v) (referenced rows),
    )

manifest_hashes-none :
    (v : FileVersionRow) → has_manifest v.chunk_manifest ≡ false → manifest_hashes v ≡ []
unfolding manifest_hashes has_manifest
manifest_hashes-none v bare = elim (Option-cases v.chunk_manifest) [
  | inl e ↦ rw (manifest_hashes, e)
  | inr (manifest, e) ↦ absurd (cc (rw (e, has_manifest) at bare))
]

pub referenced-append :
    (xs ys : List FileVersionRow) (h : Text)
    → text_mem h (referenced (xs ++ ys))
      ≡ (text_mem h (referenced xs) || text_mem h (referenced ys))
unfolding text_mem
referenced-append [] ys h = refl
referenced-append (v ∷ xs) ys h = ground (
  arith,
  referenced-append xs ys h,
  text_mem-append h (manifest_hashes v) (referenced (xs ++ ys)),
  text_mem-append h (manifest_hashes v) (referenced xs),
)

pub referenced-with_manifest :
    (versions : List FileVersionRow) → referenced (with_manifest versions) ≡ referenced versions
unfolding with_manifest
referenced-with_manifest [] = refl
referenced-with_manifest (v ∷ versions) = elim (Bool-cases (has_manifest v.chunk_manifest)) [
  | inl full ↦ rw (full, referenced-with_manifest versions)
  | inr bare ↦ rw (bare, manifest_hashes-none v bare, referenced-with_manifest versions)
]

pub behind_id-Behind : (a : Text) (versions : List FileVersionRow) → Behind a (behind_id a versions)
unfolding behind_id
behind_id-Behind a [] = tt
behind_id-Behind a (v ∷ versions) = elim (Bool-cases (text_lt a v.id)) [
  | inl behind ↦ rw behind (behind, behind_id-Behind a versions)
  | inr before ↦ rw before (behind_id-Behind a versions)
]

behind_id-all :
    (a : Text) (versions : List FileVersionRow)
    → Behind a versions
    → behind_id a versions ≡ versions
unfolding behind_id
behind_id-all a [] h = refl
behind_id-all a (v ∷ versions) (b, h) = rw (b, behind_id-all a versions h)

pub behind_id-behind_id :
    (a b : Text) (versions : List FileVersionRow)
    → text_lt a b ≡ true
    → behind_id b (behind_id a versions) ≡ behind_id b versions
unfolding behind_id
behind_id-behind_id a b [] h = refl
behind_id-behind_id a b (v ∷ versions) h = elim (Bool-cases (text_lt a v.id)) [
  | inl behind ↦ rw (behind, behind_id, behind_id-behind_id a b versions h)
  | inr before ↦
      let still : text_lt b v.id ≡ false = elim (Bool-cases (text_lt b v.id)) [
        | inl beyond ↦ absurd (ground (arith, text_lt_trans a b v.id h beyond))
        | inr fine ↦ fine
      ] in
      rw (before, still, behind_id-behind_id a b versions h)
]

last_of-not_before :
    (a : Text) (n : ℕ) (versions : List FileVersionRow)
    → Behind a versions
    → ById versions
    → text_lt (last_of a (take n versions)) a ≡ false
unfolding last_of
last_of-not_before a zero versions b s = text_lt_irrefl a
last_of-not_before a (suc n) [] b s = text_lt_irrefl a
last_of-not_before a (suc n) (v ∷ versions) (here, b) (later, s) =
    let last = last_of v.id (take n versions) in
    elim (Bool-cases (text_lt last a)) [
      | inr fine ↦ fine
      | inl before ↦
          absurd
            (cc (text_lt_trans last a v.id before here, last_of-not_before v.id n versions later s))
    ]

last_of-Behind :
    (a b : Text) (n : ℕ) (versions : List FileVersionRow)
    → text_lt a b ≡ true
    → Behind b versions
    → ById versions
    → text_lt a (last_of b (take n versions)) ≡ true
unfolding last_of
last_of-Behind a b zero versions h k s = h
last_of-Behind a b (suc n) [] h k s = h
last_of-Behind a b (suc n) (v ∷ versions) h (here, k) (later, s) =
    last_of-Behind a v.id n versions (text_lt_trans a b v.id h here) later s

pub last_of-nonempty :
    (a : Text) (n : ℕ) (versions : List FileVersionRow)
    → text_eq a [] ≡ false
    → Behind a versions
    → ById versions
    → text_eq (last_of a (take n versions)) [] ≡ false
unfolding last_of
last_of-nonempty a zero versions h b s = h
last_of-nonempty a (suc n) [] h b s = h
last_of-nonempty a (suc n) (v ∷ versions) h (here, b) (later, s) =
    last_of-nonempty v.id n versions (text_lt-nonempty a v.id here) later s

-- Behind the last row of a page lie the rows that the page does not have.
pub behind_id-last_of :
    (a : Text) (n : ℕ) (versions : List FileVersionRow)
    → Behind a versions
    → ById versions
    → behind_id (last_of a (take n versions)) versions ≡ drop n versions
unfolding behind_id last_of
behind_id-last_of a zero versions b s = behind_id-all a versions b
behind_id-last_of a (suc n) [] b s = refl
behind_id-last_of a (suc n) (v ∷ versions) (here, b) (later, s) =
    rw (last_of-not_before v.id n versions later s) (behind_id-last_of v.id n versions later s)

drop-ById : (n : ℕ) (versions : List FileVersionRow) → ById versions → ById (drop n versions)
drop-ById zero versions s = s
drop-ById (suc n) [] s = tt
drop-ById (suc n) (v ∷ versions) (here, s) = drop-ById n versions s

-- What a loop that starts with a set leaves, and the texts that it adds.
abbrev pub Adds : Option CompressedHashSet → CompressedHashSet → List Text → Type 0
Adds result set hashes =
    (set' : CompressedHashSet) × (result ≡ some set')
    × ((h : Text) → has h set' ≡ (text_mem h hashes || has h set))

-- The later pages: with fuel for one page more than there are rows, the loop adds what lies behind the cursor.
pub version_pages-Adds :
    (fuel n : ℕ) (a : Text) (versions rest : List FileVersionRow) (set : CompressedHashSet)
    → text_eq a [] ≡ false
    → behind_id a versions ≡ rest
    → Behind a rest
    → ById rest
    → length rest < fuel
    → Adds (version_pages fuel (suc n) a versions set) set (referenced rest)
unfolding version_pages text_mem last_of
version_pages-Adds zero n a versions rest set some_id cursor b s enough = elim enough [ ]
version_pages-Adds (suc fuel) n a versions [] set some_id cursor b s enough =
    (set, rw (some_id, cursor), λ h. refl)
version_pages-Adds (suc fuel) n a versions (v ∷ rest) set some_id cursor (here, b) (later, s)
      enough =
    let page = take (suc n) (v ∷ rest) in
    let size = length-take (suc n) (v ∷ rest) in
    let some_rows : (length page == 0) ≡ false = ground arith in
    elim (Bool-cases (ltb (length page) (suc n))) [
      | inl short ↦
          let whole : page ≡ v ∷ rest = take-all (v ∷ rest) (suc n) (ground (arith, short, size)) in
          (
            version_page page set,
            rw (some_id, cursor, some_rows, short),
            λ h.
                version_page_lem h page set
                ∙ ap (λ p. text_mem h (referenced p) || has h set) whole,
          )
      | inr full ↦
          let last = last_of v.id (take n rest) in
          let ahead : text_lt a last ≡ true = last_of-Behind a v.id n rest here later s in
          let cursor' : behind_id last versions ≡ drop n rest =
            sym (behind_id-behind_id a last versions ahead)
            ∙ ap (behind_id last) cursor
            ∙ behind_id-last_of a (suc n) (v ∷ rest) (here, b) (later, s) in
          let behind' = subst (Behind last) cursor' (behind_id-Behind last versions) in
          let (set', e, members) =
            version_pages-Adds fuel n last versions (drop n rest) (version_page page set)
              (text_lt-nonempty a last ahead) cursor' behind' (drop-ById n rest s)
              (omega (arith, length-drop n rest)) in
          (
            set',
            rw (some_id, cursor, some_rows, full, e),
            λ h.
                members h
                ∙ ground (
                  arith,
                  version_page_lem h page set,
                  referenced-append page (drop n rest) h,
                  ap (λ l. text_mem h (referenced l)) (take-append-drop (suc n) (v ∷ rest)),
                ),
          )
    ]
