-- ===== src/Server/Objects/Answers.antt =====
-- Requests about many keys, where the object store answers each of them.
use delta_sync_engine.Prelude.{
  ◌≡◌, refl, ◌∙◌, List, Bool, false, none, ◌∷◌, ◌++◌, some, true, arith,
}
use delta_sync_engine.Prelude.Texts.{Text, text_eq_refl, text_mem, text_mem-append}
use delta_sync_engine.Server.Objects.{Head, present, absent, failed, block_exists}
use delta_sync_engine.Hash.Strong.{get_s3_key}

-- The store's answer says that the object is there; a request that fails does not say so.
abbrev pub says_present : Head → Bool
says_present present = true
says_present absent = false
says_present failed = false

abbrev pub is_answer : Head → Bool
is_answer failed = false
is_answer _ = true

-- The store, asked about the key that a hash is stored under, says that it is there.
abbrev pub is_stored : (Text → Head) → Text → Bool
is_stored head hash = says_present (head (get_s3_key hash))

answered :
    (answer : Head)
    → is_answer answer ≡ true
    → (elim answer [ present ↦ some true | absent ↦ some false | failed ↦ none ])
      ≡ some (says_present answer)
answered present h = refl
answered absent h = refl
answered failed h = absurd (cc h)

block_exists-is_stored :
    (head : Text → Head) (hash : Text)
    → is_answer (head (get_s3_key hash)) ≡ true
    → block_exists head hash ≡ some (is_stored head hash)
unfolding block_exists
block_exists-is_stored head hash h = answered (head (get_s3_key hash)) h

-- The object store does not fail on a request about the key of one of these hashes.
abbrev pub Answers : (Text → Head) → List Text → Type 0
Answers head hashes = (t : Text) → text_mem t hashes ≡ true → is_answer (head (get_s3_key t)) ≡ true

pub Answers-head :
    (head : Text → Head) (hash : Text) (hashes : List Text)
    → Answers head (hash ∷ hashes)
    → block_exists head hash ≡ some (is_stored head hash)
unfolding text_mem
Answers-head head hash hashes a = block_exists-is_stored head hash (a hash (rw (text_eq_refl hash)))

pub Answers-tail :
    (head : Text → Head) (hash : Text) (hashes : List Text)
    → Answers head (hash ∷ hashes)
    → Answers head hashes
unfolding text_mem
Answers-tail head hash hashes a t m = a t (ground (arith, m))

pub Answers-append :
    (head : Text → Head) (xs ys : List Text)
    → Answers head (xs ++ ys)
    → Answers head xs × Answers head ys
Answers-append head xs ys a = (
  λ t m. a t (text_mem-append t xs ys ∙ ground (arith, m)),
  λ t m. a t (text_mem-append t xs ys ∙ ground (arith, m)),
)
