-- ===== src/Prelude/Texts.antt =====
-- A text is the list of its character codes; equality of texts as a Boolean test.
use delta_sync_engine.Prelude.Tests.{◌==◌, Bool-cases, if◌then◌else◌}
use Prim.Native.Nat.{ℕ}
use Prim.Native.Char.{code}
use Prim.Native.String.{String}
use mathlib.Core.Path.{◌≡◌, refl, ap, ◌∙◌}
use mathlib.Core.Bool.{Bool, true, false, ◌&&◌, ◌||◌}
use mathlib.Core.Logic.{inl, inr}
use mathlib.Core.List.{List, [], ◌∷◌, ◌++◌}
use native.Mathlib.Omega.{arith}

abbrev pub Text : Type 0
Text = List ℕ

abbrev pub codes : String → Text
codes String.[] = []
codes (String.◌∷◌ c s) = code c ∷ codes s

unfoldable pub text_eq : Text → Text → Bool
text_eq [] [] = true
text_eq [] (y ∷ ys) = false
text_eq (x ∷ xs) [] = false
text_eq (x ∷ xs) (y ∷ ys) = x == y && text_eq xs ys

pub text_eq-eq : (s t : Text) → text_eq s t ≡ true → s ≡ t
unfolding text_eq
text_eq-eq [] [] h = refl
text_eq-eq [] (y ∷ ys) h = cc
text_eq-eq (x ∷ xs) [] h = cc
text_eq-eq (x ∷ xs) (y ∷ ys) h = ground (arith, text_eq-eq xs ys)

pub text_eq_refl : (s : Text) → text_eq s s ≡ true
unfolding text_eq
text_eq_refl [] = refl
text_eq_refl (x ∷ xs) = ground (arith, text_eq_refl xs)

-- `list.includes(t)`, `set.has(t)`
unfoldable pub text_mem : Text → List Text → Bool
unfolding text_eq
text_mem t [] = false
text_mem t (s ∷ ss) = text_eq t s || text_mem t ss

-- `t.startsWith(p)`
unfoldable pub starts_with : Text → Text → Bool
starts_with t [] = true
starts_with [] (p ∷ ps) = false
starts_with (c ∷ t) (p ∷ ps) = c == p && starts_with t ps

-- `t.includes(p)`
unfoldable pub includes : Text → Text → Bool
unfolding starts_with
includes [] p = starts_with [] p
includes (c ∷ t) p = starts_with (c ∷ t) p || includes t p

pub text_mem-append :
    (t : Text) (xs ys : List Text) → text_mem t (xs ++ ys) ≡ (text_mem t xs || text_mem t ys)
unfolding text_mem
text_mem-append t [] ys = refl
text_mem-append t (x ∷ xs) ys = ground (arith, text_mem-append t xs ys)

pub text_eq-sym : (s t : Text) → text_eq s t ≡ text_eq t s
unfolding text_eq
text_eq-sym [] [] = refl
text_eq-sym [] (y ∷ t) = refl
text_eq-sym (x ∷ s) [] = refl
text_eq-sym (x ∷ s) (y ∷ t) = ground (arith, text_eq-sym s t)

-- No text stands in the list twice.
abbrev pub Distinct : List Text → Type 0
Distinct [] = Unit {0}
Distinct (x ∷ xs) = (text_mem x xs ≡ false) × Distinct xs

pub Distinct-append_one :
    (xs : List Text) (t : Text) → Distinct xs → text_mem t xs ≡ false → Distinct (xs ++ t ∷ [])
unfolding text_mem
Distinct-append_one [] t d new = (refl, tt)
Distinct-append_one (x ∷ xs) t (fresh, d) new = (
  text_mem-append x xs (t ∷ []) ∙ ground (arith, text_eq-sym t x),
  Distinct-append_one xs t d (ground arith),
)

-- `set.add(t)` on a set that is listed in the order of insertion.
unfoldable pub text_add : Text → List Text → List Text
unfolding text_mem
text_add t ts = if text_mem t ts then ts else ts ++ t ∷ []

pub text_mem-text_add :
    (t s : Text) (ts : List Text) → text_mem t (text_add s ts) ≡ (text_eq t s || text_mem t ts)
unfolding text_add text_mem
text_mem-text_add t s ts = elim (Bool-cases (text_mem s ts)) [
  | inl there ↦ elim (Bool-cases (text_eq t s)) [
    | inl same ↦ rw (there, same) (ap (λ x. text_mem x ts) (text_eq-eq t s same) ∙ there)
    | inr other ↦ rw (there, other)
  ]
  | inr fresh ↦ rw fresh (text_mem-append t ts (s ∷ []) ∙ ground arith)
]

pub text_add-Distinct : (t : Text) (ts : List Text) → Distinct ts → Distinct (text_add t ts)
unfolding text_add
text_add-Distinct t ts d = elim (Bool-cases (text_mem t ts)) [
  | inl there ↦ rw there d
  | inr fresh ↦ rw fresh (Distinct-append_one ts t d fresh)
]

-- `new Set([...set, ...texts])`
unfoldable pub text_add_all : List Text → List Text → List Text
unfolding text_add
text_add_all seen [] = seen
text_add_all seen (t ∷ ts) = text_add_all (text_add t seen) ts

pub text_mem-text_add_all :
    (t : Text) (seen ts : List Text)
    → text_mem t (text_add_all seen ts) ≡ (text_mem t seen || text_mem t ts)
unfolding text_add_all text_mem
text_mem-text_add_all t seen [] = ground arith
text_mem-text_add_all t seen (s ∷ ts) =
    text_mem-text_add_all t (text_add s seen) ts ∙ ground (arith, text_mem-text_add t s seen)

pub text_add_all-Distinct : (seen ts : List Text) → Distinct seen → Distinct (text_add_all seen ts)
unfolding text_add_all
text_add_all-Distinct seen [] d = d
text_add_all-Distinct seen (t ∷ ts) d =
    text_add_all-Distinct (text_add t seen) ts (text_add-Distinct t seen d)
