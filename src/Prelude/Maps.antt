-- ===== src/Prelude/Maps.antt =====
-- A JavaScript `Map` with text keys, as an association list in the order of insertion.
use mathlib.Core.Path.{◌≡◌, refl, ap}
use mathlib.Core.Bool.{Bool}
use mathlib.Core.Option.{Option, none, some}
use mathlib.Core.Logic.{inl, inr}
use mathlib.Core.List.{List, [], ◌∷◌}
use native.Mathlib.Omega.{arith}
use delta_sync_engine.Prelude.Tests.{if◌then◌else◌, Bool-cases}
use delta_sync_engine.Prelude.Texts.{text_add, text_mem, Text, text_eq, text_eq-eq, text_eq-sym}

module _ {ℓ} {V : Type ℓ} where
  -- `map.get(key)`
  unfoldable pub lookup : Text → List (Text × V) → Option V
  lookup key [] = none
  lookup key ((k, v) ∷ m) = if text_eq k key then some v else lookup key m

  -- `map.set(key, value)`
  unfoldable pub insert : Text → V → List (Text × V) → List (Text × V)
  insert key value [] = (key, value) ∷ []
  insert key value ((k, v) ∷ m) =
      if text_eq k key then (k, value) ∷ m else (k, v) ∷ insert key value m

  -- `map.delete(key)`, and the deletion of every entry that a test picks.
  unfoldable pub erase : Text → List (Text × V) → List (Text × V)
  erase key [] = []
  erase key ((k, v) ∷ m) = if text_eq k key then erase key m else (k, v) ∷ erase key m

  unfoldable pub sweep : (V → Bool) → List (Text × V) → List (Text × V)
  sweep expired [] = []
  sweep expired ((k, v) ∷ m) = if expired v then sweep expired m else (k, v) ∷ sweep expired m

  pub lookup-insert :
      (key j : Text) (value : V) (m : List (Text × V))
      → lookup j (insert key value m) ≡ (if text_eq key j then some value else lookup j m)
  unfolding lookup insert
  lookup-insert key j value [] = refl
  lookup-insert key j value ((k, v) ∷ m) = elim (Bool-cases (text_eq k key)) [
    | inl same ↦ rw (same, ← ap (λ x. text_eq x j) (text_eq-eq k key same)) (ground arith)
    | inr other ↦
        rw (other, lookup-insert key j value m)
          (elim (Bool-cases (text_eq key j)) [
            | inl here ↦ rw (here, ← text_eq-eq key j here, other)
            | inr there ↦ rw there
          ])
  ]

  pub lookup-erase :
      (key j : Text) (m : List (Text × V))
      → lookup j (erase key m) ≡ (if text_eq key j then none else lookup j m)
  unfolding lookup erase
  lookup-erase key j [] = ground arith
  lookup-erase key j ((k, v) ∷ m) = elim (Bool-cases (text_eq k key)) [
    | inl same ↦
        rw (same, lookup-erase key j m, ← ap (λ x. text_eq x j) (text_eq-eq k key same))
          (ground arith)
    | inr other ↦
        rw (other, lookup-erase key j m)
          (elim (Bool-cases (text_eq key j)) [
            | inl here ↦ rw (here, ← text_eq-eq key j here, other)
            | inr there ↦ rw there
          ])
  ]

  abbrev pub keys : List (Text × V) → List Text
  keys [] = []
  keys ((k, v) ∷ m) = k ∷ keys m

  pub keys-insert :
      (key : Text) (value : V) (m : List (Text × V))
      → keys (insert key value m) ≡ text_add key (keys m)
  unfolding insert text_add text_mem
  keys-insert key value [] = refl
  keys-insert key value ((k, v) ∷ m) = elim (Bool-cases (text_eq k key)) [
    | inl same ↦ rw (same, text_eq-sym key k, same)
    | inr other ↦
        rw (other, text_eq-sym key k, other, keys-insert key value m)
          (elim (Bool-cases (text_mem key (keys m))) [
            | inl there ↦ rw there
            | inr fresh ↦ rw fresh
          ])
  ]
