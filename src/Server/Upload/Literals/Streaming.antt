-- ===== src/Server/Upload/Literals/Streaming.antt =====
-- How the body is cut into pieces on its way makes no difference.
use mathlib.Core.List.{flatten}
use delta_sync_engine.Prelude.{
  ℕ, zero, suc, ◌+◌, ◌-◌, ◌≤◌, ◌≡◌, refl, sym, ap, ◌∙◌, inl, inr, List, [], ◌∷◌, ◌++◌, some, true,
  leb, length, length-append, take, drop, arith, Bool-cases,
}
use delta_sync_engine.Server.Upload.Literals.{read_literal}

within_prefix :
    (n : ℕ) (xs ys : List ℕ)
    → leb n (length xs) ≡ true
    → (take n (xs ++ ys) ≡ take n xs) × (drop n (xs ++ ys) ≡ drop n xs ++ ys)
within_prefix zero xs ys h = (refl, refl)
within_prefix (suc n) [] ys h = absurd (ground arith)
within_prefix (suc n) (x ∷ xs) ys h =
    let rest = within_prefix n xs ys (ground arith) in (ap (λ l. x ∷ l) rest.0, rest.1)

beyond_prefix :
    (n m : ℕ) (xs ys : List ℕ)
    → n ≡ length xs + m
    → (take n (xs ++ ys) ≡ xs ++ take m ys) × (drop n (xs ++ ys) ≡ drop m ys)
beyond_prefix n m [] ys h = let e : n ≡ m = omega arith in (rw e, rw e)
beyond_prefix zero m (x ∷ xs) ys h = absurd (omega arith)
beyond_prefix (suc n) m (x ∷ xs) ys h =
    let rest = beyond_prefix n m xs ys (omega arith) in (ap (λ l. x ∷ l) rest.0, rest.1)

-- A literal of `n` bytes, where the stream still has as many, is the next `n` bytes of the stream,
-- and what is left of the stream is the rest of it, however the stream is cut into pieces.
pub read_literal_lem :
    (n : ℕ) (current : List ℕ) (pieces : List (List ℕ))
    → n ≤ length (current ++ flatten pieces)
    → (current' : List ℕ) × (pieces' : List (List ℕ)) × (read_literal n current pieces
        ≡ some (take n (current ++ flatten pieces), (current', pieces')))
      × (current' ++ flatten pieces' ≡ drop n (current ++ flatten pieces))
unfolding read_literal flatten
read_literal_lem n current [] h =
    let fits : leb n (length current) ≡ true = ground (arith, length-append current []) in
    let within = within_prefix n current [] fits in
    (drop n current, [], rw (fits, within.0), sym within.1)
read_literal_lem n current (piece ∷ pieces) h = elim (Bool-cases (leb n (length current))) [
  | inl fits ↦
      let within = within_prefix n current (piece ++ flatten pieces) fits in
      (drop n current, piece ∷ pieces, rw (fits, within.0), sym within.1)
  | inr longer ↦
      let m = n - length current in
      let more : n ≡ length current + m = ground arith in
      let left : m ≤ length (piece ++ flatten pieces) =
        omega (arith, more, length-append current (piece ++ flatten pieces)) in
      let (current', pieces', e, rest) = read_literal_lem m piece pieces left in
      let beyond = beyond_prefix n m current (piece ++ flatten pieces) more in
      (current', pieces', rw (longer, e, beyond.0), rest ∙ sym beyond.1)
]
