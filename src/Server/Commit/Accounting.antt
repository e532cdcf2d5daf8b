-- ===== src/Server/Commit/Accounting.antt =====
-- What a commit records, and what it leaves alone.
use delta_sync_engine.Prelude.{
  ℕ, ◌+◌, ◌-◌, ◌≡◌, refl, sym, ap, ◌∙◌, ◌⊎◌, inl, inr, List, [], ◌∷◌, Bool, true, false, ◌==◌,
  arith, Bool-cases, Result-cases, ok,
}
use delta_sync_engine.Prelude.Texts.{Text}
use delta_sync_engine.Server.NegotiationStore.{
  ChunkInfo, NegotiationPayload, Store, clear_negotiation,
}
use delta_sync_engine.Server.Database.{Database}
use delta_sync_engine.Server.Publish.{stale, conflict, publish}
use delta_sync_engine.Server.Commit.{
  CommitReply, size_mismatch, stale_remote, sync_conflict, committed, refuse, Outcome, Ids,
  manifest_rows, sum_lengths, publication, commit_negotiation,
}

manifest_rows-sum :
    (chunks : List ChunkInfo) (o : ℕ) → (manifest_rows chunks o).1 ≡ o + sum_lengths chunks
unfolding manifest_rows sum_lengths
manifest_rows-sum [] o = omega arith
manifest_rows-sum (c ∷ chunks) o = omega (arith, manifest_rows-sum chunks (o + c.length))

-- What a committed negotiation shows of its outcome.
abbrev pub IsCommitted :
    (ℕ → List ℕ)
    → Ids
    → Text
    → Text
    → NegotiationPayload
    → Store
    → Database
    → ℕ
    → ℕ
    → Outcome
    → Type 0
IsCommitted alloc_unsafe ids user_id negotiation_id n store db version_no saved o =
    (publish alloc_unsafe (publication ids user_id n) db ≡ ok (o.db, version_no))
    × (sum_lengths n.chunks ≡ n.new_size)
    × (saved ≡ 0)
    × (o.store ≡ clear_negotiation negotiation_id store)
    × (o.notified ≡ true)

abbrev pub is_committed : CommitReply → Bool
is_committed (committed version_no saved) = true
is_committed _ = false

abbrev numbers : CommitReply → ℕ × ℕ
numbers (committed version_no saved) = (version_no, saved)
numbers _ = (0, 0)

-- The two ways in which the handler ends once it has its negotiation.
commit_negotiation-cases :
    (alloc_unsafe : ℕ → List ℕ) (ids : Ids) (user_id negotiation_id : Text) (n : NegotiationPayload)
    (store : Store) (db : Database)
    → let o = commit_negotiation alloc_unsafe ids user_id negotiation_id n store db in
      ((r : Database × ℕ) × (o.reply ≡ committed r.1 (publication ids user_id n).bytes_saved)
        × (o.db ≡ r.0)
        × (o.store ≡ clear_negotiation negotiation_id store)
        × (o.notified ≡ true)
        × (publish alloc_unsafe (publication ids user_id n) db ≡ ok r)
        × ((manifest_rows n.chunks 0).1 ≡ n.new_size))
      ⊎ ((reply : CommitReply) × (o ≡ refuse reply store db) × (is_committed reply ≡ false))
unfolding commit_negotiation
commit_negotiation-cases alloc ids user_id id n store db =
    let end = (manifest_rows n.chunks 0).1 in
    elim (Bool-cases (end == n.new_size)) [
      | inr wrong ↦ inr (size_mismatch end n.new_size, rw wrong, refl)
      | inl right ↦ elim (Result-cases (publish alloc (publication ids user_id n) db)) [
        | inr (stale, e) ↦ inr (stale_remote, rw (right, e, commit_negotiation), refl)
        | inr (conflict, e) ↦ inr (sync_conflict, rw (right, e, commit_negotiation), refl)
        | inl (r, e) ↦ inl (
          r,
          rw (right, e, commit_negotiation),
          rw (right, e, commit_negotiation),
          rw (right, e, commit_negotiation),
          rw (right, e, commit_negotiation),
          e,
          ground arith,
        )
      ]
    ]

-- Whenever a negotiation is committed: its chunks add up to the new size, the number of bytes that it
-- reports as saved is 0, the database is what the transaction makes of it, the negotiation is removed
-- from the store, and the dispatcher is notified.
pub commit_negotiation-IsCommitted :
    (alloc_unsafe : ℕ → List ℕ) (ids : Ids) (user_id negotiation_id : Text) (n : NegotiationPayload)
    (store : Store) (db : Database) (version_no saved : ℕ)
    → let o = commit_negotiation alloc_unsafe ids user_id negotiation_id n store db in
      o.reply ≡ committed version_no saved
      → IsCommitted alloc_unsafe ids user_id negotiation_id n store db version_no saved o
unfolding publication refuse
commit_negotiation-IsCommitted alloc ids user_id negotiation_id n store db version_no saved e =
    elim (commit_negotiation-cases alloc ids user_id negotiation_id n store db) [
      | inl (r, reply, left, cleared, notified, published, sized) ↦
          let same : committed r.1 (publication ids user_id n).bytes_saved
              ≡ committed version_no saved =
            sym reply ∙ e in
          let number : r.1 ≡ version_no = ap (λ x. (numbers x).0) same in
          let saved_bytes : n.new_size - sum_lengths n.chunks ≡ saved =
            ap (λ x. (numbers x).1) same in
          let whole : sum_lengths n.chunks ≡ n.new_size =
            omega (arith, manifest_rows-sum n.chunks 0, sized) in
          (
            published ∙ rw (left, ← number),
            whole,
            omega (arith, whole, saved_bytes),
            cleared,
            notified,
          )
      | inr (reply, refused, other) ↦
          let same : true ≡ is_committed reply =
            sym (ap is_committed e) ∙ ap (λ (o : Outcome). is_committed o.reply) refused in
          cc
    ]
