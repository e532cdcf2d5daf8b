-- ===== src/Server/Outbox/Polling.antt =====
-- What a poll of the outbox leaves to do.
use mathlib.Core.Path.{subst}
use mathlib.Core.List.{append_assoc, append-nil}
use delta_sync_engine.Prelude.{
  ℕ, zero, suc, ◌≡◌, refl, sym, ap, ◌∙◌, List, [], ◌∷◌, ◌++◌, true, false, ◌||◌, Bool-cases, inl,
  inr, if◌then◌else◌, length, take, drop, All, arith,
}
use delta_sync_engine.Prelude.Texts.{Text, text_eq, text_mem, text_eq-sym, text_eq_refl, Distinct}
use delta_sync_engine.Server.Database.{Database, OutboxRow, EventType, Payload}
use delta_sync_engine.Server.Outbox.{
  Jobs, unprocessed, dispatch, dispatch_all, mark_processed, record_processed, poll_and_dispatch,
  batch_size,
}

abbrev pub ids_of : List OutboxRow → List Text
ids_of [] = []
ids_of (e ∷ events) = e.id ∷ ids_of events

-- The jobs add rows to the outbox at most, also when they throw.
abbrev pub Adds : Jobs → Type 0
Adds jobs =
    (kind : EventType) (payload : Payload) (db : Database)
    → (added : List OutboxRow) × ((dispatch jobs kind payload db).0.outbox_events
        ≡ db.outbox_events ++ added)

-- The jobs of the events succeed, each on the database that those before it leave.
abbrev pub Succeed : Jobs → List OutboxRow → Database → Type 0
Succeed jobs [] db = Unit {0}
Succeed jobs (e ∷ events) db =
    ((dispatch jobs e.event_type e.payload db).1 ≡ true)
    × Succeed jobs events (dispatch jobs e.event_type e.payload db).0

dispatch_all_lem :
    (jobs : Jobs) (events : List OutboxRow) (db : Database)
    → Adds jobs
    → Succeed jobs events db
    → ((dispatch_all jobs events db).1 ≡ ids_of events)
      × ((added : List OutboxRow) × ((dispatch_all jobs events db).0.outbox_events
            ≡ db.outbox_events ++ added))
unfolding dispatch_all
dispatch_all_lem jobs [] db adds h = (refl, ([], sym (append-nil db.outbox_events)))
dispatch_all_lem jobs (e ∷ events) db adds (done, h) =
    let after = (dispatch jobs e.event_type e.payload db).0 in
    let (first, first_adds) = adds e.event_type e.payload db in
    let (ids, (rest, rest_adds)) = dispatch_all_lem jobs events after adds h in
    (
      rw done (ap (λ xs. e.id ∷ xs) ids),
      (
        first ++ rest,
        rest_adds ∙ ap (λ xs. xs ++ rest) first_adds ∙ append_assoc db.outbox_events first rest,
      ),
    )

mark_processed-none : (events : List OutboxRow) → mark_processed [] events ≡ events
unfolding mark_processed text_mem
mark_processed-none [] = refl
mark_processed-none (e ∷ events) =
    let kept : (e.processed || false) ≡ e.processed = ground arith in
    ap (λ b. record e { processed = b } ∷ mark_processed [] events) kept
    ∙ ap (λ xs. e ∷ xs) (mark_processed-none events)

mark_processed-fresh :
    (id : Text) (ids : List Text) (events : List OutboxRow)
    → text_mem id (ids_of events) ≡ false
    → mark_processed (id ∷ ids) events ≡ mark_processed ids events
unfolding mark_processed text_mem
mark_processed-fresh id ids [] fresh = refl
mark_processed-fresh id ids (e ∷ events) fresh =
    let other : text_eq e.id id ≡ false = text_eq-sym e.id id ∙ ground arith in
    rw (other, mark_processed-fresh id ids events (ground arith)) refl

unprocessed-was :
    (e : OutboxRow) (events : List OutboxRow)
    → e.processed ≡ true
    → unprocessed (e ∷ events) ≡ unprocessed events
unfolding unprocessed
unprocessed-was e events was =
    ap (λ b. if b then unprocessed events else e ∷ unprocessed events) was

unprocessed-waits :
    (e : OutboxRow) (events : List OutboxRow)
    → e.processed ≡ false
    → unprocessed (e ∷ events) ≡ e ∷ unprocessed events
unfolding unprocessed
unprocessed-waits e events waits =
    ap (λ b. if b then unprocessed events else e ∷ unprocessed events) waits

unprocessed-append :
    (xs ys : List OutboxRow) → unprocessed (xs ++ ys) ≡ unprocessed xs ++ unprocessed ys
unprocessed-append [] ys = unfold unprocessed in refl
unprocessed-append (e ∷ xs) ys = elim (Bool-cases e.processed) [
  | inl was ↦
      rw (unprocessed-was e (xs ++ ys) was, unprocessed-was e xs was) (unprocessed-append xs ys)
  | inr waits ↦
      rw (unprocessed-waits e (xs ++ ys) waits, unprocessed-waits e xs waits)
        (ap (λ zs. e ∷ zs) (unprocessed-append xs ys))
]

ids_of-mark_processed :
    (ids : List Text) (events : List OutboxRow) → ids_of (mark_processed ids events) ≡ ids_of events
unfolding mark_processed
ids_of-mark_processed ids [] = refl
ids_of-mark_processed ids (e ∷ events) = ap (λ xs. e.id ∷ xs) (ids_of-mark_processed ids events)

ids_of-append : (xs ys : List OutboxRow) → ids_of (xs ++ ys) ≡ ids_of xs ++ ids_of ys
ids_of-append [] ys = refl
ids_of-append (e ∷ xs) ys = ap (λ zs. e.id ∷ zs) (ids_of-append xs ys)

unprocessed-mark_processed :
    (n : ℕ) (events added : List OutboxRow)
    → Distinct (ids_of (events ++ added))
    → unprocessed (mark_processed (ids_of (take n (unprocessed events))) (events ++ added))
      ≡ drop n (unprocessed events) ++ unprocessed added
unfolding mark_processed text_mem
unprocessed-mark_processed zero events added d =
    ap unprocessed (mark_processed-none (events ++ added)) ∙ unprocessed-append events added
unprocessed-mark_processed (suc n) [] added d =
    unfold unprocessed in ap unprocessed (mark_processed-none added)
unprocessed-mark_processed (suc n) (e ∷ events) added (fresh, d) =
    let rest = events ++ added in
    let Marked = λ (u : List OutboxRow).
      unprocessed (mark_processed (ids_of (take (suc n) u)) (e ∷ rest))
      ≡ drop (suc n) u ++ unprocessed added in
    elim (Bool-cases e.processed) [
      | inl was ↦ subst Marked (sym (unprocessed-was e events was)) (
          unprocessed-was _ (mark_processed _ rest)
            (ap (λ b. b || text_mem e.id (ids_of (take (suc n) (unprocessed events)))) was)
          ∙ unprocessed-mark_processed (suc n) events added d)
      | inr waits ↦
          let ids = ids_of (take n (unprocessed events)) in
          subst Marked (sym (unprocessed-waits e events waits)) (
            unprocessed-was (record e { processed = e.processed || text_mem e.id (e.id ∷ ids) })
              (mark_processed (e.id ∷ ids) rest) (ground (arith, text_eq_refl e.id))
            ∙ ap unprocessed (mark_processed-fresh e.id ids rest fresh)
            ∙ unprocessed-mark_processed n events added d)
    ]

record_processed_lem :
    (ids : List Text) (db : Database)
    → (record_processed ids db).outbox_events ≡ mark_processed ids db.outbox_events
unfolding record_processed
record_processed_lem [] db = sym (mark_processed-none db.outbox_events)
record_processed_lem (id ∷ ids) db = refl

length-ids_of : (events : List OutboxRow) → length (ids_of events) ≡ length events
length-ids_of [] = refl
length-ids_of (e ∷ events) = ap suc (length-ids_of events)

-- The jobs add rows to the outbox at most, those of the 50 oldest events that wait succeed, and the ids of the rows
-- are distinct behind the poll. Then the poll counts these events, the outbox has the rows that it had and those
-- that were added, and the events that wait are those that waited behind the 50, in their order, and then those
-- of the added rows that are to be processed.
pub poll_and_dispatch-unprocessed :
    (jobs : Jobs) (db : Database)
    → Adds jobs
    → Succeed jobs (take batch_size (unprocessed db.outbox_events)) db
    → Distinct (ids_of (poll_and_dispatch jobs db).0.outbox_events)
    → ((poll_and_dispatch jobs db).1 ≡ length (take batch_size (unprocessed db.outbox_events)))
      × ((added : List OutboxRow) × (ids_of (poll_and_dispatch jobs db).0.outbox_events
            ≡ ids_of db.outbox_events ++ ids_of added)
          × (unprocessed (poll_and_dispatch jobs db).0.outbox_events
              ≡ drop batch_size (unprocessed db.outbox_events) ++ unprocessed added))
unfolding poll_and_dispatch
poll_and_dispatch-unprocessed jobs db adds_only h d =
    let batch = take batch_size (unprocessed db.outbox_events) in
    let (ids, (added, adds)) = dispatch_all_lem jobs batch db adds_only h in
    let table : (poll_and_dispatch jobs db).0.outbox_events
        ≡ mark_processed (ids_of batch) (db.outbox_events ++ added) =
      record_processed_lem (dispatch_all jobs batch db).1 (dispatch_all jobs batch db).0
      ∙ ap (λ xs. mark_processed xs (dispatch_all jobs batch db).0.outbox_events) ids
      ∙ ap (mark_processed (ids_of batch)) adds in
    let named =
      ap ids_of table ∙ ids_of-mark_processed (ids_of batch) (db.outbox_events ++ added) in
    (
      ap length ids ∙ length-ids_of batch,
      (
        added,
        named ∙ ids_of-append db.outbox_events added,
        ap unprocessed table
            ∙ unprocessed-mark_processed batch_size db.outbox_events added (subst Distinct named d),
      ),
    )

dispatch_all-fails :
    (jobs : Jobs) (events : List OutboxRow) (db : Database)
    → All (λ e. (d : Database) → dispatch jobs e.event_type e.payload d ≡ (d, false)) events
    → dispatch_all jobs events db ≡ (db, [])
unfolding dispatch_all
dispatch_all-fails jobs [] db h = refl
dispatch_all-fails jobs (e ∷ events) db (f, h) = rw (f db, dispatch_all-fails jobs events db h) refl

-- When the jobs of the 50 oldest events that wait throw and change nothing, a poll changes nothing, so that the next
-- poll claims the same events.
pub poll_and_dispatch-stuck :
    (jobs : Jobs) (db : Database)
    → All
        (λ e. (d : Database) → dispatch jobs e.event_type e.payload d ≡ (d, false))
        (take batch_size (unprocessed db.outbox_events))
    → poll_and_dispatch jobs db ≡ (db, 0)
unfolding poll_and_dispatch record_processed
poll_and_dispatch-stuck jobs db h =
    rw (dispatch_all-fails jobs (take batch_size (unprocessed db.outbox_events)) db h) refl
