-- ===== src/Server/NegotiationStore/Lifetime.antt =====
-- A negotiation can be read again and again for its hour, and never after that or after it is cleared.
use delta_sync_engine.Prelude.{
  ℕ, ◌+◌, ◌≤◌, ◌<◌, ◌≡◌, sym, ap, ◌∙◌, Option, none, some, true, false, arith, ltb, if◌then◌else◌,
}
use delta_sync_engine.Prelude.Texts.{Text, text_eq, text_eq_refl}
use delta_sync_engine.Prelude.Maps.{lookup, erase, lookup-insert, lookup-erase}
use delta_sync_engine.Server.NegotiationStore.{
  Entry, Store, NegotiationPayload, negotiation_ttl_ms, set_negotiation, get_negotiation,
  clear_negotiation,
}

found :
    (id : Text) (now : ℕ) (store : Store) (e : Entry)
    → lookup id store ≡ some e
    → (ltb e.expires_at now ≡ false)
    → get_negotiation id now store ≡ (some e.payload, store)
unfolding get_negotiation
found id now store e there fresh = rw (there, get_negotiation) (rw fresh)

-- A payload that is stored at `now` is what every read of its id returns until one hour later,
-- and such a read leaves the store as it is; later reads return nothing.
pub get-set_negotiation :
    (id : Text) (payload : NegotiationPayload) (now later : ℕ) (store : Store)
    → let stored = set_negotiation id payload now store in
      (later ≤ now + negotiation_ttl_ms → get_negotiation id later stored ≡ (some payload, stored))
      × (now + negotiation_ttl_ms < later → (get_negotiation id later stored).0 ≡ none)
unfolding set_negotiation
get-set_negotiation id payload now later store =
    let e : Entry = record { payload = payload; expires_at = now + negotiation_ttl_ms } in
    let there : lookup id (set_negotiation id payload now store) ≡ some e =
      rw (lookup-insert id id e store, text_eq_refl id) in
    (
      (λ in_time.
          let fresh : ltb e.expires_at later ≡ false = ground arith in
          found id later (set_negotiation id payload now store) e there fresh),
      λ too_late.
          let stale : ltb e.expires_at later ≡ true = ground arith in
          unfold get_negotiation in (rw (there, get_negotiation) (rw stale)),
    )

-- What a read returns depends on the entry alone.
abbrev read : ℕ → Option Entry → Option NegotiationPayload
read now none = none
read now (some e) = if ltb e.expires_at now then none else some e.payload

get_negotiation-read :
    (id : Text) (now : ℕ) (store : Store)
    → (get_negotiation id now store).0 ≡ read now (lookup id store)
unfolding get_negotiation
get_negotiation-read id now store = ground arith

-- After `clear_negotiation` its id is unknown at every time, and every other id reads as before.
pub get-clear_negotiation :
    (id other : Text) (now : ℕ) (store : Store)
    → text_eq id other ≡ false
    → ((get_negotiation id now (clear_negotiation id store)).0 ≡ none)
      × ((get_negotiation other now (clear_negotiation id store)).0
          ≡ (get_negotiation other now store).0)
unfolding clear_negotiation
get-clear_negotiation id other now store apart =
    let left = erase id store in
    let gone : lookup id left ≡ none = rw (lookup-erase id id store, text_eq_refl id) in
    let kept : lookup other left ≡ lookup other store = rw (lookup-erase id other store, apart) in
    (
      get_negotiation-read id now left ∙ ap (read now) gone,
      get_negotiation-read other now left
          ∙ ap (read now) kept
          ∙ sym (get_negotiation-read other now store),
    )
