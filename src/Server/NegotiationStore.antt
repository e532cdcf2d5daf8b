-- ===== src/Server/NegotiationStore.antt =====
-- server/negotiation-store.ts: negotiations in memory, each for an hour.
pub mod Lifetime
use delta_sync_engine.Prelude.{
  ℕ, ◌+◌, ◌*◌, List, [], ◌∷◌, Option, none, some, Bool, ltb, if◌then◌else◌, map,
}
use delta_sync_engine.Prelude.Texts.{Text}
use delta_sync_engine.Prelude.Maps.{lookup, insert, erase, sweep}
use delta_sync_engine.Rsync.Signatures.{ChunkingMode}

pub record ChunkInfo : Type 0 where
  pub strong_hash : Text
  pub length : ℕ
  pub weak_hash : Option ℕ

-- `chunks.map((c) => c.strongHash)`
abbrev pub hashes_of : List ChunkInfo → List Text
hashes_of chunks = map (λ (c : ChunkInfo). c.strong_hash) chunks

pub record NegotiationPayload : Type 0 where
  pub user_id : Text
  pub path : Text
  pub chunking : ChunkingMode
  pub block_size : ℕ
  pub new_size : ℕ
  pub content_sha256 : Text
  pub chunks : List ChunkInfo
  pub snapshot_current_version_id : Option Text

pub record Entry : Type 0 where
  pub payload : NegotiationPayload
  pub expires_at : ℕ

abbrev pub Store : Type 0
Store = List (Text × Entry)

abbrev pub negotiation_ttl_ms : ℕ
negotiation_ttl_ms = 60 * 60 * 1000

-- `now` is the clock's answer.
unfoldable pub set_negotiation : Text → NegotiationPayload → ℕ → Store → Store
unfolding insert
set_negotiation id payload now store =
    insert id (record { payload = payload; expires_at = now + negotiation_ttl_ms }) store

unfoldable pub get_negotiation : Text → ℕ → Store → Option NegotiationPayload × Store
unfolding lookup erase
get_negotiation id now store = elim (lookup id store) [
  | none ↦ (none, store)
  | some entry ↦
      if ltb entry.expires_at now then (none, erase id store) else (some entry.payload, store)
]

unfoldable pub clear_negotiation : Text → Store → Store
unfolding erase
clear_negotiation id store = erase id store

unfoldable pub get_and_clear_negotiation : Text → ℕ → Store → Option NegotiationPayload × Store
unfolding get_negotiation clear_negotiation
get_and_clear_negotiation id now store =
    let (payload, store') = get_negotiation id now store in
    elim payload [ none ↦ (none, store') | some p ↦ (some p, clear_negotiation id store') ]

-- The timer's round.
unfoldable pub clean_up : ℕ → Store → Store
unfolding sweep
clean_up now store = sweep (λ (e : Entry). ltb e.expires_at now) store
