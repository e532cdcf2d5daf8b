-- ===== src/Tests/Services.antt =====
-- The server's services on small states.
use delta_sync_engine.Prelude.{
  ℕ, ◌+◌, ◌≤◌, ◌<◌, ◌≡◌, inr, refl, List, [], ◌∷◌, none, some, arith, min,
}
use delta_sync_engine.Prelude.Texts.{Text, codes, text_eq}
use delta_sync_engine.Prelude.Maps.{lookup}
use delta_sync_engine.Rsync.Signatures.{cdc}
use delta_sync_engine.Server.RateLimiter.{open_window}
use delta_sync_engine.Server.RateLimiter.Bounds.{requests, requests_in_window}
use delta_sync_engine.Server.NegotiationStore.{
  NegotiationPayload, negotiation_ttl_ms, set_negotiation, get_negotiation,
}
use delta_sync_engine.Server.NegotiationStore.Lifetime.{get-set_negotiation}
use delta_sync_engine.Server.Database.{
  FileRow, FileVersionRow, Database, pending, find_version, versions_of,
}
use delta_sync_engine.Server.VersionPruner.{file_by_id, prune_file_versions}
use delta_sync_engine.Server.VersionPruner.Newest.{find_version-prune, find_version-pruned}

abbrev key : Text
key = 107 ∷ []

abbrev other_key : Text
other_key = 108 ∷ []

requests_in_window_example : (requests [] key 2 (10 ∷ 11 ∷ 12 ∷ [])).1 ≡ min 2 3
unfolding open_window lookup
requests_in_window_example =
    requests_in_window [] key 2 10 (11 ∷ 12 ∷ []) (omega arith) refl
      (omega arith, (omega arith, tt))

abbrev two_chunks : NegotiationPayload
two_chunks = record {
  user_id = key;
  path = other_key;
  chunking = cdc;
  block_size = 4096;
  new_size = 8;
  content_sha256 = [];
  chunks = record { strong_hash = key; length = 8; weak_hash = none } ∷ [];
  snapshot_current_version_id = none;
}

get-set_negotiation_example :
    let stored = set_negotiation key two_chunks 5 [] in
    (1000 ≤ 5 + negotiation_ttl_ms → get_negotiation key 1000 stored ≡ (some two_chunks, stored))
    × (5 + negotiation_ttl_ms < 1000 → (get_negotiation key 1000 stored).0 ≡ none)
get-set_negotiation_example = get-set_negotiation key two_chunks 5 1000 []

abbrev version : ℕ → FileVersionRow
version n = record {
  id = n ∷ [];
  file_id = key;
  version_no = n;
  size = 8;
  total_blocks = 1;
  block_size = 4096;
  chunk_manifest = none;
  chunking_mode = cdc;
  content_sha256 = [];
  verification_status = pending;
}

abbrev file : FileRow
file = record {
  id = key;
  user_id = key;
  path = key;
  current_version_id = some (1 ∷ []);
  total_size = 8;
}

abbrev three_versions : Database
three_versions = record {
  files = file ∷ [];
  file_versions = version 1 ∷ version 2 ∷ version 3 ∷ [];
  blocks = [];
  sync_jobs = [];
  outbox_events = [];
}

find_version-prune_example :
    find_version (3 ∷ []) (prune_file_versions 1 key three_versions).1.file_versions
    ≡ find_version (3 ∷ []) three_versions.file_versions
unfolding file_by_id text_eq versions_of
find_version-prune_example =
    find_version-prune 1 key (3 ∷ []) 3 three_versions file refl (inr (refl, omega arith))

find_version-pruned_example :
    find_version (2 ∷ []) (prune_file_versions 1 key three_versions).1.file_versions ≡ none
unfolding file_by_id text_eq versions_of
find_version-pruned_example =
    find_version-pruned 1 key (2 ∷ []) 2 three_versions file refl refl refl
      (λ same. absurd (cc same), (λ same. refl, (λ same. absurd (cc same), tt))) (omega arith)

abbrev report : Text
report = codes "\"b\",\"2f/2f0e\""
