-- ===== src/Server/RateLimiter.antt =====
-- server/rate-limiter.ts: requests per minute and downloaded bytes per minute, per user.
-- `now` is the clock's answer; the three maps are one record.
pub mod Bounds
use delta_sync_engine.Prelude.{
  ℕ, ◌+◌, ◌*◌, List, [], ◌∷◌, Option, none, some, Bool, true, false, ltb, leb, if◌then◌else◌,
}
use delta_sync_engine.Prelude.Texts.{Text, codes}
use mathlib.Core.List.{◌++◌}
use delta_sync_engine.Prelude.Maps.{lookup, insert, sweep}

-- `count` of a request window, `bytes` of a byte window.
pub record Window : Type 0 where
  pub used : ℕ
  pub expires_at : ℕ

abbrev pub Windows : Type 0
Windows = List (Text × Window)

pub record Limits : Type 0 where
  pub upload_limits : Windows
  pub download_limits : Windows
  pub byte_limits : Windows

-- The three limits, which the environment sets; each is at least 1.
pub record Config : Type 0 where
  pub max_upload_rpm : ℕ
  pub max_download_rpm : ℕ
  pub max_byte_quota : ℕ

abbrev pub window_ms : ℕ
window_ms = 60_000

-- The window of `key` that is still open at `now`.
unfoldable pub open_window : Windows → Text → ℕ → Option Window
unfolding lookup
open_window limits key now = elim (lookup key limits) [
  | none ↦ none
  | some entry ↦ if ltb entry.expires_at now then none else some entry
]

unfoldable pub check_request_limit : Windows → Text → ℕ → ℕ → Windows × Bool
unfolding open_window
check_request_limit limits key max_requests now = elim (open_window limits key now) [
  | none ↦ (insert key (record { used = 1; expires_at = now + window_ms }) limits, true)
  | some entry ↦
      if ltb entry.used max_requests
      then (insert key (record entry { used = entry.used + 1 }) limits, true)
      else (limits, false)
]

unfoldable pub check_rate_limit : Config → Limits → Text → ℕ → Limits × Bool
unfolding check_request_limit
check_rate_limit config l user_id now =
    let (limits, allowed) =
      check_request_limit l.upload_limits (codes "upload:" ++ user_id) config.max_upload_rpm now in
    (record l { upload_limits = limits }, allowed)

unfoldable pub check_download_rate_limit : Config → Limits → Text → ℕ → Limits × Bool
unfolding check_request_limit
check_download_rate_limit config l user_id now =
    let (limits, allowed) =
      check_request_limit l.download_limits (codes "download:" ++ user_id) config.max_download_rpm
        now in
    (record l { download_limits = limits }, allowed)

unfoldable pub charge_bytes : Windows → Text → ℕ → ℕ → ℕ → Windows × Bool
unfolding open_window
charge_bytes limits key quota bytes now = elim (open_window limits key now) [
  | none ↦ (insert key (record { used = bytes; expires_at = now + window_ms }) limits, true)
  | some entry ↦
      if leb (entry.used + bytes) quota
      then (insert key (record entry { used = entry.used + bytes }) limits, true)
      else (limits, false)
]

unfoldable pub check_byte_quota : Config → Limits → Text → ℕ → ℕ → Limits × Bool
unfolding charge_bytes
check_byte_quota config l user_id bytes now =
    let (limits, allowed) =
      charge_bytes l.byte_limits (codes "bytes:" ++ user_id) config.max_byte_quota bytes now in
    (record l { byte_limits = limits }, allowed)

-- The timer's round: every expired window goes.
unfoldable pub clean_up : Limits → ℕ → Limits
unfolding sweep
clean_up l now =
    let expired = λ (w : Window). ltb w.expires_at now in
    record {
      upload_limits = sweep expired l.upload_limits;
      download_limits = sweep expired l.download_limits;
      byte_limits = sweep expired l.byte_limits;
    }
