-- ===== src/Server/RateLimiter/Bounds.antt =====
-- Within one window no more is granted than the limit.
use delta_sync_engine.Prelude.{
  ℕ, ◌+◌, ◌-◌, ◌≤◌, ◌<◌, ◌≡◌, inl, inr, List, [], ◌∷◌, none, some, true, false, arith, ltb, leb,
  min, length, if◌then◌else◌, Bool-cases, All,
}
use delta_sync_engine.Prelude.Texts.{Text, text_eq_refl}
use delta_sync_engine.Prelude.Maps.{lookup, insert, lookup-insert}
use delta_sync_engine.Server.RateLimiter.{
  Window, Windows, window_ms, open_window, check_request_limit, charge_bytes,
}

-- The requests of one key at the given times, in order: the windows, and how many were granted.
abbrev pub requests : Windows → Text → ℕ → List ℕ → Windows × ℕ
requests limits key n [] = (limits, 0)
requests limits key n (now ∷ times) =
    let (limits', allowed) = check_request_limit limits key n now in
    let (end, granted) = requests limits' key n times in
    (end, if allowed then granted + 1 else granted)

still_open :
    (limits : Windows) (key : Text) (now used stop : ℕ)
    → lookup key limits ≡ some (record { used = used; expires_at = stop })
    → now ≤ stop
    → open_window limits key now ≡ some (record { used = used; expires_at = stop })
unfolding open_window
still_open limits key now used stop found open_now =
    let still : ltb stop now ≡ false = ground arith in rw (found, open_window) (rw still)

-- One request while the window of its key is open.
check_open :
    (limits : Windows) (key : Text) (n now used stop : ℕ)
    → lookup key limits ≡ some (record { used = used; expires_at = stop })
    → now ≤ stop
    → check_request_limit limits key n now ≡ (
        if ltb used n
        then (insert key (record { used = used + 1; expires_at = stop }) limits, true)
        else (limits, false))
unfolding check_request_limit
check_open limits key n now used stop found open_now =
    rw (still_open limits key now used stop found open_now, check_request_limit)

lookup-insert_same :
    (key : Text) (w : Window) (limits : Windows) → lookup key (insert key w limits) ≡ some w
lookup-insert_same key w limits = rw (lookup-insert key key w limits, text_eq_refl key)

-- While a window of `used` requests is open, it grants what is left of the limit.
requests_open :
    (limits : Windows) (key : Text) (n : ℕ) (times : List ℕ) (used stop : ℕ)
    → lookup key limits ≡ some (record { used = used; expires_at = stop })
    → used ≤ n
    → All (λ t. t ≤ stop) times
    → used + (requests limits key n times).1 ≡ min n (used + length times)
requests_open limits key n [] used stop found le within = omega arith
requests_open limits key n (t ∷ times) used stop found le (now, within) =
    let step = check_open limits key n t used stop found now in
    elim (Bool-cases (ltb used n)) [
      | inl room ↦
          let w : Window = record { used = used + 1; expires_at = stop } in
          let again =
            requests_open (insert key w limits) key n times (used + 1) stop
              (lookup-insert_same key w limits) (ground arith) within in
          rw (step, room) (omega (arith, again))
      | inr full ↦
          rw (step, full)
            (ground (arith, requests_open limits key n times used stop found le within))
    ]

-- When no window is open for a key, then of a request and the `k` requests that follow it until the
-- window that it opens ends, 60 seconds later, exactly as many are granted as the smaller of `1 + k`
-- and the limit, for any limit of at least 1.
pub requests_in_window :
    (limits : Windows) (key : Text) (n now : ℕ) (times : List ℕ)
    → 0 < n
    → open_window limits key now ≡ none
    → All (λ t. t ≤ now + window_ms) times
    → (requests limits key n (now ∷ times)).1 ≡ min n (1 + length times)
requests_in_window limits key n now times pos closed within =
    let w : Window = record { used = 1; expires_at = now + window_ms } in
    let first : check_request_limit limits key n now ≡ (insert key w limits, true) =
      unfold check_request_limit in (rw (closed, check_request_limit)) in
    let rest =
      requests_open (insert key w limits) key n times 1 (now + window_ms)
        (lookup-insert_same key w limits) (omega arith) within in
    rw first (omega (arith, rest))

-- The sizes that one key asks for, each at its time: the bytes that were granted.
abbrev pub downloads : Windows → Text → ℕ → List (ℕ × ℕ) → ℕ
downloads limits key quota [] = 0
downloads limits key quota ((now, bytes) ∷ asked) =
    let (limits', allowed) = charge_bytes limits key quota bytes now in
    let granted = downloads limits' key quota asked in if allowed then bytes + granted else granted

charge_open :
    (limits : Windows) (key : Text) (quota bytes now used stop : ℕ)
    → lookup key limits ≡ some (record { used = used; expires_at = stop })
    → now ≤ stop
    → charge_bytes limits key quota bytes now ≡ (
        if leb (used + bytes) quota
        then (insert key (record { used = used + bytes; expires_at = stop }) limits, true)
        else (limits, false))
unfolding charge_bytes
charge_open limits key quota bytes now used stop found open_now =
    rw (still_open limits key now used stop found open_now, charge_bytes)

-- In an open window, which a request has charged with some bytes, the bytes granted to all later
-- requests before it ends add up to at most what is left of the quota, 0 if nothing is left.
pub downloads_in_window :
    (limits : Windows) (key : Text) (quota : ℕ) (asked : List (ℕ × ℕ)) (used stop : ℕ)
    → lookup key limits ≡ some (record { used = used; expires_at = stop })
    → All (λ (r : ℕ × ℕ). r.0 ≤ stop) asked
    → downloads limits key quota asked ≤ quota - used
downloads_in_window limits key quota [] used stop found within = omega arith
downloads_in_window limits key quota ((now, bytes) ∷ asked) used stop found (here, within) =
    let step = charge_open limits key quota bytes now used stop found here in
    elim (Bool-cases (leb (used + bytes) quota)) [
      | inl fits ↦
          let w : Window = record { used = used + bytes; expires_at = stop } in
          let again =
            downloads_in_window (insert key w limits) key quota asked (used + bytes) stop
              (lookup-insert_same key w limits) within in
          rw (step, fits) (ground (arith, again))
      | inr full ↦
          rw (step, full) (downloads_in_window limits key quota asked used stop found within)
    ]
