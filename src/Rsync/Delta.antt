-- ===== src/Rsync/Delta.antt =====
-- src/lib/rsync/delta.ts: the delta of a new file against the signatures of the old one.
use delta_sync_engine.Prelude.{
  ℕ, zero, suc, ◌+◌, List, [], ◌∷◌, ◌++◌, Option, none, some, Bool, ◌&&◌, ltb, leb, ◌==◌,
  if◌then◌else◌, length, get_or, slice,
}
use mathlib.Core.Option
use delta_sync_engine.Prelude.Texts.{text_eq}
use delta_sync_engine.Hash.Adler.{Adler32State, adler32, adler32_hash, roll_adler32, weak16}
use delta_sync_engine.Hash.Strong.{sha256}
use delta_sync_engine.Cdc.{Range, cdc_ranges}
use delta_sync_engine.Rsync.Signatures.{BlockSignature, ChunkingMode, cdc, fixed, cdc_options}

pub data DeltaOp : Type 0 where
  copy : (block_index offset len : ℕ) → DeltaOp
  literal : (offset : ℕ) → (bytes : List ℕ) → DeltaOp

pub record DeltaStats : Type 0 where
  pub total_new_bytes : ℕ
  pub copied_bytes : ℕ
  pub literal_bytes : ℕ
  pub reused_blocks : ℕ
  pub new_literal_runs : ℕ

pub record DeltaResult : Type 0 where
  pub ops : List DeltaOp
  pub stats : DeltaStats
  pub block_size : ℕ
  pub mode : ChunkingMode

-- `Map<number, BlockSignature[]>` as an association list, in the order of insertion.
abbrev pub Buckets : Type 0
Buckets = List (ℕ × List BlockSignature)

unfoldable pub bucket_get : ℕ → Buckets → Option (List BlockSignature)
bucket_get key [] = none
bucket_get key ((k, list) ∷ rest) = if k == key then some list else bucket_get key rest

unfoldable pub bucket_push : ℕ → BlockSignature → Buckets → Buckets
bucket_push key sig [] = (key, sig ∷ []) ∷ []
bucket_push key sig ((k, list) ∷ rest) =
    if k == key then (k, list ++ sig ∷ []) ∷ rest else (k, list) ∷ bucket_push key sig rest

unfoldable pub build_buckets_fixed : List BlockSignature → ℕ → Buckets → Buckets
unfolding bucket_push
build_buckets_fixed [] block_size buckets = buckets
build_buckets_fixed (sig ∷ sigs) block_size buckets =
    build_buckets_fixed sigs block_size
      (if sig.length == block_size then bucket_push (weak16 sig.weak) sig buckets else buckets)

unfoldable pub build_buckets_all : List BlockSignature → Buckets → Buckets
unfolding bucket_push
build_buckets_all [] buckets = buckets
build_buckets_all (sig ∷ sigs) buckets =
    build_buckets_all sigs (bucket_push (weak16 sig.weak) sig buckets)

-- `list.find(test)`
unfoldable pub find : (BlockSignature → Bool) → List BlockSignature → Option BlockSignature
find test [] = none
find test (c ∷ cs) = if test c then some c else find test cs

unfoldable pub filter_weak : ℕ → List BlockSignature → List BlockSignature
filter_weak hash [] = []
filter_weak hash (c ∷ cs) = if c.weak == hash then c ∷ filter_weak hash cs else filter_weak hash cs

-- The two-level lookup of a window: the bucket, then the whole weak hash, then the strong hash,
-- which is computed only if a weak hash fits.
unfoldable pub strong_match :
    (List ℕ → List ℕ) → List BlockSignature → List ℕ → Option BlockSignature
unfolding find
strong_match digest [] window = none
strong_match digest (c ∷ cs) window =
    let strong = sha256 digest window in find (λ s. text_eq s.strong strong) (c ∷ cs)

unfoldable pub match_window : (List ℕ → List ℕ) → Buckets → ℕ → List ℕ → Option BlockSignature
unfolding bucket_get filter_weak strong_match
match_window digest buckets hash window = elim (bucket_get (weak16 hash) buckets) [
  | none ↦ none
  | some candidates ↦ strong_match digest (filter_weak hash candidates) window
]

unfoldable pub yield_literal : List ℕ → ℕ → ℕ → List DeltaOp
yield_literal bytes literal_start until =
    if ltb literal_start until
    then literal literal_start (slice bytes literal_start until) ∷ []
    else []

-- The rolling loop: the operations that it still yields from the state (i, literalStart, state).
-- `none` is a loop that has not ended when the fuel is used up.
unfoldable pub rolling_loop :
    (List ℕ → List ℕ) → ℕ → List ℕ → Buckets → ℕ → ℕ → ℕ → Adler32State → Option (List DeltaOp)
unfolding yield_literal
rolling_loop digest zero bytes buckets block_size i literal_start state = none
rolling_loop digest (suc fuel) bytes buckets block_size i literal_start state =
    let len = length bytes in
    let last = some (yield_literal bytes literal_start len) in
    let next = i + block_size in
    let anew = adler32 (slice bytes next (next + block_size)) in
    let jump = rolling_loop digest fuel bytes buckets block_size next next anew in
    let rolled = roll_adler32 state (get_or bytes i 0) (get_or bytes next 0) in
    let step = rolling_loop digest fuel bytes buckets block_size (i + 1) literal_start rolled in
    if leb next len
    then elim (match_window digest buckets (adler32_hash state) (slice bytes i next)) [
      | some sig ↦
          Option.map
            (λ ops. yield_literal bytes literal_start i ++ (copy sig.index i block_size ∷ ops))
            (if leb (next + block_size) len then jump else some (yield_literal bytes next len))
      | none ↦ if leb len next then last else step
    ]
    else last

unfoldable pub compute_delta_fixed :
    (List ℕ → List ℕ) → List ℕ → List BlockSignature → ℕ → Option (List DeltaOp)
unfolding rolling_loop build_buckets_fixed
compute_delta_fixed digest bytes sigs block_size =
    if ltb (length bytes) block_size
    then some (if ltb 0 (length bytes) then literal 0 bytes ∷ [] else [])
    else rolling_loop digest (length bytes + 1) bytes (build_buckets_fixed sigs block_size [])
        block_size 0 0 (adler32 (slice bytes 0 block_size))

-- `candidates?.find(…)`
unfoldable pub match_chunk : (List ℕ → List ℕ) → Buckets → List ℕ → Option BlockSignature
unfolding bucket_get find
match_chunk digest buckets window =
    let weak = adler32_hash (adler32 window) in
    let strong = sha256 digest window in
    elim (bucket_get (weak16 weak) buckets) [
      | none ↦ none
      | some candidates ↦
          find (λ c. c.weak == weak && text_eq c.strong strong && c.length == length window)
            candidates
    ]

unfoldable pub chunk_op : List ℕ → ℕ → Option BlockSignature → DeltaOp
chunk_op window start (some sig) = copy sig.index start (length window)
chunk_op window start none = literal start window

unfoldable pub chunk_loop : (List ℕ → List ℕ) → List ℕ → Buckets → List Range → List DeltaOp
unfolding match_chunk chunk_op
chunk_loop digest bytes buckets [] = []
chunk_loop digest bytes buckets (r ∷ ranges) =
    let window = slice bytes r.start r.end in
    chunk_op window r.start (match_chunk digest buckets window)
    ∷ chunk_loop digest bytes buckets ranges

unfoldable pub compute_delta_cdc :
    (List ℕ → List ℕ) → List ℕ → List BlockSignature → ℕ → List DeltaOp
unfolding chunk_loop build_buckets_all
compute_delta_cdc digest bytes [] block_size =
    if ltb 0 (length bytes) then literal 0 bytes ∷ [] else []
compute_delta_cdc digest bytes (sig ∷ sigs) block_size =
    chunk_loop digest bytes (build_buckets_all (sig ∷ sigs) [])
      (cdc_ranges bytes (cdc_options block_size))

unfoldable pub compute_delta_chunked :
    (List ℕ → List ℕ) → List ℕ → List BlockSignature → ℕ → ChunkingMode → Option (List DeltaOp)
unfolding compute_delta_fixed compute_delta_cdc
compute_delta_chunked digest bytes sigs block_size cdc =
    some (compute_delta_cdc digest bytes sigs block_size)
compute_delta_chunked digest bytes sigs block_size fixed =
    compute_delta_fixed digest bytes sigs block_size

unfoldable pub count_op : DeltaOp → DeltaStats → DeltaStats
count_op (copy index offset len) stats = record stats {
  copied_bytes = stats.copied_bytes + len;
  reused_blocks = stats.reused_blocks + 1;
}
count_op (literal offset bytes) stats = record stats {
  literal_bytes = stats.literal_bytes + length bytes;
  new_literal_runs = stats.new_literal_runs + 1;
}

unfoldable pub count_ops : List DeltaOp → DeltaStats → DeltaStats
unfolding count_op
count_ops [] stats = stats
count_ops (op ∷ ops) stats = count_ops ops (count_op op stats)

abbrev pub no_stats : ℕ → DeltaStats
no_stats total = record {
  total_new_bytes = total;
  copied_bytes = 0;
  literal_bytes = 0;
  reused_blocks = 0;
  new_literal_runs = 0;
}

unfoldable pub compute_delta :
    (List ℕ → List ℕ) → List ℕ → List BlockSignature → ℕ → ChunkingMode → Option DeltaResult
unfolding compute_delta_chunked count_ops
compute_delta digest bytes sigs block_size mode =
    Option.map
      (λ ops. record {
        ops = ops;
        stats = count_ops ops (no_stats (length bytes));
        block_size = block_size;
        mode = mode;
      })
      (compute_delta_chunked digest bytes sigs block_size mode)
