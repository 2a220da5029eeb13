-- ===== src/Matrix/Payload.antt =====
-- `interval_ms`, `deadline_for`, `wait_for_idle` and `make_payload` of
-- tools/measure/bucketfs/run_matrix.py. A file's content is the sizes of the writes it was made by.
use syncfs.Base.{
  ℕ, zero, suc, ◌+◌, ◌-◌, ◌*◌, ◌≤◌, ◌<◌, ◌≡◌, Option, none, some, List, [], ◌∷◌, min, arith, leb,
  nat_beq, if_rule, if◌then◌else◌, sum, All,
}
use mathlib.Core.Option

abbrev pub mib : ℕ
mib = 1048576

-- milliseconds
unfoldable pub interval_ms : ℕ → ℕ
interval_ms size = if leb size mib then 50 else 500

-- seconds
unfoldable pub deadline_for : ℕ → ℕ → ℕ
deadline_for size nodes = if leb 1073741824 size then 1800 else 900

abbrev pub chunk_limit : ℕ
chunk_limit = 8 * mib

-- `while remaining:`, by the sizes of the chunks it writes
unfoldable pub chunks : ℕ → ℕ → Option (List ℕ)
chunks zero remaining = none
chunks (suc fuel) remaining =
    let rest = chunks fuel (remaining - min remaining chunk_limit) in
    if nat_beq remaining 0 then some [] else Option.map (λ cs. min remaining chunk_limit ∷ cs) rest

-- A payload of `size` bytes takes a chunk per 8 MiB, and the test that ends the loop.
unfoldable pub make_payload : ℕ → Option (List ℕ)
unfolding chunks
make_payload size = chunks (suc size) size

-- A chunk that is not empty and not over the limit.
abbrev pub IsChunk : ℕ → Type 0
IsChunk c = (0 < c) × (c ≤ chunk_limit)

-- what the loop writes
abbrev pub Writes : ℕ → Option (List ℕ) → Type 0
Writes size none = ⊥
Writes size (some cs) = (sum cs ≡ size) × All IsChunk cs

Writes-map :
    (c rest size : ℕ) (r : Option (List ℕ))
    → IsChunk c
    → c + rest ≡ size
    → Writes rest r
    → Writes size (Option.map (λ cs. c ∷ cs) r)
Writes-map c rest size none ok e h = h
Writes-map c rest size (some cs) ok e (total, each) = (omega arith, (ok, each))

chunks-Writes : (fuel size : ℕ) → size < fuel → Writes size (chunks fuel size)
unfolding chunks
chunks-Writes zero size h = absurd (omega arith)
chunks-Writes (suc fuel) size h =
    if_rule (Writes size) (nat_beq size 0) (some [])
      (Option.map (λ cs. min size chunk_limit ∷ cs) (chunks fuel (size - min size chunk_limit)))
      (λ empty. (ground arith, tt))
      (λ more.
        Writes-map (min size chunk_limit) (size - min size chunk_limit) size _ (ground arith)
          (ground arith) (chunks-Writes fuel (size - min size chunk_limit) (ground arith)))

-- The loop ends, and what it writes is `size` bytes, in chunks of 1 byte to 8 MiB each.
pub make_payload_lem : (size : ℕ) → Writes size (make_payload size)
unfolding make_payload
make_payload_lem size = chunks-Writes (suc size) size (omega arith)
