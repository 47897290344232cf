-- ===== src/Timestamp/Successor.antt =====
-- `inc` and `dec`, the neighbours on the circle of valid timestamps of one type.
use hybridmvcc.Base.{ℕ, ◌+◌, ◌^◌, ◌<◌, ◌≡◌, arith, false, Ordering}
use hybridmvcc.Timestamp.{cmp, type_, is_invalid, inc, dec}

-- `inc` of a 64-bit word is a valid timestamp of the same type that is greater than its argument,
-- across the wrap of the counter too.
pub inc_lem :
    (ts : ℕ)
    → ts < 2 ^ 64
    → (is_invalid (inc ts) ≡ false) × (type_ (inc ts) ≡ type_ ts) × (cmp ts (inc ts) ≡ Ordering.lt)
unfolding inc cmp
inc_lem ts h = (ground arith, ground arith, ground arith)

pub dec_lem :
    (ts : ℕ)
    → ts < 2 ^ 64
    → 0 < ts
    → (is_invalid (dec ts) ≡ false) × (type_ (dec ts) ≡ type_ ts) × (cmp (dec ts) ts ≡ Ordering.lt)
unfolding dec cmp
dec_lem ts h p = (ground arith, ground arith, ground arith)

-- On valid 64-bit timestamps `dec` undoes `inc` and `inc` undoes `dec`.
pub dec-inc : (ts : ℕ) → ts < 2 ^ 64 → 0 < ts → (dec (inc ts) ≡ ts) × (inc (dec ts) ≡ ts)
unfolding inc dec
dec-inc ts h p = (ground arith, ground arith)

-- For commit timestamps below the wrap `inc` adds one.
pub inc-commit : (ts : ℕ) → ts < 2 ^ 61 → inc ts ≡ ts + 1
unfolding inc
inc-commit ts h = ground arith
