-- ===== src/Timestamp/Order.antt =====
-- The circular order of timestamps.
use hybridmvcc.Base.{ℕ, ◌+◌, ◌^◌, ◌<◌, ◌≡◌, ◌≢◌, arith, compare, Ordering, reverse_ordering}
use hybridmvcc.Timestamp.{cmp, type_, type_code, raw_timestamp}

-- Below 2^61 timestamps are ordered as numbers, the invalid one first.
pub cmp-commit : (a b : ℕ) → a < 2 ^ 61 → b < 2 ^ 61 → cmp a b ≡ compare a b
unfolding cmp
cmp-commit a b h k = ground arith

-- Swapping the operands of `cmp` reverses the answer whenever the two raw values are not exactly
-- 2^61 apart.
pub cmp-swap :
    (a b : ℕ)
    → raw_timestamp a + 2 ^ 61 ≢ raw_timestamp b
    → raw_timestamp b + 2 ^ 61 ≢ raw_timestamp a
    → cmp b a ≡ reverse_ordering (cmp a b)
unfolding cmp
cmp-swap a b h k = ground arith

-- Two valid timestamps of one type whose raw values are exactly 2^61 apart are each less than the
-- other, so `cmp` is not the total order that `Ord` asks for.
pub cmp_half_circle :
    (a b : ℕ)
    → 0 < a
    → 0 < b
    → type_ a ≡ type_ b
    → raw_timestamp a + 2 ^ 61 ≡ raw_timestamp b
    → (cmp a b ≡ Ordering.lt) × (cmp b a ≡ Ordering.lt)
unfolding cmp
cmp_half_circle a b p q t h = ground arith

-- Timestamps of different types are ordered by their types, whatever their raw values: every
-- valid commit timestamp is below every start timestamp, and those below the uncommitted ones.
pub cmp-types :
    (a b : ℕ) → 0 < a → 0 < b → type_code (type_ a) < type_code (type_ b) → cmp a b ≡ Ordering.lt
unfolding cmp
cmp-types a b p q h = ground arith
