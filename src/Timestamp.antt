-- ===== src/Timestamp.antt =====
-- src/transaction.rs: `Timestamp`, a 64-bit word with a type in its top two bits, as compiled with
-- the feature `hybrid_ts`.
pub mod Fields
pub mod Order
pub mod Successor
use hybridmvcc.Base.{
  ℕ, zero, suc, ◌+◌, ◌-◌, ◌*◌, ◌/◌, ◌%◌, ◌^◌, Bool, true, false, not, compare, Ordering, ◌==◌,
  if◌then◌else◌, is_lt, is_gt,
}

pub data TimestampType : Type 0 where
  commit start start_committed uncommitted : TimestampType

-- The discriminants, which the derived order compares.
abbrev pub type_code : TimestampType → ℕ
type_code commit = 0
type_code start = 1
type_code start_committed = 2
type_code uncommitted = 3

-- `impl From<u8> for TimestampType`
abbrev pub type_from : ℕ → TimestampType
type_from n =
    if n == 0
    then commit
    else if n == 1
    then start
    else if n == 2
    then start_committed
    else uncommitted

abbrev pub Timestamp : Type 0
Timestamp = ℕ

-- `INVALID_TIMESTAMP`, the value of `Timestamp::default()`.
abbrev pub invalid_timestamp : Timestamp
invalid_timestamp = 0

-- `timestamp & TIMESTAMP_MASK` is `% 2 ^ 62`; the two parts share no bit, so `|` is `+`.
unfoldable pub new : TimestampType → ℕ → Timestamp
new typ timestamp = timestamp % 2 ^ 62 + (type_code typ % 4) * 2 ^ 62

unfoldable pub type_ : Timestamp → TimestampType
type_ ts = type_from ((ts / 2 ^ 62) % 4)

unfoldable pub raw_timestamp : Timestamp → ℕ
raw_timestamp ts = ts % 2 ^ 62

abbrev pub is_invalid : Timestamp → Bool
is_invalid ts = ts == invalid_timestamp

unfoldable pub is_committed : Timestamp → Bool
unfolding type_
is_committed ts = not (type_code (type_ ts) == 3)

unfoldable pub normalize : Timestamp → Timestamp
unfolding new raw_timestamp
normalize ts = if is_invalid ts then invalid_timestamp else new commit (raw_timestamp ts)

abbrev pub wrapping_sub : ℕ → ℕ → ℕ
wrapping_sub a b = (a + 2 ^ 64 - b) % 2 ^ 64

-- Two valid timestamps of one type: the sign is bit 61 of the wrapping difference.
unfoldable pub cmp_raw : ℕ → Ordering
cmp_raw delta =
    if delta == 0
    then Ordering.eq
    else if (delta / 2 ^ 61) % 2 == 0
    then Ordering.gt
    else Ordering.lt

-- `impl Ord for Timestamp`
unfoldable pub cmp : Timestamp → Timestamp → Ordering
unfolding cmp_raw type_ raw_timestamp
cmp a b =
    if is_invalid a
    then (if is_invalid b then Ordering.eq else Ordering.lt)
    else if is_invalid b
    then Ordering.gt
    else if type_code (type_ a) == type_code (type_ b)
    then cmp_raw (wrapping_sub (raw_timestamp a) (raw_timestamp b))
    else compare (type_code (type_ a)) (type_code (type_ b))

-- `<`, `>` and `>=` of the derived operators.
abbrev pub ts_lt : Timestamp → Timestamp → Bool
ts_lt a b = is_lt (cmp a b)

abbrev pub ts_gt : Timestamp → Timestamp → Bool
ts_gt a b = is_gt (cmp a b)

abbrev pub ts_ge : Timestamp → Timestamp → Bool
ts_ge a b = not (is_lt (cmp a b))

-- The loop of `inc`: `next` is one round's wrapping step. Two rounds are enough, since of two
-- successive raw values at most one is 0.
unfoldable pub step_loop : ℕ → (ℕ → ℕ) → TimestampType → ℕ → Timestamp
step_loop zero next typ xid = new typ xid
step_loop (suc fuel) next typ xid =
    let rest = step_loop fuel next typ (next xid) in
    if is_invalid (new typ (next xid)) then rest else new typ (next xid)

abbrev pub rounds : ℕ
rounds = 2

unfoldable pub inc : Timestamp → Timestamp
unfolding step_loop type_ raw_timestamp new
inc ts = step_loop rounds (λ xid. (xid + 1) % 2 ^ 64) (type_ ts) (raw_timestamp ts)

unfoldable pub dec : Timestamp → Timestamp
unfolding step_loop type_ raw_timestamp new
dec ts = step_loop rounds (λ xid. (xid + 2 ^ 64 - 1) % 2 ^ 64) (type_ ts) (raw_timestamp ts)
