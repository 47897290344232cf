-- ===== src/Timestamp/Fields.antt =====
-- The packing of a type and a raw value into one word.
use hybridmvcc.Base.{ℕ, ◌%◌, ◌^◌, ◌<◌, ◌≡◌, arith}
use hybridmvcc.Timestamp.{
  TimestampType, commit, start, start_committed, uncommitted, new, type_, raw_timestamp,
}

-- `Timestamp::new` packs a type and the low 62 bits of a value, and `type_` and `raw_timestamp`
-- read back exactly those.
pub fields-new :
    (typ : TimestampType) (x : ℕ)
    → (type_ (new typ x) ≡ typ) × (raw_timestamp (new typ x) ≡ x % 2 ^ 62) × (new typ x < 2 ^ 64)
unfolding new type_ raw_timestamp
fields-new commit x = ground arith
fields-new start x = ground arith
fields-new start_committed x = ground arith
fields-new uncommitted x = ground arith

-- Every 64-bit word is the packing of its two fields.
pub new-fields : (ts : ℕ) → ts < 2 ^ 64 → new (type_ ts) (raw_timestamp ts) ≡ ts
unfolding new type_ raw_timestamp
new-fields ts h = ground arith
