-- ===== src/Block/Filter.antt =====
-- src/block/filter_policy.rs and src/block/filter.rs: a Bloom filter in cache lines of 64 bytes.
-- `hash64` stands for `xx::hash64` of the crate fasthash.
pub mod Bits
pub mod Probes
pub mod Entries
pub mod Membership
use hybridmvcc.Base.{
  set_elem, replicate, map, get_elem?, ℕ, zero, suc, ◌+◌, ◌-◌, ◌*◌, ◌/◌, ◌%◌, ◌^◌, ◌<◌, ◌≤◌, Bool,
  true, false, not, ◌&&◌, ◌||◌, Option, none, some, List, [], ◌∷◌, ◌++◌, ◌==◌, Outcome, ok, err,
  panic, ◌≡◌, ◌≢◌, ◌⊎◌, ◌↔◌, inl, inr, refl, sym, ap, ◌∙◌, arith, All, Ordering, if◌then◌else◌, Ord,
  key_eq, key_lt, Bool-cases, Option-cases, ◌>>=◌, ltb, leb, length, take, drop, is_lt, is_eq,
  is_gt, compare, min,
}
use hybridmvcc.Block.Data.{or_panic}

-- `FAST_LOCAL_BLOOM_FILTER_METADATA_SIZE` and `FAST_LOCAL_BLOOM_FILTER_STEP`
abbrev pub metadata_size : ℕ
metadata_size = 1

abbrev pub step : ℕ
step = 0x9e3779b9

-- The bit `bit` of a byte.
unfoldable pub bit_of : ℕ → ℕ → Bool
bit_of byte zero = byte % 2 == 1
bit_of byte (suc bit) = bit_of (byte / 2) bit

-- `byte | 1 << bit`
unfoldable pub set_bit : ℕ → ℕ → ℕ
set_bit byte zero = byte / 2 * 2 + 1
set_bit byte (suc bit) = set_bit (byte / 2) bit * 2 + byte % 2

pub record FastLocalBloomBitsBuilder : Type 0 where
  pub millibits_per_key : ℕ
  pub num_probes : ℕ
  pub hash_entries : List ℕ

unfoldable pub choose_num_probes : ℕ → ℕ
choose_num_probes m =
    if leb m 2080
    then 1
    else if leb m 3580
    then 2
    else if leb m 5100
    then 3
    else if leb m 6640
    then 4
    else if leb m 8300
    then 5
    else if leb m 10070
    then 6
    else if leb m 11720
    then 7
    else if leb m 14001
    then 8
    else if leb m 16050
    then 9
    else if leb m 18300
    then 10
    else if leb m 22001
    then 11
    else if leb m 25501
    then 12
    else if ltb 50000 m
    then 24
    else (m - 1) / 2000 - 1

unfoldable pub new_bits_builder : ℕ → FastLocalBloomBitsBuilder
new_bits_builder millibits_per_key = record {
  millibits_per_key = millibits_per_key;
  num_probes = choose_num_probes millibits_per_key;
  hash_entries = [];
}

-- `cachelines * 64`, what `calculate_space` says less the byte for the number of probes.
unfoldable pub data_size : FastLocalBloomBitsBuilder → ℕ → ℕ
data_size b entries =
    if ltb 0 b.millibits_per_key && ltb 0 entries
    then (entries * b.millibits_per_key + 511999) % 2 ^ 64 / 512000 * 64
    else 0

unfoldable pub calculate_space : FastLocalBloomBitsBuilder → ℕ → ℕ
calculate_space b entries = data_size b entries + metadata_size

-- The start of the cache line of a key, from the low half of its hash.
unfoldable pub prepare_hash : ℕ → ℕ → ℕ
prepare_hash h1 len = h1 * (len / 64) % 2 ^ 64 / 2 ^ 32 % 2 ^ 32 * 64 % 2 ^ 32

-- The high half of a hash, with the start of its cache line.
unfoldable pub hash_offset : ℕ → ℕ → ℕ × ℕ
hash_offset len h = (h / 2 ^ 32 % 2 ^ 32, prepare_hash (h % 2 ^ 32) (len % 2 ^ 32))

abbrev pub byte_at : ℕ → ℕ
byte_at h = h / 2 ^ 23 / 8

abbrev pub bit_at : ℕ → ℕ
bit_at h = h / 2 ^ 23 % 8

-- The loop of `add_hash_prepared`, on the bytes from `offset`.
unfoldable pub add_probes : ℕ → ℕ → ℕ → List ℕ → Outcome (List ℕ)
add_probes zero h offset bytes = ok bytes
add_probes (suc probes) h offset bytes = do
  bytes' ← set_elem (offset + byte_at h) (λ byte. set_bit byte (bit_at h)) bytes
  add_probes probes (h * step % 2 ^ 32) offset bytes'

unfoldable pub add_hash_prepared : ℕ → ℕ × ℕ → List ℕ → Outcome (List ℕ)
add_hash_prepared probes (h, offset) bytes =
    if leb offset (length bytes) then add_probes probes h offset bytes else panic

-- The last loop of `add_all_entries`.
unfoldable pub add_pending : ℕ → List (ℕ × ℕ) → List ℕ → Outcome (List ℕ)
add_pending probes [] bytes = ok bytes
add_pending probes (e ∷ rest) bytes = do
  bytes' ← add_hash_prepared probes e bytes
  add_pending probes rest bytes'

-- The loop of `add_all_entries` over the hashes behind the first eight: each takes the place of one
-- of eight that wait.
unfoldable pub add_rest : ℕ → ℕ → ℕ → List (ℕ × ℕ) → List ℕ → List ℕ → Outcome (List ℕ)
add_rest probes len i pending [] bytes = add_pending probes pending bytes
add_rest probes len i pending (h ∷ rest) bytes = do
  e ← or_panic (get_elem? pending (i % 8))
  bytes' ← add_hash_prepared probes e bytes
  pending' ← set_elem (i % 8) (λ old. hash_offset len h) pending
  add_rest probes len (suc i) pending' rest bytes'

unfoldable pub add_all_entries : ℕ → ℕ → List ℕ → List ℕ → Outcome (List ℕ)
add_all_entries probes len hash_entries bytes =
    add_rest probes len 0 (map (hash_offset len) (take 8 hash_entries)) (drop 8 hash_entries) bytes

-- `seal` of the bits with the space that it has computed, and the builder that it leaves: the
-- hashes are taken only when there is room.
unfoldable pub seal_into :
    FastLocalBloomBitsBuilder → ℕ → ℕ → Outcome (List ℕ × FastLocalBloomBitsBuilder)
seal_into b space data_len = do
  let bytes = replicate space 0
  bytes' ←
      (if ltb 0 data_len
        then add_all_entries b.num_probes data_len b.hash_entries bytes
        else ok bytes)
  sealed ← set_elem data_len (λ byte. b.num_probes % 256) bytes'
  ok (sealed, (if ltb 0 data_len then record b { hash_entries = [] } else b))

unfoldable pub seal_bits : FastLocalBloomBitsBuilder → Outcome (List ℕ × FastLocalBloomBitsBuilder)
seal_bits b =
    let space = calculate_space b (length b.hash_entries) in
    seal_into b space (space - metadata_size)

-- `hash_may_match_prepared` of a target without AVX2.
unfoldable pub probes_match : ℕ → ℕ → ℕ → List ℕ → Outcome Bool
probes_match zero h offset bytes = ok true
probes_match (suc probes) h offset bytes = do
  byte ← or_panic (get_elem? bytes (offset + byte_at h))
  elim (bit_of byte (bit_at h)) [
    | true ↦ probes_match probes (h * step % 2 ^ 32) offset bytes
    | false ↦ ok false
  ]

pub record FastLocalBloomBitsReader : Type 0 where
  pub bytes : List ℕ
  pub num_probes : ℕ

-- A filter of no bytes panics.
unfoldable pub get_filter_bits_reader : List ℕ → Outcome FastLocalBloomBitsReader
get_filter_bits_reader bytes =
    if leb metadata_size (length bytes)
    then (do
      num_probes ← or_panic (get_elem? bytes (length bytes - metadata_size))
      ok (record { bytes = take (length bytes - metadata_size) bytes; num_probes = num_probes }))
    else panic

pub record FullFilterBlockBuilder : Type 0 where
  pub filter_bits_builder : FastLocalBloomBitsBuilder
  pub num_added : ℕ

unfoldable pub create_filter_block_builder : ℕ → FullFilterBlockBuilder
create_filter_block_builder millibits_per_key = record {
  filter_bits_builder = new_bits_builder millibits_per_key;
  num_added = 0;
}

unfoldable pub seal_filter : FullFilterBlockBuilder → Outcome (List ℕ × FullFilterBlockBuilder)
seal_filter b =
    if ltb 0 b.num_added
    then (do
      (bytes, bits) ← seal_bits b.filter_bits_builder
      ok (bytes, record b { filter_bits_builder = bits }))
    else ok ([], b)

module _ {Key : Type 0} (hash64 : Key → ℕ) where
  unfoldable pub add_key : Key → FastLocalBloomBitsBuilder → FastLocalBloomBitsBuilder
  add_key key b = record b { hash_entries = b.hash_entries ++ hash64 key ∷ [] }

  unfoldable pub add : Key → FullFilterBlockBuilder → FullFilterBlockBuilder
  add key b = record b {
    filter_bits_builder = add_key key b.filter_bits_builder;
    num_added = suc b.num_added;
  }

  unfoldable pub may_match : FastLocalBloomBitsReader → Key → Outcome Bool
  may_match reader key =
      let (h, offset) = hash_offset (length reader.bytes) (hash64 key) in
      if leb offset (length reader.bytes)
      then probes_match reader.num_probes h offset reader.bytes
      else panic

  unfoldable pub key_may_match : List ℕ → Key → Outcome Bool
  key_may_match block key = do reader ← get_filter_bits_reader block; may_match reader key
