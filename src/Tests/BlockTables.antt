-- ===== src/Tests/BlockTables.antt =====
-- A table file with simple codecs, a device that takes every write, and a cache that keeps one block
-- for each shard.
use hybridmvcc.Base.{
  get_elem?, some-injective, replicate, ℕ, zero, suc, ◌+◌, ◌*◌, ◌/◌, ◌%◌, ◌^◌, Bool, false, ◌&&◌,
  Option, none, some, List, [], ◌∷◌, ◌==◌, ok, ◌≡◌, inl, inr, refl, sym, ap, ◌∙◌, arith,
  if◌then◌else◌, Bool-cases, length,
}
use hybridmvcc.Block.Data
use hybridmvcc.Block.Filter
use hybridmvcc.Table.BlockTable.Builder.{
  add, add_raw, make_room, need_flush, push, index_last, flush, write_block, write_all, finish,
  add_item, footer_bytes, write_filter, write_toc,
}
use hybridmvcc.Block.Data.{
  new_builder, restart_due, entry_bytes, seal, restart_bytes, reset_builder, shared_prefix,
}
use hybridmvcc.Base.{set_elem}
use hybridmvcc.Block.Filter.{
  add_all_entries, add_hash_prepared, add_key, add_pending, add_probes, add_rest, calculate_space,
  choose_num_probes, create_filter_block_builder, data_size, hash_offset, new_bits_builder,
  prepare_hash, seal_bits, seal_filter, seal_into, set_bit,
}
use hybridmvcc.Tests.Blocks.{words, words-IsByteOrder, varint, varint-IsVarInt}
use hybridmvcc.Bytes.{Serializer, IsSerializer}
use hybridmvcc.Cache.{CacheId, LruMap, IsLruMap, ShardedCache}
use hybridmvcc.Cache
use hybridmvcc.Cache.Lookups.{Answer, Held, get-insert}
use hybridmvcc.Wal.Segment.{Device}
use hybridmvcc.Table.BlockTable.{Format, ItemPointer}
use hybridmvcc.Table.BlockTable.Builder.{new}
use hybridmvcc.Table.BlockTable.Builder.Blocks.{IsFormat}
use hybridmvcc.Table.BlockTable.RoundTrip.{Reads}
use hybridmvcc.Memtable.HashTable.{ImmTable}
use hybridmvcc.Database.Flush.{BlockTableOptions, write_level0_table, write_entries, add_entries}
use hybridmvcc.Database.Flush.Level0.{Flushed, write_level0_table-Reads}

abbrev numbers : Serializer ℕ
numbers = record {
  serialize = λ n. n % 2 ^ 8 ∷ n / 2 ^ 8 ∷ [];
  deserialize = λ bytes. elim bytes [
    | [] ↦ none
    | b ∷ rest ↦ elim rest [ [] ↦ none | c ∷ more ↦ some (c * 2 ^ 8 + b) ]
  ];
}

numbers-IsSerializer : IsSerializer numbers
numbers-IsSerializer = record {
  read_back = λ n. let e : n / 2 ^ 8 * 2 ^ 8 + n % 2 ^ 8 ≡ n = omega arith in ap some e;
  bounded = λ n. omega arith;
}

abbrev pointers : Serializer ItemPointer
pointers = record {
  serialize = λ ptr. ptr.offset ∷ ptr.length ∷ replicate 14 0;
  deserialize = λ bytes. elim bytes [
    | [] ↦ none
    | b ∷ rest ↦ elim rest [ [] ↦ none | c ∷ more ↦ some (record { offset = b; length = c }) ]
  ];
}

abbrev pub format : Format ℕ ℕ
format = record {
  order = words;
  varint = varint;
  crc32 = λ bytes. length bytes;
  hash64 = λ bytes. elim bytes [ [] ↦ 0 | b ∷ rest ↦ b * 2 ^ 40 + b ];
  pointers = pointers;
  keys = numbers;
  values = numbers;
}

pub format-IsFormat : IsFormat format
format-IsFormat = record {
  words = words-IsByteOrder;
  varints = varint-IsVarInt;
  pointers_back = λ ptr o l. refl;
  pointer_width = λ ptr. refl;
  keys_back = numbers-IsSerializer;
  values_back = numbers-IsSerializer;
}

abbrev pub Last : Type 0
Last = Option ((CacheId × ℕ) × List ℕ)

abbrev same_key : CacheId × ℕ → CacheId × ℕ → Bool
same_key (id, k) (id', k') = id == id' && k == k'

abbrev pub last_map : LruMap Last (CacheId × ℕ) (List ℕ)
last_map = record {
  new_map = λ capacity. none;
  put = λ k v l. (none, some (k, v));
  find = λ k l. elim l [
    | none ↦ (none, none)
    | some (k', v) ↦ ((if same_key k k' then some v else none), some (k', v))
  ];
  pop = λ k l. (none, none);
}

find_last :
    (k : CacheId × ℕ) (l : Last) (v : List ℕ) → (last_map.find k l).0 ≡ some v → l ≡ some (k, v)
find_last k none v e = absurd (cc e)
find_last (id, k) (some ((id', k'), v')) v e = elim (Bool-cases (id == id' && k == k')) [
  | inl same ↦
      let ids : id' ≡ id = ground (arith, same) in
      let ks : k' ≡ k = ground (arith, same) in
      let vs : v' ≡ v = some-injective (rw same at e) in rw (ids, ks, vs) refl
  | inr other ↦ absurd (cc (rw other at e))
]

pub last_map-IsLruMap : IsLruMap last_map
last_map-IsLruMap = record {
  Holds = λ l k v. l ≡ some (k, v);
  holds-new = λ capacity k v e. absurd (cc e);
  find_sound = find_last;
  holds-find = λ k k' l v e.
      elim l as (λ l. (last_map.find k l).1 ≡ some (k', v) → l ≡ some (k', v)) [
        | none ↦ λ e. e
        | some kept ↦ λ e. e
      ]
        e;
  holds-put = λ k k' l v v' e. inl (cc e, cc e);
  holds-pop = λ k k' l v e. absurd (cc e);
}

abbrev pub cache : ShardedCache Last
cache = record { num_shards = 2; shards = none ∷ none ∷ []; last_id = 1 }

all_empty : (j : ℕ) (shard : Last) → get_elem? cache.shards j ≡ some shard → shard ≡ none
all_empty zero shard e = cc e
all_empty (suc zero) shard e = cc e
all_empty (suc (suc j)) shard e = absurd (cc e)

pub cache_fresh :
    (offset : ℕ) (content : List ℕ)
    → Held last_map last_map-IsLruMap (λ k. k.1) cache cache.last_id offset content
    → ⊥
unfolding last_map-IsLruMap
cache_fresh offset content (shard, at, held) =
    absurd (cc (sym (all_empty (offset % 2) shard at) ∙ held))

abbrev pub device : Device
device = λ file bytes. none

abbrev imm : ImmTable ℕ ℕ
imm = (1, some 10) ∷ (2, some 20) ∷ (3, none) ∷ (300, some 40) ∷ (301, some 50) ∷ []

abbrev pub options : BlockTableOptions
options = record { block_size = 24; block_restart_interval = 2; millibits_per_key = 1000 }

file_length : length (write_level0_table format device options 9 (5) imm).1 ≡ 215
unfolding write_level0_table write_entries add_entries new add add_raw make_room need_flush
    new_builder push index_last Data.add restart_due entry_bytes flush write_block write_all seal
    restart_bytes reset_builder finish set_elem shared_prefix Filter.add add_all_entries
    add_hash_prepared add_key add_pending add_probes add_rest calculate_space choose_num_probes
    create_filter_block_builder data_size hash_offset new_bits_builder prepare_hash seal_bits
    seal_filter seal_into set_bit add_item footer_bytes write_filter write_toc
file_length = refl

write_level0_table-Reads_example :
    (done : Flushed format format-IsFormat device (λ file bytes. refl) options 9 5 imm) × Reads
      format format-IsFormat 2 last_map last_map-IsLruMap
      (λ k. k.1)
      false
      2
      done.file
      cache
      ((1, 10) ∷ (2, 20) ∷ (300, 40) ∷ (301, 50) ∷ [])
write_level0_table-Reads_example =
    write_level0_table-Reads format format-IsFormat device (λ file bytes. refl) options last_map
      last_map-IsLruMap (λ k. k.1) 9 5 imm false cache (omega arith) (omega arith) (omega arith)
      (omega (arith, file_length)) (omega arith, refl) cache_fresh

get-insert_example :
    (old : Option (List ℕ)) × (c' : ShardedCache Last) × (found : Option (List ℕ))
    × (c'' : ShardedCache Last) × (Cache.insert last_map (λ k. k.1) 1 5 (7 ∷ []) cache
        ≡ ok (old, c'))
    × (Cache.get last_map (λ k. k.1) 1 5 c' ≡ ok (found, c''))
    × Answer last_map last_map-IsLruMap (λ k. k.1) 1 5 (7 ∷ []) cache 1 5 found
get-insert_example =
    get-insert last_map last_map-IsLruMap (λ k. k.1) 1 5 (7 ∷ []) cache 1 5 (omega arith, refl)
