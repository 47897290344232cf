-- ===== src/Database/Flush/Level0.antt =====
-- The file of a flush has all pairs of the immutable table, and can be read back.
use hybridmvcc.Base.{
  panic, if◌then◌else◌, true, ltb, ℕ, ◌+◌, ◌*◌, ◌^◌, ◌<◌, Bool, Option, none, some, List, [], ◌∷◌,
  ◌++◌, Outcome, ok, ◌≡◌, refl, sym, ap, ◌∙◌, arith, ◌>>=◌, length,
}
use hybridmvcc.Base.{then_with, then_with-ok, append_assoc, append-nil}
use mathlib.Core.Path.{subst}
use hybridmvcc.Cache.{CacheId, LruMap, IsLruMap, ShardedCache}
use hybridmvcc.Cache.Lookups.{Held, Whole}
use hybridmvcc.Memtable.HashTable.{ImmTable}
use hybridmvcc.Table.{TableFileRef, TableFileMeta, new_meta}
use hybridmvcc.Table.BlockTable.{Format}
use hybridmvcc.Table.BlockTable.Builder.{finish, BlockTableBuilder}
use hybridmvcc.Table.BlockTable.Builder.Blocks.{IsFormat}
use hybridmvcc.Table.BlockTable.RoundTrip.{
  IsTableOf, Holds, new-Holds, add-Holds, finish-Holds, Reads, reads_lem,
}
use hybridmvcc.Timestamp.{Timestamp}
use hybridmvcc.Wal.Segment.{Device}
use hybridmvcc.Wal.Segment.Pages.{Accepts}
use hybridmvcc.Database.Flush.{
  BlockTableOptions, create_table_builder, level0_meta, add_entries, write_entries,
  write_level0_table,
}

module _ {K V : Type 0} where
  -- The pairs of an immutable table, without the deleted keys.
  abbrev pub present : ImmTable K V → List (K × V)
  present [] = []
  present ((key, none) ∷ imm) = present imm
  present ((key, some value) ∷ imm) = (key, value) ∷ present imm

  -- The last of some keys, or the one before them.
  abbrev pub last_key : ImmTable K V → Option K → Option K
  last_key [] before = before
  last_key ((key, value) ∷ imm) before = last_key imm (some key)

  abbrev pub first_key : ImmTable K V → Option K
  first_key [] = none
  first_key ((key, value) ∷ imm) = some key

  last_key_lem : (key : K) (imm : ImmTable K V) → (last : K) × (last_key imm (some key) ≡ some last)
  last_key_lem key [] = (key, refl)
  last_key_lem key ((k, value) ∷ imm) = last_key_lem k imm

module _ {K V : Type 0} (f : Format K V) (laws : IsFormat f) (device : Device) (a : Accepts device)
    (options : BlockTableOptions) where
  abbrev Holding : BlockTableBuilder K → List (K × V) → Type 0
  Holding = Holds f laws options.block_restart_interval options.millibits_per_key device a

  -- From a first key on the loop keeps it.
  add_entries_lem :
      (imm : ImmTable K V) (first before : K) (b : BlockTableBuilder K) (pairs : List (K × V))
      → Holding b pairs
      → (after : BlockTableBuilder K) × (add_entries f device imm (some first) (some before) b
          ≡ (ok (some first, last_key imm (some before)), after))
        × Holding after (pairs ++ present imm)
  unfolding add_entries
  add_entries_lem [] first before b pairs h =
      (b, refl, subst (Holding b) (sym (append-nil pairs)) h)
  add_entries_lem ((key, none) ∷ imm) first before b pairs h =
      add_entries_lem imm first key b pairs h
  add_entries_lem ((key, some value) ∷ imm) first before b pairs h =
      let (b', runs, h') =
        add-Holds f laws options.block_restart_interval options.millibits_per_key device a b pairs
          key value h in
      let (after, rest, held) = add_entries_lem imm first key b' (pairs ++ (key, value) ∷ []) h' in
      (
        after,
        then_with-ok (λ _ b'. add_entries f device imm (some first) (some key) b') tt b' runs
            ∙ rest,
        subst (Holding after) (append_assoc pairs ((key, value) ∷ []) (present imm)) held,
      )

  -- The first round sets the first key.
  first_round :
      (key : K) (value : Option V) (imm : ImmTable K V) (b : BlockTableBuilder K)
      → add_entries f device ((key, value) ∷ imm) none none b
        ≡ add_entries f device ((key, value) ∷ imm) (some key) (some key) b
  unfolding add_entries
  first_round key none imm b = refl
  first_round key (some value) imm b = refl

  -- The file of a flush, with its metadata.
  pub record Flushed (file_num : ℕ) (min_xip : Timestamp) (imm : ImmTable K V) : Type 0 where
    pub meta : TableFileMeta K
    pub file : List ℕ
    pub runs : write_level0_table f device options file_num min_xip imm ≡ (ok meta, file)
    pub names : meta.file_ref.seqnum ≡ file_num
    pub since : meta.min_xip ≡ min_xip
    pub size : meta.size ≡ length file
    pub infimum : first_key imm ≡ some meta.infimum
    pub supremum : last_key imm none ≡ some meta.supremum
    pub table : IsTableOf f laws options.block_restart_interval file (present imm)

  write_entries_runs :
      (imm : ImmTable K V) (keys : Option K × Option K) (b b1 b2 : BlockTableBuilder K)
      → add_entries f device imm none none b ≡ (ok keys, b1)
      → finish f device b1 ≡ (ok tt, b2)
      → write_entries f device imm b ≡ (ok keys, b2)
  unfolding write_entries
  write_entries_runs imm keys b b1 b2 adds finishes =
      then_with-ok
        (λ keys b1.
          let r : Outcome (Option K × Option K) × BlockTableBuilder K =
            then_with (finish f device b1) λ _ b2. (ok keys, b2) in
          r)
        keys b1 adds
      ∙ then_with-ok
          (λ _ b2. let r : Outcome (Option K × Option K) × BlockTableBuilder K = (ok keys, b2) in r)
          tt b2 finishes

  -- `write_level0_table` of a table with entries, after its loop.
  abbrev closed :
      ℕ
      → Timestamp
      → Outcome (Option K × Option K) × BlockTableBuilder K
      → Outcome (TableFileMeta K) × List ℕ
  closed file_num min_xip (keys, b) = (
    keys >>= level0_meta (record { path_id = 0; seqnum = file_num }) (length b.out) min_xip,
    b.out,
  )

  flushed_lem :
      (file_num : ℕ) (min_xip : Timestamp) (imm : ImmTable K V)
      → 0 < length imm
      → 0 < options.millibits_per_key
      → length (present imm) * options.millibits_per_key + 511999 < 2 ^ 64
      → Flushed file_num min_xip imm
  unfolding write_level0_table write_entries level0_meta new_meta
  flushed_lem file_num min_xip [] some_entry some_bits small = absurd (omega (arith, some_entry))
  flushed_lem file_num min_xip ((key, value) ∷ imm) some_entry some_bits small =
      let all = (key, value) ∷ imm in
      let b = create_table_builder options in
      let (b1, adds, holds) = add_entries_lem all key key b [] (
        new-Holds f laws options.block_restart_interval options.millibits_per_key device a
          options.block_size) in
      let (b2, finishes, table) =
        finish-Holds f laws options.block_restart_interval options.millibits_per_key device a b1
          (present all) some_bits small holds in
      let (last, is_last) = last_key_lem key imm in
      let not_empty : ltb 0 (length all) ≡ true = ground (arith, some_entry) in
      let file_ref : TableFileRef = record { path_id = 0; seqnum = file_num } in
      record {
        meta = new_meta file_ref (length b2.out) min_xip key last;
        file = b2.out;
        runs =
            ap
              (λ t.
                let r : Outcome (TableFileMeta K) × List ℕ =
                  if t
                  then closed file_num min_xip (write_entries f device all b)
                  else (panic, []) in
                r)
              not_empty
            ∙ ap (closed file_num min_xip) (
                write_entries_runs all (some key, last_key imm (some key)) b b1 b2
                  (first_round key value imm b ∙ adds) finishes)
            ∙ ap (λ k. closed file_num min_xip (ok (some key, k), b2)) is_last;
        names = refl;
        since = refl;
        size = refl;
        infimum = refl;
        supremum = is_last;
        table = table;
      }

  module _ {L : Type 0} (m : LruMap L (CacheId × ℕ) (List ℕ)) (lru : IsLruMap m)
      (hash : CacheId × ℕ → ℕ) where
    -- A flush of an immutable table with at least one entry, on a device that takes every write,
    -- succeeds, when the filter has bits and their total does not overflow a word. The metadata has the
    -- file's number, its size, the `min_xip` given, and the first and the last key, deleted ones
    -- included. When the file is shorter than 2 ^ 32 bytes, opening it and iterating over it, through
    -- a cache that has all its shards and nothing under the identifier that it gives out next, gives
    -- the pairs of the immutable table in their order, without the deleted keys, and then ends, with
    -- fuel 2 for `next`, both for scans and for compactions.
    pub write_level0_table-Reads :
        (file_num : ℕ) (min_xip : Timestamp) (imm : ImmTable K V) (for_compaction : Bool)
        (cache : ShardedCache L)
        → 0 < length imm
        → 0 < options.millibits_per_key
        → length (present imm) * options.millibits_per_key + 511999 < 2 ^ 64
        → length (write_level0_table f device options file_num min_xip imm).1 < 2 ^ 32
        → Whole m lru hash cache
        → ((offset : ℕ) (content : List ℕ) → Held m lru hash cache cache.last_id offset content → ⊥)
        → (done : Flushed file_num min_xip imm) × Reads f laws options.block_restart_interval m lru
            hash for_compaction 2 done.file cache
            (present imm)
    write_level0_table-Reads file_num min_xip imm for_compaction cache some_entry some_bits small
          short whole fresh =
        let done = flushed_lem file_num min_xip imm some_entry some_bits small in
        (
          done,
          reads_lem f laws options.block_restart_interval m lru hash for_compaction 0 done.file
              cache (present imm) done.table
              (omega (arith, short, ap (λ run. length run.1) done.runs)) whole fresh,
        )
