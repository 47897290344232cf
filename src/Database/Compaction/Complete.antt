-- ===== src/Database/Compaction/Complete.antt =====
-- The outer loop of a compaction: all its output files together have all pairs of the merge.
use hybridmvcc.Base.{
  Bool, ℕ, zero, suc, ◌+◌, ◌*◌, ◌%◌, ◌^◌, ◌<◌, ◌≤◌, Option, none, some, List, [], ◌∷◌, ◌++◌,
  Outcome, ok, ◌≡◌, refl, sym, ap, ◌∙◌, arith, All, length,
}
use hybridmvcc.Base.{then_with, then_with-ok, append_assoc, append-nil, length-append, map}
use mathlib.Core.Path.{subst}
use hybridmvcc.Cache.{CacheId, LruMap, IsLruMap, ShardedCache}
use hybridmvcc.Cache.Lookups.{Held, Whole}
use native.Mathlib.Nat.{mul-le-mul_right}
use hybridmvcc.Database.Flush.{BlockTableOptions}
use hybridmvcc.Database.Compaction.{Work, store, stepped, build_output, write_outputs}
use hybridmvcc.Database.Compaction.Outputs.{Fused, EndsIn, build_lem}
use hybridmvcc.MergingIter.{TableIterator}
use hybridmvcc.MergingIter.Rows.{Yields}
use hybridmvcc.Table.{TableFileRef, TableFileMeta, new_meta}
use hybridmvcc.Table.BlockTable.{Format}
use hybridmvcc.Table.BlockTable.Builder.Blocks.{IsFormat}
use hybridmvcc.Table.BlockTable.RoundTrip.{Reads, reads_lem, IsTableOf}
use hybridmvcc.Timestamp.{invalid_timestamp}
use hybridmvcc.Version.{add_file}
use hybridmvcc.Wal.Segment.{Device}
use hybridmvcc.Wal.Segment.Pages.{Accepts}

-- A file with its metadata and the pairs that it has.
pub record Output (K V : Type 0) : Type 0 where
  pub meta : TableFileMeta K
  pub file : List ℕ
  pub pairs : List (K × V)

abbrev pub all_pairs : {K V : Type 0} → List (Output K V) → List (K × V)
all_pairs [] = []
all_pairs (o ∷ os) = o.pairs ++ all_pairs os

-- The numbers of the files count up from this one.
abbrev pub Numbered : {K V : Type 0} → ℕ → List (Output K V) → Type 0
Numbered n [] = Unit {0}
Numbered n (o ∷ os) = (o.meta.file_ref.seqnum ≡ n) × Numbered ((n + 1) % 2 ^ 64) os

module _ {K V I : Type 0} (f : Format K V) (laws : IsFormat f) (device : Device)
    (a : Accepts device) (options : BlockTableOptions) (t : TableIterator K V I)
    (output_level max_file_size : ℕ) where
  pub record Sound (o : Output K V) : Type 0 where
    pub table : IsTableOf f laws options.block_restart_interval o.file o.pairs
    pub size : o.meta.size ≡ length o.file
    pub infimum : (value : V) × (rest : List (K × V)) × (o.pairs ≡ (o.meta.infimum, value) ∷ rest)
    pub supremum :
        EndsIn f laws device a options t output_level max_file_size o.meta.supremum o.pairs

  pub record Written (fuel : ℕ) (w : Work K I) (pairs : List (K × V)) : Type 0 where
    pub outputs : List (Output K V)
    pub after : Work K I
    pub runs : write_outputs f device options t output_level max_file_size fuel w ≡ (ok tt, after)
    pub files :
        after.files ≡ w.files ++ map (λ (o : Output K V). (o.meta.file_ref.seqnum, o.file)) outputs
    pub edit :
        after.edit.add_files
        ≡ w.edit.add_files ++ map (λ (o : Output K V). (output_level, o.meta)) outputs
    pub numbers : Numbered w.next_file_num outputs
    pub sound : All Sound outputs
    pub holds : all_pairs outputs ≡ pairs

  -- A round of the outer loop, from its new file on, and from what the merge answers.
  abbrev enter_file : ℕ → TableFileMeta K → Work K I → Outcome (Unit {0}) × Work K I
  enter_file fuel meta w =
      write_outputs f device options t output_level max_file_size fuel
        (record w { edit = add_file w.edit output_level meta })

  abbrev round : ℕ → Option (K × V) → Work K I → Outcome (Unit {0}) × Work K I
  round fuel found w = elim found [
    | none ↦ (ok tt, w)
    | some (k, v) ↦
        then_with
          (store f device options t output_level max_file_size k
            (build_output f device options t output_level max_file_size fuel k v w.citer) w)
          (enter_file fuel)
  ]

  -- The loop succeeds, and its files have exactly the pairs of the merge in their order.
  pub write_outputs-Written :
      (fuel : ℕ) (w : Work K I) (pairs : List (K × V))
      → Fused f laws device a options t output_level max_file_size
      → 0 < options.millibits_per_key
      → length pairs * options.millibits_per_key + 511999 < 2 ^ 64
      → length pairs < fuel
      → Yields t w.citer pairs
      → Written fuel w pairs
  unfolding write_outputs Yields store add_file new_meta
  write_outputs-Written zero w pairs fused some_bits small enough y = absurd (omega (arith, enough))
  write_outputs-Written (suc fuel) w [] fused some_bits small enough (citer, e) = record {
    outputs = [];
    after = record w { citer = citer };
    runs =
        then_with-ok (round fuel) none (record w { citer = citer })
          (ap (λ run. stepped f device options t output_level max_file_size run w) e);
    files = sym (append-nil w.files);
    edit = sym (append-nil w.edit.add_files);
    numbers = tt;
    sound = tt;
    holds = refl;
  }
  write_outputs-Written (suc fuel) w ((k, v) ∷ rest) fused some_bits small enough (citer, e, y) =
      let b =
        build_lem f laws device a options t output_level max_file_size fuel k v citer rest fused
          some_bits small (omega (arith, enough)) y in
      let n = w.next_file_num in
      let file_ref : TableFileRef = record { path_id = 0; seqnum = n } in
      let meta = new_meta file_ref (length b.after.out) invalid_timestamp k b.last_key in
      let w1 : Work K I = record w { citer = citer } in
      let w2 : Work K I = record w1 {
        citer = b.citer_after;
        next_file_num = (n + 1) % 2 ^ 64;
        files = w.files ++ (n, b.after.out) ∷ [];
      } in
      let w3 : Work K I = record w2 { edit = add_file w2.edit output_level meta } in
      let fewer : length b.left ≤ suc (length rest) =
        omega (arith, ap length b.all, length-append b.taken b.left) in
      let r =
        write_outputs-Written fuel w3 b.left fused some_bits
          (omega (arith, small, mul-le-mul_right options.millibits_per_key fewer))
          (omega (arith, enough, ap length b.all, length-append b.taken b.left)) b.yields in
      record {
        outputs =
            (record { meta = meta; file = b.after.out; pairs = (k, v) ∷ b.taken }) ∷ r.outputs;
        after = r.after;
        runs =
            then_with-ok (round fuel) (some (k, v)) w1
              (ap (λ run. stepped f device options t output_level max_file_size run w) e)
            ∙ then_with-ok (enter_file fuel) meta w2
                (ap (λ run. store f device options t output_level max_file_size k run w1) b.runs)
            ∙ r.runs;
        files =
            r.files
            ∙ append_assoc w.files ((n, b.after.out) ∷ [])
                (map (λ (o : Output K V). (o.meta.file_ref.seqnum, o.file)) r.outputs);
        edit =
            r.edit
            ∙ append_assoc w.edit.add_files ((output_level, meta) ∷ [])
                (map (λ (o : Output K V). (output_level, o.meta)) r.outputs);
        numbers = (refl, r.numbers);
        sound = (
          record { table = b.table; size = refl; infimum = (v, b.taken, refl); supremum = b.ends },
          r.sound,
        );
        holds = ap (λ xs. (k, v) ∷ xs) (ap (λ xs. b.taken ++ xs) r.holds ∙ b.all);
      }

  module _ {L : Type 0} (m : LruMap L (CacheId × ℕ) (List ℕ)) (lru : IsLruMap m)
      (hash : CacheId × ℕ → ℕ) (for_compaction : Bool) (cache : ShardedCache L)
      (whole : Whole m lru hash cache)
      (fresh : (offset : ℕ) (content : List ℕ)
        → Held m lru hash cache cache.last_id offset content
        → ⊥) where
    -- Each file gives its pairs back.
    abbrev pub ReadBack : Output K V → Type 0
    ReadBack o =
        Reads f laws options.block_restart_interval m lru hash for_compaction 2 o.file cache o.pairs

    all_read :
        (os : List (Output K V))
        → All Sound os
        → All
            (λ (x : ℕ × List ℕ). length x.1 < 2 ^ 32)
            (map (λ (o : Output K V). (o.meta.file_ref.seqnum, o.file)) os)
        → All ReadBack os
    all_read [] sound short = tt
    all_read (o ∷ os) (s, sound) (h, short) = (
      reads_lem f laws options.block_restart_interval m lru hash for_compaction 0 o.file cache
          o.pairs s.table h whole fresh,
      all_read os sound short,
    )

    -- On a device that takes every write, and for an iterator that gives some pairs one by one and
    -- then says that it is at its end as often as it is asked, the loop of a compaction succeeds with
    -- more fuel than pairs, when the filters have bits and their total does not overflow a word. The
    -- files that it writes, put one behind the other, have exactly these pairs in their order. They
    -- are numbered upwards from the next number, and each is entered in the edit for the output level
    -- with its size and with the first and the last of its keys.
    -- When the files, of which there were none before, are all shorter than 2 ^ 32 bytes, opening one
    -- and iterating over it, through a cache that has all its shards and nothing under the
    -- identifier that it gives out next, gives its share of the pairs.
    pub write_outputs-Reads :
        (fuel : ℕ) (w : Work K I) (pairs : List (K × V))
        → Fused f laws device a options t output_level max_file_size
        → 0 < options.millibits_per_key
        → length pairs * options.millibits_per_key + 511999 < 2 ^ 64
        → length pairs < fuel
        → Yields t w.citer pairs
        → w.files ≡ []
        → All
            (λ (x : ℕ × List ℕ). length x.1 < 2 ^ 32)
            (write_outputs f device options t output_level max_file_size fuel w).1.files
        → (written : Written fuel w pairs) × All ReadBack written.outputs
    write_outputs-Reads fuel w pairs fused some_bits small enough y none_before short =
        let written = write_outputs-Written fuel w pairs fused some_bits small enough y in
        let files =
          ap (λ run. run.1.files) written.runs
          ∙ written.files
          ∙ ap
              (λ before.
                before
                ++ map (λ (o : Output K V). (o.meta.file_ref.seqnum, o.file)) written.outputs)
              none_before in
        (
          written,
          all_read written.outputs written.sound
              (subst (All (λ (x : ℕ × List ℕ). length x.1 < 2 ^ 32)) files short),
        )
