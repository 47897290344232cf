-- ===== src/Table/BlockTable/Reader/Iteration.antt =====
-- The iterator of a table gives the pairs of all its blocks in their order.
use hybridmvcc.Base.{
  ℕ, suc, ◌<◌, Bool, true, false, Option, none, some, List, [], ◌∷◌, ◌++◌, Outcome, ok, err, panic,
  ◌≡◌, refl, sym, ap, ◌∙◌, arith, All, ◌>>=◌, length,
}
use hybridmvcc.Base.{map, then_with}
use mathlib.Core.Path.{subst}
use hybridmvcc.Base.{length-append}
use hybridmvcc.Block.Data
use hybridmvcc.Block.Data.{DataBlockIterator}
use hybridmvcc.Block.Data.Iteration.{Entry, Gives, seal-Gives}
use hybridmvcc.Cache.{CacheId, LruMap, IsLruMap, ShardedCache}
use hybridmvcc.MergingIter.Rows.{Yields}
use hybridmvcc.Table.BlockTable.{Format, ItemPointer}
use hybridmvcc.Table.BlockTable.Builder.Blocks.{IsFormat, entry}
use hybridmvcc.Table.BlockTable.Builder.Invariant.{image, image, Placed, entries_of, index_entry}
use hybridmvcc.Table.BlockTable.Reader.{get_block, BlockTableReader}
use hybridmvcc.Table.BlockTable.Reader.Iterator.{
  BlockTableIterator, load_block, get_next_block, deserialize_pair, next, table_iterator,
}
use hybridmvcc.Table.BlockTable.Reader.Blocks.{Cached, Sound, get_block_lem}

cons_injective : {A : Type 0} {x y : A} {xs ys : List A} → x ∷ xs ≡ y ∷ ys → (x ≡ y) × (xs ≡ ys)
cons_injective e = (cc e, cc e)

first_entry :
    (es : List Entry) → 0 < length es → (e : Entry) × (rest : List Entry) × (es ≡ e ∷ rest)
first_entry [] h = absurd (omega (arith, h))
first_entry (e ∷ rest) h = (e, rest, refl)

module _ {K V L : Type 0} (f : Format K V) (laws : IsFormat f) (interval : ℕ)
    (m : LruMap L (CacheId × ℕ) (List ℕ)) (lru : IsLruMap m) (hash : CacheId × ℕ → ℕ)
    (table : BlockTableReader) (bs : List (Placed K)) where
  abbrev It : Type 0
  It = BlockTableIterator f m hash

  -- An iterator that has these blocks before it.
  pub record Before (it : It) (rest : List (Placed K)) : Type 0 where
    pub table_is : it.table ≡ table
    pub cached : Cached f laws interval m lru hash table bs it.cache
    pub index : Gives f.varint laws.varints it.index_iter (map (index_entry f laws interval) rest)

  record Entered (it : It) (x : Placed K) (rest : List (Placed K)) : Type 0 where
    block : DataBlockIterator
    after : It
    runs : get_next_block f m hash it ≡ (ok true, after)
    in_block : after.block_iter ≡ some block
    gives : Gives f.varint laws.varints block x.entries
    before : Before after rest

  -- `load_block` once the block is fetched.
  abbrev loaded : It → Outcome (List ℕ) × ShardedCache L → Outcome (Unit {0}) × It
  loaded it (got, cache) =
      let it' : It = record it { cache = cache } in
      elim (got >>= λ contents. Data.new_iterator f.order contents) [
        | ok block_iter ↦ (ok tt, record it' { block_iter = some block_iter })
        | err e ↦ (err e, it')
        | panic ↦ (panic, it')
      ]

  load_runs :
      (it : It) (p : ItemPointer) (content : List ℕ) (cache : ShardedCache L)
      (block : DataBlockIterator)
      → get_block f m hash it.table p it.for_compaction it.cache ≡ (ok content, cache)
      → Data.new_iterator f.order content ≡ ok block
      → load_block f m hash p it ≡ (ok tt, (record it { cache = cache; block_iter = some block }))
  unfolding load_block
  load_runs it p content cache block got starts = ap (loaded it) got ∙ rw (starts, loaded) refl

  enter_runs :
      (it : It) (key ptr content : List ℕ) (index' block : DataBlockIterator) (p : ItemPointer)
      (cache : ShardedCache L)
      → Data.next f.varint it.index_iter ≡ ok (some (key, ptr), index')
      → f.pointers.deserialize ptr ≡ some p
      → get_block f m hash it.table p it.for_compaction it.cache ≡ (ok content, cache)
      → Data.new_iterator f.order content ≡ ok block
      → get_next_block f m hash it
        ≡ (ok true, (record it { index_iter = index'; cache = cache; block_iter = some block }))
  unfolding get_next_block
  enter_runs it key ptr content index' block p cache step back got starts =
      rw (step, back, get_next_block)
        (ap (λ run. let r : Outcome Bool × It = then_with run λ _ it. (ok true, it) in r)
          (load_runs (record it { index_iter = index' }) p content cache block got starts))

  enter_lem :
      (it : It) (x : Placed K) (rest : List (Placed K))
      → Sound f laws interval m lru hash table bs x
      → Before it (x ∷ rest)
      → Entered it x rest
  unfolding Gives
  enter_lem it x rest s h =
      let (index', step, gives) = h.index in
      let got =
        get_block_lem f laws interval m lru hash table bs x it.for_compaction it.cache s h.cached in
      let got' : get_block f m hash it.table x.ptr it.for_compaction it.cache
          ≡ (ok (image f laws interval x.entries), got.after) =
        ap (λ t. get_block f m hash t x.ptr it.for_compaction it.cache) h.table_is ∙ got.runs in
      let (block, starts, block_gives) =
        seal-Gives f.order f.varint laws.words laws.varints interval x.entries s.small s.few in
      let after : It = record it {
        index_iter = index';
        cache = got.after;
        block_iter = some block;
      } in
      record {
        block = block;
        after = after;
        runs =
            enter_runs it (f.keys.serialize x.key) (f.pointers.serialize x.ptr)
              (image f laws interval x.entries) index' block x.ptr got.after step
              (laws.pointers_back x.ptr s.fits.0 s.fits.1) got' starts;
        in_block = refl;
        gives = block_gives;
        before = record { table_is = h.table_is; cached = got.cached; index = gives };
      }

  no_block_runs :
      (it : It) (index' : DataBlockIterator)
      → Data.next f.varint it.index_iter ≡ ok (none, index')
      → get_next_block f m hash it ≡ (ok false, (record it { index_iter = index' }))
  unfolding get_next_block
  no_block_runs it index' step = rw (step, get_next_block) refl

  no_block_lem :
      (it : It) → Before it [] → (after : It) × (get_next_block f m hash it ≡ (ok false, after))
  unfolding Gives
  no_block_lem it h =
      let (index', step) = h.index in
      let after : It = record it { index_iter = index' } in (after, no_block_runs it index' step)

  -- In front of these entries of a block, or of no block.
  pub data Inside (it : It) : List Entry → Type 0 where
    outside : it.block_iter ≡ none → Inside it []
    inside :
        {es : List Entry} (block : DataBlockIterator)
        → it.block_iter ≡ some block
        → Gives f.varint laws.varints block es
        → Inside it es

  pair_lem : (pair : K × V) → deserialize_pair f m hash (entry f pair) ≡ ok pair
  unfolding deserialize_pair
  pair_lem (key, value) = simp (laws.keys_back.read_back key, laws.values_back.read_back value) refl

  -- At an entry of a block it is given.
  next_inside :
      (fuel : ℕ) (it : It) (pair : K × V) (es : List Entry) (block : DataBlockIterator)
      → it.block_iter ≡ some block
      → Gives f.varint laws.varints block (entry f pair ∷ es)
      → (block' : DataBlockIterator) × Gives f.varint laws.varints block' es
        × (next f m hash (suc fuel) it ≡ (ok (some pair), (record it { block_iter = some block' })))
  unfolding next Gives
  next_inside fuel it pair es block e (block', step, gives) =
      (block', gives, rw (e, step, pair_lem pair, next) refl)

  -- What `next` does at the end of a block.
  abbrev next_after : ℕ → Outcome Bool × It → Outcome (Option (K × V)) × It
  next_after fuel run =
      then_with run λ more it'. elim more [ true ↦ next f m hash fuel it' | false ↦ (ok none, it') ]

  next_past :
      (fuel : ℕ) (it : It)
      → Inside it []
      → next f m hash (suc fuel) it
        ≡ next_after fuel (get_next_block f m hash (record it { block_iter = none }))
  unfolding next Gives
  next_past fuel it (outside e) =
      let same : it ≡ record it { block_iter = none } =
        ap (λ b. let i : It = record it { block_iter = b } in i) e in
      rw (e, next) (ap (λ i. next_after fuel (get_next_block f m hash i)) same)
  next_past fuel it (inside block e (block', step)) = rw (e, step, next) refl

  abbrev Sounds : List (Placed K) → Type 0
  Sounds = All (Sound f laws interval m lru hash table bs)

  without :
      (it : It) (rest : List (Placed K))
      → Before it rest
      → Before (record it { block_iter = none }) rest
  without it rest h = record { table_is = h.table_is; cached = h.cached; index = h.index }

  -- Fuel 2 is enough: a block has entries.
  pub yields_lem :
      (fuel : ℕ) (pairs : List (K × V)) (it : It) (current : List Entry) (rest : List (Placed K))
      → Inside it current
      → Before it rest
      → Sounds rest
      → current ++ entries_of rest ≡ map (entry f) pairs
      → Yields (table_iterator f m hash (suc (suc fuel))) it pairs
  unfolding Yields table_iterator
  yields_lem fuel [] it [] [] at before sounds e =
      let it' : It = record it { block_iter = none } in
      let (after, none_left) = no_block_lem it' (without it [] before) in
      (after, next_past (suc fuel) it at ∙ ap (next_after (suc fuel)) none_left)
  yields_lem fuel (pair ∷ pairs) it [] [] at before sounds e = absurd (cc e)
  yields_lem fuel [] it (c ∷ cs) rest at before sounds e = absurd (cc e)
  yields_lem fuel (pair ∷ pairs) it (c ∷ cs) rest (inside block in_block gives) before sounds e =
      let (head, tail) = cons_injective e in
      let (block', gives', run) =
        next_inside (suc fuel) it pair cs block in_block
          (subst (λ x. Gives f.varint laws.varints block (x ∷ cs)) head gives) in
      let it' : It = record it { block_iter = some block' } in
      (
        it',
        run,
        yields_lem fuel pairs it' cs rest (inside block' refl gives')
            (record { table_is = before.table_is; cached = before.cached; index = before.index })
            sounds tail,
      )
  yields_lem fuel [] it [] (x ∷ rest) at before sounds e =
      absurd
        (omega (arith, sounds.0.nonempty, ap length e, length-append x.entries (entries_of rest)))
  yields_lem fuel (pair ∷ pairs) it [] (x ∷ rest) at before sounds e =
      let en =
        enter_lem (record it { block_iter = none }) x rest sounds.0
          (without it (x ∷ rest) before) in
      let (c, cs, is) = first_entry x.entries sounds.0.nonempty in
      let (head, tail) = cons_injective (ap (λ t. t ++ entries_of rest) (sym is) ∙ e) in
      let (block', gives', run) =
        next_inside fuel en.after pair cs en.block en.in_block
          (subst (Gives f.varint laws.varints en.block) (is ∙ ap (λ y. y ∷ cs) head) en.gives) in
      let it' : It = record en.after { block_iter = some block' } in
      (
        it',
        next_past (suc fuel) it at ∙ ap (next_after (suc fuel)) en.runs ∙ run,
        yields_lem fuel pairs it' cs rest (inside block' refl gives')
            (record {
              table_is = en.before.table_is;
              cached = en.before.cached;
              index = en.before.index;
            })
            sounds.1 tail,
      )
