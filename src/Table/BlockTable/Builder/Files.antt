-- ===== src/Table/BlockTable/Builder/Files.antt =====
-- The file that a table builder leaves: blocks, filter, index and footer.
use hybridmvcc.Base.{
  ℕ, Option, none, some, List, [], ◌∷◌, ◌++◌, Outcome, ok, ◌≡◌, inl, inr, refl, sym, ap, ◌∙◌,
  Bool-cases,
}
use hybridmvcc.Block.Data
use hybridmvcc.Block.Filter.Membership
use hybridmvcc.Block.Filter
use hybridmvcc.Base.{then_with, map, append-nil, append_assoc}
use hybridmvcc.Block.Data.{DataBlockBuilder, new_builder, reset_builder, seal}
use hybridmvcc.Block.Data.Iteration.{Entry, add_all-append}
use hybridmvcc.Block.Filter.{FullFilterBlockBuilder, create_filter_block_builder, seal_filter}
use hybridmvcc.Wal.Segment.{Device}
use hybridmvcc.Wal.Segment.Pages.{Accepts}
use hybridmvcc.Table.BlockTable.{Format, ItemPointer}
use hybridmvcc.Table.BlockTable.Builder.{
  BlockTableBuilder, index_last, push, make_room, add_raw, add, need_flush,
}
use hybridmvcc.Table.BlockTable.Builder.Blocks.{IsFormat, entry}
use hybridmvcc.Table.BlockTable.Builder.Invariant.{Placed, entries_of, map-append, Built}
use hybridmvcc.Table.BlockTable.Builder.Flushes.{flush_lem}

module _ {K V : Type 0} (f : Format K V) (laws : IsFormat f) (interval millibits : ℕ)
    (device : Device) (a : Accepts device) where
  filter-add_all :
      (b : FullFilterBlockBuilder) (keys : List (List ℕ)) (key : List ℕ)
      → Membership.add_all f.hash64 b (keys ++ key ∷ [])
        ≡ Filter.add f.hash64 key (Membership.add_all f.hash64 b keys)
  filter-add_all b [] key = refl
  filter-add_all b (k ∷ keys) key = filter-add_all (Filter.add f.hash64 k b) keys key

  -- The builder behind an entry, with its key.
  abbrev pushed : K → V → BlockTableBuilder K → BlockTableBuilder K
  pushed key value b =
      let b' = push f device (f.keys.serialize key) (f.values.serialize value) b in
      record b' { last_key = some key }

  pushed-Built :
      (b : BlockTableBuilder K) (bs : List (Placed K)) (current : List Entry) (key : K) (value : V)
      → Built f laws interval millibits b bs current
      → Built f laws interval millibits
          (pushed key value b)
          bs
          (current ++ entry f (key, value) ∷ [])
  unfolding push
  pushed-Built b bs current key value h =
      let k = f.keys.serialize key in
      let v = f.values.serialize value in
      let first = λ (e : Entry). e.0 in
      record {
        block =
            ap (λ t. Data.add f.varint t k v) h.block
            ∙ sym (add_all-append f.varint laws.varints (new_builder interval) current k v);
        index = h.index;
        at_end = h.at_end;
        stored = h.stored;
        nonempty = h.nonempty;
        below = h.below;
        found = h.found;
        last = inr (key, refl);
        filter =
            ap
              (λ (t : Option FullFilterBlockBuilder).
                let r : Option FullFilterBlockBuilder = elim t [
                  | none ↦ none
                  | some filter ↦ some (Filter.add f.hash64 k filter)
                ] in
                r)
              h.filter
            ∙ ap some (
                sym (
                  filter-add_all (create_filter_block_builder millibits)
                    (map first (entries_of bs ++ current)) k)
                ∙ ap (Membership.add_all f.hash64 (create_filter_block_builder millibits)) (
                    sym (map-append first (entries_of bs ++ current) (k, v))
                    ∙ ap (map first) (append_assoc (entries_of bs) current ((k, v) ∷ []))));
      }

  record Roomy (b : BlockTableBuilder K) (bs : List (Placed K)) (current : List Entry)
      (k v : List ℕ) : Type 0 where
    ptr : Option ItemPointer
    after : BlockTableBuilder K
    placed : List (Placed K)
    rest : List Entry
    runs : make_room f device k v b ≡ (ok ptr, after)
    built : Built f laws interval millibits (index_last f device ptr after) placed rest
    same : entries_of placed ++ rest ≡ entries_of bs ++ current

  make_room_lem :
      (b : BlockTableBuilder K) (bs : List (Placed K)) (current : List Entry) (k v : List ℕ)
      → Built f laws interval millibits b bs current
      → Roomy b bs current k v
  unfolding make_room index_last
  make_room_lem b bs current k v h = elim (Bool-cases (need_flush b k v)) [
    | inl full ↦
        let r = flush_lem f laws interval millibits device a b bs current h in
        record {
          ptr = r.ptr;
          after = r.after;
          placed = r.placed;
          rest = [];
          runs = rw full r.runs;
          built = r.built;
          same = append-nil (entries_of r.placed) ∙ r.same;
        }
    | inr room ↦ record {
      ptr = none;
      after = b;
      placed = bs;
      rest = current;
      runs = rw room refl;
      built = h;
      same = refl;
    }
  ]

  -- `add` goes through, and the entry stands behind those before.
  pub add_lem :
      (b : BlockTableBuilder K) (bs : List (Placed K)) (current : List Entry) (key : K) (value : V)
      → Built f laws interval millibits b bs current
      → (after : BlockTableBuilder K) × (placed : List (Placed K)) × (rest : List Entry) × (add f
            device key value b
          ≡ (ok tt, after))
        × Built f laws interval millibits after placed rest
        × (entries_of placed ++ rest ≡ entries_of bs ++ current ++ entry f (key, value) ∷ [])
  unfolding add add_raw
  add_lem b bs current key value h =
      let k = f.keys.serialize key in
      let v = f.values.serialize value in
      let r = make_room_lem b bs current k v h in
      (
        pushed key value (index_last f device r.ptr r.after),
        r.placed,
        r.rest ++ (k, v) ∷ [],
        ap
            (λ (run : Outcome (Option ItemPointer) × BlockTableBuilder K).
              let s : Outcome (Unit {0}) × BlockTableBuilder K =
                then_with run λ ptr b'. (ok tt, push f device k v (index_last f device ptr b')) in
              let t : Outcome (Unit {0}) × BlockTableBuilder K =
                then_with s λ _ b'. (ok tt, record b' { last_key = some key }) in
              t)
            r.runs,
        pushed-Built (index_last f device r.ptr r.after) r.placed r.rest key value r.built,
        sym (append_assoc (entries_of r.placed) r.rest ((k, v) ∷ []))
            ∙ ap (λ t. t ++ (k, v) ∷ []) r.same,
      )
