-- ===== src/Table/BlockTable/Builder/Invariant.antt =====
-- What a table builder holds: the file has all blocks so far, the index their pointers, the block
-- builder the entries since, and the filter all keys.
use hybridmvcc.Base.{
  ℕ, ◌<◌, true, false, Option, none, some, List, [], ◌∷◌, ◌++◌, ◌==◌, ◌≡◌, ◌⊎◌, inl, inr, refl, sym,
  ap, ◌∙◌, arith, All, if◌then◌else◌, Bool-cases, length,
}
use hybridmvcc.Base.{map, append-nil, append_assoc}
use hybridmvcc.Block.Data.{DataBlockBuilder, new_builder, reset_builder, seal}
use hybridmvcc.Block.Data.Iteration.{Entry, add_all, interval-add_all}
use hybridmvcc.Block.Filter.{create_filter_block_builder}
use hybridmvcc.Block.Filter.Membership
use hybridmvcc.Table.BlockTable.{Format, ItemPointer}
use hybridmvcc.Table.BlockTable.Builder.{BlockTableBuilder}
use hybridmvcc.Table.BlockTable.Builder.Blocks.{IsFormat, Stored}

-- A block that is in the file, with the key that the index has it under.
pub record Placed (K : Type 0) : Type 0 where
  pub entries : List Entry
  pub key : K
  pub ptr : ItemPointer

abbrev pub entries_of : {K : Type 0} → List (Placed K) → List Entry
entries_of [] = []
entries_of (b ∷ bs) = b.entries ++ entries_of bs

pub All-imp :
    {A : Type 0} (P Q : A → Type 0) (xs : List A) → ((x : A) → P x → Q x) → All P xs → All Q xs
All-imp P Q [] f ps = tt
All-imp P Q (x ∷ xs) f (p, ps) = (f x p, All-imp P Q xs f ps)

pub All-append :
    {A : Type 0} (P : A → Type 0) (xs : List A) (y : A) → All P xs → P y → All P (xs ++ y ∷ [])
All-append P [] y ps p = (p, tt)
All-append P (x ∷ xs) y (q, ps) p = (q, All-append P xs y ps p)

pub entries_of-append :
    {K : Type 0} (bs : List (Placed K)) (b : Placed K)
    → entries_of (bs ++ b ∷ []) ≡ entries_of bs ++ b.entries
entries_of-append [] b = append-nil b.entries
entries_of-append (x ∷ bs) b =
    ap (λ t. x.entries ++ t) (entries_of-append bs b)
    ∙ sym (append_assoc x.entries (entries_of bs) b.entries)

pub map-append :
    {A B : Type 0} (g : A → B) (xs : List A) (y : A) → map g (xs ++ y ∷ []) ≡ map g xs ++ g y ∷ []
map-append g [] y = refl
map-append g (x ∷ xs) y = ap (λ t. g x ∷ t) (map-append g xs y)

module _ {K V : Type 0} (f : Format K V) (laws : IsFormat f) (interval : ℕ) where
  abbrev pub block_of : List Entry → DataBlockBuilder
  block_of es = add_all f.varint laws.varints (new_builder interval) es

  abbrev pub image : List Entry → List ℕ
  image es = (seal f.order (block_of es)).0

  abbrev pub index_entry : Placed K → Entry
  index_entry b = (f.keys.serialize b.key, f.pointers.serialize b.ptr)

  -- The block that the pointers say is at an offset.
  abbrev pub content_at : List (Placed K) → ℕ → Option (List ℕ)
  content_at [] offset = none
  content_at (b ∷ bs) offset =
      if b.ptr.offset == offset then some (image b.entries) else content_at bs offset

  pub content_at-append :
      (bs : List (Placed K)) (b : Placed K) (offset : ℕ) (content : List ℕ)
      → content_at bs offset ≡ some content
      → content_at (bs ++ b ∷ []) offset ≡ some content
  content_at-append [] b offset content e = absurd (cc e)
  content_at-append (x ∷ bs) b offset content e = elim (Bool-cases (x.ptr.offset == offset)) [
    | inl same ↦ rw same (rw same at e)
    | inr other ↦ rw other (content_at-append bs b offset content (rw other at e))
  ]

  pub content_at-last :
      (bs : List (Placed K)) (b : Placed K)
      → All (λ (x : Placed K). x.ptr.offset < b.ptr.offset) bs
      → content_at (bs ++ b ∷ []) b.ptr.offset ≡ some (image b.entries)
  content_at-last [] b below =
      let same : (b.ptr.offset == b.ptr.offset) ≡ true = ground arith in rw same refl
  content_at-last (x ∷ bs) b (lt, below) =
      let other : (x.ptr.offset == b.ptr.offset) ≡ false = ground (arith, lt) in
      rw other (content_at-last bs b below)

  pub record Built (millibits : ℕ) (b : BlockTableBuilder K) (bs : List (Placed K))
      (current : List Entry) : Type 0 where
    pub block : b.block_builder ≡ block_of current
    pub index : b.index_builder ≡ block_of (map index_entry bs)
    pub at_end : b.out_offset ≡ length b.out
    pub stored : All (λ (x : Placed K). Stored f b.out x.ptr (image x.entries)) bs
    pub nonempty : All (λ (x : Placed K). 0 < length x.entries) bs
    pub below : All (λ (x : Placed K). x.ptr.offset < length b.out) bs
    pub found : All (λ (x : Placed K). content_at bs x.ptr.offset ≡ some (image x.entries)) bs
    pub last : (current ≡ []) ⊎ ((key : K) × (b.last_key ≡ some key))
    pub filter :
        b.filter_builder
        ≡ some (
            Membership.add_all f.hash64
              (create_filter_block_builder millibits)
              (map (λ (e : Entry). e.0) (entries_of bs ++ current)))

  pub reset-seal :
      (es : List Entry) → reset_builder (seal f.order (block_of es)).1 ≡ new_builder interval
  unfolding reset_builder seal new_builder
  reset-seal es =
      ap
        (λ n.
          let b : DataBlockBuilder = record {
            buffer = [];
            restarts = 0 ∷ [];
            restart_interval = n;
            last_key = none;
            restart_counter = 0;
          } in
          b)
        (interval-add_all f.varint laws.varints (new_builder interval) es)
