-- ===== src/Memtable/HashTable/Flushes.antt =====
-- The two phases of a flush on the whole table of src/memtable/hash_memtable.rs, key by key.
use hybridmvcc.Base.{
  ℕ, Option, none, some, List, [], ◌∷◌, ◌≡◌, inl, inr, refl, ap, ◌∙◌, arith, Ord, key_eq,
  Option-cases, Bool-cases,
}
use hybridmvcc.Memtable.HashTable.Writes.{entry-sorted_insert}
use hybridmvcc.Timestamp.{Timestamp}
use hybridmvcc.Memtable.Chain.{Chain, collect_chain, gc_chain}
use hybridmvcc.Memtable.HashTable.{
  MemTable, snapshot, gc, ImmTable, entry, sorted_insert, snapshot_entries, gc_entries,
}

-- The hash map has every key once.
abbrev pub Apart : {K A : Type 0} ⦃o : Ord K⦄ → List (K × A) → Type 0
Apart [] = Unit {0}
Apart ((k, a) ∷ m) = (entry k m ≡ none) × Apart m

module _ {V : Type 0} (min_xip : Timestamp) (age : ℕ) where
  -- The chain after `snapshot`.
  abbrev pub collected : Option (Chain V) → Option (Chain V)
  collected none = none
  collected (some c) = some (collect_chain min_xip age c).1

  -- What `snapshot` makes of what the table so far has under a key.
  abbrev pub copied : Option (Chain V) → Option (Option V) → Option (Option V)
  copied none before = before
  copied (some c) before = elim (collect_chain min_xip age c).0 [ none ↦ before | some v ↦ some v ]

  -- What `gc` leaves.
  abbrev pub kept : Option (Chain V) → Option (Chain V)
  kept none = none
  kept (some c) = gc_chain min_xip age c

module _ {K V : Type 0} ⦃o : Ord K⦄ (min_xip : Timestamp) (age : ℕ) where
  entry-snapshot_entries :
      (k : K) (es : List (K × Chain V)) (imm : ImmTable K V)
      → entry k (snapshot_entries min_xip age es imm).1 ≡ collected min_xip age (entry k es)
  unfolding entry snapshot_entries
  entry-snapshot_entries k [] imm = refl
  entry-snapshot_entries k ((j, c) ∷ es) imm = elim (Bool-cases (key_eq k j)) [
    | inl e ↦ rw e refl
    | inr e ↦ rw e (entry-snapshot_entries k es _)
  ]

  snapshot_entries-Apart :
      (es : List (K × Chain V)) (imm : ImmTable K V)
      → Apart es
      → Apart (snapshot_entries min_xip age es imm).1
  unfolding snapshot_entries
  snapshot_entries-Apart [] imm h = tt
  snapshot_entries-Apart ((j, c) ∷ es) imm (new, h) = (
    entry-snapshot_entries j es _ ∙ ap (collected min_xip age) new,
    snapshot_entries-Apart es _ h,
  )

  imm-snapshot_entries :
      (k : K) (es : List (K × Chain V)) (imm : ImmTable K V)
      → Apart es
      → entry k (snapshot_entries min_xip age es imm).0
        ≡ copied min_xip age (entry k es) (entry k imm)
  unfolding entry snapshot_entries
  imm-snapshot_entries k [] imm h = refl
  imm-snapshot_entries k ((j, c) ∷ es) imm (new, h) =
      elim (Option-cases (collect_chain min_xip age c).0) [
        | inl e ↦ ground (arith, e, imm-snapshot_entries k es imm h, o.cmp_eq k j, new)
        | inr (v, e) ↦ ground (
          arith,
          e,
          imm-snapshot_entries k es (sorted_insert j v imm) h,
          entry-sorted_insert j k v imm,
          o.cmp_eq k j,
          new,
        )
      ]

  entry-gc_entries :
      (k : K) (es : List (K × Chain V))
      → Apart es
      → entry k (gc_entries min_xip age es).1 ≡ kept min_xip age (entry k es)
  unfolding entry gc_entries
  entry-gc_entries k [] h = refl
  entry-gc_entries k ((j, c) ∷ es) (new, h) = elim (Option-cases (gc_chain min_xip age c)) [
    | inl e ↦ ground (arith, e, entry-gc_entries k es h, o.cmp_eq k j, new)
    | inr (left, e) ↦ ground (arith, e, entry-gc_entries k es h, o.cmp_eq k j, new)
  ]

  -- After both phases a key has what `gc` leaves of its chain, and the copies have what `snapshot`
  -- took of it.
  pub flush-entry :
      (k : K) (c : Chain V) (mem : MemTable K V)
      → Apart mem.entries
      → entry k mem.entries ≡ some c
      → (entry k (gc min_xip age (snapshot min_xip age mem).1).entries
          ≡ gc_chain min_xip age (collect_chain min_xip age c).1)
        × (entry k (snapshot min_xip age mem).0 ≡ (collect_chain min_xip age c).0)
  unfolding snapshot gc entry
  flush-entry k c mem h e = (
    entry-gc_entries k (snapshot_entries min_xip age mem.entries []).1
          (snapshot_entries-Apart mem.entries [] h)
        ∙ ap (kept min_xip age)
            (entry-snapshot_entries k mem.entries [] ∙ ap (collected min_xip age) e),
    imm-snapshot_entries k mem.entries [] h
        ∙ ap (λ found. copied min_xip age found none) e
        ∙ (elim (Option-cases (collect_chain min_xip age c).0) [
          | inl n ↦ ground (arith, n)
          | inr (v, n) ↦ ground (arith, n)
        ]),
  )
