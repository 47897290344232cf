-- ===== src/Cache/Lookups.antt =====
-- What a look-up in the sharded cache finds: the value last inserted under its key.
use hybridmvcc.Base.{none, Option-cases, Option, some-injective}
use hybridmvcc.Base.{
  get_elem?, ℕ, ◌%◌, ◌<◌, false, some, ◌==◌, ok, ◌≡◌, ◌≢◌, ◌⊎◌, inl, inr, refl, sym, ap, ◌∙◌, arith,
  Bool-cases, length,
}
use mathlib.Core.Path.{subst}
use native.Mathlib.Nat.{mod-lt}
use hybridmvcc.Base.{set_elem_lem}
use hybridmvcc.Cache.{insert, get, LruMap, IsLruMap, CacheId, ShardedCache, get_shard, on_shard}

module _ {L Key V : Type 0} (m : LruMap L (CacheId × Key) V) (laws : IsLruMap m)
    (hash : CacheId × Key → ℕ) where
  -- The cache may answer `v` for this key.
  abbrev pub Held : ShardedCache L → CacheId → Key → V → Type 0
  Held c id k v =
      (shard : L) × (get_elem? c.shards (hash (id, k) % c.num_shards) ≡ some shard)
      × laws.Holds shard (id, k) v

  abbrev pub Whole : ShardedCache L → Type 0
  Whole c = (0 < c.num_shards) × (length c.shards ≡ c.num_shards)

  -- The run of an operation on the shard of a key.
  pub record OnShard {A : Type 0} (f : L → A × L) (id : CacheId) (k : Key) (c : ShardedCache L)
      : Type 0 where
    pub shard : L
    pub was : get_elem? c.shards (hash (id, k) % c.num_shards) ≡ some shard
    pub after : ShardedCache L
    pub runs : on_shard m hash f id k c ≡ ok ((f shard).0, after)
    pub whole : Whole after
    pub same_count : after.num_shards ≡ c.num_shards
    pub is : get_elem? after.shards (hash (id, k) % c.num_shards) ≡ some (f shard).1
    pub others :
        (j : ℕ) → j ≢ hash (id, k) % c.num_shards → get_elem? after.shards j ≡ get_elem? c.shards j

  pub on_shard_lem :
      {A : Type 0} (f : L → A × L) (id : CacheId) (k : Key) (c : ShardedCache L)
      → Whole c
      → OnShard f id k c
  unfolding on_shard get_shard
  on_shard_lem f id k c (pos, len) =
      let i = hash (id, k) % c.num_shards in
      let bound : i < c.num_shards = mod-lt (hash (id, k)) pos in
      let first = set_elem_lem i (λ (s : L). s) c.shards (omega (arith, bound, len)) in
      let put = set_elem_lem i (λ old. (f first.old).1) c.shards (omega (arith, bound, len)) in
      let some_shards : (c.num_shards == 0) ≡ false = ground (arith, pos) in
      record {
        shard = first.old;
        was = first.was;
        after = record c { shards = put.after };
        runs = simp (some_shards, first.was, put.runs) refl;
        whole = (pos, put.same_length ∙ len);
        same_count = refl;
        is = put.is;
        others = put.others;
      }

  abbrev pub Apart : CacheId → Key → CacheId → Key → Type 0
  Apart id k id' k' = let p : CacheId × Key = (id', k') in p ≢ (id, k)

  -- What an operation on one shard may leave: at its own shard what `f` leaves, elsewhere no more
  -- than before.
  left_lem :
      {A : Type 0} (f : L → A × L) (id : CacheId) (k : Key) (c : ShardedCache L)
      (o : OnShard f id k c) (id' : CacheId) (k' : Key) (v : V)
      → Held o.after id' k' v
      → ((get_elem? c.shards (hash (id', k') % c.num_shards) ≡ some o.shard)
          × laws.Holds (f o.shard).1 (id', k') v)
        ⊎ (Apart id k id' k' × Held c id' k' v)
  left_lem f id k c o id' k' v (shard, at, h) =
      let i = hash (id, k) % c.num_shards in
      let j = hash (id', k') % c.num_shards in
      let at' : get_elem? o.after.shards j ≡ some shard =
        ap (λ n. get_elem? o.after.shards (hash (id', k') % n)) (sym o.same_count) ∙ at in
      elim (Bool-cases (j == i)) [
        | inl e ↦
            let same : i ≡ j = ground (arith, e) in
            inl (
              ap (λ n. get_elem? c.shards n) (sym same) ∙ o.was,
              subst (λ s. laws.Holds s (id', k') v)
                  (some-injective
                    (sym at' ∙ ap (λ n. get_elem? o.after.shards n) (sym same) ∙ o.is))
                  h,
            )
        | inr e ↦
            let apart : j ≢ i = λ same. absurd (ground (arith, e)) in
            inr (
              λ p. apart (ap (λ x. hash x % c.num_shards) p),
              (shard, sym (o.others j apart) ∙ at', h),
            )
      ]

  -- All that the cache may answer is good.
  pub record Coherent (Good : CacheId → Key → V → Type 0) (c : ShardedCache L) : Type 0 where
    pub all_shards : Whole c
    pub all_good : (id : CacheId) (k : Key) (v : V) → Held c id k v → Good id k v

  module _ (Good : CacheId → Key → V → Type 0) where
    pub get-Coherent :
        (id : CacheId) (k : Key) (c : ShardedCache L)
        → Coherent Good c
        → (found : Option V) × (after : ShardedCache L) × (get m hash id k c ≡ ok (found, after))
          × Coherent Good after
          × ((v : V) → found ≡ some v → Good id k v)
    unfolding get
    get-Coherent id k c h =
        let o = on_shard_lem (m.find (id, k)) id k c h.all_shards in
        (
          (m.find (id, k) o.shard).0,
          o.after,
          o.runs,
          record {
            all_shards = o.whole;
            all_good = λ id' k' v held. elim (left_lem (m.find (id, k)) id k c o id' k' v held) [
              | inl (at, here) ↦
                  h.all_good id' k' v
                    (o.shard, at, laws.holds-find (id, k) (id', k') o.shard v here)
              | inr (apart, there) ↦ h.all_good id' k' v there
            ];
          },
          λ v e. h.all_good id k v (o.shard, o.was, laws.find_sound (id, k) o.shard v e),
        )

    pub insert-Coherent :
        (id : CacheId) (k : Key) (v : V) (c : ShardedCache L)
        → Coherent Good c
        → Good id k v
        → (old : Option V) × (after : ShardedCache L) × (insert m hash id k v c ≡ ok (old, after))
          × Coherent Good after
    unfolding insert
    insert-Coherent id k v c h good =
        let o = on_shard_lem (m.put (id, k) v) id k c h.all_shards in
        (
          (m.put (id, k) v o.shard).0,
          o.after,
          o.runs,
          record {
            all_shards = o.whole;
            all_good = λ id' k' v' held. elim (left_lem (m.put (id, k) v) id k c o id' k' v' held) [
              | inl (at, here) ↦ elim (laws.holds-put (id, k) (id', k') o.shard v v' here) [
                | inl (p, e) ↦
                    subst (λ (q : CacheId × Key). Good q.0 q.1 v') (sym p)
                      (subst (Good id k) (sym e) good)
                | inr (apart, there) ↦ h.all_good id' k' v' (o.shard, at, there)
              ]
              | inr (apart, there) ↦ h.all_good id' k' v' there
            ];
          },
        )

  -- What a look-up after an insertion may answer: nothing, the value inserted when the keys are the
  -- same, or what the cache may have answered before when they are not.
  abbrev pub Answer : CacheId → Key → V → ShardedCache L → CacheId → Key → Option V → Type 0
  Answer id k v c id' k' found =
      (found ≡ none)
      ⊎ ((v' : V) × (found ≡ some v')
          × (((let p : CacheId × Key = (id', k') in p ≡ (id, k)) × (v' ≡ v))
              ⊎ (Apart id k id' k' × Held c id' k' v')))

  -- A look-up after an insertion into a cache with all its shards: neither panics, and what is found
  -- is nothing, or the value inserted when it was inserted under the same cache identifier and key,
  -- or, when not, a value that the cache may have answered before.
  pub get-insert :
      (id : CacheId) (k : Key) (v : V) (c : ShardedCache L) (id' : CacheId) (k' : Key)
      → Whole c
      → (old : Option V) × (c' : ShardedCache L) × (found : Option V) × (c'' : ShardedCache L)
        × (insert m hash id k v c ≡ ok (old, c'))
        × (get m hash id' k' c' ≡ ok (found, c''))
        × Answer id k v c id' k' found
  unfolding insert get
  get-insert id k v c id' k' w =
      let o = on_shard_lem (m.put (id, k) v) id k c w in
      let o' = on_shard_lem (m.find (id', k')) id' k' o.after o.whole in
      (
        (m.put (id, k) v o.shard).0,
        o.after,
        (m.find (id', k') o'.shard).0,
        o'.after,
        o.runs,
        o'.runs,
        elim (Option-cases (m.find (id', k') o'.shard).0) [
          | inl e ↦ inl e
          | inr (v', e) ↦
              let held =
                left_lem (m.put (id, k) v) id k c o id' k' v'
                  (o'.shard, o'.was, laws.find_sound (id', k') o'.shard v' e) in
              inr (
                v',
                e,
                elim held [
                  | inl (at, here) ↦ elim (laws.holds-put (id, k) (id', k') o.shard v v' here) [
                    | inl (p, same) ↦ inl (p, same)
                    | inr (apart, there) ↦ inr (apart, (o.shard, at, there))
                  ]
                  | inr (apart, there) ↦ inr (apart, there)
                ],
              )
        ],
      )
