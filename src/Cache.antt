-- ===== src/Cache.antt =====
-- src/utils/cache.rs: the sharded cache of blocks. The map of a shard is `LruCache` of the crate lru.
pub mod Lookups
use hybridmvcc.Block.Data.{or_panic}
use hybridmvcc.Base.{
  set_elem, replicate, get_elem?, ℕ, zero, suc, ◌+◌, ◌-◌, ◌*◌, ◌/◌, ◌%◌, ◌^◌, ◌<◌, ◌≤◌, Bool, true,
  false, not, ◌&&◌, ◌||◌, Option, none, some, List, [], ◌∷◌, ◌++◌, ◌==◌, Outcome, ok, err, panic,
  ◌≡◌, ◌≢◌, ◌⊎◌, ◌↔◌, inl, inr, refl, sym, ap, ◌∙◌, arith, All, Ordering, if◌then◌else◌, Ord,
  key_eq, key_lt, Bool-cases, Option-cases, ◌>>=◌, ltb, leb, length, take, drop, is_lt, is_eq,
  is_gt, compare, min,
}

-- What a shard calls of its map. A look-up changes the order of use.
pub record LruMap (L Key V : Type 0) : Type 0 where
  pub new_map : ℕ → L
  pub put : Key → V → L → Option V × L
  pub find : Key → L → Option V × L
  pub pop : Key → L → Option V × L

-- The documented behaviour: a map holds at most what was last put under each key. `Holds` says of a
-- map that it may still answer a value.
pub record IsLruMap {L Key V : Type 0} (m : LruMap L Key V) : Type 1 where
  pub Holds : L → Key → V → Type 0
  pub holds-new : (capacity : ℕ) (k : Key) (v : V) → Holds (m.new_map capacity) k v → ⊥
  pub find_sound : (k : Key) (l : L) (v : V) → (m.find k l).0 ≡ some v → Holds l k v
  pub holds-find : (k k' : Key) (l : L) (v : V) → Holds (m.find k l).1 k' v → Holds l k' v
  pub holds-put :
      (k k' : Key) (l : L) (v v' : V)
      → Holds (m.put k v l).1 k' v'
      → ((k' ≡ k) × (v' ≡ v)) ⊎ ((k' ≢ k) × Holds l k' v')
  pub holds-pop : (k k' : Key) (l : L) (v : V) → Holds (m.pop k l).1 k' v → (k' ≢ k) × Holds l k' v

abbrev pub CacheId : Type 0
CacheId = ℕ

pub record ShardedCache (L : Type 0) : Type 0 where
  pub num_shards : ℕ
  pub shards : List L
  pub last_id : ℕ

-- `fetch_add` wraps around.
unfoldable pub get_cache_id : {L : Type 0} → ShardedCache L → CacheId × ShardedCache L
get_cache_id c = (c.last_id, record c { last_id = (c.last_id + 1) % 2 ^ 32 })

module _ {L Key V : Type 0} (m : LruMap L (CacheId × Key) V) where
  -- The assertion on the capacity; the division is by zero for no shards, and is not reached then.
  unfoldable pub new : ℕ → ℕ → Outcome (ShardedCache L)
  new num_shards capacity =
      if ltb 0 capacity
      then ok (record {
        num_shards = num_shards;
        shards = replicate num_shards (m.new_map (capacity / num_shards));
        last_id = 1;
      })
      else panic

  module _ (hash : CacheId × Key → ℕ) where
    unfoldable pub get_shard : ShardedCache L → CacheId → Key → Outcome ℕ
    get_shard c cache_id key =
        if c.num_shards == 0 then panic else ok (hash (cache_id, key) % c.num_shards)

    -- An operation on the shard of a key, under its lock.
    unfoldable pub on_shard :
        {A : Type 0} → (L → A × L) → CacheId → Key → ShardedCache L → Outcome (A × ShardedCache L)
    on_shard f cache_id key c = do
      i ← get_shard c cache_id key
      shard ← or_panic (get_elem? c.shards i)
      shards ← set_elem i (λ old. (f shard).1) c.shards
      ok ((f shard).0, record c { shards = shards })

    unfoldable pub insert : CacheId → Key → V → ShardedCache L → Outcome (Option V × ShardedCache L)
    insert cache_id key value c = on_shard (m.put (cache_id, key) value) cache_id key c

    unfoldable pub get : CacheId → Key → ShardedCache L → Outcome (Option V × ShardedCache L)
    get cache_id key c = on_shard (m.find (cache_id, key)) cache_id key c

    unfoldable pub remove : CacheId → Key → ShardedCache L → Outcome (Option V × ShardedCache L)
    remove cache_id key c = on_shard (m.pop (cache_id, key)) cache_id key c
