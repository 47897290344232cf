-- ===== src/Block/Filter/Membership.antt =====
-- A filter against the keys that it was built from.
use hybridmvcc.Base.{
  set_elem_lem, set_elem, length-take, append_assoc, replicate, map, get_elem?, append-nil, ℕ, zero,
  suc, ◌+◌, ◌-◌, ◌*◌, ◌%◌, ◌^◌, ◌<◌, ◌≤◌, true, ◌&&◌, some, List, [], ◌∷◌, ◌++◌, Outcome, ok, ◌≡◌,
  refl, sym, ap, ◌∙◌, arith, ◌>>=◌, ltb, leb, length, take,
}
use mathlib.Core.Path.{ap₂, subst}
use native.Mathlib.Nat.{mul-le-mul_right}
use hybridmvcc.Block.Filter.{
  seal_into, step, FastLocalBloomBitsBuilder, FullFilterBlockBuilder, get_filter_bits_reader,
  seal_bits, seal_filter, add_key, add, may_match, key_may_match, hash_offset, calculate_space,
  data_size, choose_num_probes, create_filter_block_builder, new_bits_builder, byte_at,
  metadata_size,
}
use hybridmvcc.Block.Filter.Bits.{bit_in}
use hybridmvcc.Block.Filter.Probes.{Probes, probes_match_lem, Set}
use hybridmvcc.Block.Filter.Entries.{
  Every, get_elem?-map, length-map, add_all_entries_lem, hash_offset-InRange,
}

pub choose_num_probes-bounds : (m : ℕ) → (0 < choose_num_probes m) × (choose_num_probes m ≤ 24)
unfolding choose_num_probes
choose_num_probes-bounds m = ground arith

get_elem?-take :
    {A : Type 0} → (i n : ℕ) (xs : List A) → i < n → get_elem? (take n xs) i ≡ get_elem? xs i
get_elem?-take i zero xs h = absurd (omega arith)
get_elem?-take i (suc n) [] h = refl
get_elem?-take zero (suc n) (x ∷ xs) h = refl
get_elem?-take (suc i) (suc n) (x ∷ xs) h = get_elem?-take i n xs (omega arith)

get_elem?-length :
    {A : Type 0} (xs : List A) (j : ℕ) (x : A) → get_elem? xs j ≡ some x → j < length xs
get_elem?-length [] j x e = absurd (cc e)
get_elem?-length (y ∷ ys) zero x e = omega arith
get_elem?-length (y ∷ ys) (suc j) x e = omega (arith, get_elem?-length ys j x e)

length-replicate : (n : ℕ) → length (replicate n zero) ≡ n
length-replicate zero = refl
length-replicate (suc n) = ap suc (length-replicate n)

-- The probes of a hash look only at the 64 bytes of its line.
Probes-line :
    (probes h offset : ℕ) (before after : List ℕ)
    → h < 2 ^ 32
    → ((i : ℕ) → i < offset + 64 → get_elem? after i ≡ get_elem? before i)
    → Probes probes h offset before
    → Probes probes h offset after
unfolding Probes bit_in
Probes-line zero h offset before after word same p = tt
Probes-line (suc probes) h offset before after word same p = (
  rw (same (offset + byte_at h) (omega (arith, word)), bit_in) p.0,
  Probes-line probes (h * step % 2 ^ 32) offset before after (omega arith) same p.1,
)

-- A sealed filter: its lines, and the number of probes behind them.
record Sealed (b : FastLocalBloomBitsBuilder) : Type 0 where
  size : ℕ
  block : List ℕ
  rest : FastLocalBloomBitsBuilder
  runs : seal_bits b ≡ ok (block, rest)
  lines : 64 ≤ size
  total : length block ≡ size + 1
  num_probes : get_elem? block size ≡ some (b.num_probes % 256)
  every : Every (λ h. Set b.num_probes (take size block) (hash_offset size h)) b.hash_entries

data_size-pos :
    (b : FastLocalBloomBitsBuilder) (entries : ℕ)
    → 0 < b.millibits_per_key
    → 0 < entries
    → entries * b.millibits_per_key + 511999 < 2 ^ 64
    → 64 ≤ data_size b entries
unfolding data_size
data_size-pos b entries m n small =
    let least : 1 * b.millibits_per_key ≤ entries * b.millibits_per_key =
      mul-le-mul_right b.millibits_per_key n in
    let some_bits : (ltb 0 b.millibits_per_key && ltb 0 entries) ≡ true = ground (arith, m, n) in
    rw some_bits (omega (arith, least, small, m))

seal_bits_lem :
    (b : FastLocalBloomBitsBuilder)
    → 0 < b.millibits_per_key
    → 0 < length b.hash_entries
    → length b.hash_entries * b.millibits_per_key + 511999 < 2 ^ 64
    → Sealed b
unfolding seal_bits seal_into calculate_space
seal_bits_lem b m n small =
    let size = data_size b (length b.hash_entries) in
    let large = data_size-pos b (length b.hash_entries) m n small in
    let zeros : List ℕ = replicate (size + 1) 0 in
    let wide = length-replicate (size + 1) in
    let added =
      add_all_entries_lem b.num_probes b.hash_entries zeros size large (omega (arith, wide)) in
    let back : size + 1 - metadata_size ≡ size = omega arith in
    let some_room : ltb 0 size ≡ true = ground (arith, large) in
    let number : List ℕ → Outcome (List ℕ) =
      λ bytes. set_elem size (λ byte. b.num_probes % 256) bytes in
    let finish : List ℕ → Outcome (List ℕ × FastLocalBloomBitsBuilder) =
      λ sealed. ok (sealed, record b { hash_entries = [] }) in
    let put =
      set_elem_lem size (λ byte. b.num_probes % 256) added.after
        (omega (arith, added.same_length, wide)) in
    record {
      size = size;
      block = put.after;
      rest = record b { hash_entries = [] };
      runs =
          ap (seal_into b (size + 1)) back
          ∙ rw some_room (
              ap (λ r. r >>= λ bytes. number bytes >>= finish) added.runs
              ∙ ap (λ r. r >>= finish) put.runs);
      lines = large;
      total = omega (arith, put.same_length, added.same_length, wide);
      num_probes = put.is;
      every = λ j h at.
          let line = hash_offset-InRange size h large in
          Probes-line b.num_probes (hash_offset size h).0 (hash_offset size h).1 added.after
            (take size put.after) line.0
            (λ i below.
              get_elem?-take i size put.after (omega (arith, line.1, below))
              ∙ put.others i (λ e. absurd (omega (arith, line.1, below, e))))
            (added.holds j h at);
    }

seal_filter_lem :
    (b : FullFilterBlockBuilder) (block : List ℕ) (rest : FastLocalBloomBitsBuilder)
    → 0 < b.num_added
    → seal_bits b.filter_bits_builder ≡ ok (block, rest)
    → seal_filter b ≡ ok (block, record b { filter_bits_builder = rest })
unfolding seal_filter
seal_filter_lem b block rest added runs =
    let e : ltb 0 b.num_added ≡ true = ground (arith, added) in rw (e, runs) refl

module _ {Key : Type 0} (hash64 : Key → ℕ) where
  -- `add` for each key.
  abbrev pub add_all : FullFilterBlockBuilder → List Key → FullFilterBlockBuilder
  add_all b [] = b
  add_all b (key ∷ keys) = add_all (add hash64 key b) keys

  record AddedAll (b : FullFilterBlockBuilder) (keys : List Key) : Type 0 where
    hashes :
        (add_all b keys).filter_bits_builder.hash_entries
        ≡ b.filter_bits_builder.hash_entries ++ map hash64 keys
    probes : (add_all b keys).filter_bits_builder.num_probes ≡ b.filter_bits_builder.num_probes
    millibits :
        (add_all b keys).filter_bits_builder.millibits_per_key
        ≡ b.filter_bits_builder.millibits_per_key
    count : (add_all b keys).num_added ≡ b.num_added + length keys

  add_all_lem : (b : FullFilterBlockBuilder) (keys : List Key) → AddedAll b keys
  unfolding add add_key
  add_all_lem b [] = record {
    hashes = sym (append-nil _);
    probes = refl;
    millibits = refl;
    count = omega arith;
  }
  add_all_lem b (key ∷ keys) =
      let rest = add_all_lem (add hash64 key b) keys in
      record {
        hashes =
            rest.hashes
            ∙ append_assoc b.filter_bits_builder.hash_entries (hash64 key ∷ []) (map hash64 keys);
        probes = rest.probes;
        millibits = rest.millibits;
        count = omega (arith, rest.count);
      }

  may_match_lem :
      (block : List ℕ) (size probes : ℕ) (key : Key)
      → 64 ≤ size
      → length block ≡ size + 1
      → get_elem? block size ≡ some probes
      → Set probes (take size block) (hash_offset size (hash64 key))
      → key_may_match hash64 block key ≡ ok true
  unfolding key_may_match get_filter_bits_reader may_match
  may_match_lem block size probes key lines total number set =
      let nonempty : leb metadata_size (length block) ≡ true = ground (arith, total) in
      let data_len : length block - metadata_size ≡ size = omega (arith, total) in
      let taken : length (take size block) ≡ size = omega (arith, length-take size block, total) in
      let (h, offset) = hash_offset size (hash64 key) in
      let line = hash_offset-InRange size (hash64 key) lines in
      let fits : leb offset size ≡ true = ground (arith, line.1) in
      rw (nonempty, data_len, number, taken, fits)
        (probes_match_lem probes h offset (take size block) set)

  sealed_lem :
      (millibits_per_key : ℕ) (keys : List Key)
      → 0 < millibits_per_key
      → 0 < length keys
      → length keys * millibits_per_key + 511999 < 2 ^ 64
      → Sealed (add_all (create_filter_block_builder millibits_per_key) keys).filter_bits_builder
  unfolding create_filter_block_builder new_bits_builder
  sealed_lem millibits_per_key keys m some_key small =
      let b = add_all (create_filter_block_builder millibits_per_key) keys in
      let facts = add_all_lem (create_filter_block_builder millibits_per_key) keys in
      let hashed : length b.filter_bits_builder.hash_entries ≡ length keys =
        ap length facts.hashes ∙ length-map hash64 keys in
      seal_bits_lem b.filter_bits_builder (subst (λ n. 0 < n) (sym facts.millibits) m)
        (omega (arith, hashed, some_key))
        (subst (λ n. n + 511999 < 2 ^ 64) (sym (ap₂ (λ x y. x * y) hashed facts.millibits)) small)

  -- A filter seals when its bits do not overflow.
  pub seals_lem :
      (millibits_per_key : ℕ) (keys : List Key)
      → 0 < millibits_per_key
      → length keys * millibits_per_key + 511999 < 2 ^ 64
      → (block : List ℕ) × (after : FullFilterBlockBuilder) × (seal_filter
            (add_all (create_filter_block_builder millibits_per_key) keys)
          ≡ ok (block, after))
  unfolding seal_filter create_filter_block_builder
  seals_lem millibits_per_key [] m small = ([], create_filter_block_builder millibits_per_key, refl)
  seals_lem millibits_per_key (key ∷ keys) m small =
      let b = add_all (create_filter_block_builder millibits_per_key) (key ∷ keys) in
      let facts = add_all_lem (create_filter_block_builder millibits_per_key) (key ∷ keys) in
      let sealed = sealed_lem millibits_per_key (key ∷ keys) m (omega arith) small in
      (
        sealed.block,
        record b { filter_bits_builder = sealed.rest },
        seal_filter_lem b sealed.block sealed.rest (omega (arith, facts.count)) sealed.runs,
      )

  -- No false negatives: a filter for at least one bit in a thousand of a key, sealed after some
  -- keys were added, never denies any of them, and building and asking do not panic. The total of
  -- bits does not overflow a word.
  pub key_may_match-seal_filter :
      (millibits_per_key : ℕ) (keys : List Key) (j : ℕ) (key : Key)
      → 0 < millibits_per_key
      → length keys * millibits_per_key + 511999 < 2 ^ 64
      → get_elem? keys j ≡ some key
      → (do
        (block, b) ← seal_filter (add_all (create_filter_block_builder millibits_per_key) keys)
        key_may_match hash64 block key)
        ≡ ok true
  unfolding create_filter_block_builder new_bits_builder
  key_may_match-seal_filter millibits_per_key keys j key m small at =
      let b = add_all (create_filter_block_builder millibits_per_key) keys in
      let facts = add_all_lem (create_filter_block_builder millibits_per_key) keys in
      let some_key = get_elem?-length keys j key at in
      let sealed = sealed_lem millibits_per_key keys m (omega (arith, some_key)) small in
      let few : b.filter_bits_builder.num_probes % 256 ≡ b.filter_bits_builder.num_probes =
        omega (arith, facts.probes, choose_num_probes-bounds millibits_per_key) in
      ap (λ r. r >>= λ sealed. key_may_match hash64 sealed.0 key)
        (seal_filter_lem b sealed.block sealed.rest (omega (arith, facts.count, some_key))
          sealed.runs)
      ∙ may_match_lem sealed.block sealed.size b.filter_bits_builder.num_probes key sealed.lines
          sealed.total (sealed.num_probes ∙ ap some few)
          (sealed.every j (hash64 key)
            (ap (λ hashes. get_elem? hashes j) facts.hashes ∙ get_elem?-map hash64 keys j key at))
