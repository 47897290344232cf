-- ===== src/Tests/Filters.antt =====
-- Filters of a few keys, with a multiplication as the hash.
use hybridmvcc.Base.{ℕ, ◌*◌, ◌%◌, ◌^◌, true, [], ◌∷◌, ok, ◌≡◌, refl, arith, ◌>>=◌}
use hybridmvcc.Block.Filter.{create_filter_block_builder, seal_filter, key_may_match}
use hybridmvcc.Block.Filter.Membership.{key_may_match-seal_filter, add_all}

abbrev hash : ℕ → ℕ
hash n = n * 0x9e3779b97f4a7c15 % 2 ^ 64

key_may_match-seal_filter_example :
    (do
      (block, b) ← seal_filter (add_all hash (create_filter_block_builder 10000) (7 ∷ 8 ∷ 9 ∷ []))
      key_may_match hash block 9)
    ≡ ok true
key_may_match-seal_filter_example =
    key_may_match-seal_filter hash 10000 (7 ∷ 8 ∷ 9 ∷ []) 2 9 (omega arith) (omega arith) refl
