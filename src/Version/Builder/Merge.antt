-- ===== src/Version/Builder/Merge.antt =====
-- `merge_iters` and `sort_by`: what they keep, and that the results are in order.
use hybridmvcc.Base.{
  reverse_ordering, exists_in, Bool, false, ◌||◌, List, [], ◌∷◌, ◌≡◌, refl, arith, Ordering,
  Bool-cases, is_gt,
}
use hybridmvcc.Version.Builder.{merge_iters, insert_by, sort_by}

module _ {A : Type 0} (cmp : A → A → Ordering) where
  -- Neighbours do not fall: no element is greater than the next.
  abbrev pub Ordered : List A → Type 0
  Ordered [] = Unit
  Ordered (x ∷ []) = Unit
  Ordered (x ∷ y ∷ ys) = (is_gt (cmp x y) ≡ false) × Ordered (y ∷ ys)

  -- Swapping the arguments turns `lt` and `gt` round.
  abbrev pub Swaps : Type 0
  Swaps = (x y : A) → cmp y x ≡ reverse_ordering (cmp x y)

  pub exists-merge :
      (p : A → Bool) (xs ys : List A)
      → exists_in p (merge_iters cmp xs ys) ≡ (exists_in p xs || exists_in p ys)
  unfolding merge_iters
  exists-merge p [] ys = refl
  exists-merge p (x ∷ xs) [] = ground (arith, Bool-cases (p x), Bool-cases (exists_in p xs))
  exists-merge p (x ∷ xs) (y ∷ ys) =
      ground (arith, exists-merge p xs (y ∷ ys), exists-merge p (x ∷ xs) ys)

  exists-insert :
      (p : A → Bool) (x : A) (ys : List A)
      → exists_in p (insert_by cmp x ys) ≡ (p x || exists_in p ys)
  unfolding insert_by
  exists-insert p x [] = ground arith
  exists-insert p x (y ∷ ys) = ground (arith, exists-insert p x ys)

  pub exists-sort : (p : A → Bool) (xs : List A) → exists_in p (sort_by cmp xs) ≡ exists_in p xs
  unfolding sort_by
  exists-sort p [] = refl
  exists-sort p (x ∷ xs) = ground (arith, exists-insert p x (sort_by cmp xs), exists-sort p xs)

  pub merge-Ordered :
      (xs ys : List A) → Swaps → Ordered xs → Ordered ys → Ordered (merge_iters cmp xs ys)
  unfolding merge_iters
  merge-Ordered [] ys s hx hy = hy
  merge-Ordered (x ∷ xs) [] s hx hy = hx
  merge-Ordered (x ∷ []) (y ∷ []) s hx hy = ground (arith, s x y)
  merge-Ordered (x ∷ x' ∷ xs) (y ∷ []) s hx hy =
      ground (arith, s x y, merge-Ordered (x' ∷ xs) (y ∷ []) s hx.1 hy)
  merge-Ordered (x ∷ []) (y ∷ y' ∷ ys) s hx hy =
      ground (arith, s x y, merge-Ordered (x ∷ []) (y' ∷ ys) s hx hy.1)
  merge-Ordered (x ∷ x' ∷ xs) (y ∷ y' ∷ ys) s hx hy = ground (
    arith,
    s x y,
    merge-Ordered (x' ∷ xs) (y ∷ y' ∷ ys) s hx.1 hy,
    merge-Ordered (x ∷ x' ∷ xs) (y' ∷ ys) s hx hy.1,
  )

  pub insert-Ordered : (x : A) (ys : List A) → Swaps → Ordered ys → Ordered (insert_by cmp x ys)
  unfolding insert_by
  insert-Ordered x [] s h = tt
  insert-Ordered x (y ∷ []) s h = ground (arith, s x y)
  insert-Ordered x (y ∷ z ∷ ys) s h = ground (arith, s x y, insert-Ordered x (z ∷ ys) s h.1)

  pub sort-Ordered : (xs : List A) → Swaps → Ordered (sort_by cmp xs)
  unfolding sort_by
  sort-Ordered [] s = tt
  sort-Ordered (x ∷ xs) s = insert-Ordered x (sort_by cmp xs) s (sort-Ordered xs s)
