-- ===== src/Version/Search.antt =====
-- `find_in_files` is a binary search for the first file that can hold a key.
use hybridmvcc.Base.{
  get_elem?, ℕ, zero, suc, ◌+◌, ◌-◌, ◌/◌, ◌<◌, ◌≤◌, true, false, some, List, [], ◌∷◌, ◌==◌, ok, ◌≡◌,
  inl, inr, refl, arith, Ord, key_lt, Bool-cases, length,
}
use hybridmvcc.Table.{TableFileMeta}
use hybridmvcc.Version.{find_loop, find_in_files}

module _ {K : Type 0} ⦃o : Ord K⦄ where
  -- Files at an index below `n` end before the key, and those from `n` on do not.
  pub record Splits (files : List (TableFileMeta K)) (key : K) (n : ℕ) : Type 0 where
    pub before :
        (i : ℕ) (f : TableFileMeta K)
        → get_elem? files i ≡ some f
        → i < n
        → key_lt f.supremum key ≡ true
    pub after :
        (i : ℕ) (f : TableFileMeta K)
        → get_elem? files i ≡ some f
        → n ≤ i
        → key_lt f.supremum key ≡ false

  -- The suprema do not fall along the list.
  abbrev pub Rising : List (TableFileMeta K) → Type 0
  Rising files =
      (i j : ℕ) (f g : TableFileMeta K)
      → i ≤ j
      → get_elem? files i ≡ some f
      → get_elem? files j ≡ some g
      → key_lt g.supremum f.supremum ≡ false

  lt-of-not-lt-lt : (a b c : K) → key_lt b a ≡ false → key_lt b c ≡ true → key_lt a c ≡ true
  lt-of-not-lt-lt a b c h k = ground (arith, o.cmp_swap a b, o.cmp_eq a b, o.cmp_trans a b c)

  elem_below :
      (files : List (TableFileMeta K)) (i : ℕ)
      → i < length files
      → (f : TableFileMeta K) × (get_elem? files i ≡ some f)
  elem_below [] i h = absurd (omega arith)
  elem_below (f ∷ rest) zero h = (f, refl)
  elem_below (f ∷ rest) (suc i) h = elem_below rest i (omega arith)

  beyond :
      (fs : List (TableFileMeta K)) (i : ℕ) (f : TableFileMeta K)
      → get_elem? fs i ≡ some f
      → length fs ≤ i
      → ⊥
  beyond [] i f e h = cc
  beyond (g ∷ rest) zero f e h = omega arith
  beyond (g ∷ rest) (suc i) f e h = beyond rest i f e (omega arith)

  find_loop_lem :
      (fuel : ℕ) (files : List (TableFileMeta K)) (key : K) (first count : ℕ)
      → Rising files
      → count ≤ fuel
      → first + count ≤ length files
      → ((i : ℕ) (f : TableFileMeta K)
          → get_elem? files i ≡ some f
          → i < first
          → key_lt f.supremum key ≡ true)
      → ((i : ℕ) (f : TableFileMeta K)
          → get_elem? files i ≡ some f
          → first + count ≤ i
          → key_lt f.supremum key ≡ false)
      → (n : ℕ) × (find_loop fuel files key first count ≡ some n)
        × (n ≤ length files)
        × Splits files key n
  unfolding find_loop
  find_loop_lem zero files key first count rising c b lo hi = (
    first,
    ground arith,
    omega arith,
    record { before = lo; after = λ i f e h. hi i f e (omega arith) },
  )
  find_loop_lem (suc fuel) files key first count rising c b lo hi = elim (Bool-cases (count == 0)) [
    | inl z ↦ (
      first,
      rw z refl,
      omega arith,
      record { before = lo; after = λ i f e h. hi i f e (ground arith) },
    )
    | inr nz ↦
        let step = count / 2 in
        let (mid, e) = elem_below files (first + step) (ground arith) in
        elim (Bool-cases (key_lt mid.supremum key)) [
          | inl lt ↦
              let (n, r, nb, s) =
                find_loop_lem fuel files key (first + (step + 1)) (count - (step + 1)) rising
                  (ground arith) (ground arith)
                  (λ i f ei h.
                    lt-of-not-lt-lt f.supremum mid.supremum key
                      (rising i (first + step) f mid (omega arith) ei e) lt)
                  (λ i f ei h. hi i f ei (ground arith)) in
              (n, ground (arith, nz, e, lt, r), nb, s)
          | inr ge ↦
              let (n, r, nb, s) =
                find_loop_lem fuel files key first step rising (ground arith) (ground arith) lo
                  (λ i f ei h. not-lt mid f (rising (first + step) i mid f h e ei) ge) in
              (n, ground (arith, nz, e, ge, r), nb, s)
        ]
  ]
    where
      not-lt :
          (m f : TableFileMeta K)
          → key_lt f.supremum m.supremum ≡ false
          → key_lt m.supremum key ≡ false
          → key_lt f.supremum key ≡ false
      not-lt m f h k = ground (arith, lt-of-not-lt-lt m.supremum f.supremum key)

  -- On files whose suprema do not fall, the search ends without a panic, and what it returns is
  -- the first file whose supremum is not below the key: all files before it end before the key,
  -- and without a result all files do.
  pub find_in_files_lem :
      (files : List (TableFileMeta K)) (key : K)
      → Rising files
      → (n : ℕ) × (find_in_files files key ≡ ok (get_elem? files n))
        × (n ≤ length files)
        × Splits files key n
  unfolding find_in_files
  find_in_files_lem files key rising =
      let (n, r, b, s) =
        find_loop_lem (length files) files key 0 (length files) rising (omega arith) (omega arith)
          (λ i f e h. absurd (omega arith))
          (λ i f e h. absurd (beyond files i f e (omega arith))) in
      (n, ground (arith, r), b, s)
