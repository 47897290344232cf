-- ===== src/MergingIter/Progress.antt =====
-- `next` of src/merging_iter.rs comes to an end: each round of its loop takes one pair.
use hybridmvcc.Base.{some-injective}
use hybridmvcc.Base.{
  length-drop, get_elem?, err, panic, ok, zero, suc, none, some, true, false, ℕ, zero, suc, ◌+◌,
  ◌<◌, ◌≤◌, true, false, Option, none, some, List, [], ◌∷◌, Outcome, ok, err, panic, ◌≡◌, inl, inr,
  refl, ap, ◌∙◌, arith, Ord, key_eq, Bool-cases, Option-cases, length,
}
use hybridmvcc.MergingIter.{
  TableIterator, Slot, MergingIter, next_with_timestamp, next, merge_loop, newer,
}
use hybridmvcc.MergingIter.Rows.{Row, Represents, pop_at}
use hybridmvcc.MergingIter.Steps.{next_with_timestamp_lem}
use hybridmvcc.Timestamp.{Timestamp}

-- The number of pairs that are left.
abbrev pub total : {A : Type 0} → List (List A) → ℕ
total [] = 0
total (row ∷ rows) = length row + total rows

total-pop_at :
    {A : Type 0} (rows : List (List A)) (m : ℕ) (x : A) (xs : List A)
    → get_elem? rows m ≡ some (x ∷ xs)
    → total rows ≡ suc (total (pop_at m rows))
total-pop_at [] m x xs e = absurd (cc e)
total-pop_at (row ∷ rows) zero x xs e =
    omega (arith, length-drop 1 row, ap length (some-injective e))
total-pop_at (row ∷ rows) (suc m) x xs e = omega (arith, total-pop_at rows m x xs e)

module _ {K V I : Type 0} ⦃o : Ord K⦄ (t : TableIterator K V I) where
  -- A run that ends without an error and leaves no more pairs than `rows` has.
  abbrev pub Returns : Outcome (Option (K × V)) × MergingIter K V I → List (List (K × V)) → Type 0
  Returns run rows =
      (found : Option (K × V)) × (m' : MergingIter K V I) × (rows' : List (List (K × V))) × (run
        ≡ (ok found, m'))
      × Represents t (Row t) m'.slots rows'
      × (total rows' ≤ total rows)

  merge_loop-Returns :
      (fuel : ℕ) (pair : Timestamp × K × V) (m : MergingIter K V I) (rows : List (List (K × V)))
      → Represents t (Row t) m.slots rows
      → total rows < fuel
      → Returns (merge_loop t fuel pair m) rows
  unfolding merge_loop
  merge_loop-Returns zero pair m rows r f = absurd (omega arith)
  merge_loop-Returns (suc fuel) pair m rows r f =
      let (rest, outcome) = next_with_timestamp_lem t m.slots rows r in
      elim outcome [
        | inl (runs, ended, later) ↦ (
          some (pair.1, pair.2),
          record m { slots = rest; current_pair = none },
          rows,
          ap after runs,
          later,
          omega arith,
        )
        | inr (i, ts, k, v, pairs, runs, row, low, later) ↦
            let m' : MergingIter K V I = record m { slots = rest; current_pair = none } in
            let fewer = total-pop_at rows i (k, v) pairs row in
            elim (Bool-cases (key_eq k pair.1)) [
              | inl same ↦
                  let (found, m'', rows', runs', later', less) =
                    merge_loop-Returns fuel (newer t pair (ts, k, v)) m' (pop_at i rows) later
                      (omega (arith, fewer)) in
                  (
                    found,
                    m'',
                    rows',
                    ap after runs ∙ rw same runs',
                    later',
                    omega (arith, less, fewer),
                  )
              | inr other ↦ (
                some (pair.1, pair.2),
                record m' { current_pair = some (ts, k, v) },
                pop_at i rows,
                ap after runs ∙ rw other refl,
                later,
                omega (arith, fewer),
              )
            ]
      ]
    where
      after :
          Outcome (Option (Timestamp × K × V)) × List (Slot K V I)
          → Outcome (Option (K × V)) × MergingIter K V I
      after p =
          let m' : MergingIter K V I = record m { slots = p.1; current_pair = none } in
          elim p.0 [
            | err e ↦ (err e, m')
            | panic ↦ (panic, m')
            | ok none ↦ (ok (some (pair.1, pair.2)), m')
            | ok (some (ts, key, value)) ↦ elim (key_eq key pair.1) [
              | true ↦ merge_loop t fuel (newer t pair (ts, key, value)) m'
              | false ↦
                  (ok (some (pair.1, pair.2)), record m' { current_pair = some (ts, key, value) })
            ]
          ]

  pub next-done : (fuel : ℕ) (m : MergingIter K V I) → m.done ≡ true → next t fuel m ≡ (ok none, m)
  unfolding next
  next-done fuel m finished = simp finished refl

  pub next-held :
      (fuel : ℕ) (m : MergingIter K V I) (pair : Timestamp × K × V)
      → m.done ≡ false
      → m.current_pair ≡ some pair
      → next t fuel m ≡ merge_loop t fuel pair m
  unfolding next
  next-held fuel m pair more held = simp (more, held) refl

  -- What `next` does with its first look at the tables.
  abbrev pub first_look :
      ℕ
      → MergingIter K V I
      → Outcome (Option (Timestamp × K × V)) × List (Slot K V I)
      → Outcome (Option (K × V)) × MergingIter K V I
  first_look fuel m p =
      let m' : MergingIter K V I = record m { slots = p.1 } in
      elim p.0 [
        | err e ↦ (err e, m')
        | panic ↦ (panic, m')
        | ok none ↦ (ok none, record m' { done = true })
        | ok (some pair) ↦ merge_loop t fuel pair m'
      ]

  pub next-first_look :
      (fuel : ℕ) (m : MergingIter K V I)
      → m.done ≡ false
      → m.current_pair ≡ none
      → next t fuel m ≡ first_look fuel m (next_with_timestamp t m.slots)
  unfolding next
  next-first_look fuel m more nothing = simp (more, nothing) refl

  -- For iterators that give their pairs one by one and then none, fuel above the number of pairs
  -- that are left is enough for `next`: it returns a pair or none, without an error, and leaves no
  -- more pairs than there were.
  pub next-Returns :
      (fuel : ℕ) (m : MergingIter K V I) (rows : List (List (K × V)))
      → Represents t (Row t) m.slots rows
      → total rows < fuel
      → Returns (next t fuel m) rows
  next-Returns fuel m rows r f = elim (Bool-cases m.done) [
    | inl finished ↦ (none, m, rows, next-done fuel m finished, r, omega arith)
    | inr more ↦ elim (Option-cases m.current_pair) [
      | inr (pair, held) ↦
          let (found, m', rows', runs, later, less) = merge_loop-Returns fuel pair m rows r f in
          (found, m', rows', next-held fuel m pair more held ∙ runs, later, less)
      | inl nothing ↦
          let (rest, outcome) = next_with_timestamp_lem t m.slots rows r in
          elim outcome [
            | inl (runs, ended, later) ↦ (
              none,
              record m { slots = rest; done = true },
              rows,
              next-first_look fuel m more nothing ∙ ap (first_look fuel m) runs,
              later,
              omega arith,
            )
            | inr (i, ts, k, v, pairs, runs, row, low, later) ↦
                let fewer = total-pop_at rows i (k, v) pairs row in
                let (found, m', rows', runs', later', less) =
                  merge_loop-Returns fuel (ts, k, v) (record m { slots = rest }) (pop_at i rows)
                    later (omega (arith, fewer)) in
                (
                  found,
                  m',
                  rows',
                  next-first_look fuel m more nothing ∙ ap (first_look fuel m) runs ∙ runs',
                  later',
                  omega (arith, less, fewer),
                )
          ]
    ]
  ]
