-- ===== src/MergingIter/Steps.antt =====
-- One step of the merge of src/merging_iter.rs: it takes the smallest pair off its table.
use hybridmvcc.Base.{some-injective}
use hybridmvcc.Base.{
  err, panic, ok, get_elem?, ℕ, zero, suc, true, false, Option, none, some, List, [], ◌∷◌, Outcome,
  ok, err, panic, ◌≡◌, ◌⊎◌, inl, inr, refl, sym, ap, ◌∙◌, arith, All, Ord, key_lt, drop,
}
use hybridmvcc.MergingIter.{head, TableIterator, Slot, next_with_timestamp, take_pair}
use hybridmvcc.MergingIter.Rows.{Row, Represents, Ready, scan_lem, pop_at}
use hybridmvcc.MergingIter.Smallest.{Lowest, Empty, best_of-none}
use hybridmvcc.Timestamp.{Timestamp}
use mathlib.Core.Path.{subst}

module _ {K V I : Type 0} (t : TableIterator K V I) where
  Ready-Row : (slot : Slot K V I) (row : List (K × V)) → Ready t slot row → Row t slot row
  Ready-Row slot row (inl (d, e)) = subst (Row t slot) (sym e) (Row.gone d)
  Ready-Row slot row (inr (pair, pairs, e, d, c, y)) = subst (Row t slot) (sym e) (Row.held d c y)

  all_rows :
      (slots : List (Slot K V I)) (rows : List (List (K × V)))
      → Represents t (Ready t) slots rows
      → Represents t (Row t) slots rows
  all_rows [] [] r = tt
  all_rows [] (row ∷ rows) r = absurd r
  all_rows (slot ∷ slots) [] r = absurd r
  all_rows (slot ∷ slots) (row ∷ rows) (r, rest) = (Ready-Row slot row r, all_rows slots rows rest)

  Ready-head :
      (slot : Slot K V I) (pairs : List (K × V)) (pair : K × V)
      → Ready t slot (pair ∷ pairs)
      → head slot ≡ some pair
  Ready-head slot pairs pair (inl (d, e)) = absurd (cc e)
  Ready-head slot pairs pair (inr (p, ps, e, d, c, y)) = simp d (c ∙ ap some (sym (cc e)))

  gone-head : (slot : Slot K V I) → slot.drained ≡ true → head slot ≡ none
  gone-head slot d = simp d refl

  held-head :
      (slot : Slot K V I) (pair : K × V)
      → slot.drained ≡ false
      → slot.current ≡ some pair
      → head slot ≡ some pair
  held-head slot pair d c = simp d c

module _ {K V I : Type 0} ⦃o : Ord K⦄ (t : TableIterator K V I) where
  ended :
      (slots : List (Slot K V I)) (rows : List (List (K × V)))
      → Represents t (Ready t) slots rows
      → Empty t slots
      → All (λ row. row ≡ []) rows
  ended [] [] r e = tt
  ended [] (row ∷ rows) r e = absurd r
  ended (slot ∷ slots) [] r e = absurd r
  ended (slot ∷ slots) ([] ∷ rows) (r, rest) (e, es) = (refl, ended slots rows rest es)
  ended (slot ∷ slots) ((pair ∷ pairs) ∷ rows) (r, rest) (e, es) =
      absurd (cc (Ready-head t slot pairs pair r, e))

  row_above :
      (slots : List (Slot K V I)) (rows : List (List (K × V))) (k : K)
      → Represents t (Ready t) slots rows
      → Lowest t k slots
      → (j : ℕ) (k' : K) (v' : V) (pairs : List (K × V))
      → get_elem? rows j ≡ some ((k', v') ∷ pairs)
      → key_lt k' k ≡ false
  row_above [] [] k r low j k' v' pairs e = absurd (cc e)
  row_above [] (row ∷ rows) k r low j k' v' pairs e = absurd r
  row_above (slot ∷ slots) [] k r low j k' v' pairs e = absurd r
  row_above (slot ∷ slots) (row ∷ rows) k (r, rest) (l, low) zero k' v' pairs e =
      l k' v' (Ready-head t slot pairs (k', v') (subst (Ready t slot) (cc e) r))
  row_above (slot ∷ slots) (row ∷ rows) k (r, rest) (l, low) (suc j) k' v' pairs e =
      row_above slots rows k rest low j k' v' pairs e

  take_pair-Row :
      (slots : List (Slot K V I)) (rows : List (List (K × V))) (m : ℕ) (slot : Slot K V I)
      (pair : K × V)
      → Represents t (Ready t) slots rows
      → get_elem? slots m ≡ some slot
      → head slot ≡ some pair
      → (pairs : List (K × V)) × (get_elem? rows m ≡ some (pair ∷ pairs))
        × Represents t (Row t) (take_pair m slots) (pop_at m rows)
  unfolding take_pair
  take_pair-Row [] rows m slot pair r at h = absurd (cc at)
  take_pair-Row (s ∷ slots) [] m slot pair r at h = absurd r
  take_pair-Row (s ∷ slots) (row ∷ rows) zero slot pair (inl (d, e), rest) at h =
      absurd (cc (gone-head t s d, subst (λ x. head x ≡ some pair) (sym (some-injective at)) h))
  take_pair-Row (s ∷ slots) (row ∷ rows) zero slot pair (inr (p, ps, e, d, c, y), rest) at h =
      let here : head s ≡ some pair = subst (λ x. head x ≡ some pair) (sym (some-injective at)) h in
      let same : p ≡ pair = some-injective (sym (held-head t s p d c) ∙ here) in
      (
        ps,
        ap some (e ∙ ap (λ x. x ∷ ps) same),
        (
          subst (λ (r : List (K × V)). Row t (record s { current = none }) (drop 1 r)) (sym e)
              (Row.waits d refl y),
          all_rows t slots rows rest,
        ),
      )
  take_pair-Row (s ∷ slots) (row ∷ rows) (suc m) slot pair (r, rest) at h =
      let (pairs, found, later) = take_pair-Row slots rows m slot pair rest at h in
      (pairs, found, (Ready-Row t s row r, later))

  -- For iterators that give their pairs one by one and then none, `next_with_timestamp` does not
  -- fail. Either all tables are at their end and it says so, or it takes off its table a pair whose
  -- key no other table is below; the slots then stand for the pairs that are left.
  pub next_with_timestamp_lem :
      (slots : List (Slot K V I)) (rows : List (List (K × V)))
      → Represents t (Row t) slots rows
      → (rest : List (Slot K V I)) × (((next_with_timestamp t slots ≡ (ok none, rest))
            × All (λ row. row ≡ []) rows
            × Represents t (Row t) rest rows)
          ⊎ ((m : ℕ) × (ts : Timestamp) × (k : K) × (v : V) × (pairs : List (K × V))
              × (next_with_timestamp t slots ≡ (ok (some (ts, k, v)), rest))
              × (get_elem? rows m ≡ some ((k, v) ∷ pairs))
              × ((j : ℕ) (k' : K) (v' : V) (others : List (K × V))
                  → get_elem? rows j ≡ some ((k', v') ∷ others)
                  → key_lt k' k ≡ false)
              × Represents t (Row t) rest (pop_at m rows)))
  unfolding next_with_timestamp
  next_with_timestamp_lem slots rows r =
      let (filled, runs, ready) = scan_lem t 0 none slots rows r in
      elim (best_of-none t 0 filled) [
        | inl (nothing, empty) ↦ (
          filled,
          inl (
            ap finish (runs ∙ ap (λ b. (ok b, filled)) nothing),
            ended filled rows ready empty,
            all_rows t filled rows ready,
          ),
        )
        | inr ((n, ts, k, v), found, low, (m, slot, at_n, at, h, of_table)) ↦
            let (pairs, row, later) = take_pair-Row filled rows m slot (k, v) ready at h in
            (
              take_pair m filled,
              inr (
                m,
                ts,
                k,
                v,
                pairs,
                ap finish (runs ∙ ap (λ b. (ok b, filled)) found)
                    ∙ ap (λ i. (ok (some (ts, k, v)), take_pair i filled)) (omega (arith, at_n)),
                row,
                row_above filled rows k ready low,
                later,
              ),
            )
      ]
    where
      finish :
          Outcome (Option (ℕ × Timestamp × K × V)) × List (Slot K V I)
          → Outcome (Option (Timestamp × K × V)) × List (Slot K V I)
      finish p = elim p.0 [
        | ok (some (i, ts, key, value)) ↦ (ok (some (ts, key, value)), take_pair i p.1)
        | ok none ↦ (ok none, p.1)
        | err e ↦ (err e, p.1)
        | panic ↦ (panic, p.1)
      ]
