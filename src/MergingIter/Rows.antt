-- ===== src/MergingIter/Rows.antt =====
-- What the slots of src/merging_iter.rs stand for: the pairs that each table has left.
use hybridmvcc.Timestamp.{Timestamp}
use hybridmvcc.Base.{
  ◌∙◌, err, panic, Outcome, ap, refl, inr, inl, Ord, ℕ, zero, suc, true, false, Option, none, some,
  List, [], ◌∷◌, ok, ◌≡◌, ◌⊎◌, drop,
}
use hybridmvcc.MergingIter.{better, scan, fill, TableIterator, Slot}

-- The rows of pairs with the first one of row `m` taken off.
abbrev pub pop_at : {A : Type 0} → ℕ → List (List A) → List (List A)
pop_at m [] = []
pop_at zero (row ∷ rows) = drop 1 row ∷ rows
pop_at (suc m) (row ∷ rows) = row ∷ pop_at m rows

module _ {K V I : Type 0} (t : TableIterator K V I) where
  -- The iterator gives these pairs one by one, and then none.
  unfoldable pub Yields : I → List (K × V) → Type 0
  Yields it [] = (it' : I) × (t.next_pair it ≡ (ok none, it'))
  Yields it (pair ∷ pairs) = (it' : I) × (t.next_pair it ≡ (ok (some pair), it')) × Yields it' pairs

  -- A slot at its end, at a pair of its row, or before the next pair of its row.
  pub data Row : Slot K V I → List (K × V) → Type 0 where
    gone : {slot : Slot K V I} → slot.drained ≡ true → Row slot []
    held :
        {slot : Slot K V I} {pair : K × V} {pairs : List (K × V)}
        → slot.drained ≡ false
        → slot.current ≡ some pair
        → Yields slot.iter pairs
        → Row slot (pair ∷ pairs)
    waits :
        {slot : Slot K V I} {pairs : List (K × V)}
        → slot.drained ≡ false
        → slot.current ≡ none
        → Yields slot.iter pairs
        → Row slot pairs

  -- After its round of the loop no slot waits.
  abbrev pub Ready : Slot K V I → List (K × V) → Type 0
  Ready slot row =
      ((slot.drained ≡ true) × (row ≡ []))
      ⊎ ((pair : K × V) × (pairs : List (K × V)) × (row ≡ pair ∷ pairs)
          × (slot.drained ≡ false)
          × (slot.current ≡ some pair)
          × Yields slot.iter pairs)

  module _ (R : Slot K V I → List (K × V) → Type 0) where
    abbrev pub Represents : List (Slot K V I) → List (List (K × V)) → Type 0
    Represents [] [] = Unit {0}
    Represents [] (row ∷ rows) = ⊥
    Represents (slot ∷ slots) [] = ⊥
    Represents (slot ∷ slots) (row ∷ rows) = R slot row × Represents slots rows

module _ {K V I : Type 0} ⦃o : Ord K⦄ (t : TableIterator K V I) where
  -- A round of the loop on a slot: afterwards it is at a pair, or at its end.
  pub record Filled (slot : Slot K V I) (row : List (K × V)) : Type 0 where
    after : Slot K V I
    runs : fill t slot ≡ (ok tt, after)
    ready : Ready t after row

  fill_waiting :
      (slot : Slot K V I) (row : List (K × V))
      → slot.drained ≡ false
      → slot.current ≡ none
      → Yields t slot.iter row
      → Filled slot row
  unfolding fill Yields
  fill_waiting slot [] d c (it', e) = record {
    after = record slot { iter = it'; drained = true };
    runs = simp (d, c, e) refl;
    ready = inl (refl, refl);
  }
  fill_waiting slot (pair ∷ pairs) d c (it', e, y) = record {
    after = record slot { iter = it'; current = some pair };
    runs = simp (d, c, e) refl;
    ready = inr (pair, pairs, refl, d, refl, y);
  }

  fill_lem : (slot : Slot K V I) (row : List (K × V)) → Row t slot row → Filled slot row
  unfolding fill
  fill_lem slot row (gone d) = record { after = slot; runs = simp d refl; ready = inl (d, refl) }
  fill_lem slot row (held {pair = pair} {pairs = pairs} d c y) = record {
    after = slot;
    runs = simp (d, c) refl;
    ready = inr (pair, pairs, refl, d, c, y);
  }
  fill_lem slot row (waits d c y) = fill_waiting slot row d c y

  -- The search alone, once all slots are filled.
  abbrev pub best_of :
      ℕ → Option (ℕ × Timestamp × K × V) → List (Slot K V I) → Option (ℕ × Timestamp × K × V)
  best_of i best [] = best
  best_of i best (slot ∷ rest) = best_of (suc i) (better t i best slot) rest

  pub scan_lem :
      (i : ℕ) (best : Option (ℕ × Timestamp × K × V)) (slots : List (Slot K V I))
      (rows : List (List (K × V)))
      → Represents t (Row t) slots rows
      → (slots' : List (Slot K V I)) × (scan t i best slots ≡ (ok (best_of i best slots'), slots'))
        × Represents t (Ready t) slots' rows
  unfolding scan
  scan_lem i best [] [] r = ([], refl, tt)
  scan_lem i best [] (row ∷ rows) r = absurd r
  scan_lem i best (slot ∷ slots) [] r = absurd r
  scan_lem i best (slot ∷ slots) (row ∷ rows) (r, rest) =
      let f = fill_lem slot row r in
      let (slots', runs, ready) = scan_lem (suc i) (better t i best f.after) slots rows rest in
      (
        f.after ∷ slots',
        ap
              (λ (p : Outcome (Unit {0}) × Slot K V I).
                let q = scan t (suc i) (better t i best p.1) slots in
                let r : Outcome (Option (ℕ × Timestamp × K × V)) × List (Slot K V I) = elim p.0 [
                  | ok _ ↦ (q.0, p.1 ∷ q.1)
                  | err e ↦ (err e, p.1 ∷ slots)
                  | panic ↦ (panic, p.1 ∷ slots)
                ] in
                r)
              f.runs
            ∙ ap
                (λ (q : Outcome (Option (ℕ × Timestamp × K × V)) × List (Slot K V I)).
                  let r : Outcome (Option (ℕ × Timestamp × K × V)) × List (Slot K V I) =
                    (q.0, f.after ∷ q.1) in
                  r)
                runs,
        (f.ready, ready),
      )
