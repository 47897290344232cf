-- ===== src/MergingIter/Smallest.antt =====
-- The search of src/merging_iter.rs for the smallest key.
use hybridmvcc.Timestamp.{Timestamp}
use hybridmvcc.Base.{
  sym, Bool-cases, ◌∙◌, Option-cases, get_elem?, arith, key_lt, ap, ◌+◌, refl, inr, inl, Ord, ℕ,
  suc, true, false, Option, none, some, List, [], ◌∷◌, ◌≡◌, ◌⊎◌, if◌then◌else◌,
}
use hybridmvcc.MergingIter.{head, better, TableIterator, Slot}
use hybridmvcc.MergingIter.Rows.{best_of}

module _ {K V I : Type 0} ⦃o : Ord K⦄ (t : TableIterator K V I) where
  not_lt_trans : (a b c : K) → key_lt a b ≡ false → key_lt b c ≡ false → key_lt a c ≡ false
  not_lt_trans a b c h k = ground (
    arith,
    o.cmp_swap a b,
    o.cmp_swap b c,
    o.cmp_swap a c,
    o.cmp_eq a b,
    o.cmp_eq b c,
    o.cmp_trans a c b,
    o.cmp_trans c b a,
  )

  lt-asym : (a b : K) → key_lt a b ≡ true → key_lt b a ≡ false
  lt-asym a b h = ground (arith, o.cmp_swap a b)

  -- No slot is at a key below `k`.
  abbrev pub Lowest : K → List (Slot K V I) → Type 0
  Lowest k [] = Unit {0}
  Lowest k (slot ∷ rest) =
      ((k' : K) (v' : V) → head slot ≡ some (k', v') → key_lt k' k ≡ false) × Lowest k rest

  -- The pair is the one that slot `n`, counted from `i`, is at.
  abbrev pub From : ℕ → List (Slot K V I) → ℕ × Timestamp × K × V → Type 0
  From i slots (n, ts, k, v) =
      (m : ℕ) × (slot : Slot K V I) × (n ≡ m + i)
      × (get_elem? slots m ≡ some slot)
      × (head slot ≡ some (k, v))
      × (slot.ts ≡ ts)

  -- What the search finds from a pair that it has: a pair that is lowest and not above that one, in
  -- a slot or that one itself.
  record Found (i : ℕ) (best : ℕ × Timestamp × K × V) (slots : List (Slot K V I)) : Type 0 where
    found : ℕ × Timestamp × K × V
    runs : best_of t i (some best) slots ≡ some found
    lowest : Lowest found.2 slots
    below : key_lt best.2 found.2 ≡ false
    source : From i slots found ⊎ (found ≡ best)

  later_slot :
      (i : ℕ) (slot : Slot K V I) (slots : List (Slot K V I)) (e : ℕ × Timestamp × K × V)
      → From (suc i) slots e
      → From i (slot ∷ slots) e
  later_slot i first slots e (m, slot, at, found, pair, ts) =
      (suc m, slot, omega (arith, at), found, pair, ts)

  -- A slot is at one key only.
  lowest_here :
      (slot : Slot K V I) (k low : K) (v : V)
      → head slot ≡ some (k, v)
      → key_lt k low ≡ false
      → (k' : K) (v' : V) → head slot ≡ some (k', v')
      → key_lt k' low ≡ false
  lowest_here slot k low v here above k' v' e =
      ap (λ found. elim found [ none ↦ false | some pair ↦ key_lt pair.0 low ]) (sym e ∙ here)
      ∙ above

  first_slot :
      (i : ℕ) (slot : Slot K V I) (slots : List (Slot K V I)) (k : K) (v : V)
      (found : ℕ × Timestamp × K × V)
      → head slot ≡ some (k, v)
      → found ≡ (i, slot.ts, k, v)
      → From i (slot ∷ slots) found
  first_slot i slot slots k v found here e = (
    0,
    slot,
    omega (arith, ap (λ b. b.0) e),
    refl,
    here ∙ ap (λ b. some (b.2, b.3)) (sym e),
    ap (λ b. b.1) (sym e),
  )

  first_or_later :
      (i : ℕ) (slot : Slot K V I) (slots : List (Slot K V I)) (k : K) (v : V)
      (found : ℕ × Timestamp × K × V)
      → head slot ≡ some (k, v)
      → From (suc i) slots found ⊎ (found ≡ (i, slot.ts, k, v))
      → From i (slot ∷ slots) found
  first_or_later i slot slots k v found here (inl from) = later_slot i slot slots found from
  first_or_later i slot slots k v found here (inr e) = first_slot i slot slots k v found here e

  abbrev pub Best : Type 0
  Best = ℕ × Timestamp × K × V

  better-none :
      (i : ℕ) (best : Option Best) (slot : Slot K V I)
      → head slot ≡ none
      → better t i best slot ≡ best
  unfolding better
  better-none i best slot e = rw (e, better) refl

  better-first :
      (i : ℕ) (slot : Slot K V I) (k : K) (v : V)
      → head slot ≡ some (k, v)
      → better t i none slot ≡ some (i, slot.ts, k, v)
  unfolding better
  better-first i slot k v e = rw (e, better) refl

  better-some :
      (i : ℕ) (best : Best) (slot : Slot K V I) (k : K) (v : V)
      → head slot ≡ some (k, v)
      → better t i (some best) slot
        ≡ (if key_lt k best.2 then some (i, slot.ts, k, v) else some best)
  unfolding better
  better-some i best slot k v e = rw (e, better) refl

  best_of_lem :
      (i : ℕ) (best : ℕ × Timestamp × K × V) (slots : List (Slot K V I)) → Found i best slots
  unfolding better
  best_of_lem i best [] = record {
    found = best;
    runs = refl;
    lowest = tt;
    below = ground (arith, o.cmp_swap best.2 best.2);
    source = inr refl;
  }
  best_of_lem i best (slot ∷ slots) =
      let again : Option Best → Option Best = λ b. best_of t (suc i) b slots in
      elim (Option-cases (head slot)) [
        | inl none_here ↦
            let f = best_of_lem (suc i) best slots in
            record {
              found = f.found;
              runs = ap again (better-none i (some best) slot none_here) ∙ f.runs;
              lowest = (λ k' v' e. absurd (cc (none_here, e)), f.lowest);
              below = f.below;
              source = elim f.source [
                | inl from ↦ inl (later_slot i slot slots f.found from)
                | inr e ↦ inr e
              ];
            }
        | inr ((k, v), here) ↦ elim (Bool-cases (key_lt k best.2)) [
          | inl less ↦
              let f = best_of_lem (suc i) (i, slot.ts, k, v) slots in
              record {
                found = f.found;
                runs = ap again (better-some i best slot k v here ∙ rw less refl) ∙ f.runs;
                lowest = (lowest_here slot k f.found.2 v here f.below, f.lowest);
                below = not_lt_trans best.2 k f.found.2 (lt-asym k best.2 less) f.below;
                source = inl (first_or_later i slot slots k v f.found here f.source);
              }
          | inr more ↦
              let f = best_of_lem (suc i) best slots in
              record {
                found = f.found;
                runs = ap again (better-some i best slot k v here ∙ rw more refl) ∙ f.runs;
                lowest = (
                  lowest_here slot k f.found.2 v here
                      (not_lt_trans k best.2 f.found.2 more f.below),
                  f.lowest,
                );
                below = f.below;
                source = elim f.source [
                  | inl from ↦ inl (later_slot i slot slots f.found from)
                  | inr e ↦ inr e
                ];
              }
        ]
      ]

  abbrev pub Empty : List (Slot K V I) → Type 0
  Empty [] = Unit {0}
  Empty (slot ∷ rest) = (head slot ≡ none) × Empty rest

  pub best_of-none :
      (i : ℕ) (slots : List (Slot K V I))
      → ((best_of t i none slots ≡ none) × Empty slots)
        ⊎ ((found : Best) × (best_of t i none slots ≡ some found)
            × Lowest found.2 slots
            × From i slots found)
  best_of-none i [] = inl (refl, tt)
  best_of-none i (slot ∷ slots) =
      let again : Option Best → Option Best = λ b. best_of t (suc i) b slots in
      elim (Option-cases (head slot)) [
        | inl none_here ↦ elim (best_of-none (suc i) slots) [
          | inl (runs, empty) ↦
              inl (ap again (better-none i none slot none_here) ∙ runs, (none_here, empty))
          | inr (found, runs, lowest, from) ↦ inr (
            found,
            ap again (better-none i none slot none_here) ∙ runs,
            (λ k' v' e. absurd (cc (none_here, e)), lowest),
            later_slot i slot slots found from,
          )
        ]
        | inr ((k, v), here) ↦
            let f = best_of_lem (suc i) (i, slot.ts, k, v) slots in
            inr (
              f.found,
              ap again (better-first i slot k v here) ∙ f.runs,
              (lowest_here slot k f.found.2 v here f.below, f.lowest),
              first_or_later i slot slots k v f.found here f.source,
            )
      ]
