-- ===== src/MergingIter/Fused.antt =====
-- A merge of src/merging_iter.rs that has answered none answers none again.
use hybridmvcc.Base.{
  ℕ, zero, suc, true, false, Option, none, some, List, Outcome, ok, err, panic, ◌≡◌, inl, inr, sym,
  ap, ◌∙◌, Ord, key_eq, Bool-cases, Option-cases,
}
use hybridmvcc.MergingIter.{
  TableIterator, Slot, MergingIter, next_with_timestamp, merge_loop, newer, next, iterator,
}
use hybridmvcc.MergingIter.Progress.{first_look, next-done, next-held, next-first_look}
use hybridmvcc.Timestamp.{Timestamp}

module _ {K V I : Type 0} ⦃o : Ord K⦄ (t : TableIterator K V I) where
  -- A round of the loop of `next`, from what the tables answer.
  abbrev round :
      ℕ
      → Timestamp × K × V
      → MergingIter K V I
      → Outcome (Option (Timestamp × K × V)) × List (Slot K V I)
      → Outcome (Option (K × V)) × MergingIter K V I
  round fuel pair m p =
      let m' : MergingIter K V I = record m { slots = p.1; current_pair = none } in
      elim p.0 [
        | err e ↦ (err e, m')
        | panic ↦ (panic, m')
        | ok none ↦ (ok (some (pair.1, pair.2)), m')
        | ok (some (ts, key, value)) ↦ elim (key_eq key pair.1) [
          | true ↦ merge_loop t fuel (newer t pair (ts, key, value)) m'
          | false ↦ (ok (some (pair.1, pair.2)), record m' { current_pair = some (ts, key, value) })
        ]
      ]

  abbrev NeverNone : ℕ → Type 0
  NeverNone fuel =
      (pair : Timestamp × K × V) (m m' : MergingIter K V I)
      → merge_loop t fuel pair m ≡ (ok none, m')
      → ⊥

  round_some :
      (fuel : ℕ) (pair : Timestamp × K × V) (m m' : MergingIter K V I)
      (p : Outcome (Option (Timestamp × K × V)) × List (Slot K V I))
      → NeverNone fuel
      → round fuel pair m p ≡ (ok none, m')
      → ⊥
  round_some fuel pair m m' (err c, slots) never e = absurd (cc (ap (λ r. r.0) e))
  round_some fuel pair m m' (panic, slots) never e = absurd (cc (ap (λ r. r.0) e))
  round_some fuel pair m m' (ok none, slots) never e = absurd (cc (ap (λ r. r.0) e))
  round_some fuel pair m m' (ok (some (ts, key, value)), slots) never e =
      elim (Bool-cases (key_eq key pair.1)) [
        | inl same ↦
            never (newer t pair (ts, key, value)) (record m { slots = slots; current_pair = none })
              m' (rw (same, round) at e)
        | inr other ↦ absurd (cc (ap (λ r. r.0) (rw (other, round) at e)))
      ]

  never_none : (fuel : ℕ) → NeverNone fuel
  unfolding merge_loop
  never_none zero pair m m' e = absurd (cc (ap (λ r. r.0) e))
  never_none (suc fuel) pair m m' e =
      round_some fuel pair m m' (next_with_timestamp t m.slots) (never_none fuel) e

  looked_done :
      (fuel : ℕ) (m m' : MergingIter K V I)
      (p : Outcome (Option (Timestamp × K × V)) × List (Slot K V I))
      → first_look t fuel m p ≡ (ok none, m')
      → m'.done ≡ true
  looked_done fuel m m' (err c, slots) e = absurd (cc (ap (λ r. r.0) e))
  looked_done fuel m m' (panic, slots) e = absurd (cc (ap (λ r. r.0) e))
  looked_done fuel m m' (ok none, slots) e = sym (ap (λ r. r.1.done) e)
  looked_done fuel m m' (ok (some pair), slots) e =
      absurd (never_none fuel pair (record m { slots = slots }) m' e)

  done_lem : (fuel : ℕ) (m m' : MergingIter K V I) → next t fuel m ≡ (ok none, m') → m'.done ≡ true
  done_lem fuel m m' e = elim (Bool-cases m.done) [
    | inl finished ↦ ap (λ r. r.1.done) (sym e ∙ next-done t fuel m finished) ∙ finished
    | inr more ↦ elim (Option-cases m.current_pair) [
      | inr (pair, held) ↦
          absurd (never_none fuel pair m m' (sym (next-held t fuel m pair more held) ∙ e))
      | inl nothing ↦
          looked_done fuel m m' (next_with_timestamp t m.slots)
            (sym (next-first_look t fuel m more nothing) ∙ e)
    ]
  ]

  -- Once `next` has answered none, it does so again, and the merge stays as it is.
  pub next-again :
      (fuel : ℕ) (m m' : MergingIter K V I)
      → (iterator t fuel).next_pair m ≡ (ok none, m')
      → (iterator t fuel).next_pair m' ≡ (ok none, m')
  unfolding iterator
  next-again fuel m m' e = next-done t fuel m' (done_lem fuel m m' e)
