-- ===== src/MergingIter/Ends.antt =====
-- The end of a merge of src/merging_iter.rs, and what `reset` and `seek` do not undo.
use hybridmvcc.Base.{
  ℕ, suc, true, Option, none, List, [], ◌∷◌, ok, ◌≡◌, inl, inr, refl, Ord, Bool-cases,
}
use hybridmvcc.Timestamp.{Timestamp}
use hybridmvcc.MergingIter.{
  for_each, TableIterator, Slot, MergingIter, scan, fill, better, next_with_timestamp, next, reset,
  seek,
}

abbrev pub AllDrained : {K V I : Type 0} → List (Slot K V I) → Type 0
AllDrained [] = Unit {0}
AllDrained (slot ∷ rest) = (slot.drained ≡ true) × AllDrained rest

module _ {K V I : Type 0} ⦃o : Ord K⦄ (t : TableIterator K V I) where
  scan-AllDrained :
      (i : ℕ) (best : Option (ℕ × Timestamp × K × V)) (slots : List (Slot K V I))
      → AllDrained slots
      → scan t i best slots ≡ (ok best, slots)
  unfolding scan fill better
  scan-AllDrained i best [] d = refl
  scan-AllDrained i best (slot ∷ rest) d = rw (d.0, scan-AllDrained (suc i) best rest d.1) refl

  for_each-AllDrained :
      (f : I → I) (slots : List (Slot K V I)) → AllDrained slots → AllDrained (for_each f slots)
  for_each-AllDrained f [] d = tt
  for_each-AllDrained f (slot ∷ rest) d = (d.0, for_each-AllDrained f rest d.1)

  drained_ends :
      (fuel : ℕ) (m : MergingIter K V I)
      → AllDrained m.slots
      → m.current_pair ≡ none
      → (next t fuel m).0 ≡ ok none
  unfolding next next_with_timestamp
  drained_ends fuel m d e = elim (Bool-cases m.done) [
    | inl finished ↦ rw finished refl
    | inr more ↦ rw (more, e, scan-AllDrained 0 none m.slots d) refl
  ]

  -- Once all tables have said that they are at their end, a `reset` does not start the merge again,
  -- nor does a `seek` after it: `next` says that no pair is left, whatever the tables hold.
  pub reset_stays_empty :
      (fuel : ℕ) (key : K) (m : MergingIter K V I)
      → AllDrained m.slots
      → m.current_pair ≡ none
      → ((next t fuel (reset t m)).0 ≡ ok none)
        × ((next t fuel (seek t key (reset t m))).0 ≡ ok none)
  unfolding reset seek
  reset_stays_empty fuel key m d e =
      let again = for_each-AllDrained t.reset_iter m.slots d in
      (
        drained_ends fuel (reset t m) again e,
        drained_ends fuel (seek t key (reset t m))
            (for_each-AllDrained (t.seek_iter key) (reset t m).slots again) e,
      )
