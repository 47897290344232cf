-- ===== src/Tests/Merges.antt =====
-- Merges of two tables in memory.
use hybridmvcc.Base.{
  arith, ℕ_ord, get_elem?, ℕ, true, false, Option, none, some, List, [], ◌∷◌, Outcome, ok, ◌≡◌, ◌⊎◌,
  refl, All, key_lt,
}
use hybridmvcc.MergingIter.{
  take_pair, better, fill, scan, newer, merge_loop, TableIterator, Slot, MergingIter, next, reset,
  seek, next_with_timestamp,
}
use hybridmvcc.MergingIter.Rows.{Row, Represents, Yields, pop_at}
use hybridmvcc.MergingIter.Steps.{next_with_timestamp_lem}
use hybridmvcc.MergingIter.Progress.{next-Returns, Returns}
use hybridmvcc.MergingIter.Ends.{reset_stays_empty}
use hybridmvcc.Timestamp.{Timestamp}

abbrev Pairs : Type 0
Pairs = List (ℕ × ℕ)

abbrev take_first : Pairs → Outcome (Option (ℕ × ℕ)) × Pairs
take_first [] = (ok none, [])
take_first (pair ∷ pairs) = (ok (some pair), pairs)

abbrev in_memory : TableIterator ℕ ℕ Pairs
in_memory = record {
  next_pair = take_first;
  reset_iter = λ pairs. (1, 1) ∷ [];
  seek_iter = λ key pairs. pairs;
}

abbrev table_at : Pairs → Slot ℕ ℕ Pairs
table_at pairs = record { ts = 8; iter = pairs; current = none; drained = false }

yields : (pairs : Pairs) → Yields in_memory pairs pairs
unfolding Yields
yields [] = ([], refl)
yields (pair ∷ pairs) = (pairs, refl, yields pairs)

abbrev rows : List Pairs
rows = ((2, 20) ∷ (5, 50) ∷ []) ∷ [] ∷ ((1, 10) ∷ []) ∷ []

abbrev tables : List (Slot ℕ ℕ Pairs)
tables = table_at ((2, 20) ∷ (5, 50) ∷ []) ∷ table_at [] ∷ table_at ((1, 10) ∷ []) ∷ []

tables-Represents : Represents in_memory (Row in_memory) tables rows
tables-Represents = (
  Row.waits refl refl (yields ((2, 20) ∷ (5, 50) ∷ [])),
  (Row.waits refl refl (yields []), (Row.waits refl refl (yields ((1, 10) ∷ [])), tt)),
)

next_with_timestamp_lem_example :
    (rest : List (Slot ℕ ℕ Pairs)) × (((next_with_timestamp in_memory tables ≡ (ok none, rest))
        × All (λ row. row ≡ []) rows
        × Represents in_memory (Row in_memory) rest rows)
      ⊎ ((m : ℕ) × (ts : Timestamp) × (k v : ℕ) × (pairs : Pairs) × (next_with_timestamp in_memory
              tables
            ≡ (ok (some (ts, k, v)), rest))
          × (get_elem? rows m ≡ some ((k, v) ∷ pairs))
          × ((j k' v' : ℕ) (others : Pairs)
              → get_elem? rows j ≡ some ((k', v') ∷ others)
              → key_lt k' k ≡ false)
          × Represents in_memory (Row in_memory) rest (pop_at m rows)))
next_with_timestamp_lem_example = next_with_timestamp_lem in_memory tables rows tables-Represents

abbrev merge : MergingIter ℕ ℕ Pairs
merge = record { slots = tables; current_pair = none; done = false }

next-Returns_example : Returns in_memory (next in_memory 4 merge) rows
next-Returns_example = next-Returns in_memory 4 merge rows tables-Represents (omega arith)

-- The first pair of the merge comes from the last table.
next_runs : (next in_memory 4 merge).0 ≡ ok (some (1, 10))
unfolding next merge_loop newer next_with_timestamp scan fill better take_pair
next_runs = refl

abbrev finished : MergingIter ℕ ℕ Pairs
finished = record {
  slots = record { ts = 8; iter = []; current = none; drained = true } ∷ [];
  current_pair = none;
  done = true;
}

reset_stays_empty_example :
    ((next in_memory 3 (reset in_memory finished)).0 ≡ ok none)
    × ((next in_memory 3 (seek in_memory 1 (reset in_memory finished))).0 ≡ ok none)
reset_stays_empty_example = reset_stays_empty in_memory 3 1 finished (refl, tt) refl
