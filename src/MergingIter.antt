-- ===== src/MergingIter.antt =====
-- src/merging_iter.rs: the iterators of several tables as one, in key order. The vectors `iters`,
-- `current` and `drained` are one list of slots.
pub mod Ends
pub mod Rows
pub mod Smallest
pub mod Steps
pub mod Progress
pub mod Fused
use hybridmvcc.Base.{
  map, ℕ, zero, suc, ◌+◌, ◌-◌, ◌*◌, ◌/◌, ◌%◌, ◌^◌, ◌<◌, ◌≤◌, Bool, true, false, not, ◌&&◌, ◌||◌,
  Option, none, some, List, [], ◌∷◌, ◌++◌, ◌==◌, Outcome, ok, err, panic, ◌≡◌, ◌≢◌, ◌⊎◌, ◌↔◌, inl,
  inr, refl, sym, ap, ◌∙◌, arith, All, Ordering, if◌then◌else◌, Ord, key_eq, key_lt, Bool-cases,
  Option-cases, ◌>>=◌, ltb, leb, length, take, drop, is_lt, is_eq, is_gt, compare, min,
}
use hybridmvcc.Timestamp.{Timestamp, invalid_timestamp, is_invalid, ts_lt}

-- `TableIterator`, as far as the merge calls it.
pub record TableIterator (K V I : Type 0) : Type 0 where
  pub next_pair : I → Outcome (Option (K × V)) × I
  pub reset_iter : I → I
  pub seek_iter : K → I → I

pub record Slot (K V I : Type 0) : Type 0 where
  pub ts : Timestamp
  pub iter : I
  pub current : Option (K × V)
  pub drained : Bool

pub record MergingIter (K V I : Type 0) : Type 0 where
  pub slots : List (Slot K V I)
  pub current_pair : Option (Timestamp × K × V)
  pub done : Bool

module _ {K V I : Type 0} where
  unfoldable pub new : List (Timestamp × I) → MergingIter K V I
  new iters = record {
    slots =
        map (λ entry. record { ts = entry.0; iter = entry.1; current = none; drained = false })
          iters;
    current_pair = none;
    done = false;
  }

  -- The pair that a slot is at; a drained one is passed over.
  abbrev pub head : Slot K V I → Option (K × V)
  head slot = if slot.drained then none else slot.current

  -- The loop of `reset` and of `seek` over the iterators.
  abbrev pub for_each : (I → I) → List (Slot K V I) → List (Slot K V I)
  for_each f [] = []
  for_each f (slot ∷ rest) = record slot { iter = f slot.iter } ∷ for_each f rest

  -- `take` of the smallest pair out of its slot.
  unfoldable pub take_pair : ℕ → List (Slot K V I) → List (Slot K V I)
  take_pair i [] = []
  take_pair zero (slot ∷ rest) = record slot { current = none } ∷ rest
  take_pair (suc i) (slot ∷ rest) = slot ∷ take_pair i rest

module _ {K V I : Type 0} ⦃o : Ord K⦄ (t : TableIterator K V I) where
  -- What a round of the loop does to its slot.
  unfoldable pub fill : Slot K V I → Outcome (Unit {0}) × Slot K V I
  fill slot = if slot.drained then (ok tt, slot) else elim slot.current [
    | some pair ↦ (ok tt, slot)
    | none ↦
        let (found, iter) = t.next_pair slot.iter in
        let slot' : Slot K V I = record slot { iter = iter } in
        elim found [
          | ok (some pair) ↦ (ok tt, record slot' { current = some pair })
          | ok none ↦ (ok tt, record slot' { drained = true })
          | err e ↦ (err e, slot')
          | panic ↦ (panic, slot')
        ]
  ]

  -- The smallest pair so far is kept with its place and its table's timestamp; a later one takes
  -- its place only when its key is smaller.
  unfoldable pub better :
      ℕ → Option (ℕ × Timestamp × K × V) → Slot K V I → Option (ℕ × Timestamp × K × V)
  better i best slot = elim (head slot) [
    | none ↦ best
    | some (key, value) ↦ elim best [
      | none ↦ some (i, slot.ts, key, value)
      | some (j, ts, smallest, v) ↦
          if key_lt key smallest then some (i, slot.ts, key, value) else some (j, ts, smallest, v)
    ]
  ]

  unfoldable pub scan :
      ℕ
      → Option (ℕ × Timestamp × K × V)
      → List (Slot K V I)
      → Outcome (Option (ℕ × Timestamp × K × V)) × List (Slot K V I)
  scan i best [] = (ok best, [])
  scan i best (slot ∷ rest) =
      let (filled, slot') = fill slot in
      let (found, rest') = scan (suc i) (better i best slot') rest in
      elim filled [
        | ok _ ↦ (found, slot' ∷ rest')
        | err e ↦ (err e, slot' ∷ rest)
        | panic ↦ (panic, slot' ∷ rest)
      ]

  unfoldable pub next_with_timestamp :
      List (Slot K V I) → Outcome (Option (Timestamp × K × V)) × List (Slot K V I)
  next_with_timestamp slots =
      let (found, slots') = scan 0 none slots in
      elim found [
        | ok (some (i, ts, key, value)) ↦ (ok (some (ts, key, value)), take_pair i slots')
        | ok none ↦ (ok none, slots')
        | err e ↦ (err e, slots')
        | panic ↦ (panic, slots')
      ]

  -- Which of two pairs with one key stays: the later one only if its table is newer.
  unfoldable pub newer : Timestamp × K × V → Timestamp × K × V → Timestamp × K × V
  newer (last_ts, last_key, last_value) (ts, key, value) =
      if not (is_invalid ts) && ts_lt last_ts ts
      then (ts, key, value)
      else (last_ts, last_key, last_value)

  -- The `while` loop of `next` with the pair that it has taken; an error drops that pair.
  unfoldable pub merge_loop :
      ℕ → Timestamp × K × V → MergingIter K V I → Outcome (Option (K × V)) × MergingIter K V I
  merge_loop zero pair m = (panic, m)
  merge_loop (suc fuel) (last_ts, last_key, last_value) m =
      let (found, slots) = next_with_timestamp m.slots in
      let m' : MergingIter K V I = record m { slots = slots; current_pair = none } in
      elim found [
        | err e ↦ (err e, m')
        | panic ↦ (panic, m')
        | ok none ↦ (ok (some (last_key, last_value)), m')
        | ok (some (ts, key, value)) ↦ elim (key_eq key last_key) [
          | true ↦ merge_loop fuel (newer (last_ts, last_key, last_value) (ts, key, value)) m'
          | false ↦
              (ok (some (last_key, last_value)), record m' { current_pair = some (ts, key, value) })
        ]
      ]

  unfoldable pub next : ℕ → MergingIter K V I → Outcome (Option (K × V)) × MergingIter K V I
  next fuel m = if m.done then (ok none, m) else elim m.current_pair [
    | some pair ↦ merge_loop fuel pair m
    | none ↦
        let (found, slots) = next_with_timestamp m.slots in
        let m' : MergingIter K V I = record m { slots = slots } in
        elim found [
          | err e ↦ (err e, m')
          | panic ↦ (panic, m')
          | ok none ↦ (ok none, record m' { done = true })
          | ok (some pair) ↦ merge_loop fuel pair m'
        ]
  ]

  unfoldable pub reset : MergingIter K V I → MergingIter K V I
  reset m = record m { slots = for_each t.reset_iter m.slots; done = false }

  unfoldable pub seek : K → MergingIter K V I → MergingIter K V I
  seek key m = record m { slots = for_each (t.seek_iter key) m.slots }

  -- The merge is itself the iterator of a table.
  unfoldable pub iterator : ℕ → TableIterator K V (MergingIter K V I)
  iterator fuel = record { next_pair = next fuel; reset_iter = reset; seek_iter = seek }
