-- ===== src/Transaction/Manager/Invariant.antt =====
-- The invariant of the transaction manager, and what its snapshots say.
use hybridmvcc.Timestamp.{commit, new}
use hybridmvcc.Base.{
  refl, true, some, none, inr, inl, false, ◌⊎◌, All, ℕ, suc, ◌^◌, ◌<◌, ◌≤◌, List, [], ◌∷◌, ◌≡◌,
  arith,
}
use mathlib.Core.Path.{subst, subst⁻¹}
use hybridmvcc.Timestamp.Order.{cmp-commit}
use hybridmvcc.Transaction.{new_transaction, contains, TransactionMode}
use hybridmvcc.Transaction.Snapshots.{set_insert, set_remove}
use hybridmvcc.Transaction.Manager.{
  cached_min_xip, min_xip, complete, TransactionManager, start_transaction,
}

-- The running transactions are valid timestamps in ascending order, from `lo` on and below `hi`.
abbrev pub Ascending : ℕ → ℕ → List ℕ → Type 0
Ascending lo hi [] = Unit
Ascending lo hi (x ∷ xs) = (lo ≤ x) × (x < hi) × Ascending (suc x) hi xs

pub record IsValid (mgr : TransactionManager) : Type 0 where
  pub running : Ascending 1 mgr.timestamp_counter mgr.snapshot_data.xips
  pub completed : mgr.snapshot_data.latest_completed_xid < mgr.timestamp_counter
  pub counting : mgr.timestamp_counter < 2 ^ 61

Ascending-weaken :
    (lo lo' hi hi' : ℕ) (xs : List ℕ)
    → lo' ≤ lo
    → hi ≤ hi'
    → Ascending lo hi xs
    → Ascending lo' hi' xs
Ascending-weaken lo lo' hi hi' [] a b h = tt
Ascending-weaken lo lo' hi hi' (x ∷ xs) a b h =
    (omega arith, omega arith, Ascending-weaken (suc x) (suc x) hi hi' xs (omega arith) b h.2)

-- A timestamp above all others goes to the end.
set_insert-Ascending :
    (x lo : ℕ) (xs : List ℕ)
    → lo ≤ x
    → suc x < 2 ^ 61
    → Ascending lo x xs
    → Ascending lo (suc x) (set_insert x xs)
unfolding set_insert
set_insert-Ascending x lo [] a b h = omega arith
set_insert-Ascending x lo (y ∷ ys) a b h =
    ground (arith, cmp-commit x y, set_insert-Ascending x (suc y) ys)

set_remove-Ascending :
    (x lo hi : ℕ) (xs : List ℕ)
    → x < 2 ^ 61
    → hi < 2 ^ 61
    → Ascending lo hi xs
    → Ascending lo hi (set_remove x xs)
unfolding set_remove
set_remove-Ascending x lo hi [] a b h = tt
set_remove-Ascending x lo hi (y ∷ ys) a b h = ground (
  arith,
  cmp-commit x y,
  set_remove-Ascending x (suc y) hi ys,
  Ascending-weaken (suc y) lo hi hi ys,
)

absent_below : (x lo hi : ℕ) (xs : List ℕ) → x < lo → Ascending lo hi xs → contains xs x ≡ false
absent_below x lo hi [] a h = refl
absent_below x lo hi (y ∷ ys) a h = ground (arith, absent_below x (suc y) hi ys)

set_remove_gone :
    (x lo hi : ℕ) (xs : List ℕ)
    → x < 2 ^ 61
    → hi < 2 ^ 61
    → Ascending lo hi xs
    → contains (set_remove x xs) x ≡ false
unfolding set_remove
set_remove_gone x lo hi [] a b h = refl
set_remove_gone x lo hi (y ∷ ys) a b h =
    ground (arith, cmp-commit x y, set_remove_gone x (suc y) hi ys, absent_below x (suc y) hi ys)

lower_bound : (lo hi : ℕ) (xs : List ℕ) → Ascending lo hi xs → All (λ y. lo ≤ y) xs
lower_bound lo hi [] h = tt
lower_bound lo hi (y ∷ ys) h = (
  h.0,
  lower_bound lo hi ys (Ascending-weaken (suc y) lo hi hi ys (omega arith) (omega arith) h.2),
)

pub new-commit : (x : ℕ) → x < 2 ^ 61 → new commit x ≡ x
unfolding new
new-commit x h = omega arith

absent_above : (lo hi : ℕ) (xs : List ℕ) → Ascending lo hi xs → contains xs hi ≡ false
absent_above lo hi [] h = refl
absent_above lo hi (y ∷ ys) h = ground (arith, absent_above (suc y) hi ys h.2)

contains-set_insert :
    (x : ℕ) (xs : List ℕ)
    → x < 2 ^ 61
    → All (λ y. y < 2 ^ 61) xs
    → contains (set_insert x xs) x ≡ true
unfolding set_insert
contains-set_insert x [] b h = ground arith
contains-set_insert x (y ∷ ys) b h =
    ground (arith, cmp-commit x y, contains-set_insert x ys b h.1, h.0)

below_bound :
    (lo hi : ℕ) (xs : List ℕ) → hi < 2 ^ 61 → Ascending lo hi xs → All (λ y. y < 2 ^ 61) xs
below_bound lo hi [] b h = tt
below_bound lo hi (y ∷ ys) b h = (omega arith, below_bound (suc y) hi ys b h.2)

module _ (K V : Type 0) (mode : TransactionMode) (mgr : TransactionManager) where
  -- While the counter is not 0 and stays below 2^61, a start in a valid manager leaves it valid.
  -- The transaction's start timestamp is the counter, which no running transaction had and no
  -- completed one reached, and it is then running.
  pub start_transaction-IsValid :
      IsValid mgr
      → suc mgr.timestamp_counter < 2 ^ 61
      → 0 < mgr.timestamp_counter
      → IsValid (start_transaction {K = K} {V = V} mode mgr).1
        × ((start_transaction {K = K} {V = V} mode mgr).0.start_timestamp ≡ mgr.timestamp_counter)
        × (contains mgr.snapshot_data.xips mgr.timestamp_counter ≡ false)
        × (mgr.snapshot_data.latest_completed_xid < mgr.timestamp_counter)
        × (contains
              (start_transaction {K = K} {V = V} mode mgr).1.snapshot_data.xips
              mgr.timestamp_counter
            ≡ true)
  unfolding start_transaction new_transaction
  start_transaction-IsValid v b z =
      let n = mgr.timestamp_counter in
      let xips = mgr.snapshot_data.xips in
      let same = new-commit n v.counting in
      (
        record {
          running = ground (arith, same, set_insert-Ascending n 1 xips, v.running, v.counting);
          completed = ground (arith, v.completed);
          counting = ground arith;
        },
        same,
        absent_above 1 n xips v.running,
        v.completed,
        rw same (contains-set_insert n xips v.counting (below_bound 1 n xips v.counting v.running)),
      )

module _ (mgr : TransactionManager) (start_ts : ℕ) where
  abbrev pub after_complete : TransactionManager
  after_complete = record mgr { snapshot_data = complete start_ts mgr.snapshot_data }

  -- In a valid manager whose counter is above `start_ts`, the end of that transaction keeps the
  -- manager valid and takes it out of the running ones; the latest completed transaction does not
  -- fall, and is then at least `start_ts`.
  pub complete-IsValid :
      IsValid mgr
      → start_ts < mgr.timestamp_counter
      → IsValid after_complete
        × (contains after_complete.snapshot_data.xips start_ts ≡ false)
        × (mgr.snapshot_data.latest_completed_xid
            ≤ after_complete.snapshot_data.latest_completed_xid)
        × (start_ts ≤ after_complete.snapshot_data.latest_completed_xid)
  unfolding complete
  complete-IsValid v b = (
    record {
      running =
          set_remove-Ascending start_ts 1 mgr.timestamp_counter mgr.snapshot_data.xips
            (omega (arith, v.counting)) v.counting v.running;
      completed = ground (arith, v.completed);
      counting = v.counting;
    },
    set_remove_gone start_ts 1 mgr.timestamp_counter mgr.snapshot_data.xips
        (omega (arith, v.counting)) v.counting v.running,
    ground (
      arith,
      cmp-commit mgr.snapshot_data.latest_completed_xid start_ts,
      v.completed,
      v.counting,
    ),
    ground (
      arith,
      cmp-commit mgr.snapshot_data.latest_completed_xid start_ts,
      v.completed,
      v.counting,
    ),
  )

weaken_list : (a b : ℕ) (xs : List ℕ) → a ≤ b → All (λ y. b ≤ y) xs → All (λ y. a ≤ y) xs
weaken_list a b [] h k = tt
weaken_list a b (x ∷ xs) h k = (omega arith, weaken_list a b xs h k.1)

list-cases : (xs : List ℕ) → (xs ≡ []) ⊎ ((x : ℕ) × (ys : List ℕ) × (xs ≡ x ∷ ys))
list-cases [] = inl refl
list-cases (x ∷ xs) = inr (x, xs, refl)

-- In a valid manager what `min_xip` returns is running and is the least running timestamp, and it is what
-- `cached_min_xip` returns from then on; without a running transaction it returns nothing.
pub min_xip_lem :
    (mgr : TransactionManager)
    → IsValid mgr
    → ((min_xip mgr).0 ≡ none → mgr.snapshot_data.xips ≡ [])
      × ((x : ℕ)
          → (min_xip mgr).0 ≡ some x
          → (contains mgr.snapshot_data.xips x ≡ true)
            × All (λ y. x ≤ y) mgr.snapshot_data.xips
            × (cached_min_xip (min_xip mgr).1 ≡ some x))
unfolding min_xip cached_min_xip
min_xip_lem mgr v = elim (list-cases mgr.snapshot_data.xips) [
  | inl e ↦ (λ h. e, λ x h. ground (arith, e))
  | inr (y, ys, e) ↦ (
    λ h. ground (arith, e),
    λ x h. (ground (arith, e), least e (ground (arith, e)), ground (arith, e, first_pos e)),
  )
]
  where
    first_pos : {y : ℕ} {ys : List ℕ} → mgr.snapshot_data.xips ≡ y ∷ ys → 0 < y
    first_pos {y} {ys} e = (subst (λ xs. Ascending 1 mgr.timestamp_counter xs) e v.running).0

    least :
        {x y : ℕ} {ys : List ℕ}
        → mgr.snapshot_data.xips ≡ y ∷ ys
        → y ≡ x
        → All (λ z. x ≤ z) mgr.snapshot_data.xips
    least {x} {y} {ys} e p =
        let up = subst (λ xs. Ascending 1 mgr.timestamp_counter xs) e v.running in
        subst⁻¹ (λ xs. All (λ z. x ≤ z) xs) e
          (
            omega arith,
            weaken_list x (suc y) ys (omega arith)
                (lower_bound (suc y) mgr.timestamp_counter ys up.2),
          )
