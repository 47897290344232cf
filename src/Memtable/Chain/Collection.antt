-- ===== src/Memtable/Chain/Collection.antt =====
-- The two phases of a flush on one chain: `snapshot` copies a version out and marks it, and `gc`
-- drops what has been copied.
use hybridmvcc.Transaction.Status.{aborted, get_transaction_status}
use hybridmvcc.Timestamp.Order.{cmp-commit}
use hybridmvcc.Transaction.{Snapshot, Transaction}
use hybridmvcc.Memtable.Chain.Reads.{
  skip_delta-visible, get_value-newest, visible, value_of, newest,
}
use hybridmvcc.Base.{
  ◌+◌, ◌-◌, ◌%◌, ltb, ◌≢◌, inl, inr, Option-cases, sym, Option-cases, ap, ◌∙◌, ok, ◌⊎◌, ◌≤◌, ◌<◌,
  ◌^◌, ℕ, Bool, true, false, Option, none, some, [], ◌∷◌, ◌==◌, ◌≡◌, refl, arith, All,
  if◌then◌else◌,
}
use hybridmvcc.Timestamp.Fields.{fields-new}
use hybridmvcc.Timestamp.{
  new, raw_timestamp, normalize, uncommitted, start, commit, type_, Timestamp,
}
use hybridmvcc.Storage.{RedoRecord, inserted, try_set_collected}
use hybridmvcc.Memtable.Chain.{
  get_value_loop, get_value, is_abort, Shared, gc_chain, Chain, Link, is_version_safe_for_gc,
  collect_chain, detach,
}

normalize-start : (n : ℕ) → n < 2 ^ 61 → normalize (new start n) ≡ n
unfolding normalize raw_timestamp new
normalize-start n a = ground (arith, a)

aborted_unseen :
    {K V : Type 0} (shared : Shared) (txn : Transaction K V) (s : Snapshot) (n : ℕ)
    → n < 2 ^ 61
    → get_transaction_status shared.txn_table n ≡ aborted
    → n ≢ txn.start_timestamp
    → visible shared s txn (new start n) ≡ false
unfolding visible
aborted_unseen shared txn s n a st own =
    let other : (n == txn.start_timestamp) ≡ false = ground arith in
    ground (arith, (fields-new start n).0, normalize-start n a, st, other)

-- A version with the mark of a fast-commit transaction is safe to collect from the given age on.
is_version_safe_for_gc-start :
    (m : Timestamp) (age n : ℕ)
    → n < 2 ^ 61
    → m < 2 ^ 61
    → age < m
    → is_version_safe_for_gc (new start n) m age ≡ ltb (n + age) m
unfolding is_version_safe_for_gc raw_timestamp new type_
is_version_safe_for_gc-start m age n a b c =
    let limit : (m % 2 ^ 62 + 2 ^ 64 - age % 2 ^ 64) % 2 ^ 64 ≡ m - age = omega (arith, b, c) in
    let plain : new commit (m - age) ≡ m - age = omega (arith, b) in
    ground (arith, limit, plain, normalize-start n a, cmp-commit n (m - age) a (omega (arith, b)))

module _ {V : Type 0} where
  -- The newest version of the chain that is left and of the copy, which is older, taken together.
  abbrev newest_of_both : Option (Option V) → Option (RedoRecord V) → Option V
  newest_of_both copy (some r) = inserted r
  newest_of_both (some v) none = v
  newest_of_both none none = none

  abbrev pub left_over : Option (Chain V) → Chain V
  left_over none = []
  left_over (some c) = c

-- The state of a chain between flushes: no version has the abort tag.
abbrev pub NotAborted : {V : Type 0} → Chain V → Type 0
NotAborted = All (λ l. l.abort ≡ false)

-- No version carries the mark of an earlier flush with the same `min_xip`.
abbrev pub Unmarked : {V : Type 0} → Timestamp → Chain V → Type 0
Unmarked m = All (λ l. (l.node.collected == m) ≡ false)

-- The reader sees every version of the chain that is safe to collect.
abbrev pub SeesSafe : {V : Type 0} → Timestamp → ℕ → (Timestamp → Bool) → Chain V → Type 0
SeesSafe m age p =
    All (λ l. is_version_safe_for_gc l.node.timestamp m age ≡ true → p l.node.timestamp ≡ true)

module _ {V : Type 0} (m : Timestamp) (age : ℕ) where
  -- `detach` below the head.
  below : Chain V → Chain V
  below [] = []
  below (n ∷ rest) =
      if is_version_safe_for_gc n.node.timestamp m age
      then (if n.node.collected == m then [] else n ∷ rest)
      else n ∷ below rest

  detach-below : (l : Link V) (rest : Chain V) → detach m age (l ∷ rest) ≡ l ∷ below rest
  unfolding detach below
  detach-below l [] = refl
  detach-below l (n ∷ rest) = ground (arith, detach-below n rest)

  below-Unmarked : (c : Chain V) → Unmarked m c → below c ≡ c
  unfolding below
  below-Unmarked [] u = refl
  below-Unmarked (l ∷ rest) u = ground (arith, below-Unmarked rest u.1)

  collect_none : (c : Chain V) → (collect_chain m age c).0 ≡ none → (collect_chain m age c).1 ≡ c
  unfolding collect_chain try_set_collected
  collect_none [] h = refl
  collect_none (l ∷ rest) h = ground (arith, collect_none rest)

  collect_below :
      (p : Timestamp → Bool) (c : Chain V)
      → 0 < m
      → m < 2 ^ 32
      → SeesSafe m age p c
      → NotAborted c
      → Unmarked m c
      → value_of (newest p c)
        ≡ newest_of_both (collect_chain m age c).0 (newest p (below (collect_chain m age c).1))
  unfolding collect_chain newest below try_set_collected
  collect_below p [] z f h n u = refl
  collect_below p (l ∷ rest) z f h n u =
      ground (arith, collect_below p rest z f h.1 n.1 u.1, h.0, below-Unmarked rest u.1, n.0, u.0)

  -- The two phases lose no version that is the newest visible one.
  flush-read :
      (p : Timestamp → Bool) (c : Chain V)
      → 0 < m
      → m < 2 ^ 32
      → SeesSafe m age p c
      → NotAborted c
      → Unmarked m c
      → value_of (newest p c)
        ≡ newest_of_both
            (collect_chain m age c).0
            (newest p (left_over (gc_chain m age (collect_chain m age c).1)))
  unfolding gc_chain collect_chain newest try_set_collected
  flush-read p [] z f h n u = refl
  flush-read p (l ∷ rest) z f h n u = ground (
    arith,
    collect_below p rest z f h.1 n.1 u.1,
    h.0,
    below-Unmarked rest u.1,
    detach-below l rest,
    detach-below l (collect_chain m age rest).1,
    n.0,
    u.0,
  )

  -- A flush that gave up after `snapshot` leaves its marks, and a later flush with the same
  -- `min_xip`, not 0 and below 2^32, trusts them: of an entry whose head was unmarked, without an
  -- abort tag and safe to collect, it copies nothing and takes the entry out of the table.
  pub cancelled_flush_loses :
      (l : Link V) (rest : Chain V)
      → 0 < m
      → m < 2 ^ 32
      → l.abort ≡ false
      → l.node.collected ≡ 0
      → is_version_safe_for_gc l.node.timestamp m age ≡ true
      → ((collect_chain m age (collect_chain m age (l ∷ rest)).1).0 ≡ none)
        × (gc_chain m age (collect_chain m age (collect_chain m age (l ∷ rest)).1).1 ≡ none)
  unfolding collect_chain gc_chain try_set_collected
  cancelled_flush_loses l rest z f a c s = ground arith

  detach_wide :
      (l : Link V) (rest : Chain V)
      → 2 ^ 32 ≤ m
      → All (λ k. k.node.collected < 2 ^ 32) rest
      → detach m age (l ∷ rest) ≡ l ∷ rest
  unfolding detach
  detach_wide l [] b w = refl
  detach_wide l (n ∷ rest) b w = ground (arith, detach_wide n rest b w.1)

  -- From a `min_xip` of 2^32 on no entry is ever cleaned: the marks are below 2^32, so they equal
  -- none that large, and `gc` leaves every chain as it is.
  pub gc_wide :
      (c : Chain V)
      → 2 ^ 32 ≤ m
      → All (λ k. k.node.collected < 2 ^ 32) c
      → gc_chain m age c ≡ some c
  unfolding gc_chain
  gc_wide [] b w = refl
  gc_wide (l ∷ rest) b w = ground (arith, detach_wide l rest b w.1, w.0)

  -- A version of an aborted fast-commit transaction that is left in front of a chain, unmarked and
  -- without an abort tag, is passed over by every other reader that has its snapshot. `snapshot`
  -- nevertheless copies its value out as soon as the transaction started more than the given age
  -- before `min_xip`; until then it goes on to the older versions. The timestamps are below 2^61,
  -- and the age is below `min_xip`.
  pub aborted_collected :
      {K : Type 0} (shared : Shared) (txn : Transaction K V) (s : Snapshot) (n : ℕ) (l : Link V)
      (rest : Chain V)
      → l.node.timestamp ≡ new start n
      → n < 2 ^ 61
      → m < 2 ^ 61
      → age < m
      → get_transaction_status shared.txn_table n ≡ aborted
      → n ≢ txn.start_timestamp
      → txn.current_snapshot ≡ some s
      → l.abort ≡ false
      → l.node.collected ≡ 0
      → (get_value shared txn (l ∷ rest) ≡ get_value_loop shared txn rest)
        × ((collect_chain m age (l ∷ rest)).0 ≡ (
            if ltb (n + age) m then some (inserted l.node.redo) else (collect_chain m age rest).0))
  unfolding collect_chain try_set_collected get_value get_value_loop
  aborted_collected shared txn s n l rest t a b c st own h ab col = (
    ground (
      arith,
      t,
      aborted_unseen shared txn s n a st own,
      skip_delta-visible shared txn s (new start n) h,
    ),
    ground (arith, t, is_version_safe_for_gc-start m age n a b c),
  )

-- The chains of transactions in the normal mode, with timestamps below the wrap.
abbrev pub NormalChain : {V : Type 0} → Chain V → Type 0
NormalChain = All (λ l.
    (l.node.timestamp < 2 ^ 61) × (type_ l.node.timestamp ≡ commit)
    ⊎ (type_ l.node.timestamp ≡ uncommitted))

gc-is_abort :
    {V : Type 0} (m : Timestamp) (age : ℕ) (c : Chain V)
    → is_abort c ≡ false
    → is_abort (left_over (gc_chain m age c)) ≡ false
unfolding gc_chain
gc-is_abort m age [] h = refl
gc-is_abort m age (l ∷ rest) h = ground (arith, detach-below m age l rest)

collect-is_abort :
    {V : Type 0} (m : Timestamp) (age : ℕ) (c : Chain V)
    → is_abort (collect_chain m age c).1 ≡ is_abort c
unfolding collect_chain try_set_collected
collect-is_abort m age [] = refl
collect-is_abort m age (l ∷ rest) = ground arith

head-NotAborted : {V : Type 0} (c : Chain V) → NotAborted c → is_abort c ≡ false
head-NotAborted [] n = refl
head-NotAborted (l ∷ rest) n = n.0

module _ {K V : Type 0} (shared : Shared) (txn : Transaction K V) (s : Snapshot) where
  safe-visible :
      (m : Timestamp) (age : ℕ) (c : Chain V)
      → NormalChain c
      → m ≤ txn.start_timestamp
      → txn.start_timestamp < 2 ^ 61
      → SeesSafe m age (visible shared s txn) c
  unfolding is_version_safe_for_gc visible
  safe-visible m age [] n a b = tt
  safe-visible m age (l ∷ rest) n a b = (
    λ h. ground (
      arith,
      cmp-commit l.node.timestamp m,
      cmp-commit l.node.timestamp txn.start_timestamp,
      n.0,
    ),
    safe-visible m age rest n.1 a b,
  )

  -- What a reader with a snapshot that started at `min_xip` or later and below 2^61 read in a chain
  -- before a flush it reads after both phases: either `get_value` on the chain that `gc` leaves
  -- answers the same, or it finds nothing there, so that the reader goes on to the copies, and the
  -- copy that `snapshot` made has exactly what it read before. The chain has only versions of
  -- transactions in the normal mode, with timestamps below 2^61, no abort tags and no mark of an
  -- earlier flush with this `min_xip`; `min_xip` is not 0 and below 2^32.
  pub flush-get_value :
      (m : Timestamp) (age : ℕ) (c : Chain V)
      → txn.current_snapshot ≡ some s
      → NormalChain c
      → 0 < m
      → m < 2 ^ 32
      → m ≤ txn.start_timestamp
      → txn.start_timestamp < 2 ^ 61
      → NotAborted c
      → Unmarked m c
      → (get_value shared txn (left_over (gc_chain m age (collect_chain m age c).1))
          ≡ get_value shared txn c)
        ⊎ ((copy : Option V) × ((collect_chain m age c).0 ≡ some copy)
            × (get_value shared txn (left_over (gc_chain m age (collect_chain m age c).1))
                ≡ ok (txn, none))
            × (get_value shared txn c ≡ ok (txn, copy)))
  flush-get_value m age c h n z f a b ab u =
      let p = visible shared s txn in
      let left = left_over (gc_chain m age (collect_chain m age c).1) in
      let before = get_value-newest shared txn s c h (head-NotAborted c ab) in
      let after = get_value-newest shared txn s left h (
        gc-is_abort m age (collect_chain m age c).1
          (collect-is_abort m age c ∙ head-NotAborted c ab)) in
      let both = flush-read m age p c z f (safe-visible m age c n a b) ab u in
      elim (Option-cases (newest p left)) [
        | inr (r, e) ↦ inl (
            after
            ∙ ap (λ x. ok (txn, value_of x)) e
            ∙ ap (λ x. ok (txn, x)) (sym (both ∙ ap (newest_of_both (collect_chain m age c).0) e))
            ∙ sym before)
        | inl e ↦
            let nothing = after ∙ ap (λ x. ok (txn, value_of x)) e in
            let from_copy = both ∙ ap (newest_of_both (collect_chain m age c).0) e in
            elim (Option-cases (collect_chain m age c).0) [
              | inr (copy, k) ↦ inr (
                copy,
                k,
                nothing,
                before ∙ ap (λ x. ok (txn, x)) (from_copy ∙ ap (λ x. newest_of_both x none) k),
              )
              | inl k ↦ inl (
                  nothing
                  ∙ ap (λ x. ok (txn, x)) (sym (from_copy ∙ ap (λ x. newest_of_both x none) k))
                  ∙ sym before)
            ]
      ]
