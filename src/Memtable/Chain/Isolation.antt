-- ===== src/Memtable/Chain/Isolation.antt =====
-- What other transactions do to a chain, and that a running transaction does not see it.
use hybridmvcc.Base.{
  ℕ, Bool, true, false, some, [], ◌∷◌, ◌==◌, ◌≡◌, refl, arith, All, Ordering, ◌∙◌,
}
use hybridmvcc.Timestamp.{Timestamp, commit, uncommitted, type_, cmp}
use hybridmvcc.Storage.{store_timestamp}
use hybridmvcc.Transaction.{Transaction, Snapshot}
use hybridmvcc.Memtable.Chain.{
  Shared, rollback_chain, stamp_chain, Chain, Link, is_abort, get_value,
}
use hybridmvcc.Memtable.Chain.Reads.{visible, newest, get_value-newest}

-- `other` is another transaction in the normal mode: its uncommitted mark is not that of `txn`.
pub record IsOther {K V : Type 0} (txn other : Transaction K V) : Type 0 where
  pub mark : type_ other.commit_timestamp ≡ uncommitted
  pub differs : (other.commit_timestamp == txn.commit_timestamp) ≡ false

-- The nodes that a commit stamps are those that `other` wrote.
abbrev pub WrittenBy : {K V : Type 0} → Transaction K V → (ℕ → Bool) → Chain V → Type 0
WrittenBy other owned =
    All (λ l. owned l.node.addr ≡ true → l.node.timestamp ≡ other.commit_timestamp)

-- One step of another transaction on a chain: a write, the stamping of its nodes by a commit that
-- comes after the start of `txn`, or the rollback of its writes.
pub data OtherStep {K V : Type 0} (txn : Transaction K V) (c d : Chain V) : Type 0 where
  write :
      (other : Transaction K V) (l : Link V)
      → IsOther txn other
      → l.node.timestamp ≡ other.commit_timestamp
      → d ≡ l ∷ c
      → OtherStep txn c d
  publish :
      (other : Transaction K V) (ts : Timestamp) (owned : ℕ → Bool)
      → IsOther txn other
      → WrittenBy other owned c
      → type_ ts ≡ commit
      → cmp ts txn.start_timestamp ≡ Ordering.gt
      → d ≡ stamp_chain ts owned c
      → OtherStep txn c d
  undo :
      (other : Transaction K V) → IsOther txn other → d ≡ rollback_chain other c → OtherStep txn c d

pub data OtherSteps {K V : Type 0} (txn : Transaction K V) (c : Chain V) : Chain V → Type 0 where
  here : OtherSteps txn c c
  next : {d e : Chain V} → OtherSteps txn c d → OtherStep txn d e → OtherSteps txn c e

module _ {K V : Type 0} (shared : Shared) (txn : Transaction K V) (s : Snapshot) where
  mark-hidden :
      (other : Transaction K V)
      → IsOther txn other
      → visible shared s txn other.commit_timestamp ≡ false
  unfolding visible
  mark-hidden other h = ground arith

  later-hidden :
      (ts : Timestamp)
      → type_ ts ≡ commit
      → cmp ts txn.start_timestamp ≡ Ordering.gt
      → visible shared s txn ts ≡ false
  unfolding visible
  later-hidden ts t h = ground arith

  newest-stamp :
      (other : Transaction K V) (ts : Timestamp) (owned : ℕ → Bool) (c : Chain V)
      → visible shared s txn other.commit_timestamp ≡ false
      → visible shared s txn ts ≡ false
      → WrittenBy other owned c
      → newest (visible shared s txn) (stamp_chain ts owned c) ≡ newest (visible shared s txn) c
  unfolding newest stamp_chain store_timestamp
  newest-stamp other ts owned [] h k w = refl
  newest-stamp other ts owned (l ∷ rest) h k w =
      ground (arith, newest-stamp other ts owned rest h k w.1, w.0)

  newest-rollback :
      (other : Transaction K V) (c : Chain V)
      → visible shared s txn other.commit_timestamp ≡ false
      → newest (visible shared s txn) (rollback_chain other c) ≡ newest (visible shared s txn) c
  unfolding newest rollback_chain
  newest-rollback other [] h = refl
  newest-rollback other (l ∷ rest) h = ground (arith, newest-rollback other rest h)

  step-newest :
      (c d : Chain V)
      → OtherStep txn c d
      → newest (visible shared s txn) d ≡ newest (visible shared s txn) c
  unfolding newest
  step-newest c d (write other l o e p) = ground (arith, mark-hidden other o)
  step-newest c d (publish other ts owned o w t g p) =
      ground (arith, newest-stamp other ts owned c (mark-hidden other o) (later-hidden ts t g) w)
  step-newest c d (undo other o p) = ground (arith, newest-rollback other c (mark-hidden other o))

  steps-newest :
      (c : Chain V) {d : Chain V}
      → OtherSteps txn c d
      → newest (visible shared s txn) d ≡ newest (visible shared s txn) c
  steps-newest c here = refl
  steps-newest c (next {d} {e} r st) = step-newest d e st ∙ steps-newest c r

  -- Repeatable reads: whatever other transactions in the normal mode write on a chain, commit
  -- there after the start of this one, or roll back, a transaction that has taken its snapshot
  -- reads the same value of it, while the chain is not being removed and the table of fast commits
  -- stays.
  pub repeatable_read :
      (c d : Chain V)
      → txn.current_snapshot ≡ some s
      → OtherSteps txn c d
      → is_abort c ≡ false
      → is_abort d ≡ false
      → get_value shared txn d ≡ get_value shared txn c
  repeatable_read c d h r a b =
      rw
        (get_value-newest shared txn s d h b, get_value-newest shared txn s c h a, steps-newest c r)
        refl
