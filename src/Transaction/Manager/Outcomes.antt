-- ===== src/Transaction/Manager/Outcomes.antt =====
-- What commit and abort do to the memtable.
use hybridmvcc.Timestamp.{Timestamp}
use hybridmvcc.Transaction.{Transaction}
use hybridmvcc.Memtable.Chain.{Link, Chain}
use hybridmvcc.Base.{
  ◌++◌, ◌≢◌, ◌⊎◌, All, ℕ, Bool, true, false, Option, none, some, List, [], ◌∷◌, ◌≡◌, if◌then◌else◌,
  Ord, key_eq,
}
use hybridmvcc.Memtable.HashTable

abbrev pub map_chain : {V : Type 0} → (Chain V → Chain V) → Option (Chain V) → Option (Chain V)
map_chain f none = none
map_chain f (some c) = some (f c)

module _ {K : Type 0} ⦃o : Ord K⦄ where
  -- Whether a key is among those of a list of redo nodes.
  abbrev pub wrote : K → List (K × ℕ) → Bool
  wrote k [] = false
  wrote k ((j, addr) ∷ rest) = if key_eq k j then true else wrote k rest

module _ {V : Type 0} where
  -- A version with a commit timestamp in place of the mark of its transaction.
  abbrev pub committed_at : Timestamp → Link V → Link V
  committed_at ts l = let node = l.node in record l { node = record node { timestamp = ts } }

  -- The versions of a chain one by one: those of the transaction are committed, all others stay.
  abbrev pub Committed : Timestamp → (ℕ → Bool) → Chain V → Chain V → Type 0
  Committed ts owned [] [] = Unit {0}
  Committed ts owned [] (l' ∷ after) = ⊥
  Committed ts owned (l ∷ before) [] = ⊥
  Committed ts owned (l ∷ before) (l' ∷ after) =
      ((owned l.node.addr ≡ true) × (l' ≡ committed_at ts l)
        ⊎ (owned l.node.addr ≡ false) × (l' ≡ l))
      × Committed ts owned before after

  abbrev pub CommittedEntry : Timestamp → (ℕ → Bool) → Option (Chain V) → Option (Chain V) → Type 0
  CommittedEntry ts owned none after = after ≡ none
  CommittedEntry ts owned (some before) after =
      (chain : Chain V) × (after ≡ some chain) × Committed ts owned before chain

module _ {K V : Type 0} ⦃o : Ord K⦄ where
  -- What an abort leaves of a chain: the front part of it, all with the transaction's mark, is gone,
  -- and what follows it does not begin with that mark.
  abbrev pub Undone : Transaction K V → Chain V → Chain V → Type 0
  Undone txn before after =
      (mine : Chain V) × (before ≡ mine ++ after)
      × All (λ (l : Link V). l.node.timestamp ≡ txn.commit_timestamp) mine
      × ((after ≡ [])
          ⊎ ((l : Link V) × (rest : Chain V) × (after ≡ l ∷ rest)
              × (l.node.timestamp ≢ txn.commit_timestamp)))

  abbrev pub UndoneEntry : Transaction K V → Bool → Option (Chain V) → Option (Chain V) → Type 0
  UndoneEntry txn false before after = after ≡ before
  UndoneEntry txn true none after = after ≡ none
  UndoneEntry txn true (some c) after =
      (chain : Chain V) × (after ≡ some chain) × Undone txn c chain
