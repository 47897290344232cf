-- ===== src/Storage.antt =====
-- src/storage.rs: the nodes of a version chain. Nodes live behind shared pointers: a transaction
-- holds the addresses of those that it wrote, so each node carries its address.
use hybridmvcc.Base.{ℕ, ◌%◌, ◌^◌, Bool, true, false, ◌==◌, if◌then◌else◌, Option, none, some}
use hybridmvcc.Timestamp.{Timestamp}

pub data RedoRecord {ℓ} (V : Type ℓ) : Type ℓ where
  insert : V → RedoRecord V
  delete : RedoRecord V

pub record RedoNode {ℓ} (V : Type ℓ) : Type ℓ where
  pub addr : ℕ
  pub timestamp : Timestamp
  pub collected : ℕ
  pub redo : RedoRecord V

module _ {ℓ} {V : Type ℓ} where
  unfoldable pub new_insert : ℕ → Timestamp → V → RedoNode V
  new_insert addr timestamp inserted = record {
    addr = addr;
    timestamp = timestamp;
    collected = 0;
    redo = insert inserted;
  }

  unfoldable pub new_delete : ℕ → Timestamp → RedoNode V
  new_delete addr timestamp = record {
    addr = addr;
    timestamp = timestamp;
    collected = 0;
    redo = delete;
  }

  unfoldable pub store_timestamp : RedoNode V → Timestamp → RedoNode V
  store_timestamp node timestamp = record node { timestamp = timestamp }

  -- The mark is an `AtomicU32`, so `new as u32` keeps the low half of the timestamp.
  unfoldable pub try_set_collected : RedoNode V → Timestamp → Bool × RedoNode V
  try_set_collected node collected =
      if node.collected == 0
      then (true, record node { collected = collected % 2 ^ 32 })
      else (false, node)

  -- The value that a record makes visible: a deletion reads as no value.
  unfoldable pub inserted : RedoRecord V → Option V
  inserted (insert v) = some v
  inserted delete = none
