-- ===== src/Transaction/Status.antt =====
-- src/transaction/transaction_table.rs: the final states of fast-commit transactions.
use hybridmvcc.Base.{ℕ, Bool, true, false, List, [], ◌∷◌, ◌==◌, if◌then◌else◌, ◌≡◌, refl, arith}
use hybridmvcc.Timestamp.{Timestamp}

pub data TransactionStatus : Type 0 where
  in_progress committed aborted error : TransactionStatus

unfoldable pub status_from : ℕ → TransactionStatus
status_from n =
    if n == 0 then in_progress else if n == 1 then committed else if n == 2 then aborted else error

abbrev pub is_committed_status : TransactionStatus → Bool
is_committed_status committed = true
is_committed_status _ = false

abbrev pub TransactionTable : Type 0
TransactionTable = List (Timestamp × TransactionStatus)

unfoldable pub get_transaction_status : TransactionTable → Timestamp → TransactionStatus
get_transaction_status [] xid = in_progress
get_transaction_status ((j, status) ∷ table) xid =
    if j == xid then status else get_transaction_status table xid

unfoldable pub set_transaction_status :
    TransactionTable → Timestamp → TransactionStatus → TransactionTable
set_transaction_status [] xid status = (xid, status) ∷ []
set_transaction_status ((j, s) ∷ table) xid status =
    if j == xid then (xid, status) ∷ table else (j, s) ∷ set_transaction_status table xid status

-- Setting the status of one transaction is what is read for it afterwards, and the statuses of all
-- others stay.
pub get-set_transaction_status :
    (table : TransactionTable) (xid j : Timestamp) (status : TransactionStatus)
    → get_transaction_status (set_transaction_status table xid status) j
      ≡ (if xid == j then status else get_transaction_status table j)
unfolding get_transaction_status set_transaction_status
get-set_transaction_status [] xid j status = refl
get-set_transaction_status ((i, s) ∷ table) xid j status =
    ground (arith, get-set_transaction_status table xid j status)
