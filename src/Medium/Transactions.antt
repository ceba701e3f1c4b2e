-- ===== src/Medium/Transactions.antt =====
-- A transaction of libpmemobj as operations on the medium: an address that was added to the undo log takes its
-- new value when the transaction ends, all of them at once; a store to another address is a plain store.
use spack_playground.Prelude.{ℕ, Bool, false, ◌||◌, List, [], ◌∷◌, ◌++◌, ◌==◌, if◌then◌else◌}
use spack_playground.Prelude.Family.{update}
use spack_playground.Medium.{Op, store, publish}

-- `TX_ADD_DIRECT`, and an assignment that computes the new value from the one before.
pub data TxOp : Type 0 where
  add_direct : ℕ → TxOp
  assign : ℕ → (ℕ → ℕ) → TxOp

abbrev pub is_added : ℕ → List ℕ → Bool
is_added a [] = false
is_added a (b ∷ log) = b == a || is_added a log

-- From the undo log, what a load reads, and the values to take at the end.
abbrev pub tx_from : List TxOp → List ℕ → (ℕ → ℕ) → List (ℕ × ℕ) → List Op
tx_from [] log now acts = publish acts ∷ []
tx_from (add_direct a ∷ body) log now acts = tx_from body (a ∷ log) now acts
tx_from (assign a f ∷ body) log now acts =
    let v : ℕ = f (now a) in
    let rest = tx_from body log (update now a v) in
    if is_added a log then rest (acts ++ (a, v) ∷ []) else store a v ∷ rest acts

abbrev pub transaction_ops : List TxOp → (ℕ → ℕ) → List Op
transaction_ops body now = tx_from body [] now []
