-- ===== src/Accounts.antt =====
-- targets/apps/ppm_ch7_6/main.cpp and targets/apps/ppm_ch7_7/main.cpp: two accounts in a pool, and a payment
-- between them. `pmemobj_reserve` and the pool are parameters.
pub mod Prepared
pub mod Crash
pub mod Transfer
pub mod Payment
mod Examples
use spack_playground.Prelude.{
  ℕ, zero, suc, ◌+◌, ◌-◌, ◌^◌, ◌%◌, ◌≡◌, Bool, true, false, not, Option, none, some, List, [], ◌∷◌,
  ◌++◌, ◌==◌, if◌then◌else◌, length,
}
use spack_playground.Medium.Transactions.{add_direct, assign, transaction_ops}
use spack_playground.Medium.{Memory, Op, store, publish, stores, flushes, persist, after}

-- A reserved object: the word of the heap that says whether it is allocated, and where its bytes begin.
pub record Object : Type 0 where
  pub taken : ℕ
  pub at : ℕ

-- `struct account`, a `PMEMoid` of two words and the balance, with the object of its name.
pub record Account : Type 0 where
  pub str : Object
  pub acc : Object

abbrev pub uuid_of : Account → ℕ
uuid_of a = a.acc.at

abbrev pub off_of : Account → ℕ
off_of a = a.acc.at + 8

abbrev pub balance_of : Account → ℕ
balance_of a = a.acc.at + 16

abbrev pub word : ℕ → ℕ
word n = n % 2 ^ 64

-- `new_account`: the name with its zero is copied and flushed and not drained, the account is persisted,
-- and both objects are published.
abbrev pub name_ops : List ℕ → Object → List Op
name_ops name str = stores str.at (name ++ 0 ∷ []) ++ flushes str.at (length name + 1)

abbrev pub account_ops : ℕ → ℕ → Account → List Op
account_ops uuid deposit a =
    store (uuid_of a) uuid
    ∷ (store (off_of a) a.str.at ∷ (store (balance_of a) deposit ∷ persist a.acc.at 24))

abbrev pub publish_ops : Account → List Op
publish_ops a = publish ((a.str.taken, 1) ∷ (a.acc.taken, 1) ∷ []) ∷ []

abbrev pub prepare_ops : ℕ → List ℕ → ℕ → Account → List Op
prepare_ops uuid name deposit a = name_ops name a.str ++ account_ops uuid deposit a

-- What it does to the pool; `none` is `die`.
abbrev pub new_account : ℕ → List ℕ → ℕ → Option Object → Option Object → List Op × Option Account
new_account uuid name deposit none acc = ([], none)
new_account uuid name deposit (some str) none = (name_ops name str, none)
new_account uuid name deposit (some str) (some acc) =
    let a : Account = record { str = str; acc = acc } in
    (prepare_ops uuid name deposit a ++ publish_ops a, some a)

-- The payment of ppm_ch7_6, two actions that are published; both balances are read before.
abbrev pub pay_ops : ℕ → Account → Account → Memory → List Op
pay_ops price a b m =
    publish (
      (balance_of a, word ((m (balance_of a)).now + (2 ^ 64 - price)))
      ∷ (balance_of b, word ((m (balance_of b)).now + price))
      ∷ [])
    ∷ []

-- The payment of ppm_ch7_7, the body of a transaction; both balances are added to the undo log first.
abbrev pub transact_ops : ℕ → Account → Account → Memory → List Op
transact_ops price a b m =
    transaction_ops
      (add_direct (balance_of a)
        ∷ (add_direct (balance_of b)
            ∷ (assign (balance_of a) (λ n. word (n + (2 ^ 64 - price)))
                ∷ (assign (balance_of b) (λ n. word (n + price)) ∷ []))))
      (λ x. (m x).now)

abbrev pub caesar : List ℕ
caesar = 74 ∷ 117 ∷ 108 ∷ 105 ∷ 117 ∷ 115 ∷ 32 ∷ 67 ∷ 97 ∷ 101 ∷ 115 ∷ 97 ∷ 114 ∷ []

abbrev pub anthony : List ℕ
anthony = 77 ∷ 97 ∷ 114 ∷ 107 ∷ 32 ∷ 65 ∷ 110 ∷ 116 ∷ 104 ∷ 111 ∷ 110 ∷ 121 ∷ []

abbrev pub price : ℕ
price = 42

-- `main`: what it does to the pool and its exit code. `created` is whether the pool is made, `reserve`
-- what the four calls return, and the payment is one of the two.
abbrev pub main :
    (ℕ → Account → Account → Memory → List Op)
    → Bool
    → ℕ
    → (ℕ → Option Object)
    → Memory
    → List Op × ℕ
main pay created uuid reserve m =
    if not created
    then ([], 1)
    else let (first, made) = new_account uuid caesar 100 (reserve 0) (reserve 1) in
      elim made [
        | none ↦ (first, 1)
        | some a ↦
            let (second, made_too) = new_account uuid anthony 50 (reserve 2) (reserve 3) in
            elim made_too [
              | none ↦ (first ++ second, 1)
              | some b ↦ ((first ++ second) ++ pay price a b (after (first ++ second) m), 0)
            ]
      ]

-- `main` of ppm_ch7_6 and of ppm_ch7_7
abbrev pub publish_main : Bool → ℕ → (ℕ → Option Object) → Memory → List Op × ℕ
publish_main = main pay_ops

abbrev pub transact_main : Bool → ℕ → (ℕ → Option Object) → Memory → List Op × ℕ
transact_main = main transact_ops
