-- ===== src/Accounts/Prepared.antt =====
-- What `new_account` writes, and what stands before it publishes the objects.
use spack_playground.Prelude.{
  ℕ, ◌+◌, ◌≤◌, ◌<◌, ◌≡◌, ◌≢◌, refl, ap, ◌∙◌, ◌⊎◌, inl, inr, Bool, true, false, some, List, [], ◌∷◌,
  ◌++◌, arith, ◌==◌, if◌then◌else◌, length, get_elem?, get_elem?-lt,
}
use spack_playground.Medium.{Cell, settled, Op, store, drain, stores, flushes, persist, run}
use spack_playground.Medium.Crashes.{OnlyWrites, OnlyWrites-append, run-append}
use spack_playground.Medium.Ranges.{stores_write, flushes_write, persist_writes, persist_settles}
use spack_playground.Medium.Drains.{run-Pending, copied-Pending}
use spack_playground.Accounts.{
  Account, uuid_of, off_of, balance_of, name_ops, account_ops, publish_ops, prepare_ops,
}

abbrev pub Outside : ℕ → ℕ → ℕ → Type 0
Outside b at n = (b < at) ⊎ (at + n ≤ b)

-- An address that making an account with a name of so many bytes leaves alone.
abbrev pub Clear : Account → ℕ → ℕ → Type 0
Clear a n b = (b ≢ a.str.taken) × (b ≢ a.acc.taken) × Outside b a.str.at n × Outside b a.acc.at 24

-- The two objects of an account, and the words of the heap, do not overlap.
abbrev pub Apart : Account → ℕ → Type 0
Apart a n =
    Outside a.str.taken a.str.at n
    × Outside a.str.taken a.acc.at 24
    × Outside a.acc.taken a.str.at n
    × Outside a.acc.taken a.acc.at 24
    × ((a.str.at + n ≤ a.acc.at) ⊎ (a.acc.at + 24 ≤ a.str.at))

pub publish_writes :
    (P : ℕ → Type 0) (b : ℕ) (a : Account)
    → ((b ≡ a.str.taken) → P 1)
    → ((b ≡ a.acc.taken) → P 1)
    → OnlyWrites P b (publish_ops a)
publish_writes P b a str acc = ((λ e. str (ground arith), (λ e. acc (ground arith), tt)), tt)

pub published :
    (a : Account) (b : ℕ) (c : Cell)
    → (b ≡ a.str.taken) ⊎ (b ≡ a.acc.taken)
    → run (publish_ops a) b c ≡ settled 1
unfolding run
published a b c (inl e) = by_test (a.acc.taken == b)
  where
    found : (a.str.taken == b) ≡ true
    found = ground arith

    by_test :
        (t : Bool)
        → (if t then settled 1 else if a.str.taken == b then settled 1 else c) ≡ settled 1
    by_test true = refl
    by_test false = ap (λ u. if u then settled 1 else c) found
published a b c (inr e) =
    ap (λ u. if u then settled 1 else if a.str.taken == b then settled 1 else c) found
  where
    found : (a.acc.taken == b) ≡ true
    found = ground arith

length_zeroed : (name : List ℕ) → length (name ++ 0 ∷ []) ≡ length name + 1
length_zeroed [] = refl
length_zeroed (c ∷ name) = omega (arith, length_zeroed name)

module _ (uuid : ℕ) (name : List ℕ) (deposit : ℕ) (a : Account) where
  -- Its name, with the zero.
  abbrev pub zeroed : List ℕ
  zeroed = name ++ 0 ∷ []

  abbrev pub room : ℕ
  room = length name + 1

  pub zeroed-room : (j v : ℕ) → get_elem? zeroed j ≡ some v → j < room
  zeroed-room j v e = omega (arith, length_zeroed name, get_elem?-lt zeroed j v e)

  pub name_elsewhere :
      (P : ℕ → Type 0) (b : ℕ) → Outside b a.str.at room → OnlyWrites P b (name_ops name a.str)
  name_elsewhere P b out =
      OnlyWrites-append P b (stores a.str.at zeroed) (flushes a.str.at room)
        (stores_write P a.str.at b zeroed (λ j v e f. absurd (inside j (zeroed-room j v f) e out)))
        (flushes_write P a.str.at b room)
    where
      inside : (j : ℕ) → j < room → b ≡ a.str.at + j → Outside b a.str.at room → ⊥
      inside j lt e (inl o) = omega arith
      inside j lt e (inr o) = omega arith

  pub account_elsewhere :
      (P : ℕ → Type 0) (b : ℕ) → Outside b a.acc.at 24 → OnlyWrites P b (account_ops uuid deposit a)
  account_elsewhere P b out = (
    λ e. absurd (ground arith),
    (λ e. absurd (ground arith), (λ e. absurd (ground arith), persist_writes P a.acc.at b 24)),
  )

  pub prepare_elsewhere :
      (P : ℕ → Type 0) (b : ℕ)
      → Outside b a.str.at room
      → Outside b a.acc.at 24
      → OnlyWrites P b (prepare_ops uuid name deposit a)
  prepare_elsewhere P b str acc =
      OnlyWrites-append P b (name_ops name a.str) (account_ops uuid deposit a)
        (name_elsewhere P b str) (account_elsewhere P b acc)

  -- Making the account leaves alone what is clear of it.
  pub make_elsewhere :
      (P : ℕ → Type 0) (b : ℕ)
      → Clear a room b
      → OnlyWrites P b (prepare_ops uuid name deposit a ++ publish_ops a)
  make_elsewhere P b clear =
      OnlyWrites-append P b (prepare_ops uuid name deposit a) (publish_ops a)
        (prepare_elsewhere P b clear.2 clear.3)
        (publish_writes P b a (λ e. absurd (clear.0 e)) (λ e. absurd (clear.1 e)))

  -- the three words of the account before its flushes
  pub word_stores : List Op
  word_stores =
      store (uuid_of a) uuid ∷ store (off_of a) a.str.at ∷ store (balance_of a) deposit ∷ []

  word_prepared :
      (b v : ℕ) (c : Cell)
      → a.acc.at ≤ b
      → b < a.acc.at + 24
      → ((d : Cell) → (run word_stores b d).now ≡ v)
      → run (prepare_ops uuid name deposit a) b c ≡ settled v
  unfolding run word_stores
  word_prepared b v c low high is =
      run-append (name_ops name a.str) (account_ops uuid deposit a) b c
      ∙ run-append word_stores (persist a.acc.at 24) b (run (name_ops name a.str) b c)
      ∙ persist_settles a.acc.at b 24 (run word_stores b (run (name_ops name a.str) b c)) low high
      ∙ ap settled (is (run (name_ops name a.str) b c))

  pub uuid_prepared :
      (c : Cell) → run (prepare_ops uuid name deposit a) (uuid_of a) c ≡ settled uuid
  unfolding run word_stores
  uuid_prepared c = word_prepared (uuid_of a) uuid c (omega arith) (omega arith) (λ d. ground arith)

  pub off_prepared :
      (c : Cell) → run (prepare_ops uuid name deposit a) (off_of a) c ≡ settled a.str.at
  unfolding run word_stores
  off_prepared c =
      word_prepared (off_of a) a.str.at c (omega arith) (omega arith) (λ d. ground arith)

  pub balance_prepared :
      (c : Cell) → run (prepare_ops uuid name deposit a) (balance_of a) c ≡ settled deposit
  unfolding run word_stores
  balance_prepared c =
      word_prepared (balance_of a) deposit c (omega arith) (omega arith) (λ d. ground arith)

  -- The one drain of `pmemobj_persist` settles the name too.
  pub name_prepared :
      Apart a room
      → (j v : ℕ) → get_elem? zeroed j ≡ some v
      → (c : Cell) → run (prepare_ops uuid name deposit a) (a.str.at + j) c ≡ settled v
  unfolding run word_stores
  name_prepared apart j v e c =
      run-append (name_ops name a.str) (account_ops uuid deposit a) (a.str.at + j) c
      ∙ run-append (word_stores ++ flushes a.acc.at 24) (drain ∷ []) (a.str.at + j)
          (run (name_ops name a.str) (a.str.at + j) c)
      ∙ run-Pending (a.str.at + j) v (word_stores ++ flushes a.acc.at 24)
          (run (name_ops name a.str) (a.str.at + j) c)
          (
            λ f.
                absurd
                  (beside (uuid_of a) (zeroed-room j v e) (omega arith) (omega arith) f apart.4),
            (
              λ f.
                  absurd
                    (beside (off_of a) (zeroed-room j v e) (omega arith) (omega arith) f apart.4),
              (
                λ f. absurd (
                    beside (balance_of a) (zeroed-room j v e) (omega arith) (omega arith) f
                      apart.4),
                flushes_write (λ w. ⊥) a.acc.at (a.str.at + j) 24,
              ),
            ),
          )
          (copied-Pending a.str.at (a.str.at + j) j room zeroed v c refl (zeroed-room j v e) e)
    where
      beside :
          (k : ℕ)
          → j < room
          → a.acc.at ≤ k
          → k < a.acc.at + 24
          → (k == a.str.at + j) ≡ true
          → ((a.str.at + room ≤ a.acc.at) ⊎ (a.acc.at + 24 ≤ a.str.at))
          → ⊥
      beside k lt low high f o = ground arith
