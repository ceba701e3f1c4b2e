-- ===== src/Medium/Ranges.antt =====
-- Copies to a range of addresses and their flushes.
use spack_playground.Prelude.{
  ℕ, zero, suc, ◌+◌, ◌≤◌, ◌<◌, ◌≡◌, refl, ap, ◌∙◌, inl, inr, true, some, List, [], ◌∷◌, ◌++◌, arith,
  ◌==◌, ==_refl, ne→==, if◌then◌else◌, Bool-cases, get_elem?,
}
use spack_playground.Medium.{
  Cell, settled, stored, drained, store, drain, run, stores, flushes, persist,
}
use spack_playground.Medium.Crashes.{OnlyWrites, OnlyWrites-append, run-append}

-- A copy writes to an address what the text has there.
pub stores_write :
    (P : ℕ → Type 0) (a b : ℕ) (vs : List ℕ)
    → ((j v : ℕ) → b ≡ a + j → get_elem? vs j ≡ some v → P v)
    → OnlyWrites P b (stores a vs)
unfolding stores
stores_write P a b [] allowed = tt
stores_write P a b (v ∷ vs) allowed = (
  λ e. allowed 0 v (ground arith) refl,
  stores_write P (a + 1) b vs (λ j w at e. allowed (suc j) w (omega arith) e),
)

pub flushes_write : (P : ℕ → Type 0) (a b n : ℕ) → OnlyWrites P b (flushes a n)
unfolding flushes
flushes_write P a b zero = tt
flushes_write P a b (suc n) = (tt, flushes_write P (a + 1) b n)

pub persist_writes : (P : ℕ → Type 0) (a b n : ℕ) → OnlyWrites P b (persist a n)
persist_writes P a b n =
    OnlyWrites-append P b (flushes a n) (drain ∷ []) (flushes_write P a b n) (tt, tt)

-- operations at higher addresses do nothing here
stores_above : (a b : ℕ) (vs : List ℕ) (c : Cell) → b < a → run (stores a vs) b c ≡ c
unfolding stores run
stores_above a b [] c lt = refl
stores_above a b (v ∷ vs) c lt =
    ap (λ t. run (stores (a + 1) vs) b (if t then stored v c else c)) (ne→== a b (omega arith))
    ∙ stores_above (a + 1) b vs c (omega arith)

flushes_above : (a b n : ℕ) (c : Cell) → b < a → run (flushes a n) b c ≡ c
unfolding flushes run
flushes_above a b zero c lt = refl
flushes_above a b (suc n) c lt =
    ap (λ t. run (flushes (a + 1) n) b (if t then record c { flushed = true } else c))
      (ne→== a b (omega arith))
    ∙ flushes_above (a + 1) b n c (omega arith)

-- what the copy puts at an address within its range
pub stores_now :
    (a b j : ℕ) (vs : List ℕ) (v : ℕ) (c : Cell)
    → b ≡ a + j
    → get_elem? vs j ≡ some v
    → (run (stores a vs) b c).now ≡ v
unfolding stores run
stores_now a b j [] v c at e = absurd (cc e)
stores_now a b zero (x ∷ vs) v c at e =
    ap (λ t. (run (stores (a + 1) vs) b (if t then stored x c else c)).now) (same a b (omega arith))
    ∙ ap (λ d. d.now) (stores_above (a + 1) b vs (stored x c) (omega arith))
    ∙ cc
  where
    same : (p q : ℕ) → p ≡ q → (p == q) ≡ true
    same p q f = ground arith
stores_now a b (suc j) (x ∷ vs) v c at e =
    stores_now (a + 1) b j vs v (if a == b then stored x c else c) (omega arith) e

pub flushes_flushed :
    (a b n : ℕ) (c : Cell) → a ≤ b → b < a + n → run (flushes a n) b c ≡ record c { flushed = true }
unfolding flushes run
flushes_flushed a b zero c le lt = absurd (omega arith)
flushes_flushed a b (suc n) c le lt = elim (Bool-cases (a == b)) [
  | inl e ↦
      ap (λ t. run (flushes (a + 1) n) b (if t then record c { flushed = true } else c)) e
      ∙ flushes_above (a + 1) b n (record c { flushed = true }) (ground arith)
  | inr e ↦
      ap (λ t. run (flushes (a + 1) n) b (if t then record c { flushed = true } else c)) e
      ∙ flushes_flushed (a + 1) b n c (ground arith) (omega arith)
]

-- `persist` settles every address of its range.
pub persist_settles :
    (a b n : ℕ) (c : Cell) → a ≤ b → b < a + n → run (persist a n) b c ≡ settled c.now
unfolding run
persist_settles a b n c le lt =
    run-append (flushes a n) (drain ∷ []) b c ∙ ap drained (flushes_flushed a b n c le lt)

-- A text that is copied and persisted stands on the medium.
pub copied_settles :
    (a b j n : ℕ) (vs : List ℕ) (v : ℕ) (c : Cell)
    → b ≡ a + j
    → j < n
    → get_elem? vs j ≡ some v
    → run (stores a vs ++ persist a n) b c ≡ settled v
copied_settles a b j n vs v c at lt e =
    run-append (stores a vs) (persist a n) b c
    ∙ persist_settles a b n (run (stores a vs) b c) (omega arith) (omega arith)
    ∙ ap settled (stores_now a b j vs v c at e)

-- A word that is stored and persisted stands on the medium.
pub word_settles : (a n v : ℕ) (c : Cell) → 0 < n → run (store a v ∷ persist a n) a c ≡ settled v
unfolding run
word_settles a n v c positive =
    ap (λ t. run (persist a n) a (if t then stored v c else c)) (==_refl a)
    ∙ persist_settles a a n (stored v c) (omega arith) (omega arith)
