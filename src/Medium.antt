-- ===== src/Medium.antt =====
-- Persistent memory under a crash: what `pmem_persist`, `pmemobj_persist`, `pmemobj_memcpy` and
-- `pmemobj_publish` promise for stores to a mapping. An address holds a number: a byte, or an aligned
-- word, which the hardware writes at once.
pub mod Crashes
pub mod Ranges
pub mod Drains
pub mod Transactions
use spack_playground.Prelude.{
  ℕ, zero, suc, ◌+◌, ◌≡◌, ◌⊎◌, Bool, true, false, ◌||◌, List, [], ◌∷◌, ◌++◌, ◌==◌, if◌then◌else◌,
}

-- What a load reads, what a crash may leave, and whether a flush since the last store is not drained yet.
pub record Cell : Type 0 where
  pub now : ℕ
  pub possible : List ℕ
  pub flushed : Bool

abbrev pub Memory : Type 0
Memory = ℕ → Cell

-- The value stands on the medium.
abbrev pub settled : ℕ → Cell
settled v = record { now = v; possible = v ∷ []; flushed = false }

abbrev pub stored : ℕ → Cell → Cell
stored v c = record { now = v; possible = v ∷ c.possible; flushed = false }

abbrev pub drained : Cell → Cell
drained c = if c.flushed then settled c.now else c

-- `publish` stands for the actions that libpmemobj makes durable all at once: `pmemobj_publish`, and the
-- end of a transaction.
pub data Op : Type 0 where
  store : ℕ → ℕ → Op
  flush : ℕ → Op
  drain : Op
  publish : List (ℕ × ℕ) → Op

abbrev pub settle_all : List (ℕ × ℕ) → ℕ → Cell → Cell
settle_all [] a c = c
settle_all ((b, v) ∷ acts) a c = settle_all acts a (if b == a then settled v else c)

-- What an operation does at an address.
abbrev pub step : Op → ℕ → Cell → Cell
step (store b v) a c = if b == a then stored v c else c
step (flush b) a c = if b == a then record c { flushed = true } else c
step drain a c = drained c
step (publish acts) a c = settle_all acts a c

unfoldable pub run : List Op → ℕ → Cell → Cell
run [] a c = c
run (o ∷ ops) a c = run ops a (step o a c)

abbrev pub after : List Op → Memory → Memory
after ops m a = run ops a (m a)

abbrev pub OneOf : ℕ → List ℕ → Type 0
OneOf v [] = ⊥
OneOf v (x ∷ xs) = (v ≡ x) ⊎ OneOf v xs

-- What stands on the medium after a crash.
abbrev pub Image : Type 0
Image = ℕ → ℕ

abbrev pub Survives : Memory → Image → Type 0
Survives m image = (a : ℕ) → OneOf (image a) (m a).possible

-- A crash before, between or behind these operations leaves this image.
abbrev pub CrashOf : Memory → List Op → Image → Type 0
CrashOf m [] image = Survives m image
CrashOf m (o ∷ ops) image = Survives m image ⊎ CrashOf (λ a. step o a (m a)) ops image

-- Copying a text to an address, and flushing so many bytes from it.
unfoldable pub stores : ℕ → List ℕ → List Op
stores a [] = []
stores a (v ∷ vs) = store a v ∷ stores (a + 1) vs

unfoldable pub flushes : ℕ → ℕ → List Op
flushes a zero = []
flushes a (suc n) = flush a ∷ flushes (a + 1) n

-- `persist` of so many bytes from an address.
abbrev pub persist : ℕ → ℕ → List Op
persist a n = flushes a n ++ drain ∷ []

-- A mapping that holds these numbers durably.
abbrev pub durable : Image → Memory
durable image a = settled (image a)
