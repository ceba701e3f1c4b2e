-- ===== src/Medium/Drains.antt =====
-- What a later drain settles, and crashes before or behind a point of the run.
use spack_playground.Prelude.{
  ℕ, ◌+◌, ◌<◌, ◌≡◌, refl, ap, ◌∙◌, ◌⊎◌, inl, inr, Bool, true, false, some, List, [], ◌∷◌, ◌++◌,
  arith, ◌==◌, if◌then◌else◌, Bool-cases, get_elem?,
}
use spack_playground.Medium.{
  Cell, Memory, settled, stored, drained, Op, store, flush, drain, publish, settle_all, step, run,
  after, Image, CrashOf, stores, flushes,
}
use spack_playground.Medium.Crashes.{WritesActs, Writes, OnlyWrites, run-append}
use spack_playground.Medium.Ranges.{stores_now, flushes_flushed}

-- A drain leaves this value on the medium.
abbrev pub Pending : ℕ → Cell → Type 0
Pending v c = drained c ≡ settled v

abbrev pub Untouched : ℕ → List Op → Type 0
Untouched a ops = OnlyWrites (λ v. ⊥) a ops

acts_untouched :
    (a : ℕ) (acts : List (ℕ × ℕ)) (c : Cell) → WritesActs (λ v. ⊥) a acts → settle_all acts a c ≡ c
acts_untouched a [] c w = refl
acts_untouched a ((b, v) ∷ acts) c w = elim (Bool-cases (b == a)) [
  | inl e ↦ elim (w.0 e) [ ]
  | inr e ↦ ap (λ t. settle_all acts a (if t then settled v else c)) e ∙ acts_untouched a acts c w.1
]

step-Pending :
    (a v : ℕ) (o : Op) (c : Cell) → Writes (λ w. ⊥) a o → Pending v c → Pending v (step o a c)
step-Pending a v (store b x) c w p = elim (Bool-cases (b == a)) [
  | inl e ↦ elim (w e) [ ]
  | inr e ↦ ap (λ t. drained (if t then stored x c else c)) e ∙ p
]
step-Pending a v (flush b) c w p = by_test (b == a)
  where
    by_flag :
        (t : Bool) (now : ℕ) (l : List ℕ)
        → Pending v (record { now = now; possible = l; flushed = t })
        → settled now ≡ settled v
    by_flag true now l q = q
    by_flag false now l q = ap (λ d. settled d.now) q

    by_test : (t : Bool) → Pending v (if t then record c { flushed = true } else c)
    by_test true = by_flag c.flushed c.now c.possible p
    by_test false = p
step-Pending a v drain c w p = ap drained p
step-Pending a v (publish acts) c w p = ap drained (acts_untouched a acts c w) ∙ p

pub run-Pending :
    (a v : ℕ) (ops : List Op) (c : Cell) → Untouched a ops → Pending v c → Pending v (run ops a c)
unfolding run
run-Pending a v [] c w p = p
run-Pending a v (o ∷ ops) c w p = run-Pending a v ops (step o a c) w.1 (step-Pending a v o c w.0 p)

-- A text that is copied and flushed waits for the next drain.
pub copied-Pending :
    (a b j n : ℕ) (vs : List ℕ) (v : ℕ) (c : Cell)
    → b ≡ a + j
    → j < n
    → get_elem? vs j ≡ some v
    → Pending v (run (stores a vs ++ flushes a n) b c)
copied-Pending a b j n vs v c at lt e =
    ap drained (
      run-append (stores a vs) (flushes a n) b c
      ∙ flushes_flushed a b n (run (stores a vs) b c) (omega arith) (omega arith))
    ∙ ap settled (stores_now a b j vs v c at e)

-- A crash is before a point of the run or behind it.
pub crash_split :
    (pre post : List Op) (m : Memory) (image : Image)
    → CrashOf m (pre ++ post) image
    → CrashOf m pre image ⊎ CrashOf (after pre m) post image
unfolding run
crash_split [] post m image crash = inr crash
crash_split (o ∷ pre) post m image (inl survives) = inl (inl survives)
crash_split (o ∷ pre) post m image (inr rest) =
    elim (crash_split pre post (λ a. step o a (m a)) image rest) [
      | inl f ↦ inl (inr f)
      | inr s ↦ inr s
    ]
