-- ===== src/Medium/Crashes.antt =====
-- What a crash leaves at an address, from the operations on it.
use spack_playground.Prelude.{
  ℕ, ◌≡◌, refl, sym, ap, ◌∙◌, subst, ◌⊎◌, inl, inr, Bool, true, false, List, [], ◌∷◌, ◌++◌, ◌==◌,
  if◌then◌else◌,
}
use spack_playground.Medium.{
  Cell, Memory, settled, stored, Op, store, flush, drain, publish, settle_all, step, run, after,
  OneOf, Image, Survives, CrashOf,
}

module _ (P : ℕ → Type 0) where
  -- Every value that a load may read or a crash may leave.
  pub record Within (c : Cell) : Type 0 where
    pub now : P c.now
    pub possible : (v : ℕ) → OneOf v c.possible → P v

  abbrev pub WritesActs : ℕ → List (ℕ × ℕ) → Type 0
  WritesActs a [] = Unit {0}
  WritesActs a ((b, v) ∷ acts) = ((b == a) ≡ true → P v) × WritesActs a acts

  -- The operations write only such values to the address.
  abbrev pub Writes : ℕ → Op → Type 0
  Writes a (store b v) = (b == a) ≡ true → P v
  Writes a (flush b) = Unit {0}
  Writes a drain = Unit {0}
  Writes a (publish acts) = WritesActs a acts

  abbrev pub OnlyWrites : ℕ → List Op → Type 0
  OnlyWrites a [] = Unit {0}
  OnlyWrites a (o ∷ ops) = Writes a o × OnlyWrites a ops

  pub OnlyWrites-append :
      (a : ℕ) (xs ys : List Op) → OnlyWrites a xs → OnlyWrites a ys → OnlyWrites a (xs ++ ys)
  OnlyWrites-append a [] ys w v = v
  OnlyWrites-append a (x ∷ xs) ys w v = (w.0, OnlyWrites-append a xs ys w.1 v)

  pub settled-Within : (v : ℕ) → P v → Within (settled v)
  settled-Within v p = record {
    now = p;
    possible = λ w e. elim e [ inl same ↦ subst P (sym same) p | inr none ↦ elim none [ ] ];
  }

  acts-Within :
      (a : ℕ) (acts : List (ℕ × ℕ)) (c : Cell)
      → WritesActs a acts
      → Within c
      → Within (settle_all acts a c)
  acts-Within a [] c w within = within
  acts-Within a ((b, v) ∷ acts) c w within =
      acts-Within a acts (if b == a then settled v else c) w.1 (by_test (b == a) w.0)
    where
      by_test : (t : Bool) → (t ≡ true → P v) → Within (if t then settled v else c)
      by_test true p = settled-Within v (p refl)
      by_test false p = within

  step-Within : (a : ℕ) (o : Op) (c : Cell) → Writes a o → Within c → Within (step o a c)
  step-Within a (store b v) c w within = by_test (b == a) w
    where
      by_test : (t : Bool) → (t ≡ true → P v) → Within (if t then stored v c else c)
      by_test true p = record {
        now = p refl;
        possible = λ x e. elim e [
          | inl same ↦ subst P (sym same) (p refl)
          | inr old ↦ within.possible x old
        ];
      }
      by_test false p = within
  step-Within a (flush b) c w within = by_test (b == a)
    where
      by_test : (t : Bool) → Within (if t then record c { flushed = true } else c)
      by_test true = record { now = within.now; possible = within.possible }
      by_test false = within
  step-Within a drain c w within = by_flag c.flushed
    where
      by_flag : (t : Bool) → Within (if t then settled c.now else c)
      by_flag true = settled-Within c.now within.now
      by_flag false = within
  step-Within a (publish acts) c w within = acts-Within a acts c w within

  pub run-Within :
      (a : ℕ) (ops : List Op) (c : Cell) → OnlyWrites a ops → Within c → Within (run ops a c)
  unfolding run
  run-Within a [] c w within = within
  run-Within a (o ∷ ops) c w within =
      run-Within a ops (step o a c) w.1 (step-Within a o c w.0 within)

  -- Where only such values are written, a crash leaves one of them.
  pub crash-Within :
      (a : ℕ) (ops : List Op) (m : Memory) (image : Image)
      → OnlyWrites a ops
      → Within (m a)
      → CrashOf m ops image
      → P (image a)
  crash-Within a [] m image w within survives = within.possible (image a) (survives a)
  crash-Within a (o ∷ ops) m image w within (inl survives) = within.possible (image a) (survives a)
  crash-Within a (o ∷ ops) m image w within (inr rest) =
      crash-Within a ops (λ b. step o b (m b)) image w.1 (step-Within a o (m a) w.0 within) rest

-- Order of two addresses: where `b` has its value before `a` is written, a crash that finds `a` written
-- finds this value.
pub crash_ordered :
    (P Q : ℕ → Type 0) (a b : ℕ) (pre post : List Op) (m : Memory) (image : Image)
    → OnlyWrites P a pre
    → Within P (m a)
    → Within Q (run pre b (m b))
    → OnlyWrites Q b post
    → CrashOf m (pre ++ post) image
    → P (image a) ⊎ Q (image b)
unfolding run
crash_ordered P Q a b [] post m image w old new keeps crash =
    inr (crash-Within Q b post m image keeps new crash)
crash_ordered P Q a b (o ∷ pre) post m image w old new keeps (inl survives) =
    inl (old.possible (image a) (survives a))
crash_ordered P Q a b (o ∷ pre) post m image w old new keeps (inr rest) =
    crash_ordered P Q a b pre post (λ c. step o c (m c)) image w.1 (step-Within P a o (m a) w.0 old)
      new keeps rest

pub run-append : (xs ys : List Op) (a : ℕ) (c : Cell) → run (xs ++ ys) a c ≡ run ys a (run xs a c)
unfolding run
run-append [] ys a c = refl
run-append (x ∷ xs) ys a c = run-append xs ys a (step x a c)

-- What was settled and is not written again stands on the medium.
pub stands :
    (b v : ℕ) (pre post : List Op) (c : Cell) (w : ℕ)
    → run pre b c ≡ settled v
    → OnlyWrites (λ x. x ≡ v) b post
    → OneOf w (run (pre ++ post) b c).possible
    → w ≡ v
stands b v pre post c w done keeps at =
    (run-Within (λ x. x ≡ v) b post (settled v) keeps (settled-Within (λ x. x ≡ v) v refl)).possible
      w (subst (λ d. OneOf w d.possible) (run-append pre post b c ∙ ap (run post b) done) at)

step-now :
    (a : ℕ) (o : Op) (c : Cell)
    → OneOf c.now c.possible
    → OneOf (step o a c).now (step o a c).possible
step-now a (store b v) c e = by_test (b == a)
  where
    by_test : (t : Bool) → let d : Cell = if t then stored v c else c in OneOf d.now d.possible
    by_test true = inl refl
    by_test false = e
step-now a (flush b) c e = by_test (b == a)
  where
    by_test :
        (t : Bool)
        → let d : Cell = if t then record c { flushed = true } else c in OneOf d.now d.possible
    by_test true = e
    by_test false = e
step-now a drain c e = by_flag c.flushed
  where
    by_flag : (t : Bool) → let d : Cell = if t then settled c.now else c in OneOf d.now d.possible
    by_flag true = inl refl
    by_flag false = e
step-now a (publish acts) c e = by_acts acts c e
  where
    by_test :
        (t : Bool) (v : ℕ) (d : Cell)
        → OneOf d.now d.possible
        → let d' : Cell = if t then settled v else d in OneOf d'.now d'.possible
    by_test true v d f = inl refl
    by_test false v d f = f

    by_acts :
        (l : List (ℕ × ℕ)) (d : Cell)
        → OneOf d.now d.possible
        → OneOf (settle_all l a d).now (settle_all l a d).possible
    by_acts [] d f = f
    by_acts ((b, v) ∷ l) d f = by_acts l (if b == a then settled v else d) (by_test (b == a) v d f)

-- What a load reads may also be what a crash leaves.
pub run-now :
    (a : ℕ) (ops : List Op) (c : Cell)
    → OneOf c.now c.possible
    → OneOf (run ops a c).now (run ops a c).possible
unfolding run
run-now a [] c e = e
run-now a (o ∷ ops) c e = run-now a ops (step o a c) (step-now a o c e)

-- A crash behind the last operation.
pub crash_behind :
    (ops : List Op) (m : Memory) (image : Image)
    → Survives (after ops m) image
    → CrashOf m ops image
unfolding run
crash_behind [] m image survives = survives
crash_behind (o ∷ ops) m image survives =
    inr (crash_behind ops (λ a. step o a (m a)) image survives)
