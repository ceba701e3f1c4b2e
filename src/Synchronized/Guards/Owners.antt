-- ===== src/Synchronized/Guards/Owners.antt =====
-- A guard that owns its mutex holds it, alone.
use spack_playground.Prelude.{
  ℕ, ◌≡◌, refl, sym, ap, ◌∙◌, ◌⊎◌, inl, inr, Bool, true, false, Option, none, some, ◌==◌, ==_iff,
  if◌then◌else◌, Bool-cases, arith, subst,
}
use spack_playground.Prelude.Family.{update}
use spack_playground.Synchronized.{Store, put_holder}
use spack_playground.Synchronized.Locks.{lock-ran}
use spack_playground.Synchronized.Writes.{put_holder_apart, put_value_holder}
use spack_playground.Synchronized.Exclusion.{Step-keeps}
use spack_playground.Synchronized.Guards.{
  Guard, World, guard_of, set_owns, GuardStep, calls, synchronizes, unlocks, relocks, releases,
  writes, Reach, start, next,
}

pub some_injective : {A : Type 0} {x y : A} → some x ≡ some y → x ≡ y
some_injective e = cc

-- the guards where one of them has changed
updated :
    (f : ℕ → Option Guard) (g h : ℕ) (o : Option Guard) (l : Guard)
    → update f g o h ≡ some l
    → ((g ≡ h) × (o ≡ some l)) ⊎ (((g == h) ≡ false) × (f h ≡ some l))
updated f g h o l e = by_test (g == h) refl e
  where
    by_test :
        (t : Bool)
        → (g == h) ≡ t
        → (if t then o else f h) ≡ some l
        → ((g ≡ h) × (o ≡ some l)) ⊎ (((g == h) ≡ false) × (f h ≡ some l))
    by_test true same e = inl ((==_iff g h).0 same, e)
    by_test false other e = inr (other, e)

module _ {T : Type 0} where
  -- Guards that own the mutex of their object hold it, no two of them the same one; a `LockGuardPtr` owns it.
  pub record IsOwned (w : World T) : Type 0 where
    pub holds :
        (g : ℕ) (k : Guard)
        → w.guards g ≡ some k
        → k.owns ≡ true
        → (w.store k.object).holder ≡ some k.thread
    pub alone :
        (g h : ℕ) (k l : Guard)
        → w.guards g ≡ some k
        → w.guards h ≡ some l
        → k.owns ≡ true
        → l.owns ≡ true
        → k.object ≡ l.object
        → g ≡ h
    pub steady : (g : ℕ) (k : Guard) → w.guards g ≡ some k → k.is_unique ≡ false → k.owns ≡ true

  holder_of_lock :
      (s s' : Store T) (a i : ℕ) → s' ≡ put_holder s a (some i) → (s' a).holder ≡ some i
  holder_of_lock s s' a i e =
      ap (λ f. (f a).holder) e
      ∙ ap (λ t. (if t then record (s a) { holder = some i } else s a).holder)
          (let same : (a == a) ≡ true = ground arith in same)

  pub apart_of_holders :
      (s : Store T) (a c : ℕ) (x y : Option ℕ)
      → (s a).holder ≡ x
      → (s c).holder ≡ y
      → (x ≡ y → ⊥)
      → (a == c) ≡ false
  apart_of_holders s a c x y at_a at_c other = elim (Bool-cases (a == c)) [
    | inl e ↦ absurd (other (sym at_a ∙ ap (λ k. (s k).holder) ((==_iff a c).0 e) ∙ at_c))
    | inr e ↦ e
  ]

  -- A guard of the world gets the mutex of an object that is free.
  gains :
      (i a g : ℕ) (n : Guard) (w : World T) (s' : Store T)
      → IsOwned w
      → n.object ≡ a
      → n.thread ≡ i
      → n.owns ≡ true
      → (w.store a).holder ≡ none
      → s' ≡ put_holder w.store a (some i)
      → IsOwned (record { store = s'; guards = update w.guards g (some n) })
  gains i a g n w s' is object thread owns free made = record {
    holds = λ h l e own. elim (updated w.guards g h (some n) l e) [
      | inl (same, new) ↦ at_new l (some_injective new)
      | inr (other, old) ↦
          ap (λ f. (f l.object).holder) made
          ∙ ap (λ c. c.holder)
              (put_holder_apart w.store a (some i) l.object (elsewhere h l old own))
          ∙ is.holds h l old own
    ];
    alone = λ h h' k l e f own own' same. elim (updated w.guards g h (some n) k e) [
      | inl (at, new) ↦ elim (updated w.guards g h' (some n) l f) [
        | inl (at', _) ↦ sym at ∙ at'
        | inr (_, old) ↦ absurd (
            clash (elsewhere h' l old own')
              (sym object ∙ ap (λ x. x.object) (some_injective new) ∙ same))
      ]
      | inr (_, old) ↦ elim (updated w.guards g h' (some n) l f) [
        | inl (_, new) ↦ absurd (
            clash (elsewhere h k old own)
              (sym object ∙ ap (λ x. x.object) (some_injective new) ∙ sym same))
        | inr (_, old') ↦ is.alone h h' k l old old' own own' same
      ]
    ];
    steady = λ h l e plain. elim (updated w.guards g h (some n) l e) [
      | inl (_, new) ↦ ap (λ x. x.owns) (sym (some_injective new)) ∙ owns
      | inr (_, old) ↦ is.steady h l old plain
    ];
  }
    where
      elsewhere :
          (h : ℕ) (l : Guard) → w.guards h ≡ some l → l.owns ≡ true → (a == l.object) ≡ false
      elsewhere h l old own =
          apart_of_holders w.store a l.object none (some l.thread) free (is.holds h l old own)
            (λ e. cc e)

      clash : {x y : ℕ} → (x == y) ≡ false → x ≡ y → ⊥
      clash {x} {y} e f = absurd (ground arith)

      at_new : (l : Guard) → n ≡ l → (s' l.object).holder ≡ some l.thread
      at_new l e =
          ap (λ x. (s' x.object).holder) (sym e)
          ∙ ap (λ x. (s' x).holder) object
          ∙ holder_of_lock w.store s' a i made
          ∙ ap some (sym thread)
          ∙ ap (λ x. some x.thread) e

  -- A guard of the world gives up the mutex that it owns; what becomes of it does not own it.
  loses :
      (g : ℕ) (k : Guard) (o : Option Guard) (w : World T)
      → IsOwned w
      → w.guards g ≡ some k
      → k.owns ≡ true
      → ((l : Guard) → o ≡ some l → (l.owns ≡ false) × (l.is_unique ≡ true))
      → IsOwned (record { store = put_holder w.store k.object none; guards = update w.guards g o })
  loses g k o w is at own after = record {
    holds = λ h l e own'. elim (updated w.guards g h o l e) [
      | inl (_, new) ↦ absurd (cc (sym own' ∙ (after l new).0))
      | inr (other, old) ↦
          ap (λ c. c.holder)
            (put_holder_apart w.store k.object none l.object (elsewhere h l old own' other))
          ∙ is.holds h l old own'
    ];
    alone = λ h h' l l' e f own₁ own₂ same. elim (updated w.guards g h o l e) [
      | inl (_, new) ↦ absurd (cc (sym own₁ ∙ (after l new).0))
      | inr (_, old) ↦ elim (updated w.guards g h' o l' f) [
        | inl (_, new) ↦ absurd (cc (sym own₂ ∙ (after l' new).0))
        | inr (_, old') ↦ is.alone h h' l l' old old' own₁ own₂ same
      ]
    ];
    steady = λ h l e plain. elim (updated w.guards g h o l e) [
      | inl (_, new) ↦ absurd (cc (sym plain ∙ (after l new).1))
      | inr (_, old) ↦ is.steady h l old plain
    ];
  }
    where
      elsewhere :
          (h : ℕ) (l : Guard)
          → w.guards h ≡ some l
          → l.owns ≡ true
          → (g == h) ≡ false
          → (k.object == l.object) ≡ false
      elsewhere h l old own' other = elim (Bool-cases (k.object == l.object)) [
        | inl e ↦
            absurd (clash other (is.alone g h k l at old own own' ((==_iff k.object l.object).0 e)))
        | inr e ↦ e
      ]
        where
          clash : {x y : ℕ} → (x == y) ≡ false → x ≡ y → ⊥
          clash {x} {y} e f = absurd (ground arith)

  -- A guard that does not own its mutex goes away.
  destroyed :
      (g : ℕ) (w : World T)
      → IsOwned w
      → IsOwned (record { store = w.store; guards = update w.guards g none })
  destroyed g w is = record {
    holds = λ h l e own. is.holds h l (kept h l e) own;
    alone =
        λ h h' l l' e f own own' same. is.alone h h' l l' (kept h l e) (kept h' l' f) own own' same;
    steady = λ h l e plain. is.steady h l (kept h l e) plain;
  }
    where
      kept : (h : ℕ) (l : Guard) → update w.guards g none h ≡ some l → w.guards h ≡ some l
      kept h l e = elim (updated w.guards g h none l e) [
        | inl (_, new) ↦ absurd (cc new)
        | inr (_, old) ↦ old
      ]

  Step-IsOwned :
      (moved : T → T) (i : ℕ) (w w' : World T) → IsOwned w → GuardStep moved i w w' → IsOwned w'
  Step-IsOwned moved i w _ is (calls s' step) = record {
    holds = λ g k e own.
        ap (λ c. c.holder)
          (Step-keeps moved i w.store s' k.object k.thread (is.holds g k e own) step)
        ∙ is.holds g k e own;
    alone = is.alone;
    steady = is.steady;
  }
  Step-IsOwned moved i w _ is (synchronizes g a unique s' fresh locked) =
      let (free, made) = lock-ran i a w.store s' tt locked in
      gains i a g (guard_of i a unique) w s' is refl refl refl free made
  Step-IsOwned moved i w _ is (unlocks g k at mine unique own) =
      loses g k (some (set_owns k false)) w is at own (λ l e. (
        ap (λ x. x.owns) (sym (some_injective e)),
        ap (λ x. x.is_unique) (sym (some_injective e)) ∙ unique,
      ))
  Step-IsOwned moved i w _ is (relocks g k s' at mine unique own locked) =
      let (free, made) = lock-ran i k.object w.store s' tt locked in
      gains i k.object g (set_owns k true) w s' is refl mine refl free made
  Step-IsOwned moved i w _ is (releases g k at mine) = elim (Bool-cases k.owns) [
    | inl own ↦
        subst (λ b. IsOwned (after (if b then put_holder w.store k.object none else w.store)))
          (sym own) (loses g k none w is at own (λ l e. absurd (cc e)))
    | inr off ↦
        subst (λ b. IsOwned (after (if b then put_holder w.store k.object none else w.store)))
          (sym off) (destroyed g w is)
  ]
    where
      after : Store T → World T
      after s = record { store = s; guards = update w.guards g none }
  Step-IsOwned moved i w _ is (writes g k v at mine) = record {
    holds = λ h l e own. put_value_holder w.store k.object v l.object ∙ is.holds h l e own;
    alone = is.alone;
    steady = is.steady;
  }

  pub Reach-IsOwned :
      (moved : T → T) (values : ℕ → T) (w : World T) → Reach moved values w → IsOwned w
  Reach-IsOwned moved values _ start = record {
    holds = λ g k e. absurd (cc e);
    alone = λ g h k l e. absurd (cc e);
    steady = λ g k e. absurd (cc e);
  }
  Reach-IsOwned moved values _ (next i w w' r step) =
      Step-IsOwned moved i w w' (Reach-IsOwned moved values w r) step
