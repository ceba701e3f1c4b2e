-- ===== src/Synchronized/Guards/Excludes.antt =====
-- What a thread holds locked only a guard without the mutex changes.
use spack_playground.Prelude.{
  ℕ, ◌≡◌, ◌≢◌, refl, sym, ap, ◌∙◌, ◌⊎◌, inl, inr, true, false, none, some, ◌==◌, ==_iff,
  if◌then◌else◌, Bool-cases,
}
use spack_playground.Synchronized.{Store, put_holder}
use spack_playground.Synchronized.Locks.{lock-ran}
use spack_playground.Synchronized.Writes.{put_value_apart, put_holder_apart}
use spack_playground.Synchronized.Exclusion.{Step-keeps}
use spack_playground.Synchronized.Guards.{
  Guard, World, guard_write, GuardStep, calls, synchronizes, unlocks, relocks, releases, writes,
  Reach,
}
use spack_playground.Synchronized.Guards.Owners.{
  IsOwned, Reach-IsOwned, some_injective, apart_of_holders,
}

module _ {T : Type 0} where
  holders_equal :
      (s : Store T) (a c i j t : ℕ)
      → (s c).holder ≡ some j
      → (s a).holder ≡ some t
      → a ≡ c
      → t ≡ i
      → j ≡ i
  holders_equal s a c i j t held at same mine =
      some_injective (sym held ∙ ap (λ k. (s k).holder) (sym same) ∙ at ∙ ap some mine)

  locked_apart :
      (i a c j : ℕ) (s s' : Store T)
      → (s c).holder ≡ some j
      → (s a).holder ≡ none
      → s' ≡ put_holder s a (some i)
      → s' c ≡ s c
  locked_apart i a c j s s' held free made =
      ap (λ f. f c) made
      ∙ put_holder_apart s a (some i) c (apart_of_holders s a c none (some j) free held (λ e. cc e))

  unlocked_apart :
      (i j c g : ℕ) (k : Guard) (w : World T)
      → IsOwned w
      → (w.store c).holder ≡ some j
      → j ≢ i
      → w.guards g ≡ some k
      → k.thread ≡ i
      → k.owns ≡ true
      → put_holder w.store k.object none c ≡ w.store c
  unlocked_apart i j c g k w is held other at mine own = put_holder_apart w.store k.object none c (
      apart_of_holders w.store k.object c (some k.thread) (some j) (is.holds g k at own) held
        (λ e. other (sym (some_injective e) ∙ mine)))

  -- Thread `i` has written through a `UniqueLockPtr` of `c` that it has unlocked.
  abbrev pub WroteUnlocked : ℕ → ℕ → World T → World T → Type 0
  WroteUnlocked i c w w' =
      (g : ℕ) × (k : Guard) × (v : T) × (w.guards g ≡ some k)
      × (k.thread ≡ i)
      × (k.object ≡ c)
      × (k.is_unique ≡ true)
      × (k.owns ≡ false)
      × (w' ≡ guard_write k v w)

  -- What a thread holds locked, with its value, no step of another thread changes, from any run of all threads,
  -- unless that step is a write through a `UniqueLockPtr` of the object that its thread has unlocked.
  pub GuardStep-excludes :
      (moved : T → T) (values : ℕ → T) (i j c : ℕ) (w w' : World T)
      → Reach moved values w
      → (w.store c).holder ≡ some j
      → j ≢ i
      → GuardStep moved i w w'
      → (w'.store c ≡ w.store c) ⊎ WroteUnlocked i c w w'
  GuardStep-excludes moved values i j c w _ r held other (calls s' step) =
      inl (Step-keeps moved i w.store s' c j held step)
  GuardStep-excludes moved values i j c w _ r held other (synchronizes g a unique s' fresh locked) =
      let (free, made) = lock-ran i a w.store s' tt locked in
      inl (locked_apart i a c j w.store s' held free made)
  GuardStep-excludes moved values i j c w _ r held other (unlocks g k at mine unique own) =
      inl (unlocked_apart i j c g k w (Reach-IsOwned moved values w r) held other at mine own)
  GuardStep-excludes moved values i j c w _ r held other
        (relocks g k s' at mine unique own locked) =
      let (free, made) = lock-ran i k.object w.store s' tt locked in
      inl (locked_apart i k.object c j w.store s' held free made)
  GuardStep-excludes moved values i j c w _ r held other (releases g k at mine) =
      elim (Bool-cases k.owns) [
        | inl own ↦ inl (
            ap (λ b. (if b then put_holder w.store k.object none else w.store) c) own
            ∙ unlocked_apart i j c g k w (Reach-IsOwned moved values w r) held other at mine own)
        | inr off ↦ inl (ap (λ b. (if b then put_holder w.store k.object none else w.store) c) off)
      ]
  GuardStep-excludes moved values i j c w _ r held other (writes g k v at mine) =
      elim (Bool-cases (k.object == c)) [
        | inr apart ↦ inl (put_value_apart w.store k.object v c apart)
        | inl here ↦ elim (Bool-cases k.owns) [
          | inl own ↦ absurd (
              other (
                holders_equal w.store k.object c i j k.thread held (is.holds g k at own)
                  ((==_iff k.object c).0 here) mine))
          | inr off ↦
              inr (g, k, v, at, mine, (==_iff k.object c).0 here, not_plain k at off, off, refl)
        ]
      ]
    where
      is : IsOwned w
      is = Reach-IsOwned moved values w r

      not_plain : (k : Guard) → w.guards g ≡ some k → k.owns ≡ false → k.is_unique ≡ true
      not_plain k at off = elim (Bool-cases k.is_unique) [
        | inl e ↦ e
        | inr e ↦ absurd (cc (sym (is.steady g k at e) ∙ off))
      ]
