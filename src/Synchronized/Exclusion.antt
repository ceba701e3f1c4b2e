-- ===== src/Synchronized/Exclusion.antt =====
-- What a thread holds locked no method changes.
use spack_playground.Prelude.{
  ℕ, ◌≡◌, refl, ap, Bool, true, false, some, [], ◌∷◌, ◌==◌, if◌then◌else◌,
}
use spack_playground.Synchronized.{
  Store, Attempt, ran, value_of, under, assign, move_assign, swap, Step, gets, copies, moves,
  assigns_value, assigns, moves_into, swaps, swaps_value, saves, loads, arrows,
}
use spack_playground.Synchronized.Locks.{Touches, under_others}
use spack_playground.Synchronized.Writes.{two, put_value_apart, put_one, put_two}

module _ {T : Type 0} where
  -- two calls that do nothing for an object and itself
  unless_same :
      (i a b : ℕ) (body : Store T → Unit {0} × Store T) (s s' : Store T) (same : Bool)
      → Touches (a ∷ b ∷ []) body
      → ◌≡◌ {A = Attempt (Store T) (Unit {0})}
          (if same then ran tt s else under i (a ∷ b ∷ []) body s)
          (ran tt s')
      → (c j : ℕ) → (s c).holder ≡ some j
      → s' c ≡ s c
  unless_same i a b body s s' true touches e c j held = ap (λ f. f c) (unchanged e)
    where
      unchanged : ◌≡◌ {A = Attempt (Store T) (Unit {0})} (ran tt s) (ran tt s') → s' ≡ s
      unchanged f = cc
  unless_same i a b body s s' false touches e c j held =
      under_others i (a ∷ b ∷ []) body s s' tt touches e c j held

  -- What a thread holds locked, with its value, no method and no operator changes, whoever calls it.
  pub Step-keeps :
      (moved : T → T) (i : ℕ) (s s' : Store T) (c j : ℕ)
      → (s c).holder ≡ some j
      → Step moved i s s'
      → s' c ≡ s c
  unfolding assign move_assign swap
  Step-keeps moved i s _ c j held (gets a v s' e) =
      under_others i (a ∷ []) _ s s' v (λ s k m. refl) e c j held
  Step-keeps moved i s _ c j held (copies b v s' e) =
      under_others i (b ∷ []) _ s s' v (λ s k m. refl) e c j held
  Step-keeps moved i s _ c j held (moves b v s' e) =
      under_others i (b ∷ []) _ s s' v (λ s k m. put_one s b (moved (value_of s b)) k m) e c j held
  Step-keeps moved i s _ c j held (assigns_value a v s' e) =
      under_others i (a ∷ []) _ s s' tt (λ s k m. put_one s a v k m) e c j held
  Step-keeps moved i s _ c j held (assigns a b s' e) =
      unless_same i a b _ s s' (b == a)
        (λ t k m. put_value_apart t a (value_of t b) k (two _ _ m).0) e c j held
  Step-keeps moved i s _ c j held (moves_into a b s' e) =
      unless_same i a b _ s s' (b == a)
        (λ t k m. put_two t a b (value_of t b) (moved (value_of t b)) k m) e c j held
  Step-keeps moved i s _ c j held (swaps a b s' e) =
      unless_same i a b _ s s' (a == b) (λ t k m. put_two t a b (value_of t b) (value_of t a) k m) e
        c j held
  Step-keeps moved i s _ c j held (swaps_value a v w s' e) =
      under_others i (a ∷ []) _ s s' w (λ s k m. put_one s a v k m) e c j held
  Step-keeps moved i s _ c j held (saves show a os os' s' e) =
      under_others i (a ∷ []) _ s s' os' (λ s k m. refl) e c j held
  Step-keeps moved i s _ c j held (loads scan a is rest s' e) =
      under_others i (a ∷ []) _ s s' rest (λ s k m. put_one s a (scan is (value_of s a)).0 k m) e c
        j held
  Step-keeps moved i s _ c j held (arrows f a r s' e) =
      under_others i (a ∷ []) _ s s' r (λ s k m. put_one s a (f (value_of s a)).1 k m) e c j held
