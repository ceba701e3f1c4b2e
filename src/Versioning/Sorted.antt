-- ===== src/Versioning/Sorted.antt =====
-- Insertion into a sorted list, the reference for `insert_element`.
use spack_playground.Prelude.{
  ◌≤◌, ◌≡◌, refl, ap, inl, inr, false, List, [], ◌∷◌, ◌++◌, arith, if◌then◌else◌, length, All,
  Bool-cases,
}
use spack_playground.Versioning.{Order, take, drop, lower_bound}

module _ {A : Type 0} (order : Order A) where
  abbrev pub insert_sorted : A → List A → List A
  insert_sorted e [] = e ∷ []
  insert_sorted e (x ∷ xs) = if order.less x e then x ∷ insert_sorted e xs else e ∷ x ∷ xs

  -- No element is less than one before it.
  abbrev pub Sorted : List A → Type 0
  Sorted [] = Unit
  Sorted (x ∷ xs) = All (λ y. order.less y x ≡ false) xs × Sorted xs

  pub lower_bound-insert :
      (xs : List A) (e : A)
      → take (lower_bound order xs e) xs ++ e ∷ drop (lower_bound order xs e) xs
        ≡ insert_sorted e xs
  unfolding lower_bound
  lower_bound-insert [] e = refl
  lower_bound-insert (x ∷ xs) e = elim (Bool-cases (order.less x e)) [
    | inl lt ↦ rw (lower_bound, lt) (ap (λ l. x ∷ l) (lower_bound-insert xs e))
    | inr ge ↦ rw (lower_bound, ge) refl
  ]

  pub lower_bound_le : (xs : List A) (e : A) → lower_bound order xs e ≤ length xs
  unfolding lower_bound
  lower_bound_le [] e = omega arith
  lower_bound_le (x ∷ xs) e = ground (arith, lower_bound_le xs e)

  insert-All :
      (xs : List A) (e x : A)
      → order.less e x ≡ false
      → All (λ y. order.less y x ≡ false) xs
      → All (λ y. order.less y x ≡ false) (insert_sorted e xs)
  insert-All [] e x h all = (h, tt)
  insert-All (y ∷ ys) e x h (here, all) = elim (Bool-cases (order.less y e)) [
    | inl lt ↦ rw lt (here, insert-All ys e x h all)
    | inr ge ↦ rw ge (h, (here, all))
  ]

  beyond-All :
      (xs : List A) (e x : A)
      → order.less x e ≡ false
      → All (λ y. order.less y x ≡ false) xs
      → All (λ y. order.less y e ≡ false) xs
  beyond-All [] e x h all = tt
  beyond-All (y ∷ ys) e x h (here, all) = (order.transitive y x e here h, beyond-All ys e x h all)

  pub insert-Sorted : (xs : List A) (e : A) → Sorted xs → Sorted (insert_sorted e xs)
  insert-Sorted [] e sorted = (tt, tt)
  insert-Sorted (x ∷ xs) e (all, sorted) = elim (Bool-cases (order.less x e)) [
    | inl lt ↦ rw lt (insert-All xs e x (order.asymmetric x e lt) all, insert-Sorted xs e sorted)
    | inr ge ↦ rw ge ((ge, beyond-All xs e x ge all), (all, sorted))
  ]
