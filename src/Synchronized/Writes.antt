-- ===== src/Synchronized/Writes.antt =====
-- Writes to the value or the mutex of one object.
use spack_playground.Prelude.{
  ℕ, ◌≡◌, refl, ap, ◌∙◌, Bool, true, false, ◌||◌, Option, [], ◌∷◌, arith, ◌==◌, if◌then◌else◌,
}
use spack_playground.Synchronized.{Store, value_of, put_value, put_holder}
use spack_playground.Synchronized.Locks.{among}

pub two : (x y : Bool) → (x || y) ≡ false → (x ≡ false) × (y ≡ false)
two x y f = ground arith

module _ {T : Type 0} where
  pub put_value_apart :
      (s : Store T) (a : ℕ) (v : T) (c : ℕ) → (a == c) ≡ false → put_value s a v c ≡ s c
  put_value_apart s a v c e = ap (λ b. if b then record (s c) { value = v } else s c) e

  pub put_one :
      (s : Store T) (a : ℕ) (v : T) (c : ℕ) → among c (a ∷ []) ≡ false → put_value s a v c ≡ s c
  put_one s a v c m = put_value_apart s a v c (two (a == c) false m).0

  pub put_two :
      (s : Store T) (a b : ℕ) (v w : T) (c : ℕ)
      → among c (a ∷ b ∷ []) ≡ false
      → put_value (put_value s a v) b w c ≡ s c
  put_two s a b v w c m =
      let (first, rest) = two (a == c) (among c (b ∷ [])) m in
      put_one (put_value s a v) b w c rest ∙ put_value_apart s a v c first

  pub put_holder_apart :
      (s : Store T) (a : ℕ) (h : Option ℕ) (c : ℕ) → (a == c) ≡ false → put_holder s a h c ≡ s c
  put_holder_apart s a h c e = ap (λ b. if b then record (s c) { holder = h } else s c) e

  pub put_value_holder :
      (t : Store T) (a : ℕ) (v : T) (c : ℕ) → (put_value t a v c).holder ≡ (t c).holder
  put_value_holder t a v c = by_test (a == c)
    where
      by_test : (x : Bool) → (if x then record (t c) { value = v } else t c).holder ≡ (t c).holder
      by_test true = refl
      by_test false = refl

  pub value_put :
      (t : Store T) (a : ℕ) (v : T) (c : ℕ)
      → value_of (put_value t a v) c ≡ (if a == c then v else value_of t c)
  value_put t a v c = by_test (a == c)
    where
      by_test :
          (x : Bool)
          → (if x then record (t c) { value = v } else t c).value ≡ (if x then v else (t c).value)
      by_test true = refl
      by_test false = refl
