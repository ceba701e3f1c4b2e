-- ===== src/Prelude/Family.antt =====
-- Families indexed by a thread number: an update at one index, and a count over the first `n`.
use Prim.Native.Nat.{ℕ, zero, suc, ◌+◌, ◌*◌, ◌≤◌, ◌<◌}
use mathlib.Core.Path.{◌≡◌, refl, ap}
use mathlib.Core.Bool.{Bool, true, false}
use native.Mathlib.Omega.{arith}
use spack_playground.Prelude.Tests.{◌==◌, if◌then◌else◌}

abbrev pub update {ℓ} : {A : Type ℓ} → (ℕ → A) → ℕ → A → ℕ → A
update f i a j = if i == j then a else f j

abbrev pub one_if : Bool → ℕ
one_if true = 1
one_if false = 0

module _ {ℓ} {A : Type ℓ} (p : A → Bool) where
  pub count_first : ℕ → (ℕ → A) → ℕ
  count_first zero f = 0
  count_first (suc n) f = one_if (p (f n)) + count_first n f

  count_first-update_outside :
      (n : ℕ) (f : ℕ → A) (i : ℕ) (a : A) → n ≤ i → count_first n (update f i a) ≡ count_first n f
  unfolding count_first
  count_first-update_outside zero f i a h = refl
  count_first-update_outside (suc n) f i a h = ground (arith, count_first-update_outside n f i a)

  pub count_first-update :
      (n : ℕ) (f : ℕ → A) (i : ℕ) (a : A)
      → i < n
      → count_first n (update f i a) + one_if (p (f i)) ≡ count_first n f + one_if (p a)
  unfolding count_first
  count_first-update zero f i a h = elim h [ ]
  count_first-update (suc n) f i a h =
      ground (arith, count_first-update n f i a, count_first-update_outside n f i a)

  -- Only the Boolean at each index matters.
  pub count_first_congr :
      (n : ℕ) (f g : ℕ → A) → ((i : ℕ) → p (f i) ≡ p (g i)) → count_first n f ≡ count_first n g
  unfolding count_first
  count_first_congr zero f g h = refl
  count_first_congr (suc n) f g h = ground (arith, h n, count_first_congr n f g h)

  pub count_first_zero : (n : ℕ) (f : ℕ → A) (i : ℕ) → count_first n f ≡ 0 → i < n → p (f i) ≡ false
  unfolding count_first
  count_first_zero zero f i h lt = elim lt [ ]
  count_first_zero (suc n) f i h lt = ground (arith, count_first_zero n f i)

  pub count_first_all : (n : ℕ) (f : ℕ → A) → ((i : ℕ) → p (f i) ≡ true) → count_first n f ≡ n
  unfolding count_first
  count_first_all zero f h = refl
  count_first_all (suc n) f h = ground (arith, h n, count_first_all n f h)

  pub count_first_full :
      (n : ℕ) (f : ℕ → A) → ((i : ℕ) → i < n → p (f i) ≡ true) → count_first n f ≡ n
  unfolding count_first
  count_first_full zero f h = refl
  count_first_full (suc n) f h =
      omega (
        arith,
        ap one_if (h n (omega arith)),
        count_first_full n f (λ i lt. h i (omega (arith, lt))),
      )

  pub count_first_none :
      (n : ℕ) (f : ℕ → A) → ((i : ℕ) → i < n → p (f i) ≡ false) → count_first n f ≡ 0
  unfolding count_first
  count_first_none zero f h = refl
  count_first_none (suc n) f h =
      omega (
        arith,
        ap one_if (h n (omega arith)),
        count_first_none n f (λ i lt. h i (omega (arith, lt))),
      )

-- The sum of the first `n` members.
unfoldable pub sum_first : ℕ → (ℕ → ℕ) → ℕ
sum_first zero f = 0
sum_first (suc n) f = f n + sum_first n f

sum_first_outside :
    (n : ℕ) (f : ℕ → ℕ) (i v : ℕ) → n ≤ i → sum_first n (update f i v) ≡ sum_first n f
unfolding sum_first
sum_first_outside zero f i v h = refl
sum_first_outside (suc n) f i v h = ground (arith, sum_first_outside n f i v)

pub sum_first-change :
    (n : ℕ) (f : ℕ → ℕ) (i v : ℕ) → i < n → sum_first n (update f i v) + f i ≡ sum_first n f + v
unfolding sum_first
sum_first-change zero f i v h = elim h [ ]
sum_first-change (suc n) f i v h =
    ground (arith, sum_first-change n f i v, sum_first_outside n f i v)

pub sum_first-update :
    (n : ℕ) (f : ℕ → ℕ) (i : ℕ) → i < n → sum_first n (update f i (f i + 1)) ≡ sum_first n f + 1
sum_first-update n f i h = omega (arith, sum_first-change n f i (f i + 1) h)

pub sum_first_congr : (n : ℕ) (f g : ℕ → ℕ) → ((i : ℕ) → f i ≡ g i) → sum_first n f ≡ sum_first n g
unfolding sum_first
sum_first_congr zero f g h = refl
sum_first_congr (suc n) f g h = ground (arith, h n, sum_first_congr n f g h)

pub sum_first_const : (n c : ℕ) (f : ℕ → ℕ) → ((i : ℕ) → i < n → f i ≡ c) → sum_first n f ≡ n * c
unfolding sum_first
sum_first_const zero c f h = ground arith
sum_first_const (suc n) c f h =
    let last : f n ≡ c = h n (omega arith) in
    let others = sum_first_const n c f (λ i lt. h i (omega (arith, lt))) in grind arith
