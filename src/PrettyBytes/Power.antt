-- ===== src/PrettyBytes/Power.antt =====
-- `power` is exponentiation modulo 2 ^ 64.
use native.Mathlib.Nat.{div-add-mod, add-mul-mod_self_left, mul_comm, mul_assoc, pow-zero, pow-suc}
use spack_playground.Prelude.{
  ℕ, zero, suc, ◌+◌, ◌*◌, ◌/◌, ◌%◌, ◌^◌, ◌≤◌, ◌<◌, ◌≡◌, refl, sym, ap, ◌∙◌, inl, inr, true, false,
  arith, ◌==◌, Bool-cases,
}
use spack_playground.PrettyBytes.{word, power_in, power}

pub mul-mod : (a b m : ℕ) → a % m * b % m ≡ a * b % m
mul-mod a b m =
    sym (add-mul-mod_self_left (a % m * b) m (a / m * b))
    ∙ ap (λ t. t % m) (omega (arith, ap (λ t. t * b) (div-add-mod a m)))

mul-mul-mod : (a b m : ℕ) → a % m * (b % m) % m ≡ a * b % m
mul-mul-mod a b m =
    mul-mod a (b % m) m
    ∙ ap (λ t. t % m) (mul_comm a (b % m))
    ∙ mul-mod b a m
    ∙ ap (λ t. t % m) (mul_comm b a)

pow_double : (x n : ℕ) → x ^ (n + n) ≡ x ^ n * x ^ n
pow_double x zero = rw pow-zero refl
pow_double x (suc n) =
    let e : suc n + suc n ≡ suc (suc (n + n)) = omega arith in
    rw (e, pow-suc x (suc (n + n)), pow-suc x (n + n), pow-suc x n, pow_double x n) (omega arith)

pow_half_even : (x p : ℕ) → (p % 2 == 0) ≡ true → x ^ p ≡ x ^ (p / 2) * x ^ (p / 2)
pow_half_even x p e = ap (λ t. x ^ t) (ground arith) ∙ pow_double x (p / 2)

pow_half_odd : (x p : ℕ) → (p % 2 == 0) ≡ false → x ^ p ≡ x * x ^ (p / 2) * x ^ (p / 2)
pow_half_odd x p e =
    let odd : p ≡ suc (p / 2 + p / 2) = ground arith in
    ap (λ t. x ^ t) odd
    ∙ pow-suc x (p / 2 + p / 2)
    ∙ omega (arith, ap (λ t. t * x) (pow_double x (p / 2)))

module _ (x : ℕ) (small : x < word) where
  even_case :
      (p : ℕ)
      → (p % 2 == 0) ≡ true
      → x ^ (p / 2) % word * (x ^ (p / 2) % word) % word ≡ x ^ p % word
  even_case p e =
      mul-mul-mod (x ^ (p / 2)) (x ^ (p / 2)) word ∙ ap (λ t. t % word) (sym (pow_half_even x p e))

  odd_case :
      (p : ℕ)
      → (p % 2 == 0) ≡ false
      → x * (x ^ (p / 2) % word) % word * (x ^ (p / 2) % word) % word ≡ x ^ p % word
  odd_case p e =
      let y = x ^ (p / 2) in
      mul-mod (x * (y % word)) (y % word) word
      ∙ ap (λ t. t % word) (mul_comm (x * (y % word)) (y % word))
      ∙ mul-mod y (x * (y % word)) word
      ∙ ap (λ t. t % word)
          (mul_comm y (x * (y % word))
            ∙ ap (λ t. t * y) (mul_comm x (y % word))
            ∙ mul_assoc (y % word) x y)
      ∙ mul-mod y (x * y) word
      ∙ ap (λ t. t % word) (mul_comm y (x * y) ∙ sym (pow_half_odd x p e))

  power_in_lem : (rounds p : ℕ) → p ≤ rounds → power_in rounds p x ≡ x ^ p % word
  unfolding power_in
  power_in_lem zero zero h = rw pow-zero refl
  power_in_lem zero (suc p) h = elim h [ ]
  power_in_lem (suc r) p h = elim (Bool-cases (p == 0)) [
    | inl e ↦ let e' : p ≡ 0 = ground arith in rw (e', pow-zero) refl
    | inr e ↦ rw e (elim (Bool-cases (p == 1)) [
      | inl f ↦ let f' : p ≡ 1 = ground arith in rw (f', pow-suc, pow-zero) (omega arith)
      | inr f ↦
          rw (f, power_in_lem r (p / 2) (omega arith))
            (elim (Bool-cases (p % 2 == 0)) [
              | inl g ↦ rw g (even_case p g)
              | inr g ↦ rw g (odd_case p g)
            ])
    ])
  ]

  -- Repeated squaring in 64 bits is exponentiation modulo 2 ^ 64, for every exponent.
  pub power_lem : (p : ℕ) → power p x ≡ x ^ p % word
  unfolding power
  power_lem p = power_in_lem p p (omega arith)
