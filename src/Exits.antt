-- ===== src/Exits.antt =====
-- How a program ends, or goes on with a value: `main` up to its return, its calls of `exit` and the
-- exceptions that it does not catch.
use spack_playground.Prelude.{ℕ, ◌≡◌, refl, Bool, true, false, List}

pub data Run (A : Type 0) : Type 0 where
  goes : A → Run A
  exits : ℕ → Run A
  throws : List ℕ → Run A
  faults : Run A

infixl 5 ◌>>=◌ ◌>>◌
abbrev pub ◌>>=◌ : {A B : Type 0} → Run A → (A → Run B) → Run B
goes a >>= f = f a
exits n >>= f = exits n
throws s >>= f = throws s
faults >>= f = faults

abbrev pub ◌>>◌ : {B : Type 0} → Run (Unit {0}) → Run B → Run B
m >> k = m >>= λ _. k

abbrev pub exit_if : Bool → ℕ → Run (Unit {0})
exit_if true n = exits n
exit_if false n = goes tt

pub >>=-eq-goes :
    {A B : Type 0} (m : Run A) (f : A → Run B) {b : B}
    → (m >>= f) ≡ goes b
    → (a : A) × (m ≡ goes a) × (f a ≡ goes b)
>>=-eq-goes (goes a) f h = (a, refl, h)
>>=-eq-goes (exits n) f h = absurd (cc h)
>>=-eq-goes (throws s) f h = absurd (cc h)
>>=-eq-goes faults f h = absurd (cc h)

pub goes_injective : {A : Type 0} {a b : A} → goes a ≡ goes b → a ≡ b
goes_injective e = cc

pub exit_if-eq-goes : (b : Bool) (n : ℕ) {u : Unit {0}} → exit_if b n ≡ goes u → b ≡ false
exit_if-eq-goes true n h = absurd (cc h)
exit_if-eq-goes false n h = refl
