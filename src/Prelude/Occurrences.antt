-- ===== src/Prelude/Occurrences.antt =====
-- How often a number occurs in a list.
use Prim.Native.Nat.{ℕ, ◌+◌, ◌<◌}
use mathlib.Core.Path.{◌≡◌, ap}
use mathlib.Core.List.{List, [], ◌∷◌, ◌++◌}
use native.Mathlib.Omega.{arith}
use spack_playground.Prelude.Tests.{◌==◌, ==_refl}
use spack_playground.Prelude.Lists.{All}
use spack_playground.Prelude.Family.{one_if}

unfoldable pub occurrences : ℕ → List ℕ → ℕ
occurrences b [] = 0
occurrences b (x ∷ xs) = one_if (x == b) + occurrences b xs

pub occurrences-append :
    (b : ℕ) (xs ys : List ℕ) → occurrences b (xs ++ ys) ≡ occurrences b xs + occurrences b ys
unfolding occurrences
occurrences-append b [] ys = omega arith
occurrences-append b (x ∷ xs) ys = omega (arith, occurrences-append b xs ys)

pub All-occurrences :
    (P : ℕ → Type 0) (xs : List ℕ) → ((b : ℕ) → 0 < occurrences b xs → P b) → All P xs
unfolding occurrences
All-occurrences P [] h = tt
All-occurrences P (x ∷ xs) h = (
  h x (omega (arith, ap one_if (==_refl x))),
  All-occurrences P xs (λ b pos. h b (omega (arith, pos))),
)
