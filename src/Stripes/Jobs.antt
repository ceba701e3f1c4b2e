-- ===== src/Stripes/Jobs.antt =====
-- What the benchmarks do with a size option and with the verdict on their arguments.
use spack_playground.Prelude.{ℕ, ◌^◌, ◌<◌, ◌≡◌, sym, ap, ◌∙◌, subst, inl, inr, [], arith}
use spack_playground.Exits.{Run, goes, exits, throws, faults, goes_injective}
use spack_playground.PrettyBytes.{Text, Result, ok, invalid_argument, runtime_error, pretty_to}
use spack_playground.PrettyBytes.Parse.{pretty_to_total}
use spack_playground.Stripes.{Verdict, accepted, no_operation, invalid_arguments, divides_by_zero}

-- A size option; `main` does not catch the exceptions of `prettyTo`.
abbrev pub number : Result → Run ℕ
number (ok n) = goes n
number (invalid_argument s) = throws s
number runtime_error = throws []

abbrev pub verdict_ends : Verdict → Run (Unit {0})
verdict_ends accepted = goes tt
verdict_ends no_operation = exits 1
verdict_ends invalid_arguments = exits 1
verdict_ends divides_by_zero = faults

pub verdict_ends-eq-goes : (v : Verdict) {u : Unit {0}} → verdict_ends v ≡ goes u → v ≡ accepted
verdict_ends-eq-goes v h = ground arith

pub number-lt : (s : Text) (n : ℕ) → number (pretty_to s) ≡ goes n → n < 2 ^ 64
number-lt s n h = elim (pretty_to_total s) [
  | inl (m, run, lt) ↦ subst (λ t. t < 2 ^ 64) (goes_injective (sym (ap number run) ∙ h)) lt
  | inr refused ↦ absurd (cc (sym (ap number refused) ∙ h))
]
