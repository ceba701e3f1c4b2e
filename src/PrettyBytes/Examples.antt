-- ===== src/PrettyBytes/Examples.antt =====
-- Runs of `prettyTo`, and the theorems at concrete texts.
use spack_playground.Prelude.{ℕ, ◌*◌, ◌%◌, ◌^◌, ◌<◌, ◌≡◌, ◌⊎◌, refl, [], ◌∷◌}
use spack_playground.PrettyBytes.{
  Text, word, base, extract, ok, invalid_argument, pretty_to, decimal_from,
}
use spack_playground.PrettyBytes.Parse.{
  kilo, pretty_to-digits, pretty_value, pretty_to-decides, pretty_to_total, IsPretty,
}

abbrev twelve_kilo : Text
twelve_kilo = b'1' ∷ b'2' ∷ b'K' ∷ []

twelve_kilo_runs : pretty_to twelve_kilo ≡ ok 12288
unfolding pretty_to decimal_from
twelve_kilo_runs = refl

-- a suffix alone, and a suffix that the pattern does not know
no_digits : pretty_to (b'K' ∷ []) ≡ invalid_argument (b'K' ∷ [])
unfolding pretty_to
no_digits = refl

two_letters : pretty_to (b'1' ∷ b'K' ∷ b'B' ∷ []) ≡ invalid_argument (b'1' ∷ b'K' ∷ b'B' ∷ [])
unfolding pretty_to
two_letters = refl

-- 16777216T is 2 ^ 64 bytes, which wraps to nothing
abbrev sixteen_exa : Text
sixteen_exa = b'1' ∷ b'6' ∷ b'7' ∷ b'7' ∷ b'7' ∷ b'2' ∷ b'1' ∷ b'6' ∷ b'T' ∷ []

sixteen_exa_wraps : pretty_to sixteen_exa ≡ ok 0
unfolding pretty_to decimal_from
sixteen_exa_wraps = refl

pretty_to-digits_example :
    pretty_to (b'1' ∷ b'2' ∷ b'K' ∷ []) ≡ ok (extract (b'1' ∷ b'2' ∷ []) * base ^ 1 % word)
pretty_to-digits_example = pretty_to-digits b'1' (b'2' ∷ []) kilo (refl, (refl, tt))

pretty_to-decides_example :
    ((p : IsPretty (b'1' ∷ b'B' ∷ [])) × (pretty_to (b'1' ∷ b'B' ∷ [])
        ≡ ok (pretty_value (b'1' ∷ b'B' ∷ []) p)))
    ⊎ ((¬ IsPretty (b'1' ∷ b'B' ∷ []))
        × (pretty_to (b'1' ∷ b'B' ∷ []) ≡ invalid_argument (b'1' ∷ b'B' ∷ [])))
pretty_to-decides_example = pretty_to-decides (b'1' ∷ b'B' ∷ [])

pretty_to_total_example :
    ((n : ℕ) × (pretty_to sixteen_exa ≡ ok n) × (n < word))
    ⊎ (pretty_to sixteen_exa ≡ invalid_argument sixteen_exa)
pretty_to_total_example = pretty_to_total sixteen_exa
