-- ===== src/PrettyBytes.antt =====
-- targets/libraries/pretty_bytes/include/pretty_bytes/pretty_bytes.hpp: byte counts with a suffix.
-- A text is the list of its bytes. `T` is `uint64_t`, as in every program that calls `prettyTo`.
pub mod Power
pub mod Parse
mod Examples
use spack_playground.Prelude.{
  ℕ, zero, suc, ◌+◌, ◌-◌, ◌*◌, ◌/◌, ◌%◌, ◌^◌, min, Bool, true, false, ◌&&◌, ◌||◌, Option, none,
  some, List, [], ◌∷◌, leb, ◌==◌, if◌then◌else◌,
}

abbrev pub Text : Type 0
Text = List ℕ

abbrev pub word : ℕ
word = 2 ^ 64

abbrev pub base : ℕ
base = 1024

-- `power<T, p>(x)`; the template argument halves at each instantiation, so `p` rounds are enough.
power_in : ℕ → ℕ → ℕ → ℕ
power_in zero p x = 1
power_in (suc rounds) p x =
    let tmp = power_in rounds (p / 2) x in
    if p == 0
    then 1
    else if p == 1
    then x
    else if p % 2 == 0
    then tmp * tmp % word
    else x * tmp % word * tmp % word

unfoldable pub power : ℕ → ℕ → ℕ
unfolding power_in
power p x = power_in p p x

-- The classes `\d` and `(K|M|G|T|P)` of the pattern.
abbrev pub is_digit : ℕ → Bool
is_digit c = leb b'0' c && leb c b'9'

abbrev pub is_suffix : ℕ → Bool
is_suffix c = c == b'K' || c == b'M' || c == b'G' || c == b'T' || c == b'P'

-- The two groups that `regex_match` of `(\d+)(K|M|G|T|P)?` binds, the text read from the left.
pub record Groups : Type 0 where
  pub digits : Text
  pub suffix : Text

unfoldable pub add_digit : ℕ → Option Groups → Option Groups
add_digit c none = none
add_digit c (some g) = some (record g { digits = c ∷ g.digits })

-- `(K|M|G|T|P)?` and the end of the text, where `c` is no digit.
unfoldable pub match_suffix : ℕ → Text → Option Groups
match_suffix c [] = if is_suffix c then some (record { digits = []; suffix = c ∷ [] }) else none
match_suffix c (d ∷ s) = none

-- the text behind at least one digit
unfoldable pub match_rest : Text → Option Groups
unfolding add_digit match_suffix
match_rest [] = some (record { digits = []; suffix = [] })
match_rest (c ∷ s) = if is_digit c then add_digit c (match_rest s) else match_suffix c s

unfoldable pub regex_match : Text → Option Groups
unfolding match_rest
regex_match [] = none
regex_match (c ∷ s) = if is_digit c then add_digit c (match_rest s) else none

-- The number that decimal digits stand for, from the left.
unfoldable pub decimal_from : ℕ → Text → ℕ
decimal_from acc [] = acc
decimal_from acc (c ∷ s) = decimal_from (acc * 10 + (c - b'0')) s

abbrev pub decimal : Text → ℕ
decimal s = decimal_from 0 s

-- `iss >> result`: extraction into an unsigned number stops at its greatest value.
abbrev pub extract : Text → ℕ
extract s = min (decimal s) (word - 1)

pub data Result : Type 0 where
  ok : ℕ → Result
  invalid_argument : Text → Result
  runtime_error : Result

-- The chain of tests on the suffix.
unfoldable pub scale : ℕ → Text → Result
unfolding power
scale result [] = ok result
scale result (c ∷ []) =
    if c == b'K'
    then ok (result * base % word)
    else if c == b'M'
    then ok (result * power 2 base % word)
    else if c == b'G'
    then ok (result * power 3 base % word)
    else if c == b'T'
    then ok (result * power 4 base % word)
    else if c == b'P'
    then ok (result * power 5 base % word)
    else runtime_error
scale result (c ∷ d ∷ s) = runtime_error

unfoldable pub pretty_to : Text → Result
unfolding regex_match scale
pretty_to pretty = elim (regex_match pretty) [
  | none ↦ invalid_argument pretty
  | some g ↦ scale (extract g.digits) g.suffix
]
