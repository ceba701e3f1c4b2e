-- ===== src/Stripes/Count.antt =====
-- How often the workers access each block, as sums over workers and stripes.
use native.Mathlib.Nat.{mod-eq_of_lt}
use spack_playground.Prelude.{
  ℕ, zero, suc, ◌+◌, ◌-◌, ◌*◌, ◌%◌, ◌^◌, ◌<◌, ◌≤◌, ◌≡◌, refl, sym, ap, ◌∙◌, Bool, ◌&&◌, some, List,
  [], ◌∷◌, ◌++◌, arith, ltb, leb, if◌then◌else◌, length, get_elem?, All,
}
use spack_playground.Prelude.Family.{one_if}
use spack_playground.Prelude.Occurrences.{occurrences, occurrences-append, All-occurrences}
use spack_playground.Stripes.{
  Layout, iota, append_some, strip_blocks, worker_blocks, workers_blocks,
}

abbrev pub within : ℕ → ℕ → ℕ → Bool
within k n b = leb k b && ltb b (k + n)

unfoldable pub sum_from : ℕ → ℕ → (ℕ → ℕ) → ℕ
sum_from k zero f = 0
sum_from k (suc rounds) f = f k + sum_from (k + 1) rounds f

pub occurrences-iota : (b k n : ℕ) → occurrences b (iota k n) ≡ one_if (within k n b)
unfolding occurrences iota
occurrences-iota b k zero = ground arith
occurrences-iota b k (suc n) = ground (arith, occurrences-iota b (k + 1) n)

pub length-iota : (k n : ℕ) → length (iota k n) ≡ n
unfolding iota
length-iota k zero = refl
length-iota k (suc n) = ap suc (length-iota (k + 1) n)

abbrev shifted : ℕ → List ℕ → List ℕ
shifted ofs [] = []
shifted ofs (x ∷ xs) = (x + ofs) ∷ shifted ofs xs

occurrences-shifted :
    (b ofs : ℕ) (xs : List ℕ)
    → occurrences b (shifted ofs xs) ≡ (if leb ofs b then occurrences (b - ofs) xs else 0)
unfolding occurrences
occurrences-shifted b ofs [] = ground arith
occurrences-shifted b ofs (x ∷ xs) = ground (arith, occurrences-shifted b ofs xs)

strip_run :
    (offsets rest : List ℕ) (ofs j : ℕ)
    → All (λ a. a + ofs < 2 ^ 64) rest
    → ((k : ℕ) → get_elem? offsets (j + k) ≡ get_elem? rest k)
    → strip_blocks offsets ofs (length rest) j ≡ some (shifted ofs rest)
unfolding strip_blocks
strip_run offsets [] ofs j fits same = refl
strip_run offsets (a ∷ rest) ofs j (fit, fits) same =
    let here : get_elem? offsets j ≡ some a = ap (get_elem? offsets) (add_nothing j) ∙ same 0 in
    let next =
      strip_run offsets rest ofs (j + 1) fits
        (λ k. ap (get_elem? offsets) (step k) ∙ same (suc k)) in
    rw (here, strip_blocks, next, mod-eq_of_lt fit) refl
  where
    add_nothing : (n : ℕ) → n ≡ n + 0
    add_nothing n = omega arith

    step : (k : ℕ) → j + 1 + k ≡ j + suc k
    step k = omega arith

offsets_shift :
    (xs : List ℕ) (m ofs : ℕ)
    → ofs + m ≤ 2 ^ 64
    → All (λ a. a < m) xs
    → All (λ a. a + ofs < 2 ^ 64) xs
offsets_shift [] m ofs fit below = tt
offsets_shift (x ∷ xs) m ofs fit (lt, below) =
    (omega (arith, fit, lt), offsets_shift xs m ofs fit below)

-- The vector of offsets is a rearrangement, and no block number wraps.
pub record Fits (l : Layout) (offsets : List ℕ) (n : ℕ) : Type 0 where
  pub size : length offsets ≡ l.blocks_in_strip_unit
  pub rearranged : (b : ℕ) → occurrences b offsets ≡ one_if (within 0 l.blocks_in_strip_unit b)
  pub positive : 0 < l.blocks_in_strip_unit
  pub fits :
      (s i : ℕ)
      → s < l.stripe_count
      → i < n
      → s * l.blocks_in_stripe + i * l.blocks_in_strip_unit + l.blocks_in_strip_unit ≤ 2 ^ 64

module _ (l : Layout) (offsets : List ℕ) (n : ℕ) (fit : Fits l offsets n) where
  open fit use {size, rearranged, positive, fits}

  abbrev first_block : ℕ → ℕ → ℕ
  first_block s i = s * l.blocks_in_stripe + i * l.blocks_in_strip_unit

  -- how often worker `i` accesses block `b` in the stripe `s`
  abbrev pub hits : ℕ → ℕ → ℕ → ℕ
  hits b i s = one_if (within (first_block s i) l.blocks_in_strip_unit b)

  below : All (λ a. a < l.blocks_in_strip_unit) offsets
  below = All-occurrences _ offsets (λ b pos. by_count b (rearranged b) pos)
    where
      by_count :
          (b : ℕ)
          → occurrences b offsets ≡ one_if (within 0 l.blocks_in_strip_unit b)
          → 0 < occurrences b offsets
          → b < l.blocks_in_strip_unit
      by_count b e pos = ground arith

  strip_hits : (b s i : ℕ) → occurrences b (shifted (first_block s i) offsets) ≡ hits b i s
  strip_hits b s i =
      occurrences-shifted b (first_block s i) offsets
      ∙ by_range (first_block s i) l.blocks_in_strip_unit (rearranged (b - first_block s i))
    where
      by_range :
          (c m : ℕ)
          → occurrences (b - c) offsets ≡ one_if (within 0 m (b - c))
          → (if leb c b then occurrences (b - c) offsets else 0) ≡ one_if (within c m b)
      by_range c m e = ground arith

  strip_done :
      (s i : ℕ)
      → s < l.stripe_count
      → i < n
      → strip_blocks offsets (first_block s i % 2 ^ 64) l.blocks_in_strip_unit 0
        ≡ some (shifted (first_block s i) offsets)
  strip_done s i s_lt i_lt =
      let small : first_block s i < 2 ^ 64 = omega (arith, fits s i s_lt i_lt, positive) in
      let run =
        strip_run offsets offsets (first_block s i) 0
          (offsets_shift offsets l.blocks_in_strip_unit (first_block s i) (fits s i s_lt i_lt)
            below)
          (λ k. ap (get_elem? offsets) (from_zero k)) in
      ap (λ t. strip_blocks offsets t l.blocks_in_strip_unit 0) (mod-eq_of_lt small)
      ∙ ap (λ t. strip_blocks offsets (first_block s i) t 0) (sym size)
      ∙ run
    where
      from_zero : (k : ℕ) → 0 + k ≡ k
      from_zero k = omega arith

  worker_done :
      (i rounds s : ℕ)
      → i < n
      → s + rounds ≤ l.stripe_count
      → (xs : List ℕ) × (worker_blocks l offsets i rounds s ≡ some xs)
        × ((b : ℕ) → occurrences b xs ≡ sum_from s rounds (hits b i))
  unfolding worker_blocks sum_from occurrences
  worker_done i zero s i_lt le = ([], refl, λ b. refl)
  worker_done i (suc rounds) s i_lt le =
      let (xs, run, counts) = worker_done i rounds (s + 1) i_lt (omega (arith, le)) in
      let first = strip_done s i (omega (arith, le)) i_lt in
      (
        shifted (first_block s i) offsets ++ xs,
        ap (λ o. append_some o (worker_blocks l offsets i rounds (s + 1))) first
            ∙ ap (append_some (some (shifted (first_block s i) offsets))) run,
        λ b. omega (
          arith,
          occurrences-append b (shifted (first_block s i) offsets) xs,
          strip_hits b s i,
          counts b,
        ),
      )

  pub workers_done :
      (rounds i : ℕ)
      → i + rounds ≤ n
      → (xs : List ℕ) × (workers_blocks l offsets rounds i ≡ some xs)
        × ((b : ℕ)
            → occurrences b xs ≡ sum_from i rounds (λ j. sum_from 0 l.stripe_count (hits b j)))
  unfolding workers_blocks sum_from occurrences
  workers_done zero i le = ([], refl, λ b. refl)
  workers_done (suc rounds) i le =
      let (ys, run_rest, rest) = workers_done rounds (i + 1) (omega (arith, le)) in
      let (xs, run, counts) = worker_done i l.stripe_count 0 (omega (arith, le)) (omega arith) in
      (
        xs ++ ys,
        ap (λ o. append_some o (workers_blocks l offsets rounds (i + 1))) run
            ∙ ap (append_some (some xs)) run_rest,
        λ b. omega (arith, occurrences-append b xs ys, counts b, rest b),
      )
