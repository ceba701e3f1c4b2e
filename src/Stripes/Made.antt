-- ===== src/Stripes/Made.antt =====
-- The accesses that a worker loop counts as done did not fail.
use spack_playground.Prelude.{
  ℕ, zero, suc, ◌+◌, ◌*◌, ◌%◌, ◌^◌, ◌<◌, ◌≡◌, refl, Bool, true, false, ◌||◌, Option, none, some,
  List, [], arith, ◌==◌, ==_iff, ap, sym, ◌∙◌, ◌⊎◌, inl, inr, if◌then◌else◌, get_elem?, Bool-cases,
}
use spack_playground.Prelude.Family.{one_if}
use spack_playground.Prelude.Occurrences.{occurrences, occurrences-append}
use spack_playground.Stripes.{Layout}
use spack_playground.Stripes.Failing.{
  Trace, cons_trace, append_trace, strip_accesses, go_on, worker_accesses, both_traces,
  workers_accesses,
}

module _ (fails : ℕ → Bool) where
  abbrev pub Made : Option Trace → Type 0
  Made none = Unit {0}
  Made (some t) = (b : ℕ) → 0 < occurrences b t.done → fails b ≡ false

  nothing-Made : (flag : Bool) → Made (some (record { done = []; failed = flag }))
  unfolding occurrences
  nothing-Made flag b once = absurd (omega arith)

  cons-Made : (b : ℕ) (o : Option Trace) → fails b ≡ false → Made o → Made (cons_trace b o)
  unfolding occurrences
  cons-Made b none ok made = tt
  cons-Made b (some t) ok made = λ c once. elim (Bool-cases (b == c)) [
    | inl same ↦ ap fails (sym ((==_iff b c).0 same)) ∙ ok
    | inr other ↦ made c (omega (arith, ap one_if other))
  ]

  append-Made : (t : Trace) (o : Option Trace) → Made (some t) → Made o → Made (append_trace t o)
  append-Made t none first rest = tt
  append-Made t (some u) first rest = λ b once. by_place b (
      some_one (occurrences b t.done) (occurrences b u.done)
        (omega (arith, occurrences-append b t.done u.done)))
    where
      some_one : (m n : ℕ) → 0 < m + n → (0 < m) ⊎ (0 < n)
      some_one m n lt = ground arith

      by_place : (b : ℕ) → (0 < occurrences b t.done) ⊎ (0 < occurrences b u.done) → fails b ≡ false
      by_place b (inl here) = first b here
      by_place b (inr there) = rest b there

  strip-Made :
      (offsets : List ℕ) (ofs rounds j : ℕ) → Made (strip_accesses fails offsets ofs rounds j)
  unfolding strip_accesses
  strip-Made offsets ofs zero j = nothing-Made false
  strip-Made offsets ofs (suc rounds) j =
      by_offset (get_elem? offsets j) (strip_accesses fails offsets ofs rounds (j + 1))
        (strip-Made offsets ofs rounds (j + 1))
    where
      by_failure :
          (b : ℕ) (f : Bool) (r : Option Trace)
          → fails b ≡ f
          → Made r
          → Made (if f then some (record { done = []; failed = true }) else cons_trace b r)
      by_failure b true r e made = nothing-Made true
      by_failure b false r e made = cons-Made b r e made

      by_offset :
          (o : Option ℕ) (r : Option Trace)
          → Made r
          → Made (elim o [
            | none ↦ none
            | some a ↦
                if fails ((a + ofs) % 2 ^ 64)
                then some (record { done = []; failed = true })
                else cons_trace ((a + ofs) % 2 ^ 64) r
          ])
      by_offset none r made = tt
      by_offset (some a) r made =
          by_failure ((a + ofs) % 2 ^ 64) (fails ((a + ofs) % 2 ^ 64)) r refl made

  go_on-Made : (seen : Bool) (o r : Option Trace) → Made o → Made r → Made (go_on seen o r)
  go_on-Made seen none r first rest = tt
  go_on-Made seen (some t) r first rest = by_flag (t.failed || seen)
    where
      by_flag : (f : Bool) → Made (if f then some t else append_trace t r)
      by_flag true = first
      by_flag false = append-Made t r first rest

  worker-Made :
      (seen : ℕ → Bool) (l : Layout) (offsets : List ℕ) (i rounds stripe : ℕ)
      → Made (worker_accesses fails seen l offsets i rounds stripe)
  unfolding worker_accesses
  worker-Made seen l offsets i zero stripe = nothing-Made false
  worker-Made seen l offsets i (suc rounds) stripe =
      go_on-Made (seen stripe) _ _
        (strip-Made offsets ((stripe * l.blocks_in_stripe + i * l.blocks_in_strip_unit) % 2 ^ 64)
          l.blocks_in_strip_unit 0)
        (worker-Made seen l offsets i rounds (stripe + 1))

  pub workers-Made :
      (seen : ℕ → ℕ → Bool) (l : Layout) (offsets : List ℕ) (rounds i : ℕ)
      → Made (workers_accesses fails seen l offsets rounds i)
  unfolding workers_accesses
  workers-Made seen l offsets zero i = nothing-Made false
  workers-Made seen l offsets (suc rounds) i =
      both-Made (worker_accesses fails (seen i) l offsets i l.stripe_count 0) _
        (worker-Made (seen i) l offsets i l.stripe_count 0)
        (workers-Made seen l offsets rounds (i + 1))
    where
      both-Made : (o r : Option Trace) → Made o → Made r → Made (both_traces o r)
      both-Made none r first rest = tt
      both-Made (some t) r first rest = append-Made t r first rest
