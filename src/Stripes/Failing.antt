-- ===== src/Stripes/Failing.antt =====
-- The worker loops of pmemblkbench and pmemobjbench, where an access can fail: the worker leaves both
-- loops and sets a flag that all workers share.
use spack_playground.Prelude.{
  ℕ, zero, suc, ◌+◌, ◌*◌, ◌%◌, ◌^◌, ◌≡◌, refl, sym, ap, ◌∙◌, Bool, true, false, ◌||◌, Option, none,
  some, List, [], ◌∷◌, ◌++◌, arith, if◌then◌else◌, get_elem?,
}
use spack_playground.Stripes.{
  Layout, cons_some, append_some, strip_blocks, worker_blocks, workers_blocks,
}

-- The accesses that succeeded, and whether the worker set the flag.
pub record Trace : Type 0 where
  pub done : List ℕ
  pub failed : Bool

abbrev pub cons_trace : ℕ → Option Trace → Option Trace
cons_trace b none = none
cons_trace b (some t) = some (record { done = b ∷ t.done; failed = t.failed })

abbrev pub append_trace : Trace → Option Trace → Option Trace
append_trace s none = none
append_trace s (some t) = some (record { done = s.done ++ t.done; failed = s.failed || t.failed })

-- The inner loop; `fails` tells the accesses that fail.
unfoldable pub strip_accesses : (ℕ → Bool) → List ℕ → ℕ → ℕ → ℕ → Option Trace
strip_accesses fails offsets ofs zero j = some (record { done = []; failed = false })
strip_accesses fails offsets ofs (suc rounds) j =
    let rest = strip_accesses fails offsets ofs rounds (j + 1) in
    elim (get_elem? offsets j) [
      | none ↦ none
      | some a ↦
          if fails ((a + ofs) % 2 ^ 64)
          then some (record { done = []; failed = true })
          else cons_trace ((a + ofs) % 2 ^ 64) rest
    ]

abbrev pub go_on : Bool → Option Trace → Option Trace → Option Trace
go_on seen none rest = none
go_on seen (some t) rest = if t.failed || seen then some t else append_trace t rest

-- The outer loop of worker `i`; `seen` tells after which stripes it finds the flag set by another.
unfoldable pub worker_accesses :
    (ℕ → Bool) → (ℕ → Bool) → Layout → List ℕ → ℕ → ℕ → ℕ → Option Trace
unfolding strip_accesses
worker_accesses fails seen l offsets i zero stripe = some (record { done = []; failed = false })
worker_accesses fails seen l offsets i (suc rounds) stripe =
    go_on (seen stripe)
      (strip_accesses fails offsets
        ((stripe * l.blocks_in_stripe + i * l.blocks_in_strip_unit) % 2 ^ 64) l.blocks_in_strip_unit
        0)
      (worker_accesses fails seen l offsets i rounds (stripe + 1))

abbrev pub both_traces : Option Trace → Option Trace → Option Trace
both_traces none rest = none
both_traces (some t) rest = append_trace t rest

-- All workers from `i` on.
unfoldable pub workers_accesses :
    (ℕ → Bool) → (ℕ → ℕ → Bool) → Layout → List ℕ → ℕ → ℕ → Option Trace
unfolding worker_accesses
workers_accesses fails seen l offsets zero i = some (record { done = []; failed = false })
workers_accesses fails seen l offsets (suc rounds) i =
    both_traces (worker_accesses fails (seen i) l offsets i l.stripe_count 0)
      (workers_accesses fails seen l offsets rounds (i + 1))

-- Where no flag was set and none was seen, nothing is left out.
abbrev pub Complete : Option Trace → Option (List ℕ) → Type 0
Complete none blocks = Unit
Complete (some t) blocks = t.failed ≡ false → blocks ≡ some t.done

cons-Complete :
    (b : ℕ) (o : Option Trace) (blocks : Option (List ℕ))
    → Complete o blocks
    → Complete (cons_trace b o) (cons_some b blocks)
cons-Complete b none blocks h = tt
cons-Complete b (some t) blocks h = λ ok. ap (cons_some b) (h ok)

append-Complete :
    (t : Trace) (o : Option Trace) (first rest : Option (List ℕ))
    → Complete (some t) first
    → Complete o rest
    → Complete (append_trace t o) (append_some first rest)
append-Complete t none first rest h k = tt
append-Complete t (some u) first rest h k = λ ok.
    let (one, two) = neither t.failed u.failed ok in
    ap (λ x. append_some x rest) (h one) ∙ ap (append_some (some t.done)) (k two)
  where
    neither : (x y : Bool) → (x || y) ≡ false → (x ≡ false) × (y ≡ false)
    neither x y e = ground arith

both-Complete :
    (o r : Option Trace) (first rest : Option (List ℕ))
    → Complete o first
    → Complete r rest
    → Complete (both_traces o r) (append_some first rest)
both-Complete none r first rest h k = tt
both-Complete (some t) r first rest h k = append-Complete t r first rest h k

go_on-Complete :
    (seen : Bool) (o r : Option Trace) (first rest : Option (List ℕ))
    → seen ≡ false
    → Complete o first
    → Complete r rest
    → Complete (go_on seen o r) (append_some first rest)
go_on-Complete seen none r first rest unseen h k = tt
go_on-Complete seen (some t) r first rest unseen h k = by_flag t.failed seen refl unseen
  where
    by_flag :
        (b c : Bool)
        → t.failed ≡ b
        → c ≡ false
        → Complete (if b || c then some t else append_trace t r) (append_some first rest)
    by_flag false false e f = append-Complete t r first rest h k
    by_flag true false e f = λ ok. absurd (cc (sym e ∙ ok))
    by_flag b true e f = absurd (cc f)

strip-Complete :
    (fails : ℕ → Bool) (offsets : List ℕ) (ofs rounds j : ℕ)
    → Complete (strip_accesses fails offsets ofs rounds j) (strip_blocks offsets ofs rounds j)
unfolding strip_accesses strip_blocks
strip-Complete fails offsets ofs zero j = λ ok. refl
strip-Complete fails offsets ofs (suc rounds) j =
    by_offset (get_elem? offsets j) (strip_accesses fails offsets ofs rounds (j + 1))
      (strip-Complete fails offsets ofs rounds (j + 1))
  where
    by_failure :
        (b : ℕ) (f : Bool) (r : Option Trace)
        → Complete r (strip_blocks offsets ofs rounds (j + 1))
        → Complete
            (if f then some (record { done = []; failed = true }) else cons_trace b r)
            (cons_some b (strip_blocks offsets ofs rounds (j + 1)))
    by_failure b true r k = λ ok. absurd (cc ok)
    by_failure b false r k = cons-Complete b r (strip_blocks offsets ofs rounds (j + 1)) k

    by_offset :
        (o : Option ℕ) (r : Option Trace)
        → Complete r (strip_blocks offsets ofs rounds (j + 1))
        → Complete
            (elim o [
              | none ↦ none
              | some a ↦
                  if fails ((a + ofs) % 2 ^ 64)
                  then some (record { done = []; failed = true })
                  else cons_trace ((a + ofs) % 2 ^ 64) r
            ])
            (elim o [
              | none ↦ none
              | some a ↦ cons_some ((a + ofs) % 2 ^ 64) (strip_blocks offsets ofs rounds (j + 1))
            ])
    by_offset none r k = tt
    by_offset (some a) r k = by_failure ((a + ofs) % 2 ^ 64) (fails ((a + ofs) % 2 ^ 64)) r k

worker-Complete :
    (fails seen : ℕ → Bool) (l : Layout) (offsets : List ℕ) (i rounds stripe : ℕ)
    → ((s : ℕ) → seen s ≡ false)
    → Complete
        (worker_accesses fails seen l offsets i rounds stripe)
        (worker_blocks l offsets i rounds stripe)
unfolding worker_accesses worker_blocks
worker-Complete fails seen l offsets i zero stripe unseen = λ ok. refl
worker-Complete fails seen l offsets i (suc rounds) stripe unseen =
    go_on-Complete (seen stripe) _ _ _ _ (unseen stripe)
      (strip-Complete fails offsets
        ((stripe * l.blocks_in_stripe + i * l.blocks_in_strip_unit) % 2 ^ 64) l.blocks_in_strip_unit
        0)
      (worker-Complete fails seen l offsets i rounds (stripe + 1) unseen)

pub workers-Complete :
    (fails : ℕ → Bool) (seen : ℕ → ℕ → Bool) (l : Layout) (offsets : List ℕ) (rounds i : ℕ)
    → ((i s : ℕ) → seen i s ≡ false)
    → Complete (workers_accesses fails seen l offsets rounds i) (workers_blocks l offsets rounds i)
unfolding workers_accesses workers_blocks
workers-Complete fails seen l offsets zero i unseen = λ ok. refl
workers-Complete fails seen l offsets (suc rounds) i unseen =
    both-Complete _ _ _ _ (worker-Complete fails (seen i) l offsets i l.stripe_count 0 (unseen i))
      (workers-Complete fails seen l offsets rounds (i + 1) unseen)

abbrev pub as_trace : Option (List ℕ) → Option Trace
as_trace none = none
as_trace (some xs) = some (record { done = xs; failed = false })

-- Where nothing fails and no flag is seen, all accesses are made.
module _ (fails : ℕ → Bool) (never : (b : ℕ) → fails b ≡ false) where
  strip-as_trace :
      (offsets : List ℕ) (ofs rounds j : ℕ)
      → strip_accesses fails offsets ofs rounds j ≡ as_trace (strip_blocks offsets ofs rounds j)
  unfolding strip_accesses strip_blocks
  strip-as_trace offsets ofs zero j = refl
  strip-as_trace offsets ofs (suc rounds) j =
      by_offset (get_elem? offsets j) _ _ (strip-as_trace offsets ofs rounds (j + 1))
    where
      cons_lem :
          (b : ℕ) (o : Option (List ℕ)) → cons_trace b (as_trace o) ≡ as_trace (cons_some b o)
      cons_lem b none = refl
      cons_lem b (some xs) = refl

      by_offset :
          (o : Option ℕ) (r : Option Trace) (bs : Option (List ℕ))
          → r ≡ as_trace bs
          → (elim o [
            | none ↦ none
            | some a ↦
                if fails ((a + ofs) % 2 ^ 64)
                then some (record { done = []; failed = true })
                else cons_trace ((a + ofs) % 2 ^ 64) r
          ])
            ≡ as_trace (elim o [ none ↦ none | some a ↦ cons_some ((a + ofs) % 2 ^ 64) bs ])
      by_offset none r bs e = refl
      by_offset (some a) r bs e =
          rw (never ((a + ofs) % 2 ^ 64), e) (cons_lem ((a + ofs) % 2 ^ 64) bs)

  worker-as_trace :
      (seen : ℕ → Bool) (l : Layout) (offsets : List ℕ) (i rounds stripe : ℕ)
      → ((s : ℕ) → seen s ≡ false)
      → worker_accesses fails seen l offsets i rounds stripe
        ≡ as_trace (worker_blocks l offsets i rounds stripe)
  unfolding worker_accesses worker_blocks
  worker-as_trace seen l offsets i zero stripe unseen = refl
  worker-as_trace seen l offsets i (suc rounds) stripe unseen =
      rw
        (
          unseen stripe,
          strip-as_trace offsets
              ((stripe * l.blocks_in_stripe + i * l.blocks_in_strip_unit) % 2 ^ 64)
              l.blocks_in_strip_unit 0,
          worker-as_trace seen l offsets i rounds (stripe + 1) unseen,
        )
        (go_on_lem _ _)
    where
      go_on_lem :
          (o r : Option (List ℕ))
          → go_on false (as_trace o) (as_trace r) ≡ as_trace (append_some o r)
      go_on_lem none r = refl
      go_on_lem (some xs) none = refl
      go_on_lem (some xs) (some ys) = refl

  pub workers-as_trace :
      (seen : ℕ → ℕ → Bool) (l : Layout) (offsets : List ℕ) (rounds i : ℕ)
      → ((i s : ℕ) → seen i s ≡ false)
      → workers_accesses fails seen l offsets rounds i
        ≡ as_trace (workers_blocks l offsets rounds i)
  unfolding workers_accesses workers_blocks
  workers-as_trace seen l offsets zero i unseen = refl
  workers-as_trace seen l offsets (suc rounds) i unseen =
      rw
        (
          worker-as_trace (seen i) l offsets i l.stripe_count 0 (unseen i),
          workers-as_trace seen l offsets rounds (i + 1) unseen,
        )
        (both_lem _ _)
    where
      both_lem :
          (o r : Option (List ℕ))
          → both_traces (as_trace o) (as_trace r) ≡ as_trace (append_some o r)
      both_lem none r = refl
      both_lem (some xs) none = refl
      both_lem (some xs) (some ys) = refl
