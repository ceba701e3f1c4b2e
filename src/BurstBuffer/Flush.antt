-- ===== src/BurstBuffer/Flush.antt =====
-- `forEach` and `flushAll`.
use spack_playground.Prelude.{
  ℕ, zero, suc, ◌<◌, ◌≡◌, refl, ap, ◌∙◌, ◌⊎◌, inl, inr, Option, none, some, Bool, true, false, List,
  [], ◌∷◌, length, arith, if◌then◌else◌, ne→==, Bool-cases,
}
use spack_playground.Effects.{done, or_fault}
use spack_playground.Heap.{Ptr, null, node, Heap, load}
use spack_playground.Heap.Chain.{values, first, Chain, Chain-frame, load-first, length-values}
use spack_playground.BurstBuffer.{
  InlineWriteRequest, BurstBuffer, Result, Reply, proceed, stop, raise, Walk, finished, stopped,
  raised, walk, for_each, free_from, flush_all,
}
use spack_playground.BurstBuffer.Shape.{
  Requests, IsBuffer, Holds, freed, freed_outside, freed-cases, free_from-freed,
}

-- What `flushAll` leaves: nothing to flush, and all nodes of the flushed requests freed.
pub record Flushed (b b' : BurstBuffer) (pending : List InlineWriteRequest) : Type 0 where
  pub holds : Holds b' pending []
  pub tail : b'.tail ≡ b.tail
  pub only_frees : (a : Ptr) → (b'.heap a ≡ b.heap a) ⊎ (b'.heap a ≡ none)

module _ {S : Type 0} where
  -- Every request was taken.
  abbrev pub is_finished : Walk S → Bool
  is_finished (finished s) = true
  is_finished (stopped s) = false
  is_finished (raised e s) = false

module _ {S : Type 0} (cb : InlineWriteRequest → S → Reply S) where
  -- The callback on each request of a list in turn, until it stops or throws.
  unfoldable pub visit : List InlineWriteRequest → S → Walk S
  visit [] s = finished s
  visit (r ∷ rs) s = elim (cb r s) [
    | proceed s' ↦ visit rs s'
    | stop s' ↦ stopped s'
    | raise e s' ↦ raised e s'
  ]

  walk-visit :
      (k : ℕ) (h : Heap InlineWriteRequest) (xs : Requests) (s : S)
      → Chain h xs
      → length xs < k
      → walk cb k h (first xs) s ≡ some (visit (values xs) s)
  unfolding walk visit
  walk-visit zero h xs s c lt = elim lt [ ]
  walk-visit (suc k) h [] s c lt = refl
  walk-visit (suc k) h ((p, v) ∷ xs) s c lt =
      rw (ne→== p null c.0, load-first h p v xs c)
        (by_reply (λ s'. walk-visit k h xs s' c.3 (omega arith)) (cb v s))
    where
      by_reply :
          ((s' : S) → walk cb k h (first xs) s' ≡ some (visit (values xs) s'))
          → (r : Reply S)
          → ◌≡◌ {A = Option (Walk S)}
              (elim r [
                | proceed s' ↦ walk cb k h (first xs) s'
                | stop s' ↦ some (stopped s')
                | raise e s' ↦ some (raised e s')
              ])
              (some (elim r [
                | proceed s' ↦ visit (values xs) s'
                | stop s' ↦ stopped s'
                | raise e s' ↦ raised e s'
              ]))
      by_reply rest (proceed s') = rest s'
      by_reply rest (stop s') = refl
      by_reply rest (raise e s') = refl

  -- `forEach` shows the callback the waiting requests in the order of the writes, up to the first at
  -- which it stops or throws; the loop ends after as many rounds as there are requests.
  pub for_each-visit :
      (k : ℕ) (b : BurstBuffer) (pending flushing : List InlineWriteRequest) (s : S)
      → Holds b pending flushing
      → length pending < k
      → for_each cb k b s ≡ some (visit pending s)
  unfolding for_each
  for_each-visit k b pending flushing s holds lt =
      let st = holds.is.stored in
      let loading : load b.heap b.active ≡ some (node holds.mark (first holds.waiting)) =
        rw st.starts (load-first b.heap holds.head holds.mark holds.waiting st.chain) in
      rw (loading, for_each, ← holds.pends)
        (walk-visit k b.heap holds.waiting s st.chain.3
          (omega (arith, length-values holds.waiting, ap length holds.pends)))

  -- the buffer after the moved requests are freed
  abbrev pub emptied : BurstBuffer → Requests → BurstBuffer
  emptied b moved = record b { heap = freed moved b.heap; flushing = null }

  emptied-IsBuffer :
      (b : BurstBuffer) (head : Ptr) (mark : InlineWriteRequest) (waiting moved : Requests)
      → IsBuffer b head mark waiting moved
      → IsBuffer (emptied b moved) head mark waiting []
  emptied-IsBuffer b head mark waiting moved is =
      let s = is.stored in
      record {
        stored = record {
          starts = s.starts;
          chain =
              Chain-frame b.heap (freed moved b.heap) ((head, mark) ∷ waiting)
                (λ a i. freed_outside moved b.heap a (s.apart a i)) s.chain;
          flushes = refl;
          side = tt;
          apart = λ a i. refl;
        };
        ends = is.ends;
      }

  pub flush_all_run :
      (k : ℕ) (b : BurstBuffer) (head : Ptr) (mark : InlineWriteRequest) (waiting moved : Requests)
      (s : S)
      → IsBuffer b head mark waiting moved
      → length moved < k
      → flush_all cb k s b
        ≡ done
            (visit (values moved) s)
            (if is_finished (visit (values moved) s) then emptied b moved else b)
  unfolding flush_all
  flush_all_run k b head mark waiting moved s is lt =
      let st = is.stored in
      let walking : walk cb k b.heap b.flushing s ≡ some (visit (values moved) s) =
        rw st.flushes (walk-visit k b.heap moved s st.side lt) in
      let freeing : free_from k b.heap b.flushing ≡ some (freed moved b.heap) =
        rw st.flushes (free_from-freed k b.heap moved st.side lt) in
      rw (walking, flush_all) (by_walk freeing (visit (values moved) s))
    where
      by_walk :
          free_from k b.heap b.flushing ≡ some (freed moved b.heap)
          → (w : Walk S)
          → ◌≡◌ {A = Result (Walk S)}
              (elim w [
                | stopped s' ↦ done (stopped s') b
                | raised e s' ↦ done (raised e s') b
                | finished s' ↦
                    or_fault
                      (free_from k b.heap b.flushing)
                      (λ h. done (finished s') (record b { heap = h; flushing = null }))
              ])
              (done w (if is_finished w then emptied b moved else b))
      by_walk freeing (stopped s') = refl
      by_walk freeing (raised e s') = refl
      by_walk freeing (finished s') = rw freeing refl

  -- `flushAll` shows the callback the requests that are being flushed, in the order of the writes. If
  -- it takes them all, the list is empty afterwards, its nodes are freed and the waiting requests
  -- are untouched; if it stops or throws, nothing at all has changed.
  pub flush_all-visit :
      (k : ℕ) (b : BurstBuffer) (pending flushing : List InlineWriteRequest) (s : S)
      → Holds b pending flushing
      → length flushing < k
      → ((is_finished (visit flushing s) ≡ true)
          × ((b' : BurstBuffer) × (flush_all cb k s b ≡ done (visit flushing s) b')
              × Flushed b b' pending))
        ⊎ ((is_finished (visit flushing s) ≡ false)
            × (flush_all cb k s b ≡ done (visit flushing s) b))
  flush_all-visit k b pending flushing s holds lt =
      let run =
        flush_all_run k b holds.head holds.mark holds.waiting holds.moved s holds.is
          (omega (arith, length-values holds.moved, ap length holds.flushes)) in
      let w = visit (values holds.moved) s in
      rw (← holds.flushes) (elim (Bool-cases (is_finished w)) [
        | inl all ↦ inl (
          all,
          (
            emptied b holds.moved,
            run ∙ ap (λ t. done w (if t then emptied b holds.moved else b)) all,
            record {
              holds = record {
                head = holds.head;
                mark = holds.mark;
                waiting = holds.waiting;
                moved = [];
                is = emptied-IsBuffer b holds.head holds.mark holds.waiting holds.moved holds.is;
                pends = holds.pends;
                flushes = refl;
              };
              tail = refl;
              only_frees = λ a. freed-cases holds.moved b.heap a;
            },
          ),
        )
        | inr some_left ↦
            inr
              (some_left, run ∙ ap (λ t. done w (if t then emptied b holds.moved else b)) some_left)
      ])
