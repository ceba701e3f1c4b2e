-- ===== src/BurstBuffer/Write.antt =====
-- `pwrite` and `tryEnqueueFlush`.
use spack_playground.Prelude.{
  ℕ, ◌≡◌, ◌≢◌, refl, sym, ap, ◌∙◌, ◌⊎◌, inl, inr, true, false, none, some, List, [], ◌∷◌, ◌++◌,
  arith, ne→==, ==_refl, Option-cases,
}
use spack_playground.Prelude.Int.{pos, neg}
use spack_playground.Effects.{and_then, done, threw, system_error}
use spack_playground.Heap.{Ptr, null, node, Heap, write, load, set_next, Allocator}
use spack_playground.Heap.Chain.{
  values, has, first, last_from, Chain, Chain-write, Chain-frame, load-first, linked, Chain-linked,
  set_next-linked, last-append, last-ne_null, last-mem, has_of_unused, values-append, Disjoint,
  Disjoint-append_last, ne_of_has, linked_outside, load-linked,
}
use spack_playground.BurstBuffer.{
  InlineWriteRequest, request, BurstBuffer, make_persistent_atomic, publish_next, advance_tail,
  caught, pwrite, try_enqueue_flush,
}
use spack_playground.BurstBuffer.Shape.{Requests, IsBuffer, Holds}

-- the buffer after a request is put behind the last one
abbrev behind : BurstBuffer → Ptr → InlineWriteRequest → Ptr → InlineWriteRequest → BurstBuffer
behind b fresh w last lv = record {
  heap = linked b.heap fresh w last lv;
  active = b.active;
  flushing = b.flushing;
  tail = fresh;
}

module _ (b : BurstBuffer) (head : Ptr) (mark : InlineWriteRequest) (waiting moved : Requests)
    (is : IsBuffer b head mark waiting moved) (fresh : Ptr) (ne : fresh ≢ null)
    (unused : b.heap fresh ≡ none) (w : InlineWriteRequest) where
  open is use {stored, ends}
  open stored use {starts, chain, flushes, side, apart}

  fresh_outside : has fresh moved ≡ false
  fresh_outside = has_of_unused b.heap moved fresh side unused

  last_outside : has (last_from head waiting) moved ≡ false
  last_outside = apart (last_from head waiting) (last-mem waiting head mark)

  same :
      (lv : InlineWriteRequest) (a : Ptr)
      → has a moved ≡ true
      → linked b.heap fresh w (last_from head waiting) lv a ≡ b.heap a
  same lv a i =
      linked_outside b.heap fresh (last_from head waiting) a w lv
        (ne_of_has moved a fresh i fresh_outside)
        (ne_of_has moved a (last_from head waiting) i last_outside)

  still_apart : Disjoint ((head, mark) ∷ (waiting ++ (fresh, w) ∷ [])) moved
  still_apart = Disjoint-append_last ((head, mark) ∷ waiting) moved fresh w apart fresh_outside

  behind-IsBuffer :
      (lv : InlineWriteRequest)
      → Chain
          (linked b.heap fresh w (last_from head waiting) lv)
          ((head, mark) ∷ (waiting ++ (fresh, w) ∷ []))
      → IsBuffer
          (behind b fresh w (last_from head waiting) lv)
          head
          mark
          (waiting ++ (fresh, w) ∷ [])
          moved
  behind-IsBuffer lv longer = record {
    stored = record {
      starts = starts;
      chain = longer;
      flushes = flushes;
      side =
          Chain-frame b.heap (linked b.heap fresh w (last_from head waiting) lv) moved (same lv)
            side;
      apart = still_apart;
    };
    ends = sym (last-append waiting fresh head w);
  }

module _ (mem : Allocator InlineWriteRequest) (errno : ℕ) (bytes : List ℕ) (offset : ℕ) where
  pwrite_run :
      (b : BurstBuffer) (fresh : Ptr) (lv : InlineWriteRequest) (h : Heap InlineWriteRequest)
      → mem.alloc b.heap ≡ some fresh
      → set_next (write b.heap fresh (some (node (request bytes offset) null))) b.tail fresh
        ≡ some h
      → load h b.tail ≡ some (node lv fresh)
      → pwrite mem errno bytes offset b
        ≡ done (pos 0) (record { heap = h; active = b.active; flushing = b.flushing; tail = fresh })
  unfolding pwrite
  pwrite_run b fresh lv h got linking loading =
      ap (λ o. caught (and_then o (λ _ b'. advance_tail b'))) (made got linking)
      ∙ ap caught (advanced loading)
    where
      made :
          mem.alloc b.heap ≡ some fresh
          → set_next (write b.heap fresh (some (node (request bytes offset) null))) b.tail fresh
            ≡ some h
          → make_persistent_atomic mem errno bytes offset (publish_next b) b
            ≡ done tt (record b { heap = h })
      made e f = rw (make_persistent_atomic, e, publish_next, f) refl

      advanced :
          load h b.tail ≡ some (node lv fresh)
          → advance_tail (record b { heap = h })
            ≡ done tt (record { heap = h; active = b.active; flushing = b.flushing; tail = fresh })
      advanced e = rw (advance_tail, e) refl

  pwrite-IsBuffer :
      (b : BurstBuffer) (head : Ptr) (mark : InlineWriteRequest) (waiting moved : Requests)
      (fresh : Ptr)
      → IsBuffer b head mark waiting moved
      → mem.alloc b.heap ≡ some fresh
      → (b' : BurstBuffer) × (pwrite mem errno bytes offset b ≡ done (pos 0) b')
        × IsBuffer b' head mark (waiting ++ (fresh, request bytes offset) ∷ []) moved
  pwrite-IsBuffer b head mark waiting moved fresh is got =
      let ne = mem.ne_null b.heap fresh got in
      let unused = mem.unused b.heap fresh got in
      let w = request bytes offset in
      let more = Chain-linked b.heap waiting head mark fresh w is.stored.chain unused ne in
      let last = last_from head waiting in
      let last_ne = last-ne_null b.heap waiting head mark is.stored.chain in
      (
        behind b fresh w last more.0,
        pwrite_run b fresh more.0 (linked b.heap fresh w last more.0) got
            (rw is.ends (set_next-linked b.heap fresh last w more.0 more.1 last_ne unused))
            (rw is.ends (load-linked b.heap fresh last w more.0 last_ne)),
        behind-IsBuffer b head mark waiting moved is fresh ne unused w more.0 more.2,
      )

  full_run :
      (b : BurstBuffer)
      → mem.alloc b.heap ≡ none
      → pwrite mem errno bytes offset b ≡ done (neg errno) b
  unfolding pwrite
  full_run b full = ap (λ o. caught (and_then o (λ _ b'. advance_tail b'))) (thrown full)
    where
      thrown :
          mem.alloc b.heap ≡ none
          → make_persistent_atomic mem errno bytes offset (publish_next b) b
            ≡ threw (system_error errno) b
      thrown e = rw (make_persistent_atomic, e) refl

  -- Where memory is left, `pwrite` returns 0 and the request waits behind all others; where none is
  -- left it returns `-errno` and the buffer is as before. It never throws.
  pub pwrite-append :
      (b : BurstBuffer) (pending flushing : List InlineWriteRequest)
      → Holds b pending flushing
      → ((b' : BurstBuffer) × (pwrite mem errno bytes offset b ≡ done (pos 0) b')
          × Holds b' (pending ++ request bytes offset ∷ []) flushing)
        ⊎ ((pwrite mem errno bytes offset b ≡ done (neg errno) b) × (mem.alloc b.heap ≡ none))
  pwrite-append b pending flushing holds = elim (Option-cases (mem.alloc b.heap)) [
    | inl full ↦ inr (full_run b full, full)
    | inr (fresh, got) ↦
        let (b', run, is) =
          pwrite-IsBuffer b holds.head holds.mark holds.waiting holds.moved fresh holds.is got in
        inl (
          b',
          run,
          record {
            head = holds.head;
            mark = holds.mark;
            waiting = holds.waiting ++ (fresh, request bytes offset) ∷ [];
            moved = holds.moved;
            is = is;
            pends =
                values-append holds.waiting ((fresh, request bytes offset) ∷ [])
                ∙ ap (λ t. t ++ request bytes offset ∷ []) holds.pends;
            flushes = holds.flushes;
          },
        )
  ]

-- the buffer after the waiting list is moved
abbrev moved_over : BurstBuffer → Ptr → InlineWriteRequest → Requests → BurstBuffer
moved_over b head mark waiting = record {
  heap = write b.heap b.active (some (node mark null));
  active = b.active;
  flushing = first waiting;
  tail = b.active;
}

enqueue_run :
    (b : BurstBuffer) (head : Ptr) (mark : InlineWriteRequest) (waiting : Requests)
    → IsBuffer b head mark waiting []
    → try_enqueue_flush b ≡ done true (moved_over b head mark waiting)
unfolding try_enqueue_flush set_next
enqueue_run b head mark waiting is =
    let s = is.stored in
    let loading : load b.heap b.active ≡ some (node mark (first waiting)) =
      rw s.starts (load-first b.heap head mark waiting s.chain) in
    rw (s.flushes, loading, set_next) refl

moved_over-IsBuffer :
    (b : BurstBuffer) (head : Ptr) (mark : InlineWriteRequest) (waiting : Requests)
    → IsBuffer b head mark waiting []
    → IsBuffer (moved_over b head mark waiting) head mark [] waiting
moved_over-IsBuffer b head mark waiting is =
    let s = is.stored in
    record {
      stored = record {
        starts = s.starts;
        chain = (s.chain.0, rw s.starts (rw (==_refl head) refl), refl, tt);
        flushes = refl;
        side =
            rw s.starts
              (Chain-write b.heap waiting head (some (node mark null)) s.chain.2 s.chain.3);
        apart = λ a i. let same : a ≡ head = ground arith in rw same s.chain.2;
      };
      ends = s.starts;
    }

enqueue_refused :
    (b : BurstBuffer) (head p : Ptr) (mark v : InlineWriteRequest) (waiting moved : Requests)
    → IsBuffer b head mark waiting ((p, v) ∷ moved)
    → try_enqueue_flush b ≡ done false b
unfolding try_enqueue_flush
enqueue_refused b head p mark v waiting moved is =
    rw (is.stored.flushes, ne→== p null is.stored.side.0) refl

-- With nothing left to flush, `tryEnqueueFlush` returns true and moves all waiting requests, in
-- order, to the list that is flushed; while that list holds a request it returns false and changes
-- nothing.
pub try_enqueue_flush-moves :
    (b : BurstBuffer) (pending flushing : List InlineWriteRequest)
    → Holds b pending flushing
    → ((flushing ≡ [])
        × ((b' : BurstBuffer) × (try_enqueue_flush b ≡ done true b') × Holds b' [] pending))
      ⊎ ((flushing ≢ []) × (try_enqueue_flush b ≡ done false b))
try_enqueue_flush-moves b pending flushing holds = by_moved holds.moved holds.is holds.flushes
  where
    by_moved :
        (moved : Requests)
        → IsBuffer b holds.head holds.mark holds.waiting moved
        → values moved ≡ flushing
        → ((flushing ≡ [])
            × ((b' : BurstBuffer) × (try_enqueue_flush b ≡ done true b') × Holds b' [] pending))
          ⊎ ((flushing ≢ []) × (try_enqueue_flush b ≡ done false b))
    by_moved [] is e = inl (
      sym e,
      (
        moved_over b holds.head holds.mark holds.waiting,
        enqueue_run b holds.head holds.mark holds.waiting is,
        record {
          head = holds.head;
          mark = holds.mark;
          waiting = [];
          moved = holds.waiting;
          is = moved_over-IsBuffer b holds.head holds.mark holds.waiting is;
          pends = refl;
          flushes = holds.pends;
        },
      ),
    )
    by_moved ((p, v) ∷ moved) is e =
        inr (λ empty. cc, enqueue_refused b holds.head p holds.mark v holds.waiting moved is)
