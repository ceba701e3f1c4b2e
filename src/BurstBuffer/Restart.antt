-- ===== src/BurstBuffer/Restart.antt =====
-- `runtimeInitialize`: on a fresh pool, and after a restart.
use spack_playground.Prelude.{
  ℕ, ◌<◌, ◌≡◌, ◌≢◌, refl, sym, ap, ◌∙◌, ◌⊎◌, inl, inr, true, none, some, List, [], length, arith,
  ◌==◌, ne→==, ==_refl, ==_iff, Option-cases,
}
use spack_playground.Effects.{done, threw, system_error}
use spack_playground.Heap.{Ptr, null, node, write, Allocator}
use spack_playground.Heap.Chain.{values, last_from, length-values}
use spack_playground.BurstBuffer.{
  InlineWriteRequest, request, BurstBuffer, Result, make_persistent_atomic, runtime_initialize,
  retrieve_tail, last_node,
}
use spack_playground.BurstBuffer.Shape.{Requests, IsStored, Holds, last_node-last}

-- the buffer of a fresh pool, with its sentinel at `p`
abbrev sentinel_only : BurstBuffer → Ptr → BurstBuffer
sentinel_only b p = record {
  heap = write b.heap p (some (node (request [] 0) null));
  active = p;
  flushing = b.flushing;
  tail = p;
}

-- What the persistent fields hold, whatever the volatile tail.
pub record Stores (b : BurstBuffer) (pending flushing : List InlineWriteRequest) : Type 0 where
  pub head : Ptr
  pub mark : InlineWriteRequest
  pub waiting : Requests
  pub moved : Requests
  pub stored : IsStored b head mark waiting moved
  pub pends : values waiting ≡ pending
  pub flushes : values moved ≡ flushing

-- After a restart `runtimeInitialize` finds both lists as they were stored and the last request
-- again, whatever the volatile tail held; it allocates nothing.
pub runtime_initialize-Holds :
    (mem : Allocator InlineWriteRequest) (errno k : ℕ) (b : BurstBuffer)
    (pending flushing : List InlineWriteRequest)
    → Stores b pending flushing
    → length pending < k
    → (b' : BurstBuffer) × (runtime_initialize mem errno k b ≡ done tt b')
      × (b'.heap ≡ b.heap)
      × Holds b' pending flushing
unfolding runtime_initialize
runtime_initialize-Holds mem errno k b pending flushing st lt =
    let s = st.stored in
    let t = last_from st.head st.waiting in
    let found : last_node k b.heap b.active ≡ some t = rw s.starts (
      last_node-last k b.heap st.head st.mark st.waiting s.chain
        (omega (arith, length-values st.waiting, ap length st.pends))) in
    (
      record b { tail = t },
      rw (ne→== b.active null (λ z. s.chain.0 (sym s.starts ∙ z)), found) refl,
      refl,
      record {
        head = st.head;
        mark = st.mark;
        waiting = st.waiting;
        moved = st.moved;
        is = record {
          stored = record {
            starts = s.starts;
            chain = s.chain;
            flushes = s.flushes;
            side = s.side;
            apart = s.apart;
          };
          ends = refl;
        };
        pends = st.pends;
        flushes = st.flushes;
      },
    )

abbrev make_sentinel : Allocator InlineWriteRequest → ℕ → BurstBuffer → Result (Unit {0})
make_sentinel mem errno b =
    make_persistent_atomic mem errno [] 0 (λ h p. done tt (record b { heap = h; active = p })) b

make_sentinel_full :
    (mem : Allocator InlineWriteRequest) (errno : ℕ) (b : BurstBuffer)
    → mem.alloc b.heap ≡ none
    → make_sentinel mem errno b ≡ threw (system_error errno) b
unfolding make_persistent_atomic
make_sentinel_full mem errno b full = rw (full, make_persistent_atomic) refl

make_sentinel_made :
    (mem : Allocator InlineWriteRequest) (errno : ℕ) (b : BurstBuffer) (p : Ptr)
    → mem.alloc b.heap ≡ some p
    → make_sentinel mem errno b ≡ done tt (record (sentinel_only b p) { tail = b.tail })
unfolding make_persistent_atomic
make_sentinel_made mem errno b p got = rw (got, make_persistent_atomic) refl

retrieve_tail-sentinel :
    (k : ℕ) (b : BurstBuffer) (p : Ptr)
    → p ≢ null
    → 0 < k
    → retrieve_tail k (record (sentinel_only b p) { tail = b.tail }) ≡ done tt (sentinel_only b p)
unfolding retrieve_tail
retrieve_tail-sentinel k b p ne lt =
    let h = write b.heap p (some (node (request [] 0) null)) in
    let found : last_node k h p ≡ some p =
      last_node-last k h p (request [] 0) [] (ne, rw (==_refl p) refl, refl, tt) lt in
    rw found refl

-- On a fresh pool it makes a sentinel, and the buffer is empty; where no memory is left it throws
-- `system_error` and changes nothing.
pub runtime_initialize_fresh :
    (mem : Allocator InlineWriteRequest) (errno k : ℕ) (b : BurstBuffer)
    → b.active ≡ null
    → b.flushing ≡ null
    → 0 < k
    → ((b' : BurstBuffer) × (runtime_initialize mem errno k b ≡ done tt b') × Holds b' [] [])
      ⊎ (runtime_initialize mem errno k b ≡ threw (system_error errno) b)
unfolding runtime_initialize
runtime_initialize_fresh mem errno k b none_active none_flushing lt =
    let is_null : (b.active == null) ≡ true = (==_iff b.active null).1 none_active in
    elim (Option-cases (mem.alloc b.heap)) [
      | inl full ↦ inr (rw (is_null, make_sentinel_full mem errno b full) refl)
      | inr (p, got) ↦
          let ne = mem.ne_null b.heap p got in
          inl (
            sentinel_only b p,
            rw (is_null, make_sentinel_made mem errno b p got) (retrieve_tail-sentinel k b p ne lt),
            record {
              head = p;
              mark = request [] 0;
              waiting = [];
              moved = [];
              is = record {
                stored = record {
                  starts = refl;
                  chain = (ne, rw (==_refl p) refl, refl, tt);
                  flushes = none_flushing;
                  side = tt;
                  apart = λ a i. refl;
                };
                ends = refl;
              };
              pends = refl;
              flushes = refl;
            },
          )
    ]
