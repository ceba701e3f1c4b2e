-- ===== src/Queue/Refines.antt =====
-- The linked queue implements a first-in first-out list.
use spack_playground.Prelude.{
  ℕ, zero, suc, ◌<◌, ◌≡◌, ◌≢◌, refl, sym, ap, ◌∙◌, ◌⊎◌, inl, inr, none, some, List, [], ◌∷◌, ◌++◌,
  length, arith, ◌==◌, if◌then◌else◌, Option-cases, ne→==,
}
use spack_playground.Effects.{out_of_range, bad_alloc, done, threw}
use spack_playground.Heap.{Ptr, null, node, Heap, write, Allocator}
use spack_playground.Heap.Chain.{
  Cells, values, first, last_from, Chain, values-append, Chain-linked, Chain-write, last-ne_null,
  load-first, set_next-linked, linked, last-append, length-values,
}
use spack_playground.Queue.{
  Queue, append_node, push, pop, show_from, show, persistent_push, persistent_pop,
}

module _ {A : Type 0} where
  -- The nodes of `q` from head to tail are `xs`.
  pub record IsQueue (q : Queue A) (xs : Cells A) : Type 0 where
    pub starts : q.head ≡ first xs
    pub ends : q.tail ≡ last_from null xs
    pub chain : Chain q.heap xs

  abbrev pub Holds : Queue A → List A → Type 0
  Holds q vs = (xs : Cells A) × IsQueue q xs × (values xs ≡ vs)

  append_node-IsQueue :
      (q : Queue A) (xs : Cells A) (fresh : Ptr) (v : A)
      → IsQueue q xs
      → fresh ≢ null
      → q.heap fresh ≡ none
      → (q' : Queue A) × (append_node (write q.heap fresh (some (node v null))) fresh q
          ≡ done tt q')
        × IsQueue q' (xs ++ (fresh, v) ∷ [])
  unfolding append_node
  append_node-IsQueue q [] fresh v is ne unused = (
    record { heap = write q.heap fresh (some (node v null)); head = fresh; tail = fresh },
    rw is.starts refl,
    record { starts = refl; ends = refl; chain = (ne, ground arith, refl, tt) },
  )
  append_node-IsQueue q ((p, w) ∷ xs) fresh v is ne unused =
      let more = Chain-linked q.heap xs p w fresh v is.chain unused ne in
      let set =
        set_next-linked q.heap fresh (last_from p xs) v more.0 more.1
          (last-ne_null q.heap xs p w is.chain) unused in
      (
        record {
          heap = linked q.heap fresh v (last_from p xs) more.0;
          head = q.head;
          tail = fresh;
        },
        rw (ne→== q.head null (ground (arith, is.chain.0)), is.ends, set) refl,
        record { starts = is.starts; ends = sym (last-append xs fresh p v); chain = more.2 },
      )

  -- Where memory is left, `push` puts the value behind those that the queue holds; where none is
  -- left it throws `bad_alloc` and the queue is as before.
  pub push-append :
      (mem : Allocator A) (q : Queue A) (vs : List A) (v : A)
      → Holds q vs
      → ((q' : Queue A) × (push mem v q ≡ done tt q') × Holds q' (vs ++ v ∷ []))
        ⊎ ((push mem v q ≡ threw bad_alloc q) × (mem.alloc q.heap ≡ none))
  unfolding push
  push-append mem q vs v (xs, is, e) = elim (Option-cases (mem.alloc q.heap)) [
    | inl full ↦ inr (rw (full, push) refl, full)
    | inr (fresh, got) ↦
        let (q', run, is') =
          append_node-IsQueue q xs fresh v is (mem.ne_null q.heap fresh got)
            (mem.unused q.heap fresh got) in
        inl (
          q',
          rw (got, push) run,
          (xs ++ (fresh, v) ∷ [], is', values-append xs _ ∙ ap (λ t. t ++ v ∷ []) e),
        )
  ]

  -- what `pop` writes to `tail` when the first node goes
  shorter_tail :
      (h : Heap A) (p t : Ptr) (xs : Cells A)
      → Chain h xs
      → t ≡ last_from p xs
      → (if first xs == null then null else t) ≡ last_from null xs
  shorter_tail h p t [] s e = refl
  shorter_tail h p t ((q, u) ∷ xs) s e = rw (ne→== q null s.0) e

  pop-IsQueue :
      (q : Queue A) (p : Ptr) (v : A) (xs : Cells A)
      → IsQueue q ((p, v) ∷ xs)
      → (q' : Queue A) × (pop q ≡ done v q') × IsQueue q' xs
  unfolding pop
  pop-IsQueue q p v xs is = (
    record {
      heap = write q.heap q.head none;
      head = first xs;
      tail = if first xs == null then null else q.tail;
    },
    rw
        (
          ne→== q.head null (ground (arith, is.chain.0)),
          is.starts,
          load-first q.heap p v xs is.chain,
        )
        refl,
    record {
      starts = refl;
      ends = shorter_tail q.heap p q.tail xs is.chain.3 is.ends;
      chain = rw is.starts (Chain-write q.heap xs p none is.chain.2 is.chain.3);
    },
  )

  -- `pop` returns the value that was pushed first and leaves the others in order.
  pub pop_oldest :
      (q : Queue A) (v : A) (vs : List A)
      → Holds q (v ∷ vs)
      → (q' : Queue A) × (pop q ≡ done v q') × Holds q' vs
  pop_oldest q v vs ([], is, e) = absurd (cc)
  pop_oldest q v vs ((p, w) ∷ xs, is, e) =
      let (q', run, is') = pop-IsQueue q p w xs is in
      let same : w ≡ v = cc in (q', rw (← same) run, (xs, is', cc))

  -- On an empty queue `pop` throws `out_of_range` and changes nothing.
  pub pop_empty : (q : Queue A) → Holds q [] → pop q ≡ threw out_of_range q
  unfolding pop
  pop_empty q ([], is, e) = rw is.starts refl
  pop_empty q (x ∷ xs, is, e) = absurd (cc)

  show_from-values :
      (k : ℕ) (h : Heap A) (xs : Cells A)
      → Chain h xs
      → length xs < k
      → show_from k h (first xs) ≡ some (values xs)
  unfolding show_from
  show_from-values zero h xs s lt = elim lt [ ]
  show_from-values (suc k) h [] s lt = refl
  show_from-values (suc k) h ((p, v) ∷ xs) s lt =
      rw (ne→== p null s.0, load-first h p v xs s, show_from-values k h xs s.3 (omega arith)) refl

  -- The loop of `show` ends after as many rounds as there are values, and prints them in order.
  pub show-values :
      (k : ℕ) (q : Queue A) (vs : List A) → Holds q vs → length vs < k → show k q ≡ some vs
  show-values k q vs (xs, is, e) lt =
      rw (is.starts, ← e)
        (show_from-values k q.heap xs is.chain (omega (arith, length-values xs, ap length e)))

  -- `push` of the persistent queue does what `push` of the volatile queue does: it never throws
  -- behind a change, so its transaction has nothing to roll back.
  pub persistent_push-eq-push :
      (mem : Allocator A) (v : A) (q : Queue A) → persistent_push mem v q ≡ push mem v q
  unfolding persistent_push append_node
  persistent_push-eq-push mem v q = ground arith

  -- `pop` of the persistent queue does what `pop` of the volatile queue does, the exception
  -- included.
  pub persistent_pop-eq-pop : (q : Queue A) → persistent_pop q ≡ pop q
  unfolding persistent_pop
  persistent_pop-eq-pop q = ground arith
