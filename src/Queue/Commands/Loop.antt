-- ===== src/Queue/Commands/Loop.antt =====
-- The command loop against a first-in first-out list.
use spack_playground.Prelude.{
  ℕ, zero, suc, ◌+◌, ◌<◌, ◌≡◌, refl, sym, ap, ◌∙◌, inl, inr, Option, none, some, List, [], ◌∷◌,
  ◌++◌, length, length-append, arith,
}
use spack_playground.Effects.{out_of_range, bad_alloc}
use spack_playground.Heap.{Allocator}
use spack_playground.Queue.{Queue, push, pop, persistent_push, persistent_pop, show}
use spack_playground.Queue.Refines.{
  Holds, push-append, pop_oldest, pop_empty, show-values, persistent_push-eq-push,
  persistent_pop-eq-pop,
}
use spack_playground.Queue.Commands.{
  QueueOp, push_op, pop_op, show_op, exit_op, max_ops, parse_queue_ops, Input, Line, prompt, popped,
  shown, unknown, Ending, exited, terminated, Session, line, ends, after, dispatch, command_loop,
}

module _ {I A : Type 0} (cin : Input I A) where
  -- What the commands do to the list of the values: the lines that are printed, the end of the program,
  -- and the list that is left. A push fails only where no memory is left at the end.
  pub data Runs (NoRoom : Type 0) : I → List A → List (Line A) → Ending → List A → Type 0 where
    pushes :
        {i : I} {vs ws : List A} {ls : List (Line A)} {e : Ending}
        → parse_queue_ops (cin.word i).0 ≡ push_op
        → Runs NoRoom
            (cin.number (cin.word i).1).1
            (vs ++ (cin.number (cin.word i).1).0 ∷ [])
            ls
            e
            ws
        → Runs NoRoom i vs (prompt ∷ ls) e ws
    push_fails :
        {i : I} {vs : List A}
        → parse_queue_ops (cin.word i).0 ≡ push_op
        → NoRoom
        → Runs NoRoom i vs (prompt ∷ []) (terminated bad_alloc) vs
    pops :
        {i : I} {v : A} {vs ws : List A} {ls : List (Line A)} {e : Ending}
        → parse_queue_ops (cin.word i).0 ≡ pop_op
        → Runs NoRoom (cin.word i).1 vs ls e ws
        → Runs NoRoom i (v ∷ vs) (prompt ∷ popped v ∷ ls) e ws
    is_empty :
        {i : I}
        → parse_queue_ops (cin.word i).0 ≡ pop_op
        → Runs NoRoom i [] (prompt ∷ []) (terminated out_of_range) []
    shows :
        {i : I} {vs ws : List A} {ls : List (Line A)} {e : Ending}
        → parse_queue_ops (cin.word i).0 ≡ show_op
        → Runs NoRoom (cin.word i).1 vs ls e ws
        → Runs NoRoom i vs (prompt ∷ shown vs ∷ ls) e ws
    leaves :
        {i : I} {vs : List A}
        → parse_queue_ops (cin.word i).0 ≡ exit_op
        → Runs NoRoom i vs (prompt ∷ []) (exited 0) vs
    rejects :
        {i : I} {vs : List A}
        → parse_queue_ops (cin.word i).0 ≡ max_ops
        → Runs NoRoom i vs (prompt ∷ unknown ∷ []) (exited 0) vs

  -- a session of the program that the list explains
  abbrev pub Explained : Allocator A → Option (Session A) → I → List A → Type 0
  Explained mem o i vs =
      (s : Session A) × (o ≡ some s)
      × ((ws : List A) × Runs (mem.alloc s.queue.heap ≡ none) i vs s.lines s.ending ws
          × Holds s.queue ws)

  module _ (mem : Allocator A) (limit : ℕ) where
    loop_step :
        (k : ℕ) (i : I) (q : Queue A) (vs : List A) (op : QueueOp)
        → parse_queue_ops (cin.word i).0 ≡ op
        → command_loop cin mem limit (suc k) i q
          ≡ line prompt (dispatch cin mem limit op (command_loop cin mem limit k) (cin.word i).1 q)
    unfolding command_loop
    loop_step k i q vs op e = rw (command_loop, e) refl

    -- a word that names a command uses up input
    reads_less :
        (i : I) (op : QueueOp)
        → parse_queue_ops (cin.word i).0 ≡ op
        → (op ≡ max_ops → ⊥)
        → cin.left (cin.word i).1 < cin.left i
    unfolding spack_playground.Queue.Commands.parse_from
    reads_less i op e known = elim (cin.word_left i) [
      | inl none_read ↦ absurd (known (sym e ∙ ap parse_queue_ops none_read))
      | inr less ↦ less
    ]

    -- The rounds that are left explain themselves.
    abbrev Rest : ℕ → Type 0
    Rest k =
        (i : I) (q : Queue A) (vs : List A)
        → Holds q vs
        → cin.left i < k
        → length vs + cin.left i < limit
        → Explained mem (command_loop cin mem limit k i q) i vs

    module _ (k : ℕ) (rest : Rest k) (i : I) (q : Queue A) (vs : List A) (holds : Holds q vs)
        (enough : cin.left i < suc k) (fits : length vs + cin.left i < limit) where
      explain_push :
          parse_queue_ops (cin.word i).0 ≡ push_op
          → Explained mem (command_loop cin mem limit (suc k) i q) i vs
      explain_push e =
          let v = (cin.number (cin.word i).1).0 in
          let i' = (cin.number (cin.word i).1).1 in
          let less = reads_less i push_op e (λ f. cc f) in
          elim (push-append mem q vs v holds) [
            | inl (q', run, holds') ↦
                let (s, go, (ws, runs, left)) =
                  rest i' q' (vs ++ v ∷ []) holds' (omega (arith, cin.number_left (cin.word i).1))
                    (omega (arith, cin.number_left (cin.word i).1, length-append vs (v ∷ []))) in
                (
                  record s { lines = prompt ∷ s.lines },
                  loop_step k i q vs push_op e
                      ∙ ap (λ o. line prompt (after o (λ _ q'. command_loop cin mem limit k i' q')))
                          (persistent_push-eq-push mem v q ∙ run)
                      ∙ ap (line prompt) go,
                  (ws, pushes e runs, left),
                )
            | inr (full, why) ↦ (
              record { queue = q; lines = prompt ∷ []; ending = terminated bad_alloc },
              loop_step k i q vs push_op e
                  ∙ ap (λ o. line prompt (after o (λ _ q'. command_loop cin mem limit k i' q')))
                      (persistent_push-eq-push mem v q ∙ full),
              (vs, push_fails e why, holds),
            )
          ]

      explain_show :
          parse_queue_ops (cin.word i).0 ≡ show_op
          → Explained mem (command_loop cin mem limit (suc k) i q) i vs
      explain_show e =
          let less = reads_less i show_op e (λ f. cc f) in
          let (s, go, (ws, runs, left)) =
            rest (cin.word i).1 q vs holds (omega arith) (omega arith) in
          (
            record s { lines = prompt ∷ shown vs ∷ s.lines },
            loop_step k i q vs show_op e
                ∙ ap
                    (λ o. line prompt (elim o as (λ _. Option (Session A)) [
                      | none ↦ none
                      | some ws ↦ line (shown ws) (command_loop cin mem limit k (cin.word i).1 q)
                    ]))
                    (show-values limit q vs holds (omega arith))
                ∙ ap (λ o. line prompt (line (shown vs) o)) go,
            (ws, shows e runs, left),
          )

    module _ (k : ℕ) (rest : Rest k) (i : I) (q : Queue A) (enough : cin.left i < suc k)
        (e : parse_queue_ops (cin.word i).0 ≡ pop_op) where
      explain_pop :
          (vs : List A)
          → Holds q vs
          → length vs + cin.left i < limit
          → Explained mem (command_loop cin mem limit (suc k) i q) i vs
      explain_pop [] holds fits = (
        record { queue = q; lines = prompt ∷ []; ending = terminated out_of_range },
        loop_step k i q [] pop_op e
            ∙ ap
                (λ o. line prompt (
                  after o
                    (λ v q'. line (popped v) (command_loop cin mem limit k (cin.word i).1 q'))))
                (persistent_pop-eq-pop q ∙ pop_empty q holds),
        ([], is_empty e, holds),
      )
      explain_pop (v ∷ vs) holds fits =
          let less = reads_less i pop_op e (λ f. cc f) in
          let (q', run, holds') = pop_oldest q v vs holds in
          let (s, go, (ws, runs, left)) =
            rest (cin.word i).1 q' vs holds' (omega arith) (omega arith) in
          (
            record s { lines = prompt ∷ popped v ∷ s.lines },
            loop_step k i q (v ∷ vs) pop_op e
                ∙ ap
                    (λ o. line prompt (
                      after o
                        (λ v q'. line (popped v) (command_loop cin mem limit k (cin.word i).1 q'))))
                    (persistent_pop-eq-pop q ∙ run)
                ∙ ap (λ o. line prompt (line (popped v) o)) go,
            (ws, pops e runs, left),
          )

    explain_round : (k : ℕ) → Rest k → Rest (suc k)
    explain_round k rest i q vs holds enough fits = by_op (parse_queue_ops (cin.word i).0) refl
      where
        by_op :
            (op : QueueOp)
            → parse_queue_ops (cin.word i).0 ≡ op
            → Explained mem (command_loop cin mem limit (suc k) i q) i vs
        by_op push_op e = explain_push k rest i q vs holds enough fits e
        by_op pop_op e = explain_pop k rest i q enough e vs holds fits
        by_op show_op e = explain_show k rest i q vs holds enough fits e
        by_op exit_op e = (
          record { queue = q; lines = prompt ∷ []; ending = exited 0 },
          loop_step k i q vs exit_op e,
          (vs, leaves e, holds),
        )
        by_op max_ops e = (
          record { queue = q; lines = prompt ∷ unknown ∷ []; ending = exited 0 },
          loop_step k i q vs max_ops e,
          (vs, rejects e, holds),
        )

    -- With more rounds than input is left, and as many for a `show` as the queue can get values, the
    -- command loop ends without a fault; what it prints, how it ends and the values that it leaves are
    -- those of the same commands on a first-in first-out list. A push throws `bad_alloc` only where no memory
    -- is left.
    pub loop-Explained :
        (k : ℕ) (i : I) (q : Queue A) (vs : List A)
        → Holds q vs
        → cin.left i < k
        → length vs + cin.left i < limit
        → Explained mem (command_loop cin mem limit k i q) i vs
    loop-Explained zero i q vs holds enough fits = elim enough [ ]
    loop-Explained (suc k) i q vs holds enough fits =
        explain_round k (loop-Explained k) i q vs holds enough fits
