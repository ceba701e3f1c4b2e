-- ===== src/Queue/Commands.antt =====
-- targets/apps/ppm_ch8_7_persistent_queue/main.cpp: the commands that `main` reads and the queue that it
-- calls with them. `std::cin` and the pool are parameters.
pub mod Loop
mod Examples
use spack_playground.Prelude.{
  ℕ, zero, suc, ◌+◌, ◌≤◌, ◌<◌, ◌≡◌, ◌⊎◌, Bool, true, false, Option, none, some, List, [], ◌∷◌, ltb,
  if◌then◌else◌, length,
}
use spack_playground.Prelude.Texts.{same_text}
use spack_playground.Effects.{Exception, Outcome, done, threw, fault}
use spack_playground.Heap.{Allocator}
use spack_playground.Queue.{Queue, persistent_push, persistent_pop, show}

abbrev pub Text : Type 0
Text = List ℕ

-- `enum queue_op`
pub data QueueOp : Type 0 where
  push_op : QueueOp
  pop_op : QueueOp
  show_op : QueueOp
  exit_op : QueueOp
  max_ops : QueueOp

abbrev pub push_text : Text
push_text = 112 ∷ 117 ∷ 115 ∷ 104 ∷ []

abbrev pub pop_text : Text
pop_text = 112 ∷ 111 ∷ 112 ∷ []

abbrev pub show_text : Text
show_text = 115 ∷ 104 ∷ 111 ∷ 119 ∷ []

abbrev pub exit_text : Text
exit_text = 101 ∷ 120 ∷ 105 ∷ 116 ∷ []

abbrev pub ops_str : List Text
ops_str = push_text ∷ pop_text ∷ show_text ∷ exit_text ∷ []

-- `(queue_op)i`
abbrev pub queue_op : ℕ → QueueOp
queue_op zero = push_op
queue_op (suc zero) = pop_op
queue_op (suc (suc zero)) = show_op
queue_op (suc (suc (suc zero))) = exit_op
queue_op (suc (suc (suc (suc n)))) = max_ops

unfoldable pub parse_from : ℕ → List Text → Text → QueueOp
parse_from i [] ops = max_ops
parse_from i (s ∷ strs) ops = if same_text ops s then queue_op i else parse_from (i + 1) strs ops

abbrev pub parse_queue_ops : Text → QueueOp
parse_queue_ops = parse_from 0 ops_str

-- `std::cin`: the word and the number that `>>` reads, the empty word and zero where it fails; a word is
-- read from at least one byte.
pub record Input (I A : Type 0) : Type 0 where
  pub word : I → Text × I
  pub number : I → A × I
  pub left : I → ℕ
  pub word_left : (i : I) → ((word i).0 ≡ []) ⊎ (left (word i).1 < left i)
  pub number_left : (i : I) → left (number i).1 ≤ left i

pub data Line (A : Type 0) : Type 0 where
  usage : Line A
  prompt : Line A
  popped : A → Line A
  shown : List A → Line A
  unknown : Line A
  pool_failed : Line A

-- How `main` ends: it returns or exits with a code, or an exception leaves it.
pub data Ending : Type 0 where
  exited : ℕ → Ending
  terminated : Exception → Ending

pub record Session (A : Type 0) : Type 0 where
  pub queue : Queue A
  pub lines : List (Line A)
  pub ending : Ending

module _ {A : Type 0} where
  abbrev pub line : Line A → Option (Session A) → Option (Session A)
  line l none = none
  line l (some s) = some (record s { lines = l ∷ s.lines })

  abbrev pub ends : Ending → Queue A → Option (Session A)
  ends e q = some (record { queue = q; lines = []; ending = e })

  -- What a call of the queue leaves: the loop goes on, an exception ends the program.
  abbrev pub after :
      {B : Type 0} → Outcome (Queue A) B → (B → Queue A → Option (Session A)) → Option (Session A)
  after (done b q) go = go b q
  after (threw e q) go = ends (terminated e) q
  after fault go = none

module _ {I A : Type 0} (cin : Input I A) (mem : Allocator A) (limit : ℕ) where
  -- The `switch`, where `go` is the next round of the loop.
  abbrev pub dispatch :
      QueueOp → (I → Queue A → Option (Session A)) → I → Queue A → Option (Session A)
  dispatch push_op go i q =
      let (v, rest) = cin.number i in after (persistent_push mem v q) (λ _ q'. go rest q')
  dispatch pop_op go i q = after (persistent_pop q) (λ v q'. line (popped v) (go i q'))
  dispatch show_op go i q = elim (show limit q) [ none ↦ none | some vs ↦ line (shown vs) (go i q) ]
  dispatch exit_op go i q = ends (exited 0) q
  dispatch max_ops go i q = line unknown (ends (exited 0) q)

  -- `while (1)`, at most `k` rounds, with `limit` rounds for a `show`; `none` is a fault or the end of
  -- one of the two.
  unfoldable pub command_loop : ℕ → I → Queue A → Option (Session A)
  command_loop zero i q = none
  command_loop (suc k) i q =
      let go = command_loop k in
      let (command, rest) = cin.word i in line prompt (dispatch (parse_queue_ops command) go rest q)

  -- `main` on `argc` arguments. `opened` is the root of the pool where it opens; `root_closed` is what
  -- the call of `root` on a pool that did not open throws.
  unfoldable pub main : Exception → ℕ → Option (Queue A) → Queue A → ℕ → I → Option (Session A)
  unfolding command_loop
  main root_closed argc opened q k i =
      if ltb argc 2 then line usage (ends (exited 1) q) else elim opened [
        | none ↦ line pool_failed (ends (terminated root_closed) q)
        | some root ↦ command_loop k i root
      ]
