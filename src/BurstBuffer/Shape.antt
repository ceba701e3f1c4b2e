-- ===== src/BurstBuffer/Shape.antt =====
-- The two lists that a well-formed burst buffer holds.
use spack_playground.Prelude.{
  ℕ, zero, suc, ◌<◌, ◌≡◌, refl, ◌∙◌, true, false, none, some, List, [], ◌∷◌, length, arith, ne→==,
  Bool-cases, ◌⊎◌, inl, inr,
}
use spack_playground.Heap.{Ptr, null, Heap, write}
use spack_playground.Heap.Chain.{
  Cells, values, has, first, last_from, Chain, Chain-write, load-first, Disjoint,
}
use spack_playground.BurstBuffer.{InlineWriteRequest, BurstBuffer, free_from, last_node}

abbrev pub Requests : Type 0
Requests = Cells InlineWriteRequest

-- `waiting` hangs behind the sentinel at `head`, `moved` is the list that is being flushed. Nothing
-- is said of the volatile `tail`, so this is what a restart finds.
pub record IsStored (b : BurstBuffer) (head : Ptr) (mark : InlineWriteRequest)
    (waiting moved : Requests) : Type 0 where
  pub starts : b.active ≡ head
  pub chain : Chain b.heap ((head, mark) ∷ waiting)
  pub flushes : b.flushing ≡ first moved
  pub side : Chain b.heap moved
  pub apart : Disjoint ((head, mark) ∷ waiting) moved

-- The whole invariant: the tail is the last node of the active list.
pub record IsBuffer (b : BurstBuffer) (head : Ptr) (mark : InlineWriteRequest)
    (waiting moved : Requests) : Type 0 where
  pub stored : IsStored b head mark waiting moved
  pub ends : b.tail ≡ last_from head waiting

-- The abstract view: the requests that wait, and those that are being flushed, in order.
pub record Holds (b : BurstBuffer) (pending flushing : List InlineWriteRequest) : Type 0 where
  pub head : Ptr
  pub mark : InlineWriteRequest
  pub waiting : Requests
  pub moved : Requests
  pub is : IsBuffer b head mark waiting moved
  pub pends : values waiting ≡ pending
  pub flushes : values moved ≡ flushing

-- the heap after every node of `xs` is freed
abbrev pub freed : Requests → Heap InlineWriteRequest → Heap InlineWriteRequest
freed [] h = h
freed ((p, v) ∷ xs) h = freed xs (write h p none)

pub freed_outside :
    (xs : Requests) (h : Heap InlineWriteRequest) (a : Ptr) → has a xs ≡ false → freed xs h a ≡ h a
freed_outside [] h a out = refl
freed_outside ((p, v) ∷ xs) h a out = ground (arith, freed_outside xs (write h p none) a)

pub freed_inside :
    (xs : Requests) (h : Heap InlineWriteRequest) (a : Ptr) → has a xs ≡ true → freed xs h a ≡ none
freed_inside [] h a i = cc
freed_inside ((p, v) ∷ xs) h a i = elim (Bool-cases (has a xs)) [
  | inl later ↦ freed_inside xs (write h p none) a later
  | inr here ↦ freed_outside xs (write h p none) a here ∙ ground arith
]

-- Freeing changes no node that it does not free.
pub freed-cases :
    (xs : Requests) (h : Heap InlineWriteRequest) (a : Ptr)
    → (freed xs h a ≡ h a) ⊎ (freed xs h a ≡ none)
freed-cases xs h a = elim (Bool-cases (has a xs)) [
  | inl i ↦ inr (freed_inside xs h a i)
  | inr out ↦ inl (freed_outside xs h a out)
]

pub free_from-freed :
    (k : ℕ) (h : Heap InlineWriteRequest) (xs : Requests)
    → Chain h xs
    → length xs < k
    → free_from k h (first xs) ≡ some (freed xs h)
unfolding free_from
free_from-freed zero h xs s lt = elim lt [ ]
free_from-freed (suc k) h [] s lt = refl
free_from-freed (suc k) h ((p, v) ∷ xs) s lt =
    rw (ne→== p null s.0, load-first h p v xs s)
      (free_from-freed k (write h p none) xs (Chain-write h xs p none s.2 s.3) (omega arith))

pub last_node-last :
    (k : ℕ) (h : Heap InlineWriteRequest) (p : Ptr) (v : InlineWriteRequest) (xs : Requests)
    → Chain h ((p, v) ∷ xs)
    → length xs < k
    → last_node k h p ≡ some (last_from p xs)
unfolding last_node
last_node-last zero h p v xs s lt = elim lt [ ]
last_node-last (suc k) h p v [] s lt = rw (load-first h p v [] s, last_node) refl
last_node-last (suc k) h p v ((q, u) ∷ xs) s lt =
    rw (load-first h p v ((q, u) ∷ xs) s, last_node, ne→== q null s.3.0)
      (last_node-last k h q u xs s.3 (omega arith))
