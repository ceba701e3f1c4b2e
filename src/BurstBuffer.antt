-- ===== src/BurstBuffer.antt =====
-- targets/apps/pmembb_list/main.cpp: a burst buffer of write requests in a persistent linked list.
-- active -> sentinel -> request -> request -> null, and a second list that is being flushed.
pub mod Shape
pub mod Write
pub mod Restart
pub mod Flush
pub mod History
pub mod Threads
mod Examples
use spack_playground.Prelude.{
  ℕ, zero, suc, Bool, true, false, not, Option, none, some, List, [], ◌∷◌, ◌==◌, if◌then◌else◌,
  length,
}
use spack_playground.Prelude.Int.{ℤ, pos, neg}
use spack_playground.Effects.{
  Exception, system_error, Outcome, done, threw, fault, or_fault, and_then, transaction,
}
use spack_playground.Heap.{Ptr, null, Node, node, Heap, write, load, set_next, Allocator}

-- `off64_t` as its bit pattern, and the bytes that stand behind the header.
pub record InlineWriteRequest : Type 0 where
  pub offset : ℕ
  pub size : ℕ
  pub bytes : List ℕ

-- `ListNode::Persistent::create`: the header, then `size` bytes of the source.
abbrev pub request : List ℕ → ℕ → InlineWriteRequest
request bytes offset = record { offset = offset; size = length bytes; bytes = bytes }

-- `active` and `flushing` are persistent, `tail` is not.
pub record BurstBuffer : Type 0 where
  pub heap : Heap InlineWriteRequest
  pub active : Ptr
  pub flushing : Ptr
  pub tail : Ptr

abbrev pub Result : Type 0 → Type 0
Result = Outcome BurstBuffer

-- `makePersistentAtomic`: allocation, construction and the store to the destination are one atomic
-- step of `pmemobj_xalloc`, which the caller completes by `publish`.
unfoldable pub make_persistent_atomic :
    Allocator InlineWriteRequest
    → (errno : ℕ) → (bytes : List ℕ) → (offset : ℕ)
    → (publish : Heap InlineWriteRequest → Ptr → Result (Unit {0})) → BurstBuffer
    → Result (Unit {0})
make_persistent_atomic mem errno bytes offset publish b = elim (mem.alloc b.heap) [
  | none ↦ threw (system_error errno) b
  | some p ↦ publish (write b.heap p (some (node (request bytes offset) null))) p
]

-- The destination `bb_.tail_->next`.
unfoldable pub publish_next : BurstBuffer → Heap InlineWriteRequest → Ptr → Result (Unit {0})
publish_next b h p = or_fault (set_next h b.tail p) (λ h'. done tt (record b { heap = h' }))

-- `bb_.tail_ = bb_.tail_->next.get()`
unfoldable pub advance_tail : BurstBuffer → Result (Unit {0})
advance_tail b = or_fault (load b.heap b.tail) (λ n. done tt (record b { tail = n.next }))

-- The `catch` of `tryPwrite`, for the result of its body.
unfoldable pub caught : Result (Unit {0}) → Result ℤ
caught (done _ b) = done (pos 0) b
caught (threw (system_error code) b) = done (neg code) b
caught (threw e b) = threw e b
caught fault = fault

unfoldable pub try_pwrite :
    Allocator InlineWriteRequest → (errno : ℕ) → List ℕ → ℕ → BurstBuffer → Result ℤ
unfolding make_persistent_atomic publish_next advance_tail caught
try_pwrite mem errno bytes offset b = caught (
    and_then (make_persistent_atomic mem errno bytes offset (publish_next b) b)
      (λ _ b'. advance_tail b'))

unfoldable pub pwrite :
    Allocator InlineWriteRequest → (errno : ℕ) → List ℕ → ℕ → BurstBuffer → Result ℤ
unfolding try_pwrite
pwrite mem errno bytes offset b = try_pwrite mem errno bytes offset b

-- What a callback does with a node: go on, or stop, with its own state; or throw.
pub data Reply (S : Type 0) : Type 0 where
  proceed : S → Reply S
  stop : S → Reply S
  raise : Exception → S → Reply S

-- How a walk over a list of nodes ended.
pub data Walk (S : Type 0) : Type 0 where
  finished : S → Walk S
  stopped : S → Walk S
  raised : Exception → S → Walk S

module _ {S : Type 0} (cb : InlineWriteRequest → S → Reply S) where
  -- The loop of `forEach` from `cur->next` on; `none` is a fault or the end of the fuel.
  unfoldable pub walk : ℕ → Heap InlineWriteRequest → Ptr → S → Option (Walk S)
  walk zero h p s = none
  walk (suc k) h p s = if p == null then some (finished s) else elim (load h p) [
    | none ↦ none
    | some n ↦ elim (cb n.value s) [
      | proceed s' ↦ walk k h n.next s'
      | stop s' ↦ some (stopped s')
      | raise e s' ↦ some (raised e s')
    ]
  ]

  unfoldable pub for_each : ℕ → BurstBuffer → S → Option (Walk S)
  unfolding walk
  for_each k b s = elim (load b.heap b.active) [ none ↦ none | some n ↦ walk k b.heap n.next s ]

-- `tryEnqueueFlush`
unfoldable pub try_enqueue_flush : BurstBuffer → Result Bool
try_enqueue_flush b =
    if not (b.flushing == null)
    then done false b
    else or_fault (load b.heap b.active) (λ n.
      or_fault (set_next b.heap b.active null) (λ h.
        done true (record { heap = h; active = b.active; flushing = n.next; tail = b.active })))

-- The loop that frees the nodes from `cur` on.
unfoldable pub free_from : ℕ → Heap InlineWriteRequest → Ptr → Option (Heap InlineWriteRequest)
free_from zero h p = none
free_from (suc k) h p =
    if p == null
    then some h
    else elim (load h p) [ none ↦ none | some n ↦ free_from k (write h p none) n.next ]

-- `flushAll`; `k` rounds are given to each of its two loops. The result `raised` is the exception
-- that it throws on.
module _ {S : Type 0} (cb : InlineWriteRequest → S → Reply S) where
  unfoldable pub flush_all : ℕ → S → BurstBuffer → Result (Walk S)
  unfolding walk free_from
  flush_all k s b = or_fault (walk cb k b.heap b.flushing s) (λ w. elim w [
    | stopped s' ↦ done (stopped s') b
    | raised e s' ↦ done (raised e s') b
    | finished s' ↦
        or_fault (free_from k b.heap b.flushing)
          (λ h. done (finished s') (record b { heap = h; flushing = null }))
  ])

-- The walk to the last node.
unfoldable pub last_node : ℕ → Heap InlineWriteRequest → Ptr → Option Ptr
last_node zero h p = none
last_node (suc k) h p = elim (load h p) [
  | none ↦ none
  | some n ↦ if n.next == null then some p else last_node k h n.next
]

unfoldable pub retrieve_tail : ℕ → BurstBuffer → Result (Unit {0})
unfolding last_node
retrieve_tail k b = or_fault (last_node k b.heap b.active) (λ t. done tt (record b { tail = t }))

-- `runtimeInitialize`
unfoldable pub runtime_initialize :
    Allocator InlineWriteRequest → (errno : ℕ) → ℕ → BurstBuffer → Result (Unit {0})
unfolding make_persistent_atomic retrieve_tail
runtime_initialize mem errno k b =
    if b.active == null
    then and_then
        (make_persistent_atomic mem errno [] 0 (λ h p. done tt (record b { heap = h; active = p }))
          b)
        (λ _ b'. retrieve_tail k b')
    else retrieve_tail k b
