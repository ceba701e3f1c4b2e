-- ===== src/BurstBuffer/History.antt =====
-- The writer and the flusher thread of `main` and restarts, as any interleaving of the methods.
use mathlib.Core.Bool.{false≢true}
use spack_playground.Prelude.{
  ℕ, zero, suc, ◌+◌, ◌<◌, ◌≡◌, refl, sym, ap, ◌∙◌, subst, inl, inr, Bool, true, false, List, [],
  ◌∷◌, ◌++◌, append-nil, append_assoc, length, arith, if◌then◌else◌,
}
use spack_playground.Prelude.Int.{ℤ, pos, negsuc, neg}
use spack_playground.Effects.{done, done_injective}
use spack_playground.Heap.{Ptr, Allocator}
use spack_playground.BurstBuffer.{
  InlineWriteRequest, request, BurstBuffer, Result, Reply, proceed, Walk, finished, pwrite,
  try_enqueue_flush, flush_all, runtime_initialize,
}
use spack_playground.BurstBuffer.Shape.{Holds}
use spack_playground.BurstBuffer.Write.{pwrite-append, try_enqueue_flush-moves}
use spack_playground.BurstBuffer.Restart.{Stores, runtime_initialize-Holds}
use spack_playground.BurstBuffer.Flush.{visit, is_finished, flush_all-visit}

-- A callback of `flushAll` that takes every request, as the one of `main` does, and notes it.
abbrev pub collect : InlineWriteRequest → List InlineWriteRequest → Reply (List InlineWriteRequest)
collect r taken = proceed (taken ++ r ∷ [])

-- The buffer, the requests for which `pwrite` returned 0, and those that a completed `flushAll` took.
pub record System : Type 0 where
  pub buffer : BurstBuffer
  pub accepted : List InlineWriteRequest
  pub delivered : List InlineWriteRequest

abbrev pub is_success : ℤ → Bool
is_success (pos zero) = true
is_success (pos (suc n)) = false
is_success (negsuc n) = false

-- A method with loops ends with this result: it does so with any fuel above some bound.
abbrev pub Ends : {A : Type 0} → (ℕ → Result A) → A → BurstBuffer → Type 0
Ends run a b = (bound : ℕ) × ((k : ℕ) → bound < k → run k ≡ done a b)

-- One method call of one thread. `restart` is a crash between two of them: the tail is lost, and
-- `runtimeInitialize` runs on what is stored.
pub data Step (mem : Allocator InlineWriteRequest) (errno : ℕ) : System → System → Type 1 where
  writes :
      {s : System} (bytes : List ℕ) (offset : ℕ) (r : ℤ) (b : BurstBuffer)
      → pwrite mem errno bytes offset s.buffer ≡ done r b
      → Step mem errno s (record {
        buffer = b;
        accepted = if is_success r then s.accepted ++ request bytes offset ∷ [] else s.accepted;
        delivered = s.delivered;
      })
  enqueues :
      {s : System} (r : Bool) (b : BurstBuffer)
      → try_enqueue_flush s.buffer ≡ done r b
      → Step mem errno s (record s { buffer = b })
  flushes :
      {s : System} (taken : List InlineWriteRequest) (b : BurstBuffer)
      → Ends (λ k. flush_all collect k [] s.buffer) (finished taken) b
      → Step mem errno s (record s { buffer = b; delivered = s.delivered ++ taken })
  aborts :
      {s : System} {S : Type 0} (cb : InlineWriteRequest → S → Reply S) (from : S) (w : Walk S)
      (b : BurstBuffer)
      → Ends (λ k. flush_all cb k from s.buffer) w b
      → is_finished w ≡ false
      → Step mem errno s (record s { buffer = b })
  restarts :
      {s : System} (t : Ptr) (b : BurstBuffer)
      → Ends (λ k. runtime_initialize mem errno k (record (s.buffer) { tail = t })) tt b
      → Step mem errno s (record s { buffer = b })

pub data Reach (mem : Allocator InlineWriteRequest) (errno : ℕ) (s : System) : System → Type 1 where
  here : Reach mem errno s s
  next : {t u : System} → Reach mem errno s t → Step mem errno t u → Reach mem errno s u

-- Each accepted request is delivered, being flushed or waiting, once, in the order of the writes.
pub record Conserved (s : System) : Type 0 where
  pub pending : List InlineWriteRequest
  pub flushing : List InlineWriteRequest
  pub holds : Holds s.buffer pending flushing
  pub accounts : s.accepted ≡ s.delivered ++ (flushing ++ pending)

pub visit-collect :
    (rs taken : List InlineWriteRequest) → visit collect rs taken ≡ finished (taken ++ rs)
unfolding visit
visit-collect [] taken = rw append-nil refl
visit-collect (r ∷ rs) taken =
    visit-collect rs (taken ++ r ∷ []) ∙ ap finished (append_assoc taken (r ∷ []) rs)

is_success-neg : (e : ℕ) → 0 < e → is_success (neg e) ≡ false
is_success-neg zero lt = elim lt [ ]
is_success-neg (suc e) lt = refl

module _ (mem : Allocator InlineWriteRequest) (errno : ℕ) (s : System) (c : Conserved s) where
  open c use {pending, flushing, holds, accounts}

  -- the same lists, when neither the buffer nor the notes have changed
  unchanged : (b : BurstBuffer) → s.buffer ≡ b → Conserved (record s { buffer = b })
  unchanged b same = record {
    pending = pending;
    flushing = flushing;
    holds = subst (λ x. Holds x pending flushing) same holds;
    accounts = accounts;
  }

  writes-Conserved :
      (bytes : List ℕ) (offset : ℕ) (r : ℤ) (b : BurstBuffer)
      → 0 < errno
      → pwrite mem errno bytes offset s.buffer ≡ done r b
      → Conserved (record {
        buffer = b;
        accepted = if is_success r then s.accepted ++ request bytes offset ∷ [] else s.accepted;
        delivered = s.delivered;
      })
  writes-Conserved bytes offset r b positive e =
      let new = request bytes offset ∷ [] in
      elim (pwrite-append mem errno bytes offset s.buffer pending flushing holds) [
        | inl (b₁, run, longer) ↦
            let (code, buffer) = done_injective (sym run ∙ e) in
            record {
              pending = pending ++ new;
              flushing = flushing;
              holds = subst (λ x. Holds x (pending ++ new) flushing) buffer longer;
              accounts = rw (← code) (
                  ap (λ t. t ++ new) accounts
                  ∙ append_assoc s.delivered (flushing ++ pending) new
                  ∙ ap (λ t. s.delivered ++ t) (append_assoc flushing pending new));
            }
        | inr (run, _) ↦
            let (code, buffer) = done_injective (sym run ∙ e) in
            record {
              pending = pending;
              flushing = flushing;
              holds = subst (λ x. Holds x pending flushing) buffer holds;
              accounts = rw (← code, is_success-neg errno positive) accounts;
            }
      ]

  enqueues-Conserved :
      (r : Bool) (b : BurstBuffer)
      → try_enqueue_flush s.buffer ≡ done r b
      → Conserved (record s { buffer = b })
  enqueues-Conserved r b e = elim (try_enqueue_flush-moves s.buffer pending flushing holds) [
    | inl (empty, (b₁, run, moved)) ↦ record {
      pending = [];
      flushing = pending;
      holds = subst (λ x. Holds x [] pending) (done_injective (sym run ∙ e)).1 moved;
      accounts =
          accounts
          ∙ ap (λ t. s.delivered ++ t) (ap (λ f. f ++ pending) empty ∙ sym (append-nil pending));
    }
    | inr (busy, run) ↦ unchanged b (done_injective (sym run ∙ e)).1
  ]

  flushes-Conserved :
      (taken : List InlineWriteRequest) (b : BurstBuffer)
      → Ends (λ k. flush_all collect k [] s.buffer) (finished taken) b
      → Conserved (record s { buffer = b; delivered = s.delivered ++ taken })
  flushes-Conserved taken b (bound, e) =
      let k = suc (bound + length flushing) in
      let returned = e k (omega arith) in
      let all = visit-collect flushing [] in
      elim (flush_all-visit collect k s.buffer pending flushing [] holds (omega arith)) [
        | inl (full, (b₁, run, after)) ↦
            let (walk, buffer) = done_injective (sym run ∙ returned) in
            let same : flushing ≡ taken = cc (sym all ∙ walk) in
            record {
              pending = pending;
              flushing = [];
              holds = subst (λ x. Holds x pending []) buffer after.holds;
              accounts = rw (← same) (accounts ∙ sym (append_assoc s.delivered flushing pending));
            }
        | inr (short, run) ↦ absurd (false≢true (sym short ∙ ap is_finished all))
      ]

  aborts-Conserved :
      {S : Type 0} (cb : InlineWriteRequest → S → Reply S) (from : S) (w : Walk S) (b : BurstBuffer)
      → Ends (λ k. flush_all cb k from s.buffer) w b
      → is_finished w ≡ false
      → Conserved (record s { buffer = b })
  aborts-Conserved cb from w b (bound, e) short =
      let k = suc (bound + length flushing) in
      let returned = e k (omega arith) in
      elim (flush_all-visit cb k s.buffer pending flushing from holds (omega arith)) [
        | inl (full, (b₁, run, after)) ↦
            let (walk, buffer) = done_injective (sym run ∙ returned) in
            absurd (false≢true (sym short ∙ ap is_finished (sym walk) ∙ full))
        | inr (stopped_short, run) ↦ unchanged b (done_injective (sym run ∙ returned)).1
      ]

  restarts-Conserved :
      (t : Ptr) (b : BurstBuffer)
      → Ends (λ k. runtime_initialize mem errno k (record (s.buffer) { tail = t })) tt b
      → Conserved (record s { buffer = b })
  restarts-Conserved t b (bound, e) =
      let k = suc (bound + length pending) in
      let stores : Stores (record (s.buffer) { tail = t }) pending flushing = record {
        head = holds.head;
        mark = holds.mark;
        waiting = holds.waiting;
        moved = holds.moved;
        stored = record {
          starts = holds.is.stored.starts;
          chain = holds.is.stored.chain;
          flushes = holds.is.stored.flushes;
          side = holds.is.stored.side;
          apart = holds.is.stored.apart;
        };
        pends = holds.pends;
        flushes = holds.flushes;
      } in
      let (b₁, run, kept, again) =
        runtime_initialize-Holds mem errno k (record (s.buffer) { tail = t }) pending flushing
          stores (omega arith) in
      record {
        pending = pending;
        flushing = flushing;
        holds =
            subst (λ x. Holds x pending flushing) (done_injective (sym run ∙ e k (omega arith))).1
              again;
        accounts = accounts;
      }

Step-Conserved :
    {mem : Allocator InlineWriteRequest} {errno : ℕ} {s t : System}
    → 0 < errno
    → Step mem errno s t
    → Conserved s
    → Conserved t
Step-Conserved {mem} {errno} positive (writes {s} bytes offset r b e) c =
    writes-Conserved mem errno s c bytes offset r b positive e
Step-Conserved {mem} {errno} positive (enqueues {s} r b e) c =
    enqueues-Conserved mem errno s c r b e
Step-Conserved {mem} {errno} positive (flushes {s} taken b e) c =
    flushes-Conserved mem errno s c taken b e
Step-Conserved {mem} {errno} positive (aborts {s} cb from w b e short) c =
    aborts-Conserved mem errno s c cb from w b e short
Step-Conserved {mem} {errno} positive (restarts {s} t b e) c =
    restarts-Conserved mem errno s c t b e

-- However the writer, the flusher and restarts take turns, each request that `pwrite` accepted is
-- delivered, being flushed or waiting, exactly once and in the order of the writes; where `errno` is
-- positive, as after a failed allocation.
pub Reach-Conserved :
    {mem : Allocator InlineWriteRequest} {errno : ℕ} {s t : System}
    → 0 < errno
    → Conserved s
    → Reach mem errno s t
    → Conserved t
Reach-Conserved positive c here = c
Reach-Conserved positive c (next r st) = Step-Conserved positive st (Reach-Conserved positive c r)
