-- ===== src/BurstBuffer/Threads.antt =====
-- The two threads that `main` starts on the buffer: what each of them calls, and in which order.
use spack_playground.Prelude.{
  ℕ, zero, suc, ◌+◌, ◌⊎◌, inl, inr, length, arith, ◌<◌, ◌≡◌, refl, ap, ◌∙◌, Bool, true, false, List,
  [], ◌∷◌, ◌++◌, if◌then◌else◌,
}
use spack_playground.Prelude.Int.{ℤ, pos, neg}
use spack_playground.Effects.{done}
use spack_playground.Heap.{Allocator}
use spack_playground.BurstBuffer.{
  InlineWriteRequest, request, BurstBuffer, finished, pwrite, try_enqueue_flush, flush_all,
}
use spack_playground.Heap.Chain.{length-values}
use spack_playground.BurstBuffer.Write.{pwrite-append, try_enqueue_flush-moves}
use spack_playground.BurstBuffer.Flush.{visit, is_finished, emptied, flush_all_run}
use spack_playground.BurstBuffer.History
use spack_playground.BurstBuffer.History.{
  System, collect, is_success, Ends, Reach, here, Conserved, Reach-Conserved, visit-collect,
}

-- A call of the writer.
pub data Call : Type 0 where
  put : List ℕ → ℕ → Call
  hand_over : Call

-- The loop of the writer, so many rounds of it.
unfoldable pub writer_calls : ℕ → List Call
writer_calls zero = []
writer_calls (suc n) =
    put (b'h' ∷ b'e' ∷ b'l' ∷ b'l' ∷ b'o' ∷ []) 0
    ∷ (put (b'b' ∷ b'u' ∷ b'r' ∷ b's' ∷ b't' ∷ b' ' ∷ b'b' ∷ b'u' ∷ b'f' ∷ b'f' ∷ b'e' ∷ b'r' ∷ [])
          5
        ∷ (hand_over ∷ writer_calls n))

-- The calls that the writer has left, and the rounds that the flusher has left.
pub record Program : Type 0 where
  pub system : System
  pub calls : List Call
  pub flushes_left : ℕ

abbrev pub num_rounds : ℕ
num_rounds = 1000

-- Behind `runtimeInitialize`.
abbrev pub started : System → Program
started s = record { system = s; calls = writer_calls num_rounds; flushes_left = num_rounds }

-- One call of one of the threads; what `pwrite` and `tryEnqueueFlush` return is not used.
pub data Turn (mem : Allocator InlineWriteRequest) (errno : ℕ) : Program → Program → Type 1 where
  puts :
      {p : Program} (bytes : List ℕ) (offset : ℕ) (rest : List Call) (r : ℤ) (b : BurstBuffer)
      → p.calls ≡ put bytes offset ∷ rest
      → pwrite mem errno bytes offset p.system.buffer ≡ done r b
      → Turn mem errno p (record {
        system = record {
          buffer = b;
          accepted =
              if is_success r
              then p.system.accepted ++ request bytes offset ∷ []
              else p.system.accepted;
          delivered = p.system.delivered;
        };
        calls = rest;
        flushes_left = p.flushes_left;
      })
  hands_over :
      {p : Program} (rest : List Call) (r : Bool) (b : BurstBuffer)
      → p.calls ≡ hand_over ∷ rest
      → try_enqueue_flush p.system.buffer ≡ done r b
      → Turn mem errno p (record {
        system = record {
          buffer = b;
          accepted = p.system.accepted;
          delivered = p.system.delivered;
        };
        calls = rest;
        flushes_left = p.flushes_left;
      })
  flushes :
      {p : Program} (left : ℕ) (taken : List InlineWriteRequest) (b : BurstBuffer)
      → p.flushes_left ≡ suc left
      → Ends (λ k. flush_all collect k [] p.system.buffer) (finished taken) b
      → Turn mem errno p (record {
        system = record {
          buffer = b;
          accepted = p.system.accepted;
          delivered = p.system.delivered ++ taken;
        };
        calls = p.calls;
        flushes_left = left;
      })

pub data Runs (mem : Allocator InlineWriteRequest) (errno : ℕ) (s : System) : Program → Type 1 where
  start : Runs mem errno s (started s)
  turn : {p q : Program} → Runs mem errno s p → Turn mem errno p q → Runs mem errno s q

module _ {mem : Allocator InlineWriteRequest} {errno : ℕ} {s : System} where
  Runs-Reach : {p : Program} → Runs mem errno s p → Reach mem errno s p.system
  Runs-Reach start = here
  Runs-Reach (turn r (puts bytes offset rest v b at e)) =
      History.next (Runs-Reach r) (History.writes bytes offset v b e)
  Runs-Reach (turn r (hands_over rest v b at e)) =
      History.next (Runs-Reach r) (History.enqueues v b e)
  Runs-Reach (turn r (flushes left taken b at e)) =
      History.next (Runs-Reach r) (History.flushes taken b e)

module _ (mem : Allocator InlineWriteRequest) (errno : ℕ) where
  -- A turn of the writer, and one of the flusher.
  abbrev pub WriterProceeds : Program → Type 1
  WriterProceeds p =
      (q : Program) × Turn mem errno p q
      × (length q.calls + 1 ≡ length p.calls)
      × (q.flushes_left ≡ p.flushes_left)

  abbrev pub FlusherProceeds : Program → Type 1
  FlusherProceeds p =
      (q : Program) × Turn mem errno p q
      × (q.calls ≡ p.calls)
      × (q.flushes_left + 1 ≡ p.flushes_left)

  writer_proceeds :
      (p : Program) (calls : List Call)
      → p.calls ≡ calls
      → Conserved p.system
      → (calls ≡ []) ⊎ WriterProceeds p
  writer_proceeds p [] at c = inl refl
  writer_proceeds p (put bytes offset ∷ rest) at c =
      elim (pwrite-append mem errno bytes offset p.system.buffer c.pending c.flushing c.holds) [
        | inl (b, run, _) ↦ inr (_, puts bytes offset rest (pos 0) b at run, one_less rest at, refl)
        | inr (run, _) ↦
            inr
              (_, puts bytes offset rest (neg errno) p.system.buffer at run, one_less rest at, refl)
      ]
    where
      one_less : {x : Call} (l : List Call) → p.calls ≡ x ∷ l → length l + 1 ≡ length p.calls
      one_less l e = omega (arith, ap length e)
  writer_proceeds p (hand_over ∷ rest) at c =
      elim (try_enqueue_flush-moves p.system.buffer c.pending c.flushing c.holds) [
        | inl (_, (b, run, _)) ↦ inr (_, hands_over rest true b at run, one_less rest at, refl)
        | inr (_, run) ↦
            inr (_, hands_over rest false p.system.buffer at run, one_less rest at, refl)
      ]
    where
      one_less : {x : Call} (l : List Call) → p.calls ≡ x ∷ l → length l + 1 ≡ length p.calls
      one_less l e = omega (arith, ap length e)

  flusher_proceeds :
      (p : Program) (n : ℕ) → p.flushes_left ≡ n → Conserved p.system → (n ≡ 0) ⊎ FlusherProceeds p
  flusher_proceeds p zero at c = inl refl
  flusher_proceeds p (suc n) at c = inr (
    _,
    flushes n c.flushing (emptied collect p.system.buffer c.holds.moved) at (
      length c.flushing,
      λ k lt.
          flush_all_run collect k p.system.buffer c.holds.head c.holds.mark c.holds.waiting
            c.holds.moved [] c.holds.is
            (omega (arith, length-values c.holds.moved, ap length c.holds.flushes))
          ∙ ap
              (λ w. done w (
                if is_finished w
                then emptied collect p.system.buffer c.holds.moved
                else p.system.buffer))
              (ap (λ l. visit collect l []) c.holds.flushes ∙ visit-collect c.flushing []),
    ),
    refl,
    omega (arith, at),
  )

-- At every moment of the two threads of `main`, on a buffer that keeps its requests and where `errno` is
-- positive: while the writer has calls left the next of them returns, and while the flusher has rounds left the
-- next of them returns, whatever turns came before. Neither fault nor endless loop ever stops a thread.
pub Runs-proceeds :
    (mem : Allocator InlineWriteRequest) (errno : ℕ) {s : System} (p : Program)
    → 0 < errno
    → Conserved s
    → Runs mem errno s p
    → ((p.calls ≡ []) ⊎ WriterProceeds mem errno p)
      × ((p.flushes_left ≡ 0) ⊎ FlusherProceeds mem errno p)
Runs-proceeds mem errno p positive c r =
    let now = Reach-Conserved positive c (Runs-Reach r) in
    (
      writer_proceeds mem errno p p.calls refl now,
      flusher_proceeds mem errno p p.flushes_left refl now,
    )
