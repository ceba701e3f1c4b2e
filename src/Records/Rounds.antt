-- ===== src/Records/Rounds.antt =====
-- What the rounds of the loop write, and where.
use spack_playground.Prelude.{
  ℕ, zero, suc, ◌+◌, ◌≤◌, ◌<◌, ◌≡◌, sym, ap, ◌∙◌, ◌⊎◌, inl, inr, Bool, true, false, some, List, [],
  ◌∷◌, ◌++◌, append_assoc, arith, if◌then◌else◌, length, get_elem?, get_elem?-lt,
}
use spack_playground.Medium.{store, stores, persist}
use spack_playground.Medium.Crashes.{OnlyWrites, OnlyWrites-append}
use spack_playground.Medium.Ranges.{stores_write, persist_writes}
use spack_playground.Records.{
  counter_at, name_at, valid_at, named_ops, mark_ops, round_ops, loop_ops,
}

module _ (coin : ℕ → Bool) (text : ℕ → List ℕ) (fits : (i : ℕ) → length (text i) ≤ 63) where
  -- Writes to the counter, to the bytes of a name, and the mark of a record.
  pub round_writes :
      (P : ℕ → Type 0) (b i : ℕ)
      → ((b ≡ counter_at) → P (i + 1))
      → ((j v : ℕ) → b ≡ name_at i + j → get_elem? (text i) j ≡ some v → P v)
      → ((b ≡ valid_at i) → P (if coin i then 2 else 1))
      → OnlyWrites P b (round_ops coin text i)
  round_writes P b i at_counter at_name at_valid = (
    λ e. at_counter (ground arith),
    OnlyWrites-append P b (mark_ops coin text i) (persist (valid_at i) 1)
        (by_coin (coin i) at_valid) (persist_writes P (valid_at i) b 1),
  )
    where
      by_coin :
          (t : Bool)
          → ((b ≡ valid_at i) → P (if t then 2 else 1))
          → OnlyWrites P b (if t then named_ops coin text i else store (valid_at i) 1 ∷ [])
      by_coin true at =
          OnlyWrites-append P b (stores (name_at i) (text i) ++ persist (name_at i) 63)
            (store (valid_at i) 2 ∷ [])
            (OnlyWrites-append P b (stores (name_at i) (text i)) (persist (name_at i) 63)
              (stores_write P (name_at i) b (text i) at_name) (persist_writes P (name_at i) b 63))
            (λ e. at (ground arith), tt)
      by_coin false at = (λ e. at (ground arith), tt)

  -- Other rounds than its own leave a record alone.
  pub round_elsewhere :
      (P : ℕ → Type 0) (b i k : ℕ)
      → name_at k ≤ b
      → b < name_at (k + 1)
      → (i < k) ⊎ (k < i)
      → OnlyWrites P b (round_ops coin text i)
  round_elsewhere P b i k low high other =
      round_writes P b i (λ e. absurd (omega arith))
        (λ j v e f. absurd (apart j (get_elem?-lt (text i) j v f) e other))
        (λ e. absurd (apart_mark e other))
    where
      apart : (j : ℕ) → j < length (text i) → b ≡ name_at i + j → (i < k) ⊎ (k < i) → ⊥
      apart j lt e (inl o) = omega (arith, fits i)
      apart j lt e (inr o) = omega (arith, fits i)

      apart_mark : b ≡ valid_at i → (i < k) ⊎ (k < i) → ⊥
      apart_mark e (inl o) = omega arith
      apart_mark e (inr o) = omega arith

  pub loop_elsewhere :
      (P : ℕ → Type 0) (b n i k : ℕ)
      → name_at k ≤ b
      → b < name_at (k + 1)
      → (i + n ≤ k) ⊎ (k < i)
      → OnlyWrites P b (loop_ops coin text n i)
  unfolding loop_ops
  loop_elsewhere P b zero i k low high other = tt
  loop_elsewhere P b (suc n) i k low high other =
      OnlyWrites-append P b (round_ops coin text i) (loop_ops coin text n (i + 1))
        (round_elsewhere P b i k low high (ground arith))
        (loop_elsewhere P b n (i + 1) k low high (ground arith))

  pub loop_writes :
      (P : ℕ → Type 0) (b n i : ℕ)
      → ((r : ℕ) → OnlyWrites P b (round_ops coin text r))
      → OnlyWrites P b (loop_ops coin text n i)
  unfolding loop_ops
  loop_writes P b zero i each = tt
  loop_writes P b (suc n) i each =
      OnlyWrites-append P b (round_ops coin text i) (loop_ops coin text n (i + 1)) (each i)
        (loop_writes P b n (i + 1) each)

module _ (coin : ℕ → Bool) (text : ℕ → List ℕ) where
  -- The loop around one of its rounds.
  pub loop_split :
      (n m i : ℕ)
      → loop_ops coin text (n + suc m) i
        ≡ loop_ops coin text n i
          ++ (round_ops coin text (i + n) ++ loop_ops coin text m (i + n + 1))
  unfolding loop_ops
  loop_split zero m i =
      ap (λ k. loop_ops coin text k i) (let e : 0 + suc m ≡ suc m = omega arith in e)
      ∙ ap (λ k. round_ops coin text k ++ loop_ops coin text m (k + 1))
          (let e : i ≡ i + 0 = omega arith in e)
  loop_split (suc n) m i =
      ap (λ k. loop_ops coin text k i) (let e : suc n + suc m ≡ suc (n + suc m) = omega arith in e)
      ∙ ap (λ l. round_ops coin text i ++ l)
          (loop_split n m (i + 1)
            ∙ ap
                (λ k.
                  loop_ops coin text n (i + 1)
                  ++ (round_ops coin text k ++ loop_ops coin text m (k + 1)))
                (let e : i + 1 + n ≡ i + suc n = omega arith in e))
      ∙ sym (append_assoc (round_ops coin text i) (loop_ops coin text n (i + 1)) _)
