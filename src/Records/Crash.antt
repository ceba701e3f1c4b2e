-- ===== src/Records/Crash.antt =====
-- What a crash leaves of the records and of their counter.
use spack_playground.Prelude.{
  ℕ, suc, ◌+◌, ◌≤◌, ◌<◌, ◌≡◌, refl, sym, ap, ◌∙◌, subst, ◌⊎◌, inl, inr, Bool, true, false, some,
  List, [], ◌∷◌, ◌++◌, append_assoc, arith, ◌==◌, if◌then◌else◌, length, get_elem?, get_elem?-lt,
}
use spack_playground.Medium.{Op, store, stores, persist, run, settled, Image, CrashOf, durable}
use spack_playground.Medium.Crashes.{
  Within, settled-Within, OnlyWrites, OnlyWrites-append, crash-Within, crash_ordered, run-append,
}
use spack_playground.Medium.Ranges.{stores_write, persist_writes, copied_settles}
use spack_playground.Records.{
  counter_at, name_at, valid_at, init_ops, named_ops, round_ops, loop_ops, main_ops,
}
use spack_playground.Records.Rounds.{round_writes, loop_elsewhere, loop_writes, loop_split}

-- two new objects
abbrev pub zeros : Image
zeros a = 0

regroup :
    (l n w m e : List Op) (c v : Op)
    → (l ++ ((c ∷ ((n ++ v ∷ []) ++ w)) ++ m)) ++ e ≡ (l ++ (c ∷ n)) ++ (v ∷ (w ++ (m ++ e)))
regroup l n w m e c v = simp append_assoc refl

module _ (coin : ℕ → Bool) (text : ℕ → List ℕ) (fits : (i : ℕ) → length (text i) ≤ 63) where
  -- what `main` writes to an address of the records
  main_writes :
      (P : ℕ → Type 0) (b : ℕ)
      → counter_at < b
      → P 0
      → ((r : ℕ) → OnlyWrites P b (round_ops coin text r))
      → OnlyWrites P b (main_ops coin text)
  main_writes P b inside p each = (
    (λ e. p, (λ e. p, tt)),
    (
      λ e. p,
      OnlyWrites-append P b (loop_ops coin text 10 0) (persist counter_at 4)
          (loop_writes coin text fits P b 10 0 each) (persist_writes P counter_at b 4),
    ),
  )

  -- The operations up to the name of record `i`, and those from its mark on.
  abbrev upto_name : ℕ → List Op
  upto_name i =
      init_ops
      ++ (store counter_at 0
          ∷ (loop_ops coin text i 0
              ++ (store counter_at (i + 1)
                  ∷ (stores (name_at i) (text i) ++ persist (name_at i) 63))))

  abbrev from_mark : ℕ → ℕ → List Op
  from_mark i m =
      store (valid_at i) 2
      ∷ (persist (valid_at i) 1 ++ (loop_ops coin text m (i + 1) ++ persist counter_at 4))

  main_split :
      (i m : ℕ) → i + suc m ≡ 10 → coin i ≡ true → main_ops coin text ≡ upto_name i ++ from_mark i m
  main_split i m ten even =
      ap (λ k. init_ops ++ (store counter_at 0 ∷ (loop_ops coin text k 0 ++ persist counter_at 4)))
        (sym ten)
      ∙ ap (λ l. init_ops ++ (store counter_at 0 ∷ (l ++ persist counter_at 4)))
          (loop_split coin text i m 0)
      ∙ ap
          (λ k.
            init_ops
            ++ (store counter_at 0
                ∷ ((loop_ops coin text i 0
                      ++ (round_ops coin text k ++ loop_ops coin text m (k + 1)))
                    ++ persist counter_at 4)))
          (let e : 0 + i ≡ i = omega arith in e)
      ∙ ap
          (λ t.
            init_ops
            ++ (store counter_at 0
                ∷ ((loop_ops coin text i 0
                      ++ ((store counter_at (i + 1)
                            ∷ ((if t then named_ops coin text i else store (valid_at i) 1 ∷ [])
                                ++ persist (valid_at i) 1))
                          ++ loop_ops coin text m (i + 1)))
                    ++ persist counter_at 4)))
          even
      ∙ ap (λ l. init_ops ++ (store counter_at 0 ∷ l))
          (regroup (loop_ops coin text i 0) (stores (name_at i) (text i) ++ persist (name_at i) 63)
            (persist (valid_at i) 1) (loop_ops coin text m (i + 1)) (persist counter_at 4)
            (store counter_at (i + 1)) (store (valid_at i) 2))

  module _ (image : Image) (crash : CrashOf (durable zeros) (main_ops coin text) image) (i m : ℕ)
      (ten : i + suc m ≡ 10) where
    -- only a round whose coin is even marks a record with 2
    marked_even : image (valid_at i) ≡ 2 → coin i ≡ true
    marked_even =
        crash-Within (λ w. w ≡ 2 → coin i ≡ true) (valid_at i) (main_ops coin text) (durable zeros)
          image
          (main_writes (λ w. w ≡ 2 → coin i ≡ true) (valid_at i) (omega arith)
            (λ e. absurd (omega arith))
            (λ r.
              round_writes coin text fits (λ w. w ≡ 2 → coin i ≡ true) (valid_at i) r
                (λ e. absurd (omega arith))
                (λ j v e f. absurd (inside r j (get_elem?-lt (text r) j v f) e))
                (λ e. by_coin r (coin r) refl (let same : i ≡ r = omega arith in same))))
          (settled-Within (λ w. w ≡ 2 → coin i ≡ true) 0 (λ e. absurd (omega arith))) crash
      where
        inside : (r j : ℕ) → j < length (text r) → valid_at i ≡ name_at r + j → ⊥
        inside r j lt e = omega (arith, fits r)

        by_coin :
            (r : ℕ) (t : Bool)
            → coin r ≡ t
            → i ≡ r
            → ◌≡◌ {A = ℕ} (if t then 2 else 1) 2
            → coin i ≡ true
        by_coin r true e same f = ap coin same ∙ e
        by_coin r false e same f = absurd (omega arith)

    -- the mark of a record is not written before its name
    mark_before : OnlyWrites (λ w. w ≡ 0) (valid_at i) (upto_name i)
    mark_before = (
      (λ e. refl, (λ e. refl, tt)),
      (
        λ e. refl,
        OnlyWrites-append (λ w. w ≡ 0) (valid_at i) (loop_ops coin text i 0)
            (store counter_at (i + 1) ∷ (stores (name_at i) (text i) ++ persist (name_at i) 63))
            (loop_elsewhere coin text fits (λ w. w ≡ 0) (valid_at i) i 0 i (omega arith)
              (omega arith) (inl (omega arith)))
            (
              λ e. absurd (ground arith),
              OnlyWrites-append (λ w. w ≡ 0) (valid_at i) (stores (name_at i) (text i))
                  (persist (name_at i) 63)
                  (stores_write (λ w. w ≡ 0) (name_at i) (valid_at i) (text i)
                    (λ j v e f. absurd (omega (arith, fits i, get_elem?-lt (text i) j v f))))
                  (persist_writes (λ w. w ≡ 0) (name_at i) (valid_at i) 63),
            ),
      ),
    )

    -- the name stands on the medium before the mark is written
    name_stands :
        (j v : ℕ)
        → get_elem? (text i) j ≡ some v
        → run (upto_name i) (name_at i + j) (durable zeros (name_at i + j)) ≡ settled v
    name_stands j v e =
        ap (λ l. run l b (durable zeros b)) front_split
        ∙ run-append front (stores (name_at i) (text i) ++ persist (name_at i) 63) b
            (durable zeros b)
        ∙ copied_settles (name_at i) b j 63 (text i) v (run front b (durable zeros b)) refl
            (omega (arith, fits i, get_elem?-lt (text i) j v e)) e
      where
        b : ℕ
        b = name_at i + j

        front : List Op
        front =
            init_ops
            ++ (store counter_at 0 ∷ (loop_ops coin text i 0 ++ store counter_at (i + 1) ∷ []))

        front_split : upto_name i ≡ front ++ (stores (name_at i) (text i) ++ persist (name_at i) 63)
        front_split = simp append_assoc refl

    name_after :
        (j v : ℕ)
        → get_elem? (text i) j ≡ some v
        → OnlyWrites (λ w. w ≡ v) (name_at i + j) (from_mark i m)
    name_after j v e =
        let inside : j < 63 = omega (arith, fits i, get_elem?-lt (text i) j v e) in
        (
          λ f. absurd (apart (valid_at i) b (omega arith) f),
          OnlyWrites-append Q b (persist (valid_at i) 1)
              (loop_ops coin text m (i + 1) ++ persist counter_at 4)
              (persist_writes Q (valid_at i) b 1)
              (OnlyWrites-append Q b (loop_ops coin text m (i + 1)) (persist counter_at 4)
                (loop_elsewhere coin text fits Q b m (i + 1) i (omega arith) (omega arith)
                  (inr (omega arith)))
                (persist_writes Q counter_at b 4)),
        )
      where
        b : ℕ
        b = name_at i + j

        Q : ℕ → Type 0
        Q w = w ≡ v

        apart : (x y : ℕ) → y < x → (x == y) ≡ true → ⊥
        apart x y lt f = ground arith

    -- A crash at any moment that finds a record marked with 2 finds each byte of its name, with the zero
    -- behind it, and its coin was even.
    pub marked-named :
        image (valid_at i) ≡ 2
        → (j v : ℕ) → get_elem? (text i) j ≡ some v
        → (coin i ≡ true) × (image (name_at i + j) ≡ v)
    marked-named marked j v e = (even, by_order (ordered e))
      where
        even : coin i ≡ true
        even = marked_even marked

        ordered :
            get_elem? (text i) j ≡ some v → (image (valid_at i) ≡ 0) ⊎ (image (name_at i + j) ≡ v)
        ordered e =
            crash_ordered (λ w. w ≡ 0) (λ w. w ≡ v) (valid_at i) (name_at i + j) (upto_name i)
              (from_mark i m) (durable zeros) image mark_before (settled-Within (λ w. w ≡ 0) 0 refl)
              (subst (λ c. Within (λ w. w ≡ v) c) (sym (name_stands j v e))
                (settled-Within (λ w. w ≡ v) v refl))
              (name_after j v e)
              (subst (λ ops. CrashOf (durable zeros) ops image) (main_split i m ten even) crash)

        by_order :
            (image (valid_at i) ≡ 0) ⊎ (image (name_at i + j) ≡ v) → image (name_at i + j) ≡ v
        by_order (inl blank) = absurd (omega arith)
        by_order (inr same) = same
