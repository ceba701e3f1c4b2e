-- ===== src/Accounts/Payment.antt =====
-- What a crash leaves of a payment, and of a whole run of `main`.
use spack_playground.Prelude.{
  ℕ, ◌≡◌, ◌≢◌, refl, sym, ap, ◌∙◌, subst, ◌⊎◌, inl, inr, true, Option, some, List, [], ◌∷◌, ◌++◌,
  append_assoc, arith,
}
use spack_playground.Medium.{
  Cell, Memory, Op, publish, run, after, OneOf, Image, Survives, CrashOf, step, durable,
}
use spack_playground.Medium.Crashes.{
  Within, settled-Within, OnlyWrites-append, crash-Within, run-Within, run-append, crash_behind,
}
use spack_playground.Medium.Drains.{crash_split}
use spack_playground.Accounts.{
  Object, Account, balance_of, publish_ops, prepare_ops, pay_ops, transact_ops, new_account, caesar,
  anthony, price, main, publish_main, transact_main,
}
use spack_playground.Accounts.Prepared.{
  Outside, Clear, Apart, publish_writes, prepare_elsewhere, make_elsewhere, balance_prepared,
}
use spack_playground.Accounts.Transfer.{transact-pay_ops, pay-conserves}

-- the memory of a pool that is new
abbrev pub zeros : Image
zeros x = 0

made_balance :
    (uuid : ℕ) (name : List ℕ) (deposit : ℕ) (a : Account) (c : Cell)
    → Outside a.str.taken a.acc.at 24
    → Outside a.acc.taken a.acc.at 24
    → Within
        (λ w. w ≡ deposit)
        (run (prepare_ops uuid name deposit a ++ publish_ops a) (balance_of a) c)
made_balance uuid name deposit a c str acc =
    subst (λ d. Within (λ w. w ≡ deposit) d)
      (sym (run-append (prepare_ops uuid name deposit a) (publish_ops a) (balance_of a) c))
      (run-Within (λ w. w ≡ deposit) (balance_of a) (publish_ops a)
        (run (prepare_ops uuid name deposit a) (balance_of a) c)
        (publish_writes (λ w. w ≡ deposit) (balance_of a) a (λ e. misses a.str.taken str e)
          (λ e. misses a.acc.taken acc e))
        (subst (λ d. Within (λ w. w ≡ deposit) d) (sym (balance_prepared uuid name deposit a c))
          (settled-Within (λ w. w ≡ deposit) deposit refl)))
  where
    misses : (x : ℕ) {C : Type 0} → Outside x a.acc.at 24 → balance_of a ≡ x → C
    misses x o e = absurd (ground arith)

module _ (uuid : ℕ) (a b : Account) where
  -- The objects of the two accounts do not overlap.
  abbrev pub Placed : Type 0
  Placed =
      Apart a 14
      × Apart b 13
      × Clear b 13 (balance_of a)
      × Clear a 14 b.acc.taken
      × (balance_of a ≢ balance_of b)

  abbrev pub first_ops : List Op
  first_ops = prepare_ops uuid caesar 100 a ++ publish_ops a

  abbrev pub second_ops : List Op
  second_ops = prepare_ops uuid anthony 50 b ++ publish_ops b

  abbrev pub both_ops : List Op
  both_ops = first_ops ++ second_ops

  module _ (placed : Placed) (image : Image) where
    has_hundred : Within (λ w. w ≡ 100) (after both_ops (durable zeros) (balance_of a))
    has_hundred =
        subst (λ d. Within (λ w. w ≡ 100) d)
          (sym (run-append first_ops second_ops (balance_of a) (durable zeros (balance_of a))))
          (run-Within (λ w. w ≡ 100) (balance_of a) second_ops
            (run first_ops (balance_of a) (durable zeros (balance_of a)))
            (make_elsewhere uuid anthony 50 b (λ w. w ≡ 100) (balance_of a) placed.2)
            (made_balance uuid caesar 100 a (durable zeros (balance_of a)) placed.0.1 placed.0.3))

    has_fifty : Within (λ w. w ≡ 50) (after both_ops (durable zeros) (balance_of b))
    has_fifty =
        subst (λ d. Within (λ w. w ≡ 50) d)
          (sym (run-append first_ops second_ops (balance_of b) (durable zeros (balance_of b))))
          (made_balance uuid anthony 50 b
            (run first_ops (balance_of b) (durable zeros (balance_of b))) placed.1.1 placed.1.3)

    -- until the second account is published it is free
    free_before :
        CrashOf (durable zeros) (first_ops ++ prepare_ops uuid anthony 50 b) image
        → image b.acc.taken ≡ 0
    free_before =
        crash-Within (λ w. w ≡ 0) b.acc.taken (first_ops ++ prepare_ops uuid anthony 50 b)
          (durable zeros) image
          (OnlyWrites-append (λ w. w ≡ 0) b.acc.taken first_ops (prepare_ops uuid anthony 50 b)
            (make_elsewhere uuid caesar 100 a (λ w. w ≡ 0) b.acc.taken placed.3)
            (prepare_elsewhere uuid anthony 50 b (λ w. w ≡ 0) b.acc.taken placed.1.2 placed.1.3))
          (settled-Within (λ w. w ≡ 0) 0 refl)

    abbrev pub Unpaid : Type 0
    Unpaid = (image (balance_of a) ≡ 100) × (image (balance_of b) ≡ 50)

    abbrev pub Paid : Type 0
    Paid = (image (balance_of a) ≡ 58) × (image (balance_of b) ≡ 92)

    made_crash : CrashOf (durable zeros) both_ops image → (image b.acc.taken ≡ 0) ⊎ Unpaid
    unfolding run
    made_crash crash =
        elim (crash_split (first_ops ++ prepare_ops uuid anthony 50 b) (publish_ops b)
          (durable zeros) image
          (subst (λ l. CrashOf (durable zeros) l image)
            (sym (append_assoc first_ops (prepare_ops uuid anthony 50 b) (publish_ops b))) crash)) [
              | inl early ↦ inl (free_before early)
              | inr (inl survives) ↦ inl (
                  free_before (
                    crash_behind (first_ops ++ prepare_ops uuid anthony 50 b) (durable zeros) image
                      survives))
              | inr (inr survives) ↦
                  let stands = all_made survives in
                  inr (
                    has_hundred.possible (image (balance_of a)) (stands (balance_of a)),
                    has_fifty.possible (image (balance_of b)) (stands (balance_of b)),
                  )
            ]
      where
        all_made :
            Survives
              (λ x.
                step
                  (publish ((b.str.taken, 1) ∷ (b.acc.taken, 1) ∷ []))
                  x
                  (after (first_ops ++ prepare_ops uuid anthony 50 b) (durable zeros) x))
              image
            → Survives (after both_ops (durable zeros)) image
        all_made survives x =
            subst (λ c. OneOf (image x) c.possible)
              (sym (
                  run-append (first_ops ++ prepare_ops uuid anthony 50 b) (publish_ops b) x
                    (durable zeros x))
                ∙ ap (λ l. run l x (durable zeros x))
                    (append_assoc first_ops (prepare_ops uuid anthony 50 b) (publish_ops b)))
              (survives x)

    -- In a crash of `main` at any moment, where the second account is allocated, the balances are those
    -- of the deposits or those behind the payment.
    paid_crash :
        CrashOf
          (durable zeros)
          (both_ops ++ pay_ops price a b (after both_ops (durable zeros)))
          image
        → (image b.acc.taken ≡ 0) ⊎ (Unpaid ⊎ Paid)
    paid_crash crash =
        elim (crash_split both_ops (pay_ops price a b (after both_ops (durable zeros)))
          (durable zeros) image crash) [
            | inl early ↦ elim (made_crash early) [ inl f ↦ inl f | inr u ↦ inr (inl u) ]
            | inr late ↦ inr (
                pay-conserves price 100 50 a b (after both_ops (durable zeros)) image placed.4
                  (omega arith) (omega arith) (omega arith) has_hundred has_fifty late)
          ]

-- `main` with one of the payments, on a pool that is made and where the four reservations succeed.
module _ (uuid : ℕ) (reserve : ℕ → Option Object) (a b : Account)
    (first_str : reserve 0 ≡ some a.str) (first_acc : reserve 1 ≡ some a.acc)
    (second_str : reserve 2 ≡ some b.str) (second_acc : reserve 3 ≡ some b.acc)
    (placed : Placed uuid a b) where
  main_runs :
      (pay : ℕ → Account → Account → Memory → List Op) (m : Memory)
      → main pay true uuid reserve m
        ≡ (both_ops uuid a b ++ pay price a b (after (both_ops uuid a b) m), 0)
  main_runs pay m =
      rw
        (
          ap (λ r. r.1) first_made,
          ap (λ r. r.1) second_made,
          ap (λ r. r.0) first_made,
          ap (λ r. r.0) second_made,
        )
        refl
    where
      first_made :
          ◌≡◌ {A = List Op × Option Account}
            (new_account uuid caesar 100 (reserve 0) (reserve 1))
            (first_ops uuid a b, some a)
      first_made = rw (first_str, first_acc) refl

      second_made :
          ◌≡◌ {A = List Op × Option Account}
            (new_account uuid anthony 50 (reserve 2) (reserve 3))
            (second_ops uuid a b, some b)
      second_made = rw (second_str, second_acc) refl

  -- A crash of either program at any moment that finds the second account allocated finds 100 and 50, or
  -- 58 and 92, in the two accounts.
  pub main-conserves :
      (image : Image)
      → CrashOf (durable zeros) (publish_main true uuid reserve (durable zeros)).0 image
        ⊎ CrashOf (durable zeros) (transact_main true uuid reserve (durable zeros)).0 image
      → (image b.acc.taken ≡ 0) ⊎ (Unpaid uuid a b placed image ⊎ Paid uuid a b placed image)
  main-conserves image (inl crash) =
      paid_crash uuid a b placed image
        (subst (λ r. CrashOf (durable zeros) r.0 image) (main_runs pay_ops (durable zeros)) crash)
  main-conserves image (inr crash) = paid_crash uuid a b placed image (
      subst (λ l. CrashOf (durable zeros) l image)
        (ap (λ r. r.0) (main_runs transact_ops (durable zeros))
          ∙ ap (λ l. both_ops uuid a b ++ l)
              (transact-pay_ops price a b (after (both_ops uuid a b) (durable zeros)) placed.4))
        crash)
