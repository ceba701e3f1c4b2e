-- ===== src/Accounts/Examples.antt =====
-- Two accounts side by side in a pool, crashes of both programs, and the theorems at them.
use spack_playground.Prelude.{
  ℕ, ◌≡◌, refl, ◌⊎◌, inl, true, Option, some, ◌++◌, arith, ◌==◌, if◌then◌else◌,
}
use spack_playground.Medium.{Image, durable, after, run, stores, flushes}
use spack_playground.Medium.Crashes.{settled-Within, run-now, crash_behind}
use spack_playground.Accounts.{
  Object, Account, balance_of, caesar, prepare_ops, publish_ops, publish_main,
}
use spack_playground.Accounts.Crash.{Whole, Absent, crash-Whole}
use spack_playground.Accounts.Payment.{zeros, Placed, Unpaid, Paid, main-conserves}

abbrev julius : Account
julius = record { str = record { taken = 0; at = 100 }; acc = record { taken = 1; at = 200 } }

abbrev mark : Account
mark = record { str = record { taken = 2; at = 300 }; acc = record { taken = 3; at = 400 } }

abbrev reserve : ℕ → Option Object
reserve n =
    if n == 0
    then some julius.str
    else if n == 1
    then some julius.acc
    else if n == 2
    then some mark.str
    else some mark.acc

placed : Placed 7 julius mark
placed = (
  (inl (omega arith), inl (omega arith), inl (omega arith), inl (omega arith), inl (omega arith)),
  (inl (omega arith), inl (omega arith), inl (omega arith), inl (omega arith), inl (omega arith)),
  (λ e. absurd (omega arith), λ e. absurd (omega arith), inl (omega arith), inl (omega arith)),
  (λ e. absurd (omega arith), λ e. absurd (omega arith), inl (omega arith), inl (omega arith)),
  λ e. absurd (omega arith),
)

abbrev settled_image : Image
settled_image x = (after (publish_main true 7 reserve (durable zeros)).0 (durable zeros) x).now

paid_example : (settled_image (balance_of julius) ≡ 58) × (settled_image (balance_of mark) ≡ 92)
unfolding run stores flushes
paid_example = (refl, refl)

main-conserves_example :
    (settled_image mark.acc.taken ≡ 0)
    ⊎ (Unpaid 7 julius mark placed settled_image ⊎ Paid 7 julius mark placed settled_image)
main-conserves_example =
    main-conserves 7 reserve julius mark refl refl refl refl placed settled_image (
      inl (
        crash_behind (publish_main true 7 reserve (durable zeros)).0 (durable zeros) settled_image
          (λ x.
            run-now x (publish_main true 7 reserve (durable zeros)).0 (durable zeros x)
              (inl refl))))

abbrev balances : Image
balances x = if x == 216 then 100 else if x == 416 then 50 else 0

abbrev made : Image
made x = (after (prepare_ops 7 caesar 100 julius ++ publish_ops julius) (durable zeros) x).now

crash-Whole_example :
    Absent 7 caesar 100 julius placed.0
      (durable zeros)
      made
      (settled-Within (λ w. w ≡ 0) 0 refl)
      (settled-Within (λ w. w ≡ 0) 0 refl)
    ⊎ Whole 7 caesar 100 julius placed.0
        (durable zeros)
        made
        (settled-Within (λ w. w ≡ 0) 0 refl)
        (settled-Within (λ w. w ≡ 0) 0 refl)
crash-Whole_example =
    crash-Whole 7 caesar 100 julius placed.0 (durable zeros) made
      (settled-Within (λ w. w ≡ 0) 0 refl) (settled-Within (λ w. w ≡ 0) 0 refl)
      (crash_behind (prepare_ops 7 caesar 100 julius ++ publish_ops julius) (durable zeros) made
        (λ x.
          run-now x (prepare_ops 7 caesar 100 julius ++ publish_ops julius) (durable zeros x)
            (inl refl)))
