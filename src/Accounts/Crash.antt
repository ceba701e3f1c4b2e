-- ===== src/Accounts/Crash.antt =====
-- What a crash leaves of an account that `new_account` makes.
use spack_playground.Prelude.{
  ℕ, ◌+◌, ◌≤◌, ◌<◌, ◌≡◌, ◌≢◌, refl, sym, ◌∙◌, subst, ◌⊎◌, inl, inr, some, List, ◌++◌, arith,
  get_elem?,
}
use spack_playground.Medium.{Memory, settled, run, after, OneOf, Image, Survives, CrashOf}
use spack_playground.Medium.Crashes.{
  Within, settled-Within, crash-Within, run-append, stands, crash_behind,
}
use spack_playground.Medium.Drains.{crash_split}
use spack_playground.Accounts.{Account, uuid_of, off_of, balance_of, publish_ops, prepare_ops}
use spack_playground.Accounts.Prepared.{
  Outside, Apart, publish_writes, published, zeroed, room, zeroed-room, prepare_elsewhere,
  uuid_prepared, off_prepared, balance_prepared, name_prepared,
}

module _ (uuid : ℕ) (name : List ℕ) (deposit : ℕ) (a : Account) where
  module _ (apart : Apart a (room uuid name deposit a)) (m : Memory) (image : Image)
      (free : Within (λ w. w ≡ 0) (m a.acc.taken))
      (str_free : Within (λ w. w ≡ 0) (m a.str.taken)) where
    -- the account on the medium, all of it
    abbrev pub Whole : Type 0
    Whole =
        (image a.str.taken ≡ 1)
        × (image a.acc.taken ≡ 1)
        × (image (uuid_of a) ≡ uuid)
        × (image (off_of a) ≡ a.str.at)
        × (image (balance_of a) ≡ deposit)
        × ((j v : ℕ) → get_elem? (zeroed uuid name deposit a) j ≡ some v → image (a.str.at + j) ≡ v)

    abbrev pub Absent : Type 0
    Absent = (image a.str.taken ≡ 0) × (image a.acc.taken ≡ 0)

    absent_before : CrashOf m (prepare_ops uuid name deposit a) image → Absent
    absent_before crash = (
      crash-Within (λ w. w ≡ 0) a.str.taken (prepare_ops uuid name deposit a) m image
          (prepare_elsewhere uuid name deposit a (λ w. w ≡ 0) a.str.taken apart.0 apart.1) str_free
          crash,
      crash-Within (λ w. w ≡ 0) a.acc.taken (prepare_ops uuid name deposit a) m image
          (prepare_elsewhere uuid name deposit a (λ w. w ≡ 0) a.acc.taken apart.2 apart.3) free
          crash,
    )

    -- behind the publication everything stands
    whole_after :
        Survives (after (prepare_ops uuid name deposit a ++ publish_ops a) m) image → Whole
    whole_after survives = (
      taken a.str.taken (inl refl),
      taken a.acc.taken (inr refl),
      at (uuid_of a) uuid (own (uuid_of a) (omega arith) (omega arith))
          (uuid_prepared uuid name deposit a (m (uuid_of a))),
      at (off_of a) a.str.at (own (off_of a) (omega arith) (omega arith))
          (off_prepared uuid name deposit a (m (off_of a))),
      at (balance_of a) deposit (own (balance_of a) (omega arith) (omega arith))
          (balance_prepared uuid name deposit a (m (balance_of a))),
      λ j v e.
          at (a.str.at + j) v (of_name j (zeroed-room uuid name deposit a j v e))
            (name_prepared uuid name deposit a apart j v e (m (a.str.at + j))),
    )
      where
        at :
            (b v : ℕ)
            → (b ≢ a.str.taken) × (b ≢ a.acc.taken)
            → run (prepare_ops uuid name deposit a) b (m b) ≡ settled v
            → image b ≡ v
        at b v other done =
            stands b v (prepare_ops uuid name deposit a) (publish_ops a) (m b) (image b) done
              (publish_writes (λ x. x ≡ v) b a (λ e. absurd (other.0 e)) (λ e. absurd (other.1 e)))
              (survives b)

        taken : (b : ℕ) → (b ≡ a.str.taken) ⊎ (b ≡ a.acc.taken) → image b ≡ 1
        taken b which =
            (subst (λ c. Within (λ w. w ≡ 1) c)
                (sym (
                  run-append (prepare_ops uuid name deposit a) (publish_ops a) b (m b)
                  ∙ published a b (run (prepare_ops uuid name deposit a) b (m b)) which))
                (settled-Within (λ w. w ≡ 1) 1 refl)).possible
              (image b) (survives b)

        own : (b : ℕ) → a.acc.at ≤ b → b < a.acc.at + 24 → (b ≢ a.str.taken) × (b ≢ a.acc.taken)
        own b low high = (λ e. misses a.str.taken apart.1 e, λ e. misses a.acc.taken apart.3 e)
          where
            misses : (x : ℕ) → Outside x a.acc.at 24 → b ≡ x → ⊥
            misses x o e = ground arith

        of_name :
            (j : ℕ)
            → j < (room uuid name deposit a)
            → (a.str.at + j ≢ a.str.taken) × (a.str.at + j ≢ a.acc.taken)
        of_name j lt = (λ e. misses a.str.taken apart.0 e, λ e. misses a.acc.taken apart.2 e)
          where
            misses : (x : ℕ) → Outside x a.str.at (room uuid name deposit a) → a.str.at + j ≡ x → ⊥
            misses x o e = ground arith

    -- A crash of `new_account` at any moment leaves both of its objects free, or both allocated with the
    -- whole name, its reference and the deposit in them.
    pub crash-Whole :
        CrashOf m (prepare_ops uuid name deposit a ++ publish_ops a) image → Absent ⊎ Whole
    unfolding run
    crash-Whole crash =
        elim (crash_split (prepare_ops uuid name deposit a) (publish_ops a) m image crash) [
          | inl early ↦ inl (absent_before early)
          | inr (inl survives) ↦
              inl (absent_before (crash_behind (prepare_ops uuid name deposit a) m image survives))
          | inr (inr survives) ↦ inr (
              whole_after (λ b.
                subst (λ c. OneOf (image b) c.possible)
                  (sym (run-append (prepare_ops uuid name deposit a) (publish_ops a) b (m b)))
                  (survives b)))
        ]
