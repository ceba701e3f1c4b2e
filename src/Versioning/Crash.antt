-- ===== src/Versioning/Crash.antt =====
-- `insert` is sorted insertion, and atomic under a crash.
use spack_playground.Prelude.{
  ℕ, zero, suc, ◌+◌, ◌-◌, ◌<◌, ◌≤◌, ◌≡◌, refl, sym, ap, ◌∙◌, ◌⊎◌, inl, inr, Bool, true, false, none,
  some, List, [], ◌∷◌, arith, subst, ◌==◌, if◌then◌else◌, length,
}
use spack_playground.Prelude.Family.{update}
use spack_playground.Medium.{OneOf}
use spack_playground.Versioning.{
  Order, Entries, Versions, take, version, with_version, contents, lower_bound, insert_element,
  switched, insert, DiskOp, disk_run, Left, CopyLeft, CrashLeaves, persisted, insert_steps,
  insert_ops,
}
use spack_playground.Versioning.Sorted.{
  insert_sorted, Sorted, lower_bound-insert, lower_bound_le, insert-Sorted,
}
use spack_playground.Versioning.Copies.{length-take, insert_at-slots, insert_at_full}

some_injective : {A : Type 0} {x y : A} → some x ≡ some y → x ≡ y
some_injective e = cc

module _ {A : Type 0} (order : Order A) (slots : ℕ) where
  pub record IsValid (a : Versions A) : Type 0 where
    pub one_of_two : a.current ≤ 1
    pub first_slots : length (a.first).entries ≡ slots
    pub second_slots : length (a.second).entries ≡ slots
    pub fits : (version a a.current).size ≤ slots
    pub sorted : Sorted order (contents a)

  module _ (a : Versions A) (valid : IsValid a) where
    open valid use {one_of_two, first_slots, second_slots, fits, sorted}

    slots_of : (i : ℕ) → length (version a i).entries ≡ slots
    slots_of i = by_index (i == 0)
      where
        by_index : (b : Bool) → length (if b then a.first else a.second).entries ≡ slots
        by_index true = first_slots
        by_index false = second_slots

    length-contents : length (contents a) ≡ (version a a.current).size
    length-contents =
        length-take (version a a.current).size (version a a.current).entries
          (omega (arith, fits, slots_of a.current))

    -- A write to the working copy is not seen in the consistent one.
    kept :
        (w : Entries A) → version (with_version a (1 - a.current) w) a.current ≡ version a a.current
    kept w = ground arith

    written : (w : Entries A) → version (with_version a (1 - a.current) w) (1 - a.current) ≡ w
    written w = ground arith

    with_version-slots :
        (w : Entries A) (b : Bool)
        → length w.entries ≡ slots
        → (length (if b then w else a.first).entries ≡ slots)
          × (length (if b then a.second else w).entries ≡ slots)
    with_version-slots w true e = (e, second_slots)
    with_version-slots w false e = (first_slots, e)

    abbrev working : Entries A → Versions A
    working w = with_version a (1 - a.current) w

    contents-working : (w : Entries A) → contents (working w) ≡ contents a
    contents-working w = ap (λ v. take v.size v.entries) (kept w)

    working-IsValid : (w : Entries A) → length w.entries ≡ slots → IsValid (working w)
    working-IsValid w e = record {
      one_of_two = one_of_two;
      first_slots = (with_version-slots w (1 - a.current == 0) e).0;
      second_slots = (with_version-slots w (1 - a.current == 0) e).1;
      fits = subst (λ v. v.size ≤ slots) (sym (kept w)) fits;
      sorted = subst (Sorted order) (sym (contents-working w)) sorted;
    }

    contents-switched :
        (w : Entries A) → contents (switched order (working w)) ≡ take w.size w.entries
    contents-switched w = ap (λ v. take v.size v.entries) (written w)

    switched-IsValid :
        (w : Entries A)
        → length w.entries ≡ slots
        → w.size ≤ slots
        → Sorted order (take w.size w.entries)
        → IsValid (switched order (working w))
    switched-IsValid w e small in_order = record {
      one_of_two = omega arith;
      first_slots = (with_version-slots w (1 - a.current == 0) e).0;
      second_slots = (with_version-slots w (1 - a.current == 0) e).1;
      fits = subst (λ v. v.size ≤ slots) (sym (written w)) small;
      sorted = subst (Sorted order) (sym (contents-switched w)) in_order;
    }

    element_run :
        (e : A)
        → (version a a.current).size < slots
        → (s : List A) × (insert_element order a e
            ≡ some (working (record { entries = s; size = (version a a.current).size + 1 })))
          × (length s ≡ slots)
          × (take ((version a a.current).size + 1) s ≡ insert_sorted order e (contents a))
    unfolding insert_element
    element_run e room =
        let (s, run, same, front) =
          insert_at-slots order (contents a) (version a (1 - a.current)).entries
            (lower_bound order (contents a) e) e (lower_bound_le order (contents a) e)
            (omega (arith, room, length-contents, slots_of (1 - a.current))) in
        (
          s,
          rw (run, insert_element) refl,
          same ∙ slots_of (1 - a.current),
          ap (λ n. take (n + 1) s) (sym length-contents)
              ∙ front
              ∙ lower_bound-insert order (contents a) e,
        )

    -- What a call leaves: a valid array with these contents.
    pub record Reads (xs : List A) (b : Versions A) : Type 0 where
      pub valid_again : IsValid b
      pub reads : contents b ≡ xs

    -- Below capacity `insert` ends with the consistent copy sorted and the new element inserted.
    pub insert-sorted :
        (e : A)
        → (version a a.current).size < slots
        → (b : Versions A) × (insert order a e ≡ some b)
          × Reads (insert_sorted order e (contents a)) b
    unfolding insert
    insert-sorted e room =
        let (s, run, same, front) = element_run e room in
        let w : Entries A = record { entries = s; size = (version a a.current).size + 1 } in
        (
          switched order (working w),
          rw (run, insert) refl,
          record {
            valid_again =
                switched-IsValid w same (omega (arith, room))
                  (subst (Sorted order) (sym front) (insert-Sorted order (contents a) e sorted));
            reads = contents-switched w ∙ front;
          },
        )

    -- At full capacity it writes behind the slots: there is no test of the size.
    pub insert_full : (e : A) → (version a a.current).size ≡ slots → insert order a e ≡ none
    unfolding insert insert_element
    insert_full e full =
        rw
          (
            insert_at_full order (contents a) (version a (1 - a.current)).entries
                (lower_bound order (contents a) e) e (lower_bound_le order (contents a) e)
                (slots_of (1 - a.current) ∙ sym full ∙ sym length-contents),
            insert,
            insert_element,
          )
          refl

    -- the operations of `insert`, which end in the array that it leaves
    insert_ops_run :
        (e : A)
        → (version a a.current).size < slots
        → (w : Entries A) × (insert_ops order a e ≡ some (insert_steps a w))
          × (length w.entries ≡ slots)
          × Reads (contents a) (working w)
          × Reads (insert_sorted order e (contents a)) (switched order (working w))
    unfolding insert_ops
    insert_ops_run e room =
        let (s, run, same, front) = element_run e room in
        let w : Entries A = record { entries = s; size = (version a a.current).size + 1 } in
        (
          w,
          rw (run, insert_ops) (ap (λ v. some (insert_steps a v)) (written w)),
          same,
          record { valid_again = working-IsValid w same; reads = contents-working w },
          record {
            valid_again =
                switched-IsValid w same (omega (arith, room))
                  (subst (Sorted order) (sym front) (insert-Sorted order (contents a) e sorted));
            reads = contents-switched w ∙ front;
          },
        )

    -- What is left of a disk reads as the copy that `current` names on the medium, if this is not torn.
    Left-Reads :
        (xs : List A) (d : Versions A) (dirty : ℕ → Bool) (earlier : List ℕ) (b : Versions A)
        (c : ℕ)
        → b.current ≡ c
        → Reads xs (record d { current = c })
        → dirty c ≡ false
        → Left (record { now = d; dirty = dirty; earlier = earlier }) b
        → Reads xs b
    Left-Reads xs d dirty earlier b c at read clean left = record {
      valid_again = record {
        one_of_two = subst (λ k. k ≤ 1) (sym at) read.valid_again.one_of_two;
        first_slots = kept_slots (dirty 0) d.first b.first read.valid_again.first_slots left.1;
        second_slots = kept_slots (dirty 1) d.second b.second read.valid_again.second_slots left.2;
        fits = subst (λ v. v.size ≤ slots) (sym same_copy) read.valid_again.fits;
        sorted = subst (Sorted order) (sym same_contents) read.valid_again.sorted;
      };
      reads = same_contents ∙ read.reads;
    }
      where
        copy_at : (k : ℕ) → k ≤ 1 → CopyLeft (dirty k) (version d k) (version b k)
        copy_at zero le = left.1
        copy_at (suc zero) le = left.2
        copy_at (suc (suc k)) le = absurd (omega arith)

        same_copy : version b b.current ≡ version d c
        same_copy =
            ap (version b) at
            ∙ subst (λ t. CopyLeft t (version d c) (version b c)) clean
                (copy_at c read.valid_again.one_of_two)

        same_contents : contents b ≡ take (version d c).size (version d c).entries
        same_contents = ap (λ v. take v.size v.entries) same_copy

        kept_slots :
            (t : Bool) (w v : Entries A)
            → length w.entries ≡ slots
            → CopyLeft t w v
            → length v.entries ≡ slots
        kept_slots true w v e kept = kept ∙ e
        kept_slots false w v e kept = ap (λ x. length x.entries) kept ∙ e

    -- a crash of these steps, from what they leave without one
    steps_crash :
        (w : Entries A) (xs : List A) (b : Versions A)
        → Reads (contents a) (working w)
        → Reads xs (switched order (working w))
        → CrashLeaves (persisted a) (insert_steps a w) b
        → Reads (contents a) b ⊎ Reads xs b
    steps_crash w xs b old new crash = by_moment crash
      where
        flip : ℕ
        flip = 1 - a.current

        other_clean : update (λ i. false) flip true a.current ≡ false
        other_clean = ground arith

        settled_copies : ℕ → Bool
        settled_copies = update (update (λ i. false) flip true) flip false

        all_clean : (c : ℕ) → c ≤ 1 → settled_copies c ≡ false
        all_clean c le = ground arith

        only : {c d : ℕ} → OneOf c (d ∷ []) → c ≡ d
        only (inl e) = e
        only (inr f) = elim f [ ]

        before_all : Reads (contents a) a
        before_all = record { valid_again = valid; reads = refl }

        by_moment :
            CrashLeaves (persisted a) (insert_steps a w) b → Reads (contents a) b ⊎ Reads xs b
        by_moment (inl left) = inl (
            Left-Reads (contents a) a (λ i. false) [] b a.current (only left.0) before_all refl
              left)
        by_moment (inr (inl left)) = inl (
            Left-Reads (contents a) (working w) (update (λ i. false) flip true) [] b a.current
              (only left.0) old other_clean left)
        by_moment (inr (inr (inl left))) = inl (
            Left-Reads (contents a) (working w) settled_copies [] b a.current (only left.0) old
              (all_clean a.current one_of_two) left)
        by_moment (inr (inr (inr (inl (inl at, one, two))))) = inr (
            Left-Reads xs (switched order (working w)) settled_copies (a.current ∷ []) b flip at new
              (all_clean flip (omega arith)) (inl at, one, two))
        by_moment (inr (inr (inr (inl (inr at, one, two))))) = inl (
            Left-Reads (contents a) (switched order (working w)) settled_copies (a.current ∷ []) b
              a.current (only at) old (all_clean a.current one_of_two) (inr at, one, two))
        by_moment (inr (inr (inr (inr left)))) = inr (
            Left-Reads xs (switched order (working w)) settled_copies [] b flip (only left.0) new
              (all_clean flip (omega arith)) left)

    -- A crash at any moment of an insertion below capacity, with whatever of the stores that are not
    -- persisted has reached the medium, leaves a valid array that reads either as before or with the
    -- element inserted.
    pub crash_atomic :
        (e : A) (ops : List (DiskOp A)) (b : Versions A)
        → (version a a.current).size < slots
        → insert_ops order a e ≡ some ops
        → CrashLeaves (persisted a) ops b
        → Reads (contents a) b ⊎ Reads (insert_sorted order e (contents a)) b
    crash_atomic e ops b room run crash =
        let (w, steps, same, old, new) = insert_ops_run e room in
        steps_crash w (insert_sorted order e (contents a)) b old new
          (subst (λ l. CrashLeaves (persisted a) l b) (some_injective (sym run ∙ steps)) crash)

    -- Without a crash the operations end in the array that `insert` leaves.
    pub insert_ops-insert :
        (e : A)
        → (version a a.current).size < slots
        → (ops : List (DiskOp A)) × (insert_ops order a e ≡ some ops)
          × (insert order a e ≡ some (disk_run ops (persisted a)).now)
    unfolding insert insert_ops disk_run
    insert_ops-insert e room =
        let (s, run, same, front) = element_run e room in
        let w : Entries A = record { entries = s; size = (version a a.current).size + 1 } in
        (
          insert_steps a w,
          rw (run, insert_ops) (ap (λ v. some (insert_steps a v)) (written w)),
          rw (run, insert) refl,
        )
