-- ===== src/Versioning/Copies.antt =====
-- The three writes to the working copy, and where they leave its slots.
use spack_playground.Prelude.{
  ℕ, zero, suc, ◌+◌, ◌<◌, ◌≤◌, ◌≡◌, refl, sym, ap, ◌∙◌, ◌⊎◌, inl, inr, Bool, true, false, Option,
  none, some, List, [], ◌∷◌, ◌++◌, append-nil, append_assoc, arith, ltb, lt→ltb, if◌then◌else◌,
  length, set, length-set,
}
use spack_playground.Versioning.{Order, take, drop, copy_to, insert_at}

module _ {A : Type 0} where
  pub length-take : (n : ℕ) (xs : List A) → n ≤ length xs → length (take n xs) ≡ n
  length-take zero xs le = refl
  length-take (suc n) [] le = omega (arith, le)
  length-take (suc n) (x ∷ xs) le = ap suc (length-take n xs (omega (arith, le)))

  length-drop : (n : ℕ) (xs : List A) → n ≤ length xs → n + length (drop n xs) ≡ length xs
  length-drop zero xs le = omega arith
  length-drop (suc n) [] le = omega (arith, le)
  length-drop (suc n) (x ∷ xs) le = omega (arith, length-drop n xs (omega (arith, le)))

  take-set :
      (k : ℕ) (slots : List A) (x : A)
      → k < length slots
      → take (suc k) (set slots k x) ≡ take k slots ++ x ∷ []
  take-set k [] x lt = elim lt [ ]
  take-set zero (y ∷ ys) x lt = refl
  take-set (suc k) (y ∷ ys) x lt = ap (λ l. y ∷ l) (take-set k ys x (omega (arith, lt)))

  -- what `copy_to` makes of the slots
  record Copied (slots : List A) (k : ℕ) (xs slots' : List A) : Type 0 where
    same_length : length slots' ≡ length slots
    prefix : take (k + length xs) slots' ≡ take k slots ++ xs

  copy_to-Copied :
      (xs slots : List A) (k : ℕ)
      → k + length xs ≤ length slots
      → (slots' : List A) × (copy_to slots k xs ≡ some slots') × Copied slots k xs slots'
  unfolding copy_to
  copy_to-Copied [] slots k le = (
    slots,
    refl,
    record {
      same_length = refl;
      prefix = ap (λ n. take n slots) (omega arith) ∙ sym (append-nil (take k slots));
    },
  )
  copy_to-Copied (x ∷ xs) slots k le =
      let (slots', run, copied) =
        copy_to-Copied xs (set slots k x) (k + 1) (omega (arith, le, length-set slots k x)) in
      (
        slots',
        rw (lt→ltb k (length slots) (omega (arith, le)), copy_to) run,
        record {
          same_length = copied.same_length ∙ length-set slots k x;
          prefix =
              ap (λ n. take n slots') (omega arith)
              ∙ copied.prefix
              ∙ ap (λ n. take n (set slots k x) ++ xs) (one_more k)
              ∙ ap (λ l. l ++ xs) (take-set k slots x (omega (arith, le)))
              ∙ append_assoc (take k slots) (x ∷ []) xs;
        },
      )
    where
      one_more : (n : ℕ) → n + 1 ≡ suc n
      one_more n = omega arith

  copy_to_full :
      (xs slots : List A) (k : ℕ)
      → 0 < length xs
      → length slots < k + length xs
      → copy_to slots k xs ≡ none
  unfolding copy_to
  copy_to_full [] slots k some_left full = absurd (omega (arith, some_left))
  copy_to_full (x ∷ []) slots k some_left full =
      rw (ge→ltb k (length slots) (omega (arith, full)), copy_to) refl
    where
      ge→ltb : (a b : ℕ) → b ≤ a → ltb a b ≡ false
      ge→ltb a b le = ground arith
  copy_to_full (x ∷ y ∷ xs) slots k some_left full = either (ltb k (length slots)) (
      copy_to_full (y ∷ xs) (set slots k x) (k + 1) (omega arith)
        (omega (arith, full, length-set slots k x)))
    where
      either : (b : Bool) {o : Option (List A)} → o ≡ none → (if b then o else none) ≡ none
      either true e = e
      either false e = refl

module _ {A : Type 0} (order : Order A) where
  -- With room for one more the slots begin with the copied elements and the new one among them.
  pub insert_at-slots :
      (xs working : List A) (position : ℕ) (e : A)
      → position ≤ length xs
      → length xs < length working
      → (slots : List A) × (insert_at order xs position e working ≡ some slots)
        × (length slots ≡ length working)
        × (take (length xs + 1) slots ≡ take position xs ++ e ∷ drop position xs)
  unfolding insert_at
  insert_at-slots xs working position e le room =
      let front : length (take position xs) ≡ position = length-take position xs le in
      let back : position + length (drop position xs) ≡ length xs = length-drop position xs le in
      let (s₁, run₁, c₁) =
        copy_to-Copied (take position xs) working 0 (omega (arith, front, le, room)) in
      let (s₂, run₂, c₂) =
        copy_to-Copied (e ∷ []) s₁ position (omega (arith, le, room, c₁.same_length)) in
      let (s₃, run₃, c₃) =
        copy_to-Copied (drop position xs) s₂ (position + 1)
          (omega (arith, back, room, c₁.same_length, c₂.same_length)) in
      let first : take position s₁ ≡ take position xs =
        ap (λ n. take n s₁) (omega (arith, front)) ∙ c₁.prefix in
      (
        s₃,
        rw (run₁, insert_at, run₂) run₃,
        c₃.same_length ∙ c₂.same_length ∙ c₁.same_length,
        ap (λ n. take n s₃) (omega (arith, back))
            ∙ c₃.prefix
            ∙ ap (λ l. l ++ drop position xs) (c₂.prefix ∙ ap (λ l. l ++ e ∷ []) first)
            ∙ append_assoc (take position xs) (e ∷ []) (drop position xs),
      )

  -- Without room one of the writes is behind the last slot.
  pub insert_at_full :
      (xs working : List A) (position : ℕ) (e : A)
      → position ≤ length xs
      → length working ≡ length xs
      → insert_at order xs position e working ≡ none
  unfolding insert_at
  insert_at_full xs working position e le full =
      let front : length (take position xs) ≡ position = length-take position xs le in
      let back : position + length (drop position xs) ≡ length xs = length-drop position xs le in
      let (s₁, run₁, c₁) =
        copy_to-Copied (take position xs) working 0 (omega (arith, front, le, full)) in
      rw (run₁, insert_at)
        (elim (last_or position (length xs) le) [
          | inl e_last ↦
              rw
                (copy_to_full (e ∷ []) s₁ position (omega arith)
                  (omega (arith, e_last, full, c₁.same_length)))
                refl
          | inr lt ↦
              let (s₂, run₂, c₂) =
                copy_to-Copied (e ∷ []) s₁ position (omega (arith, lt, full, c₁.same_length)) in
              rw run₂ (
                copy_to_full (drop position xs) s₂ (position + 1) (omega (arith, back, lt))
                  (omega (arith, back, full, c₁.same_length, c₂.same_length)))
        ])
    where
      last_or : (a b : ℕ) → a ≤ b → (a ≡ b) ⊎ (a < b)
      last_or a b le = ground arith
