-- ===== src/Synchronized/Locks.antt =====
-- What locking a list of objects does to the store.
use spack_playground.Prelude.{
  ℕ, ◌≡◌, refl, sym, ap, ◌∙◌, inl, inr, Bool, true, false, ◌||◌, Option, none, some, List, [], ◌∷◌,
  arith, ◌==◌, ==_iff, if◌then◌else◌, Bool-cases,
}
use spack_playground.Synchronized.{
  Store, Attempt, ran, waits, misuse, put_holder, lock, lock_all, unlock_all, under,
}

abbrev pub among : ℕ → List ℕ → Bool
among c [] = false
among c (a ∷ objs) = (a == c) || among c objs

module _ {T : Type 0} where
  -- the locks that were taken, and what they leave alone
  pub record Locked (objs : List ℕ) (s s' : Store T) : Type 0 where
    pub were_free : (c : ℕ) → among c objs ≡ true → (s c).holder ≡ none
    pub others : (c : ℕ) → among c objs ≡ false → s' c ≡ s c
    pub same_values : (c : ℕ) → (s' c).value ≡ (s c).value

  pub lock-ran :
      (i a : ℕ) (s s' : Store T) (u : Unit {0})
      → lock i a s ≡ ran u s'
      → ((s a).holder ≡ none) × (s' ≡ put_holder s a (some i))
  unfolding lock
  lock-ran i a s s' u e = by_holder (s a).holder e
    where
      by_holder :
          (h : Option ℕ)
          → ◌≡◌ {A = Attempt (Store T) (Unit {0})}
              (elim h [
                | none ↦ ran tt (put_holder s a (some i))
                | some j ↦ if j == i then misuse else waits
              ])
              (ran u s')
          → (h ≡ none) × (s' ≡ put_holder s a (some i))
      by_holder none f = (refl, cc)
      by_holder (some j) f = absurd (by_test (j == i) f)
        where
          by_test :
              (b : Bool)
              → ◌≡◌ {A = Attempt (Store T) (Unit {0})} (if b then misuse else waits) (ran u s')
              → ⊥
          by_test true g = cc g
          by_test false g = cc g

  put_holder_value :
      (s : Store T) (a c : ℕ) (h : Option ℕ) → (put_holder s a h c).value ≡ (s c).value
  put_holder_value s a c h = by_test (a == c)
    where
      by_test : (b : Bool) → (if b then record (s c) { holder = h } else s c).value ≡ (s c).value
      by_test true = refl
      by_test false = refl

  pub lock_all-Locked :
      (i : ℕ) (objs : List ℕ) (s s' : Store T) (u : Unit {0})
      → lock_all i objs s ≡ ran u s'
      → Locked objs s s'
  unfolding lock_all
  lock_all-Locked i [] s s' u e = record {
    were_free = λ c m. absurd (cc m);
    others = λ c m. ap (λ f. f c) (same e);
    same_values = λ c. ap (λ f. (f c).value) (same e);
  }
    where
      same : ◌≡◌ {A = Attempt (Store T) (Unit {0})} (ran tt s) (ran u s') → s' ≡ s
      same f = cc
  lock_all-Locked i (a ∷ objs) s s' u e =
      by_first (lock i a s) (λ v s₁ f. lock-ran i a s s₁ v f)
        (λ s₁ f. lock_all-Locked i objs s₁ s' u f) e
    where
      two : (x y : Bool) → (x || y) ≡ false → (x ≡ false) × (y ≡ false)
      two x y f = ground arith

      by_first :
          (o : Attempt (Store T) (Unit {0}))
          → ((v : Unit {0}) (s₁ : Store T)
              → o ≡ ran v s₁
              → ((s a).holder ≡ none) × (s₁ ≡ put_holder s a (some i)))
          → ((s₁ : Store T) → lock_all i objs s₁ ≡ ran u s' → Locked objs s₁ s')
          → ◌≡◌ {A = Attempt (Store T) (Unit {0})}
              (elim o [ ran _ s₁ ↦ lock_all i objs s₁ | waits ↦ waits | misuse ↦ misuse ])
              (ran u s')
          → Locked (a ∷ objs) s s'
      by_first waits first rest f = absurd (cc f)
      by_first misuse first rest f = absurd (cc f)
      by_first (ran v s₁) first rest f =
          let (free, is) = first v s₁ refl in
          let locked = rest s₁ f in
          record {
            were_free = λ c m. elim (Bool-cases (a == c)) [
              | inl e ↦ ap (λ k. (s k).holder) (sym ((==_iff a c).0 e)) ∙ free
              | inr e ↦
                  ap (λ b. (if b then record (s c) { holder = some i } else s c).holder) (sym e)
                  ∙ ap (λ g. (g c).holder) (sym is)
                  ∙ locked.were_free c (ap (λ b. b || among c objs) (sym e) ∙ m)
            ];
            others = λ c m.
                let (apart, out) = two (a == c) (among c objs) m in
                locked.others c out
                ∙ ap (λ g. g c) is
                ∙ ap (λ b. if b then record (s c) { holder = some i } else s c) apart;
            same_values = λ c.
                locked.same_values c ∙ ap (λ g. (g c).value) is ∙ put_holder_value s a c (some i);
          }

  pub unlock_all_others :
      (objs : List ℕ) (s : Store T) (c : ℕ) → among c objs ≡ false → unlock_all objs s c ≡ s c
  unfolding unlock_all
  unlock_all_others [] s c m = refl
  unlock_all_others (a ∷ objs) s c m =
      let (apart, out) = two (a == c) (among c objs) m in
      unlock_all_others objs (put_holder s a none) c out
      ∙ ap (λ b. if b then record (s c) { holder = none } else s c) apart
    where
      two : (x y : Bool) → (x || y) ≡ false → (x ≡ false) × (y ≡ false)
      two x y f = ground arith

  pub unlock_all_value :
      (objs : List ℕ) (s : Store T) (c : ℕ) → (unlock_all objs s c).value ≡ (s c).value
  unfolding unlock_all
  unlock_all_value [] s c = refl
  unlock_all_value (a ∷ objs) s c =
      unlock_all_value objs (put_holder s a none) c ∙ put_holder_value s a c none

  unlock_all_kept :
      (objs : List ℕ) (s : Store T) (c : ℕ)
      → (s c).holder ≡ none
      → (unlock_all objs s c).holder ≡ none
  unfolding unlock_all
  unlock_all_kept [] s c e = e
  unlock_all_kept (a ∷ objs) s c e = unlock_all_kept objs (put_holder s a none) c (by_test (a == c))
    where
      by_test : (b : Bool) → (if b then record (s c) { holder = none } else s c).holder ≡ none
      by_test true = refl
      by_test false = e

  pub unlock_all_free :
      (objs : List ℕ) (s : Store T) (c : ℕ)
      → among c objs ≡ true
      → (unlock_all objs s c).holder ≡ none
  unfolding unlock_all
  unlock_all_free [] s c m = absurd (cc m)
  unlock_all_free (a ∷ objs) s c m = elim (Bool-cases (a == c)) [
    | inl e ↦
        unlock_all_kept objs (put_holder s a none) c
          (ap (λ b. (if b then record (s c) { holder = none } else s c).holder) e)
    | inr e ↦ unlock_all_free objs (put_holder s a none) c (ap (λ b. b || among c objs) (sym e) ∙ m)
  ]

  -- A block that ran: every lock that it took was free, and what it does not name is as it was.
  pub under-ran :
      {A : Type 0} (i : ℕ) (objs : List ℕ) (body : Store T → A × Store T) (s s' : Store T) (x : A)
      → under i objs body s ≡ ran x s'
      → (s₁ : Store T) × Locked objs s s₁ × (s' ≡ unlock_all objs (body s₁).1)
  unfolding under
  under-ran {A} i objs body s s' x e =
      by_lock (lock_all i objs s) (λ u s₁ f. lock_all-Locked i objs s s₁ u f) e
    where
      by_lock :
          (o : Attempt (Store T) (Unit {0}))
          → ((u : Unit {0}) (s₁ : Store T) → o ≡ ran u s₁ → Locked objs s s₁)
          → ◌≡◌ {A = Attempt (Store T) A}
              (elim o [
                | ran _ s₁ ↦ ran (body s₁).0 (unlock_all objs (body s₁).1)
                | waits ↦ waits
                | misuse ↦ misuse
              ])
              (ran x s')
          → (s₁ : Store T) × Locked objs s s₁ × (s' ≡ unlock_all objs (body s₁).1)
      by_lock waits locked f = absurd (cc f)
      by_lock misuse locked f = absurd (cc f)
      by_lock (ran u s₁) locked f = (s₁, locked u s₁ refl, cc)

  -- A body that writes values of the named objects only.
  abbrev pub Touches : {A : Type 0} → List ℕ → (Store T → A × Store T) → Type 0
  Touches objs body = (s : Store T) (c : ℕ) → among c objs ≡ false → (body s).1 c ≡ s c

  pub under_others :
      {A : Type 0} (i : ℕ) (objs : List ℕ) (body : Store T → A × Store T) (s s' : Store T) (x : A)
      → Touches objs body
      → under i objs body s ≡ ran x s'
      → (c j : ℕ) → (s c).holder ≡ some j
      → s' c ≡ s c
  under_others i objs body s s' x touches e c j held =
      let (s₁, locked, is) = under-ran i objs body s s' x e in
      elim (Bool-cases (among c objs)) [
        | inl m ↦ absurd (cc (sym held ∙ locked.were_free c m))
        | inr m ↦
            ap (λ g. g c) is
            ∙ unlock_all_others objs (body s₁).1 c m
            ∙ touches s₁ c m
            ∙ locked.others c m
      ]
