-- ===== src/Heap/Chain.antt =====
-- From a first node the `next` pointers lead through distinct nodes to the null pointer.
use spack_playground.Prelude.{
  ◌≡◌, refl, ◌≢◌, Bool, true, false, ◌||◌, Option, none, some, List, [], ◌∷◌, ◌++◌, suc, ap, ◌∙◌,
  length, arith, inl, inr, Bool-cases, ==_iff, ==_refl, ne→==, ◌==◌, if◌then◌else◌,
}
use spack_playground.Heap.{Ptr, null, Node, node, Heap, write, load, set_next}

-- Address and value of each node, in order.
abbrev pub Cells : Type 0 → Type 0
Cells A = List (Ptr × A)

module _ {A : Type 0} where
  abbrev pub values : Cells A → List A
  values [] = []
  values ((p, v) ∷ xs) = v ∷ values xs

  abbrev pub has : Ptr → Cells A → Bool
  has a [] = false
  has a ((p, v) ∷ xs) = (a == p) || has a xs

  abbrev pub first : Cells A → Ptr
  first [] = null
  first ((p, v) ∷ xs) = p

  abbrev pub last_from : Ptr → Cells A → Ptr
  last_from d [] = d
  last_from d ((p, v) ∷ xs) = last_from p xs

  abbrev pub Chain : Heap A → Cells A → Type 0
  Chain h [] = Unit
  Chain h ((p, v) ∷ xs) =
      (p ≢ null) × (h p ≡ some (node v (first xs))) × (has p xs ≡ false) × Chain h xs

module _ {A : Type 0} where
  pub values-append : (xs ys : Cells A) → values (xs ++ ys) ≡ values xs ++ values ys
  values-append [] ys = refl
  values-append (x ∷ xs) ys = rw (values-append xs ys)

  -- A chain survives a write to an address that it does not hold.
  pub Chain-write :
      (h : Heap A) (xs : Cells A) (a : Ptr) (c : Option (Node A))
      → has a xs ≡ false
      → Chain h xs
      → Chain (write h a c) xs
  Chain-write h [] a c out s = tt
  Chain-write h ((p, v) ∷ xs) a c out s =
      (s.0, ground arith, s.2, Chain-write h xs a c (ground arith) s.3)

  pub has_of_unused :
      (h : Heap A) (xs : Cells A) (a : Ptr) → Chain h xs → h a ≡ none → has a xs ≡ false
  has_of_unused h [] a s unused = refl
  has_of_unused h ((p, v) ∷ xs) a s unused = ground (arith, has_of_unused h xs a s.3)

  pub has-append_last :
      (xs : Cells A) (a p : Ptr) (v : A)
      → has a xs ≡ false
      → (a == p) ≡ false
      → has a (xs ++ (p, v) ∷ []) ≡ false
  has-append_last [] a p v out ne = ground arith
  has-append_last (x ∷ xs) a p v out ne = ground (arith, has-append_last xs a p v)

  pub last-ne :
      (xs : Cells A) (a p : Ptr) (v : A)
      → has a ((p, v) ∷ xs) ≡ false
      → (a == last_from p xs) ≡ false
  last-ne [] a p v out = ground arith
  last-ne ((q, w) ∷ xs) a p v out = last-ne xs a q w (ground arith)

  pub last-ne_null :
      (h : Heap A) (xs : Cells A) (p : Ptr) (v : A) → Chain h ((p, v) ∷ xs) → last_from p xs ≢ null
  last-ne_null h [] p v s = s.0
  last-ne_null h ((q, w) ∷ xs) p v s = last-ne_null h xs q w s.3

  -- the heap after a new node is put behind the last one
  abbrev pub linked : Heap A → Ptr → A → Ptr → A → Heap A
  linked h fresh w last lv = write (write h fresh (some (node w null))) last (some (node lv fresh))

  pub Chain-linked :
      (h : Heap A) (xs : Cells A) (p : Ptr) (v : A) (fresh : Ptr) (w : A)
      → Chain h ((p, v) ∷ xs)
      → h fresh ≡ none
      → fresh ≢ null
      → (lv : A) × (h (last_from p xs) ≡ some (node lv null))
        × Chain (linked h fresh w (last_from p xs) lv) ((p, v) ∷ (xs ++ (fresh, w) ∷ []))
  Chain-linked h [] p v fresh w s unused ne =
      (v, s.1, (s.0, ground arith, ground arith, (ne, ground arith, refl, tt)))
  Chain-linked h ((q, u) ∷ xs) p v fresh w s unused ne =
      let ih = Chain-linked h xs q u fresh w s.3 unused ne in
      (
        ih.0,
        ih.1,
        (
          s.0,
          ground (arith, last-ne xs p q u s.2),
          has-append_last ((q, u) ∷ xs) p fresh w s.2 (ground arith),
          ih.2,
        ),
      )

  -- The node behind the first one heads the rest of the chain.
  pub load-first :
      (h : Heap A) (p : Ptr) (v : A) (xs : Cells A)
      → Chain h ((p, v) ∷ xs)
      → load h p ≡ some (node v (first xs))
  unfolding load
  load-first h p v xs s = ground arith

  pub set_next-linked :
      (h : Heap A) (fresh last : Ptr) (w lv : A)
      → h last ≡ some (node lv null)
      → last ≢ null
      → h fresh ≡ none
      → set_next (write h fresh (some (node w null))) last fresh ≡ some (linked h fresh w last lv)
  unfolding set_next
  set_next-linked h fresh last w lv e ne unused = ground arith

  pub last-append : (xs : Cells A) (p d : Ptr) (v : A) → last_from d (xs ++ (p, v) ∷ []) ≡ p
  last-append [] p d v = refl
  last-append ((q, u) ∷ xs) p d v = last-append xs p q v

  pub first-append : (xs : Cells A) (p q : Ptr) (v w : A) → first (((p, v) ∷ xs) ++ (q, w) ∷ []) ≡ p
  first-append xs p q v w = refl

  -- A chain depends on the heap at its own addresses only.
  pub Chain-frame :
      (h g : Heap A) (xs : Cells A)
      → ((a : Ptr) → has a xs ≡ true → g a ≡ h a)
      → Chain h xs
      → Chain g xs
  Chain-frame h g [] same s = tt
  Chain-frame h g ((p, v) ∷ xs) same s =
      (s.0, same p (ground arith) ∙ s.1, s.2, Chain-frame h g xs (λ a i. same a (ground arith)) s.3)

  pub last-mem : (xs : Cells A) (p : Ptr) (v : A) → has (last_from p xs) ((p, v) ∷ xs) ≡ true
  last-mem [] p v = ground arith
  last-mem ((q, u) ∷ xs) p v = ground (arith, last-mem xs q u)

  pub length-values : (xs : Cells A) → length (values xs) ≡ length xs
  length-values [] = refl
  length-values (x ∷ xs) = ap suc (length-values xs)

  pub has-append :
      (xs ys : Cells A) (a : Ptr) → has a (xs ++ ys) ≡ (if has a xs then true else has a ys)
  has-append [] ys a = refl
  has-append (x ∷ xs) ys a = ground (arith, has-append xs ys a)

  pub ne_of_has : (xs : Cells A) (a b : Ptr) → has a xs ≡ true → has b xs ≡ false → (a == b) ≡ false
  ne_of_has xs a b i out = elim (Bool-cases (a == b)) [
    | inl e ↦ let same : a ≡ b = (==_iff a b).0 e in absurd (cc (ap (λ t. has t xs) same))
    | inr e ↦ e
  ]

  pub linked_outside :
      (h : Heap A) (fresh last a : Ptr) (w lv : A)
      → (a == fresh) ≡ false
      → (a == last) ≡ false
      → linked h fresh w last lv a ≡ h a
  linked_outside h fresh last a w lv e f = rw (f, e) refl

  pub load-linked :
      (h : Heap A) (fresh last : Ptr) (w lv : A)
      → last ≢ null
      → load (linked h fresh w last lv) last ≡ some (node lv fresh)
  unfolding load
  load-linked h fresh last w lv ne = rw (ne→== last null ne, ==_refl last) refl

  -- Chains that share no node.
  abbrev pub Disjoint : Cells A → Cells A → Type 0
  Disjoint xs ys = (a : Ptr) → has a xs ≡ true → has a ys ≡ false

  pub Disjoint-append_last :
      (xs ys : Cells A) (p : Ptr) (v : A)
      → Disjoint xs ys
      → has p ys ≡ false
      → Disjoint (xs ++ (p, v) ∷ []) ys
  Disjoint-append_last xs ys p v apart out a i = elim (Bool-cases (a == p)) [
    | inl e ↦ let same : a ≡ p = (==_iff a p).0 e in rw same out
    | inr e ↦ apart a (elim (Bool-cases (has a xs)) [
      | inl old ↦ old
      | inr new ↦ absurd (cc (has-append_last xs a p v new e))
    ])
  ]
