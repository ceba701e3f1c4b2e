-- ===== src/SimpleKv/Slots.antt =====
-- Where a key's value stands, and how a new entry changes that.
use native.Mathlib.Nat.{mod-lt}
use spack_playground.Prelude.{
  ℕ, ◌%◌, ◌<◌, ◌≡◌, refl, sym, ap, ◌∙◌, inl, inr, true, Option, none, some, List, [], ◌∷◌, ◌++◌,
  arith, ◌==◌, ==_iff, ==_refl, if◌then◌else◌, length, get_elem?, set, Bool-cases, get_elem?-set,
  get_elem?-is_some, length-set, replicate, length-replicate, get_elem?-replicate,
}
use spack_playground.SimpleKv.{Key, Bucket, index, find}

unfoldable pub or_else : Option ℕ → Option ℕ → Option ℕ
or_else none d = d
or_else (some n) d = some n

pub or_else-none : (o : Option ℕ) → or_else o none ≡ o
unfolding or_else
or_else-none none = refl
or_else-none (some n) = refl

module _ {K : Type 0} (key : Key K) where
  pub same_refl : (k : K) → key.same k k ≡ true
  same_refl k = (key.same_iff k k).1 refl

  pub find-append_last :
      (k j : K) (i : ℕ) (b : Bucket K)
      → find key k (b ++ (j, i) ∷ [])
        ≡ or_else (find key k b) (if key.same j k then some i else none)
  unfolding find or_else
  find-append_last k j i [] = refl
  find-append_last k j i ((l, n) ∷ b) = ground (arith, find-append_last k j i b)

  slot_at : List (Bucket K) → ℕ → K → Option ℕ
  slot_at buckets n k = elim (get_elem? buckets n) [ none ↦ none | some b ↦ find key k b ]

  -- The index that the bucket of a key holds for it.
  pub slot : List (Bucket K) → K → Option ℕ
  unfolding slot_at
  slot buckets k = slot_at buckets (index key buckets k) k

  slot_at_found :
      (buckets : List (Bucket K)) (n : ℕ) (k : K) (b : Bucket K)
      → get_elem? buckets n ≡ some b
      → slot_at buckets n k ≡ find key k b
  unfolding slot_at
  slot_at_found buckets n k b e = rw (e, slot_at) refl

  -- A key has a bucket, where there is any.
  pub bucket_of :
      (buckets : List (Bucket K)) (k : K)
      → 0 < length buckets
      → (b : Bucket K) × (get_elem? buckets (index key buckets k) ≡ some b)
        × (slot buckets k ≡ find key k b)
  unfolding slot
  bucket_of buckets k some_bucket =
      let (b, e) =
        get_elem?-is_some buckets (index key buckets k) (mod-lt (key.hash k) some_bucket) in
      (b, e, slot_at_found buckets (index key buckets k) k b e)

  -- the buckets after a new entry for `k`
  abbrev pub entered : List (Bucket K) → K → Bucket K → ℕ → List (Bucket K)
  entered buckets k b i = set buckets (index key buckets k) (b ++ (k, i) ∷ [])

  slot_at-set :
      (buckets : List (Bucket K)) (n m : ℕ) (j : K) (b : Bucket K)
      → n < length buckets
      → slot_at (set buckets n b) m j ≡ (if n == m then find key j b else slot_at buckets m j)
  unfolding slot_at
  slot_at-set buckets n m j b lt = rw (get_elem?-set buckets n m b lt, slot_at) (ground arith)

  slot-entered_eq :
      (buckets : List (Bucket K)) (k j : K) (b : Bucket K) (i : ℕ)
      → 0 < length buckets
      → slot (entered buckets k b i) j ≡ (
          if index key buckets k == index key buckets j
          then find key j (b ++ (k, i) ∷ [])
          else slot_at buckets (index key buckets j) j)
  unfolding slot
  slot-entered_eq buckets k j b i some_bucket =
      let n = index key buckets k in
      ap (λ t. slot_at (entered buckets k b i) (key.hash j % t) j)
        (length-set buckets n (b ++ (k, i) ∷ []))
      ∙ slot_at-set buckets n (index key buckets j) j (b ++ (k, i) ∷ [])
          (mod-lt (key.hash k) some_bucket)

  -- A new entry changes the slot of its own key only.
  pub slot-entered :
      (buckets : List (Bucket K)) (k j : K) (b : Bucket K) (i : ℕ)
      → 0 < length buckets
      → get_elem? buckets (index key buckets k) ≡ some b
      → find key k b ≡ none
      → slot (entered buckets k b i) j ≡ (if key.same k j then some i else slot buckets j)
  unfolding slot or_else
  slot-entered buckets k j b i some_bucket here missing =
      slot-entered_eq buckets k j b i some_bucket ∙ (elim (Bool-cases (key.same k j)) [
        | inl e ↦
            let same : k ≡ j = (key.same_iff k j).0 e in
            rw
              (
                ← same,
                ==_refl (index key buckets k),
                same_refl k,
                find-append_last k k i b,
                missing,
                same_refl k,
                or_else,
              )
              refl
        | inr e ↦ rw e (elim (Bool-cases (index key buckets k == index key buckets j)) [
          | inl f ↦
              let there : index key buckets k ≡ index key buckets j = (==_iff _ _).0 f in
              rw (f, find-append_last j k i b, e, ← there, slot_at_found buckets _ j b here)
                (or_else-none (find key j b))
          | inr f ↦ rw f refl
        ])
      ])

  -- Fresh buckets hold no key.
  pub slot-replicate : (n : ℕ) (k : K) → 0 < n → slot (replicate n []) k ≡ none
  unfolding slot
  slot-replicate n k positive =
      let empty : List (Bucket K) = replicate n [] in
      let len : length empty ≡ n = length-replicate n [] in
      let some_bucket : 0 < length empty = omega (arith, len) in
      let lt : index key empty k < n = omega (arith, mod-lt (key.hash k) some_bucket, len) in
      slot_at_found empty (index key empty k) k [] (get_elem?-replicate n (index key empty k) [] lt)
      ∙ find-nil k
    where
      find-nil : (j : K) → find key j [] ≡ none
      find-nil j = unfold find in refl

  -- The same where the bucket may hold the key already: then the older entry stays in front.
  pub slot-entered_again :
      (buckets : List (Bucket K)) (k j : K) (b : Bucket K) (i : ℕ)
      → 0 < length buckets
      → get_elem? buckets (index key buckets k) ≡ some b
      → slot (entered buckets k b i) j
        ≡ or_else (slot buckets j) (if key.same k j then some i else none)
  unfolding slot
  slot-entered_again buckets k j b i some_bucket here =
      slot-entered_eq buckets k j b i some_bucket
      ∙ (elim (Bool-cases (index key buckets k == index key buckets j)) [
        | inl f ↦
            let there : index key buckets k ≡ index key buckets j = (==_iff _ _).0 f in
            rw
              (
                f,
                find-append_last j k i b,
                ← there,
                slot_at_found buckets (index key buckets k) j b here,
              )
              refl
        | inr f ↦ elim (Bool-cases (key.same k j)) [
          | inl e ↦
              let same : k ≡ j = (key.same_iff k j).0 e in
              absurd (cc (sym f ∙ (==_iff _ _).1 (ap (index key buckets) same)))
          | inr e ↦ rw (f, e, or_else-none) refl
        ]
      ])
