-- ===== src/SimpleKv/Rebuild/Keys.antt =====
-- The first position of a key among the stored keys, and the buckets that agree with it.
use spack_playground.Prelude.{
  ℕ, zero, suc, ◌+◌, ◌-◌, ◌<◌, ◌≡◌, refl, sym, ap, ◌∙◌, Option, none, some, List, [], ◌∷◌, ◌++◌,
  append_assoc, append-nil, arith, if◌then◌else◌, length, get_elem?, replicate, length-append,
  length-set, length-replicate,
}
use spack_playground.SimpleKv.{Key, Bucket, index}
use spack_playground.SimpleKv.Slots.{
  or_else, slot, bucket_of, entered, slot-entered_again, slot-replicate,
}
use spack_playground.SimpleKv.Rebuild.{enter, load_from}

abbrev next_index : Option ℕ → Option ℕ
next_index none = none
next_index (some i) = some (suc i)

module _ {K : Type 0} (key : Key K) where
  unfoldable pub index_of : K → List K → Option ℕ
  index_of k [] = none
  index_of k (j ∷ ks) = if key.same j k then some 0 else next_index (index_of k ks)

  pub index_of-append_last :
      (k j : K) (ks : List K)
      → index_of j (ks ++ k ∷ [])
        ≡ or_else (index_of j ks) (if key.same k j then some (length ks) else none)
  unfolding index_of or_else
  index_of-append_last k j [] = ground arith
  index_of-append_last k j (l ∷ ks) = ground (arith, index_of-append_last k j ks)

  pub index_of-lt : (k : K) (ks : List K) (i : ℕ) → index_of k ks ≡ some i → i < length ks
  unfolding index_of
  index_of-lt k [] i e = cc
  index_of-lt k (j ∷ ks) zero e = omega arith
  index_of-lt k (j ∷ ks) (suc i) e = ground (arith, index_of-lt k ks i)

  pub index_of_unshared :
      (k j : K) (ks : List K) (i : ℕ) → index_of k ks ≡ some i → index_of j ks ≡ some i → k ≡ j
  unfolding index_of
  index_of_unshared k j [] i e f = absurd (cc)
  index_of_unshared k j (l ∷ ks) i e f =
      ground (arith, index_of_unshared k j ks (i - 1), key.same_iff l k, key.same_iff l j)

  -- The buckets hold the first position of each key.
  abbrev pub Agrees : List (Bucket K) → List K → Type 0
  Agrees buckets keys = (k : K) → slot key buckets k ≡ index_of k keys

  pub entered-Agrees :
      (buckets : List (Bucket K)) (keys : List K) (k : K) (b : Bucket K)
      → 0 < length buckets
      → Agrees buckets keys
      → get_elem? buckets (index key buckets k) ≡ some b
      → Agrees (entered key buckets k b (length keys)) (keys ++ k ∷ [])
  entered-Agrees buckets keys k b some_bucket agrees here j =
      slot-entered_again key buckets k j b (length keys) some_bucket here
      ∙ ap (λ t. or_else t (if key.same k j then some (length keys) else none)) (agrees j)
      ∙ sym (index_of-append_last k j keys)

  pub enter-Agrees :
      (buckets : List (Bucket K)) (keys : List K) (k : K)
      → 0 < length buckets
      → Agrees buckets keys
      → (buckets' : List (Bucket K)) × (enter key buckets k (length keys) ≡ some buckets')
        × (length buckets' ≡ length buckets)
        × Agrees buckets' (keys ++ k ∷ [])
  unfolding enter
  enter-Agrees buckets keys k some_bucket agrees =
      let (b, here, e) = bucket_of key buckets k some_bucket in
      (
        entered key buckets k b (length keys),
        rw (here, enter) refl,
        length-set buckets (index key buckets k) (b ++ (k, length keys) ∷ []),
        entered-Agrees buckets keys k b some_bucket agrees here,
      )

  get_elem?-middle :
      (front rest : List K) (k : K) → get_elem? (front ++ k ∷ rest) (length front) ≡ some k
  get_elem?-middle [] rest k = refl
  get_elem?-middle (x ∷ front) rest k = get_elem?-middle front rest k

  load_from-Agrees :
      (front rest : List K) (buckets : List (Bucket K))
      → 0 < length buckets
      → Agrees buckets front
      → (buckets' : List (Bucket K)) × (load_from key
            (length rest)
            (length front)
            (front ++ rest)
            buckets
          ≡ some buckets')
        × (length buckets' ≡ length buckets)
        × Agrees buckets' (front ++ rest)
  unfolding load_from
  load_from-Agrees front [] buckets some_bucket agrees =
      (buckets, refl, refl, rw (append-nil front) agrees)
  load_from-Agrees front (k ∷ rest) buckets some_bucket agrees =
      let (b₁, run, same, agrees₁) = enter-Agrees buckets front k some_bucket agrees in
      let (b₂, runs, same₂, agrees₂) =
        load_from-Agrees (front ++ k ∷ []) rest b₁ (omega arith) agrees₁ in
      let grows : length front + 1 ≡ length (front ++ k ∷ []) =
        omega (arith, length-append front (k ∷ [])) in
      let regroup : front ++ k ∷ rest ≡ (front ++ k ∷ []) ++ rest =
        sym (append_assoc front (k ∷ []) rest) in
      (
        b₂,
        rw (get_elem?-middle front rest k, load_from, run)
            (ap (λ t. load_from key (length rest) t (front ++ k ∷ rest) b₁) grows
              ∙ ap (λ t. load_from key (length rest) (length (front ++ k ∷ [])) t b₁) regroup
              ∙ runs),
        same₂ ∙ same,
        λ j. agrees₂ j ∙ ap (index_of j) (sym regroup),
      )

  -- The loop of the constructor over all keys, on fresh buckets.
  pub load-Agrees :
      (n : ℕ) (keys : List K)
      → 0 < n
      → (buckets : List (Bucket K)) × (load_from key (length keys) 0 keys (replicate n [])
          ≡ some buckets)
        × (length buckets ≡ n)
        × Agrees buckets keys
  load-Agrees n keys positive =
      let len : length (replicate {A = Bucket K} n []) ≡ n = length-replicate n [] in
      let (buckets, run, same, agrees) =
        load_from-Agrees [] keys (replicate n []) (omega (arith, len))
          (λ k. slot-replicate key n k positive ∙ none_first k) in
      (buckets, run, same ∙ len, agrees)
    where
      none_first : (k : K) → none ≡ index_of k []
      none_first k = unfold index_of in refl
