-- ===== src/SimpleKv/Laws.antt =====
-- `get` and `put` of `simple_kv`: a finite map, under an invariant that `put` keeps.
use spack_playground.Prelude.{
  ℕ, suc, ◌<◌, ◌≡◌, refl, sym, ap, ◌∙◌, ◌⊎◌, inl, inr, Option, none, some, List, [], ◌∷◌, ◌++◌,
  arith, ◌==◌, ==_iff, ==_refl, if◌then◌else◌, length, get_elem?, set, Bool-cases, get_elem?-set,
  length-set, length-append, get_elem?-append_left, get_elem?-append_last, length-replicate,
}
use spack_playground.SimpleKv.{
  Key, Bucket, SimpleKv, Lookup, found, absent, index, find, read_value, new_kv, get,
}
use spack_playground.SimpleKv.Slots.{slot, bucket_of, entered, slot-entered, slot-replicate}

module _ {V : Type 0} where
  abbrev pub read_slot : List V → Option ℕ → Lookup V
  read_slot values none = absent
  read_slot values (some i) = read_value values i

  pub read_value-set :
      (values : List V) (i n : ℕ) (v : V)
      → i < length values
      → read_value (set values i v) n ≡ (if i == n then found v else read_value values n)
  unfolding read_value
  read_value-set values i n v lt = rw (get_elem?-set values i n v lt, read_value) (ground arith)

  pub read_value-append_left :
      (values : List V) (n : ℕ) (v : V)
      → n < length values
      → read_value (values ++ v ∷ []) n ≡ read_value values n
  unfolding read_value
  read_value-append_left values n v lt =
      rw (get_elem?-append_left values (v ∷ []) n lt, read_value) refl

  pub read_value-append_last :
      (values : List V) (v : V) → read_value (values ++ v ∷ []) (length values) ≡ found v
  unfolding read_value
  read_value-append_last values v = rw (get_elem?-append_last values v, read_value) refl

module _ {K V : Type 0} (key : Key K) where
  -- Entries point into the value vector, and two keys never share an index.
  pub record IsValid (kv : SimpleKv K V) : Type 0 where
    pub some_bucket : 0 < length kv.buckets
    pub bounded : (k : K) (i : ℕ) → slot key kv.buckets k ≡ some i → i < length kv.values
    pub unshared :
        (k j : K) (i : ℕ) → slot key kv.buckets k ≡ some i → slot key kv.buckets j ≡ some i → k ≡ j

  pub get-slot :
      (kv : SimpleKv K V) (k : K)
      → 0 < length kv.buckets
      → get key kv k ≡ read_slot kv.values (slot key kv.buckets k)
  unfolding get
  get-slot kv k some_bucket =
      let (b, here, e) = bucket_of key kv.buckets k some_bucket in
      rw (e, here, get) (by_entry (find key k b))
    where
      by_entry :
          (o : Option ℕ)
          → ◌≡◌ {A = Lookup V}
              (elim o [ none ↦ absent | some i ↦ read_value kv.values i ])
              (read_slot kv.values o)
      by_entry none = refl
      by_entry (some i) = refl

  -- What `put` of `v` under `k` makes of the map.
  pub record Writes (kv kv' : SimpleKv K V) (k : K) (v : V) : Type 0 where
    pub valid : IsValid kv'
    pub buckets : length kv'.buckets ≡ length kv.buckets
    pub reads : (j : K) → get key kv' j ≡ (if key.same k j then found v else get key kv j)

  module _ (kv : SimpleKv K V) (valid : IsValid kv) (k : K) (v : V) where
    open valid use {some_bucket, bounded, unshared}

    assign-reads :
        (i : ℕ) (j : K)
        → slot key kv.buckets k ≡ some i
        → (o : Option ℕ) → slot key kv.buckets j ≡ o
        → read_slot (set kv.values i v) o
          ≡ (if key.same k j then found v else read_slot kv.values o)
    assign-reads i j at_k none at_j = elim (Bool-cases (key.same k j)) [
      | inl e ↦
          let same : k ≡ j = (key.same_iff k j).0 e in
          absurd (cc (sym at_k ∙ ap (slot key kv.buckets) same ∙ at_j))
      | inr e ↦ rw e refl
    ]
    assign-reads i j at_k (some n) at_j =
        read_value-set kv.values i n v (bounded k i at_k) ∙ (elim (Bool-cases (key.same k j)) [
          | inl e ↦
              let same : k ≡ j = (key.same_iff k j).0 e in
              let index : i ≡ n = cc (sym at_k ∙ ap (slot key kv.buckets) same ∙ at_j) in
              rw (e, index, ==_refl n) refl
          | inr e ↦ elim (Bool-cases (i == n)) [
            | inl f ↦
                let index : i ≡ n = (==_iff i n).0 f in
                let same : k ≡ j = unshared k j i at_k (at_j ∙ ap some (sym index)) in
                absurd (cc (sym e ∙ (key.same_iff k j).1 same))
            | inr f ↦ rw (e, f) refl
          ]
        ])

    pub assign-Writes :
        (i : ℕ)
        → slot key kv.buckets k ≡ some i
        → Writes kv (record kv { values = set kv.values i v }) k v
    assign-Writes i at_k =
        let kv' : SimpleKv K V = record kv { values = set kv.values i v } in
        record {
          valid = record {
            some_bucket = some_bucket;
            bounded = λ j n e. omega (arith, bounded j n e, length-set kv.values i v);
            unshared = unshared;
          };
          buckets = refl;
          reads = λ j.
              get-slot kv' j some_bucket
              ∙ assign-reads i j at_k (slot key kv.buckets j) refl
              ∙ ap (λ t. if key.same k j then found v else t) (sym (get-slot kv j some_bucket));
        }

    -- the table after a new entry for `k` in its bucket `b`
    abbrev pub appended : Bucket K → SimpleKv K V
    appended b = record {
      buckets = entered key kv.buckets k b (length kv.values);
      values = kv.values ++ v ∷ [];
    }

    append-reads :
        (j : K) (o : Option ℕ)
        → slot key kv.buckets j ≡ o
        → read_slot (kv.values ++ v ∷ []) (if key.same k j then some (length kv.values) else o)
          ≡ (if key.same k j then found v else read_slot kv.values o)
    append-reads j o at_j = elim (Bool-cases (key.same k j)) [
      | inl e ↦ rw e (read_value-append_last kv.values v)
      | inr e ↦ rw e (by_slot o at_j)
    ]
      where
        by_slot :
            (p : Option ℕ)
            → slot key kv.buckets j ≡ p
            → read_slot (kv.values ++ v ∷ []) p ≡ read_slot kv.values p
        by_slot none f = refl
        by_slot (some n) f = read_value-append_left kv.values n v (bounded j n f)

    module _ (b : Bucket K) (here : get_elem? kv.buckets (index key kv.buckets k) ≡ some b)
        (missing : find key k b ≡ none) where
      slot-appended :
          (j : K)
          → slot key (appended b).buckets j
            ≡ (if key.same k j then some (length kv.values) else slot key kv.buckets j)
      slot-appended j =
          slot-entered key kv.buckets k j b (length kv.values) some_bucket here missing

      buckets-appended : length (appended b).buckets ≡ length kv.buckets
      buckets-appended =
          length-set kv.buckets (index key kv.buckets k) (b ++ (k, length kv.values) ∷ [])

      longer : length (kv.values ++ v ∷ []) ≡ suc (length kv.values)
      longer = omega (arith, length-append kv.values (v ∷ []))

      -- The slot of a key is the new one exactly for `k`.
      appended-cases :
          (j : K) (n : ℕ)
          → slot key (appended b).buckets j ≡ some n
          → ((k ≡ j) × (n ≡ length kv.values))
            ⊎ ((slot key kv.buckets j ≡ some n) × (n < length kv.values))
      appended-cases j n e = elim (Bool-cases (key.same k j)) [
        | inl same ↦
            let new : slot key (appended b).buckets j ≡ some (length kv.values) =
              slot-appended j
              ∙ ap (λ t. if t then some (length kv.values) else slot key kv.buckets j) same in
            inl ((key.same_iff k j).0 same, cc (sym e ∙ new))
        | inr other ↦
            let kept : slot key (appended b).buckets j ≡ slot key kv.buckets j =
              slot-appended j
              ∙ ap (λ t. if t then some (length kv.values) else slot key kv.buckets j) other in
            let old = sym kept ∙ e in inr (old, bounded j n old)
      ]

      appended-bounded :
          (j : K) (n : ℕ)
          → slot key (appended b).buckets j ≡ some n
          → n < length (kv.values ++ v ∷ [])
      appended-bounded j n e = elim (appended-cases j n e) [
        | inl (same, last) ↦ omega (arith, longer)
        | inr (old, below) ↦ omega (arith, longer)
      ]

      appended-unshared :
          (j l : K) (n : ℕ)
          → slot key (appended b).buckets j ≡ some n
          → slot key (appended b).buckets l ≡ some n
          → j ≡ l
      appended-unshared j l n e f = elim (appended-cases j n e) [
        | inl (same, last) ↦ elim (appended-cases l n f) [
          | inl (same', last') ↦ sym same ∙ same'
          | inr (old, below) ↦ absurd (omega arith)
        ]
        | inr (old, below) ↦ elim (appended-cases l n f) [
          | inl (same, last) ↦ absurd (omega arith)
          | inr (old', below') ↦ unshared j l n old old'
        ]
      ]

      pub append-Writes : Writes kv (appended b) k v
      append-Writes =
          let some_bucket' : 0 < length (appended b).buckets = omega (arith, buckets-appended) in
          record {
            valid = record {
              some_bucket = some_bucket';
              bounded = appended-bounded;
              unshared = appended-unshared;
            };
            buckets = buckets-appended;
            reads = λ j.
                get-slot (appended b) j some_bucket'
                ∙ ap (read_slot (kv.values ++ v ∷ [])) (slot-appended j)
                ∙ append-reads j (slot key kv.buckets j) refl
                ∙ ap (λ t. if key.same k j then found v else t) (sym (get-slot kv j some_bucket));
          }

  -- A new table maps no key, for every positive number of buckets.
  pub new_kv-IsValid :
      (n : ℕ) → 0 < n → IsValid (new_kv n) × ((k : K) → get key (new_kv {V = V} n) k ≡ absent)
  new_kv-IsValid n positive =
      let empty : SimpleKv K V = new_kv n in
      let some_bucket : 0 < length empty.buckets =
        omega (arith, length-replicate {A = Bucket K} n []) in
      (
        record {
          some_bucket = some_bucket;
          bounded = λ k i e. absurd (cc (sym e ∙ slot-replicate key n k positive));
          unshared = λ k j i e f. absurd (cc (sym e ∙ slot-replicate key n k positive));
        },
        λ k. get-slot empty k some_bucket ∙ ap (read_slot []) (slot-replicate key n k positive),
      )
