-- ===== src/TextPool/Crash.antt =====
-- What preader prints after a crash of pwriter.
use spack_playground.Prelude.{
  ℕ, ◌+◌, ◌<◌, ◌≡◌, ◌≢◌, refl, sym, ap, ◌∙◌, subst, ◌⊎◌, inl, inr, Bool, true, Option, some, List,
  [], ◌∷◌, ◌++◌, arith, ◌==◌, ==_refl, if◌then◌else◌, Bool-cases, length, get_elem?, get_elem?-lt,
  All,
}
use spack_playground.Medium.{
  store, stores, persist, Image, Survives, CrashOf, durable, run, after, OneOf,
}
use spack_playground.Medium.Crashes.{
  settled-Within, OnlyWrites, OnlyWrites-append, crash-Within, run-Within, run-append, stands,
}
use spack_playground.Medium.Ranges.{stores_write, persist_writes, copied_settles, word_settles}
use spack_playground.TextPool.{
  Text, max_buf_len, len_at, buf_at, writer_ops, read_buffer, strlen, c_string, reader_main,
}
use spack_playground.TextPool.Torn.{Bytes-points, ByteAt, Torn, strlen-Torn, strlen_whole}

-- the root object that libpmemobj makes
abbrev pub zeros : Image
zeros a = 0

module _ (buf : Text) where
  -- what the program writes to an address of the object
  writer_writes :
      (P : ℕ → Type 0) (b : ℕ)
      → ((b ≡ len_at) → P (length buf))
      → ((j v : ℕ) → b ≡ buf_at + j → get_elem? buf j ≡ some v → P v)
      → OnlyWrites P b (writer_ops buf)
  writer_writes P b len byte =
      OnlyWrites-append P b (store len_at (length buf) ∷ persist len_at 8)
        (stores buf_at buf ++ persist buf_at (length buf))
        (λ e. len (ground arith), persist_writes P len_at b 8)
        (OnlyWrites-append P b (stores buf_at buf) (persist buf_at (length buf))
          (stores_write P buf_at b buf byte) (persist_writes P buf_at b (length buf)))

  module _ (image : Image) where
    abbrev pub Prints : List Text → Type 0
    Prints ls = reader_main 2 true image ≡ some (ls, 0)

    prints_by :
        (m : ℕ)
        → strlen (read_buffer max_buf_len buf_at image) ≡ some m
        → reader_main 2 true image ≡ (
            if image len_at == m
            then some (c_string (read_buffer max_buf_len buf_at image) ∷ [], 0)
            else some ([], 0))
    unfolding reader_main
    prints_by m e = rw (reader_main, e) refl

    -- what preader prints on an image whose bytes are torn or not
    Torn-Prints :
        All (λ c. c ≢ 0) buf
        → length buf < max_buf_len
        → Torn buf_at buf image
        → ((image len_at ≡ 0) → Prints [] ⊎ Prints ([] ∷ []))
          × ((image len_at ≡ length buf) → Prints [] ⊎ Prints (buf ∷ []))
    Torn-Prints letters fits torn =
        let (m, run, whole, empty) = strlen-Torn buf_at max_buf_len buf image letters fits torn in
        (
          λ e. elim (Bool-cases (image len_at == m)) [
            | inr other ↦ inl (prints_by m run ∙ chosen other)
            | inl same ↦
                inr (
                  prints_by m run ∙ chosen same ∙ ap (λ s. some (s ∷ [], 0)) (empty (ground arith)))
          ],
          λ e. elim (Bool-cases (image len_at == m)) [
            | inr other ↦ inl (prints_by m run ∙ chosen other)
            | inl same ↦
                inr (
                  prints_by m run ∙ chosen same ∙ ap (λ s. some (s ∷ [], 0)) (whole (ground arith)))
          ],
        )
      where
        chosen :
            {x y : Bool}
            → x ≡ y
            → ◌≡◌ {A = Option (List Text × ℕ)}
                (if x
                  then some (c_string (read_buffer max_buf_len buf_at image) ∷ [], 0)
                  else some ([], 0))
                (if y
                  then some (c_string (read_buffer max_buf_len buf_at image) ∷ [], 0)
                  else some ([], 0))
        chosen e =
            ap
              (λ t.
                if t
                then some (c_string (read_buffer max_buf_len buf_at image) ∷ [], 0)
                else some ([], 0))
              e

  module _ (image : Image) (crash : CrashOf (durable zeros) (writer_ops buf) image) where
    len_crash : (image len_at ≡ 0) ⊎ (image len_at ≡ length buf)
    len_crash =
        crash-Within (ByteAt (length buf)) len_at (writer_ops buf) (durable zeros) image
          (writer_writes (ByteAt (length buf)) len_at (λ e. inr refl)
            (λ j v e f. absurd (omega arith)))
          (settled-Within (ByteAt (length buf)) 0 (inl refl)) crash

    byte_crash : (j v : ℕ) → get_elem? buf j ≡ some v → ByteAt v (image (buf_at + j))
    byte_crash j v e =
        crash-Within (ByteAt v) (buf_at + j) (writer_ops buf) (durable zeros) image
          (writer_writes (ByteAt v) (buf_at + j) (λ f. absurd (omega arith))
            (λ i w at f. inr (same i w at f)))
          (settled-Within (ByteAt v) 0 (inl refl)) crash
      where
        same : (i w : ℕ) → buf_at + j ≡ buf_at + i → get_elem? buf i ≡ some w → w ≡ v
        same i w at f = cc (sym f ∙ ap (get_elem? buf) (let back : i ≡ j = omega arith in back) ∙ e)

    behind_crash : image (buf_at + length buf) ≡ 0
    behind_crash =
        crash-Within (λ w. w ≡ 0) (buf_at + length buf) (writer_ops buf) (durable zeros) image
          (writer_writes (λ w. w ≡ 0) (buf_at + length buf) (λ f. absurd (omega arith))
            (λ i w at f. absurd (outside i w at f)))
          (settled-Within (λ w. w ≡ 0) 0 refl) crash
      where
        outside : (i w : ℕ) → buf_at + length buf ≡ buf_at + i → get_elem? buf i ≡ some w → ⊥
        outside i w at f = omega (arith, get_elem?-lt buf i w f)

    crash-Torn : Torn buf_at buf image
    crash-Torn = Bytes-points ByteAt buf_at buf image byte_crash behind_crash

    -- A crash of pwriter at any moment leaves a pool on which preader prints the whole text, an empty
    -- line or nothing, never a part of the text.
    pub crash-Prints :
        All (λ c. c ≢ 0) buf
        → length buf < max_buf_len
        → Prints image [] ⊎ (Prints image ([] ∷ []) ⊎ Prints image (buf ∷ []))
    crash-Prints letters fits =
        let (early, late) = Torn-Prints image letters fits crash-Torn in
        elim len_crash [
          | inl e ↦ elim (early e) [ inl p ↦ inl p | inr p ↦ inr (inl p) ]
          | inr e ↦ elim (late e) [ inl p ↦ inl p | inr p ↦ inr (inr p) ]
        ]

  -- What stands behind pwriter, whatever is still in the caches, is the text: preader prints it.
  pub finished-Prints :
      (image : Image)
      → All (λ c. c ≢ 0) buf
      → length buf < max_buf_len
      → Survives (after (writer_ops buf) (durable zeros)) image
      → Prints image (buf ∷ [])
  finished-Prints image letters fits survives =
      let (run, whole) =
        strlen_whole buf_at max_buf_len buf image letters fits
          (Bytes-points (λ c w. w ≡ c) buf_at buf image byte_stands behind_stands) in
      prints_by image (length buf) run
      ∙ ap
          (λ t.
            if t
            then some (c_string (read_buffer max_buf_len buf_at image) ∷ [], 0)
            else some ([], 0))
          (ap (λ n. n == length buf) len_stands ∙ ==_refl (length buf))
      ∙ ap (λ s. some (s ∷ [], 0)) whole
    where
      only_one : {v w : ℕ} → OneOf w (v ∷ []) → w ≡ v
      only_one (inl e) = e
      only_one (inr f) = elim f [ ]

      len_stands : image len_at ≡ length buf
      len_stands =
          stands len_at (length buf) (store len_at (length buf) ∷ persist len_at 8)
            (stores buf_at buf ++ persist buf_at (length buf)) (durable zeros len_at) (image len_at)
            (word_settles len_at 8 (length buf) (durable zeros len_at) (omega arith))
            (OnlyWrites-append (λ x. x ≡ length buf) len_at (stores buf_at buf)
              (persist buf_at (length buf))
              (stores_write (λ x. x ≡ length buf) buf_at len_at buf
                (λ j v at e. absurd (omega arith)))
              (persist_writes (λ x. x ≡ length buf) buf_at len_at (length buf)))
            (survives len_at)

      byte_stands : (j v : ℕ) → get_elem? buf j ≡ some v → image (buf_at + j) ≡ v
      byte_stands j v e = only_one (
          subst (λ d. OneOf (image (buf_at + j)) d.possible)
            (run-append (store len_at (length buf) ∷ persist len_at 8)
                (stores buf_at buf ++ persist buf_at (length buf)) (buf_at + j)
                (durable zeros (buf_at + j))
              ∙ copied_settles buf_at (buf_at + j) j (length buf) buf v
                  (run (store len_at (length buf) ∷ persist len_at 8) (buf_at + j)
                    (durable zeros (buf_at + j)))
                  refl (get_elem?-lt buf j v e) e)
            (survives (buf_at + j)))

      behind_stands : image (buf_at + length buf) ≡ 0
      behind_stands =
          (run-Within (λ w. w ≡ 0) (buf_at + length buf) (writer_ops buf)
              (durable zeros (buf_at + length buf))
              (writer_writes (λ w. w ≡ 0) (buf_at + length buf) (λ f. absurd (omega arith))
                (λ i w at f. absurd (omega (arith, get_elem?-lt buf i w f))))
              (settled-Within (λ w. w ≡ 0) 0 refl)).possible
            (image (buf_at + length buf)) (survives (buf_at + length buf))
