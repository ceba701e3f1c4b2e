-- ===== src/TextPool.antt =====
-- targets/apps/ppm_ch7_1/main.cpp (pwriter) and targets/apps/ppm_ch7_2/main.cpp (preader): a text and its
-- length in the root object of a pool, which one program writes and the other one reads.
pub mod Torn
pub mod Crash
mod Examples
use spack_playground.Prelude.{
  ℕ, zero, suc, ◌+◌, ◌≡◌, Bool, true, false, not, Option, none, some, List, [], ◌∷◌, ◌++◌, ◌==◌,
  if◌then◌else◌, length,
}
use spack_playground.Medium.{Op, store, stores, persist, Image}

abbrev pub Text : Type 0
Text = List ℕ

-- `struct my_root`: `len` is the word at its begin, `buf` the bytes behind it.
abbrev pub max_buf_len : ℕ
max_buf_len = 31

abbrev pub len_at : ℕ
len_at = 0

abbrev pub buf_at : ℕ
buf_at = 8

-- The stores of pwriter for the text in `buf`.
abbrev pub writer_ops : Text → List Op
writer_ops buf =
    (store len_at (length buf) ∷ persist len_at 8)
    ++ (stores buf_at buf ++ persist buf_at (length buf))

-- `main` of pwriter; `created` is whether the pool is made. The result is what it does to the pool and its
-- exit code.
abbrev pub writer_main : ℕ → Bool → Text → List Op × ℕ
writer_main argc created buf =
    if not (argc == 2) then ([], 1) else if not created then ([], 1) else (writer_ops buf, 0)

-- the bytes of the object from an address on
unfoldable pub read_buffer : ℕ → ℕ → Image → List ℕ
read_buffer zero a image = []
read_buffer (suc n) a image = image a ∷ read_buffer n (a + 1) image

-- `strlen`; `none` is a read behind the buffer.
unfoldable pub strlen : List ℕ → Option ℕ
strlen [] = none
strlen (c ∷ s) =
    let rest = strlen s in
    if c == 0 then some 0 else elim rest [ none ↦ none | some n ↦ some (suc n) ]

-- what `printf("%s")` prints
unfoldable pub c_string : List ℕ → Text
c_string [] = []
c_string (c ∷ s) = let rest = c_string s in if c == 0 then [] else c ∷ rest

-- `main` of preader: the lines that it prints and its exit code; `none` is a read behind the buffer.
unfoldable pub reader_main : ℕ → Bool → Image → Option (List Text × ℕ)
unfolding read_buffer strlen c_string
reader_main argc opened image =
    if not (argc == 2)
    then some ([], 1)
    else if not opened
    then some ([], 1)
    else let buf = read_buffer max_buf_len buf_at image in
      elim (strlen buf) [
        | none ↦ none
        | some n ↦ if image len_at == n then some (c_string buf ∷ [], 0) else some ([], 0)
      ]
