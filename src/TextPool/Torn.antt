-- ===== src/TextPool/Torn.antt =====
-- What `strlen` and `printf` find in a buffer that was written in part.
use spack_playground.Prelude.{
  ℕ, zero, suc, ◌+◌, ◌<◌, ◌≡◌, ◌≢◌, refl, ap, subst, ◌⊎◌, inl, inr, false, some, [], ◌∷◌, arith,
  ◌==◌, ne→==, length, get_elem?, All,
}
use spack_playground.Medium.{Image, run}
use spack_playground.TextPool.{Text, read_buffer, strlen, c_string}

-- The bytes from an address on stand in this relation to those of the text, and a zero is behind them.
abbrev pub Bytes : (ℕ → ℕ → Type 0) → ℕ → Text → Image → Type 0
Bytes R a [] image = image a ≡ 0
Bytes R a (c ∷ t) image = R c (image a) × Bytes R (a + 1) t image

pub Bytes-points :
    (R : ℕ → ℕ → Type 0) (a : ℕ) (t : Text) (image : Image)
    → ((j v : ℕ) → get_elem? t j ≡ some v → R v (image (a + j)))
    → image (a + length t) ≡ 0
    → Bytes R a t image
Bytes-points R a [] image at behind = subst (λ b. image b ≡ 0) (omega arith) behind
Bytes-points R a (c ∷ t) image at behind = (
  subst (λ b. R c (image b)) (omega arith) (at 0 c refl),
  Bytes-points R (a + 1) t image
      (λ j v e. subst (λ b. R v (image b)) (omega arith) (at (suc j) v e))
      (subst (λ b. image b ≡ 0) (omega arith) behind),
)

-- a byte of the text, or a zero where it was not written
abbrev pub ByteAt : ℕ → ℕ → Type 0
ByteAt v w = (w ≡ 0) ⊎ (w ≡ v)

abbrev pub Torn : ℕ → Text → Image → Type 0
Torn = Bytes ByteAt

-- A torn text is as long as the text only where it is the text.
pub strlen-Torn :
    (a n : ℕ) (t : Text) (image : Image)
    → All (λ c. c ≢ 0) t
    → length t < n
    → Torn a t image
    → (m : ℕ) × (strlen (read_buffer n a image) ≡ some m)
      × ((m ≡ length t) → c_string (read_buffer n a image) ≡ t)
      × ((m ≡ 0) → c_string (read_buffer n a image) ≡ [])
unfolding strlen read_buffer c_string
strlen-Torn a zero t image letters fits torn = elim fits [ ]
strlen-Torn a (suc n) [] image letters fits torn =
    (0, rw torn refl, λ e. rw torn refl, λ e. rw torn refl)
strlen-Torn a (suc n) (c ∷ t) image letters fits (inl blank, torn) =
    (0, rw blank refl, λ e. absurd (omega arith), λ e. rw blank refl)
strlen-Torn a (suc n) (c ∷ t) image letters fits (inr same, torn) =
    let (m, run, whole, empty) = strlen-Torn (a + 1) n t image letters.1 (omega arith) torn in
    let letter : (c == 0) ≡ false = ne→== c 0 letters.0 in
    (
      suc m,
      rw (same, letter, run) refl,
      λ e. rw (same, letter) (ap (λ s. c ∷ s) (whole (omega arith))),
      λ e. absurd (omega arith),
    )

pub strlen_whole :
    (a n : ℕ) (t : Text) (image : Image)
    → All (λ c. c ≢ 0) t
    → length t < n
    → Bytes (λ c w. w ≡ c) a t image
    → (strlen (read_buffer n a image) ≡ some (length t)) × (c_string (read_buffer n a image) ≡ t)
unfolding strlen read_buffer c_string
strlen_whole a zero t image letters fits bytes = elim fits [ ]
strlen_whole a (suc n) [] image letters fits bytes = (rw bytes refl, rw bytes refl)
strlen_whole a (suc n) (c ∷ t) image letters fits bytes =
    let (run, whole) = strlen_whole (a + 1) n t image letters.1 (omega arith) bytes.1 in
    let letter : (c == 0) ≡ false = ne→== c 0 letters.0 in
    (rw (bytes.0, letter, run) refl, rw (bytes.0, letter) (ap (λ s. c ∷ s) whole))
