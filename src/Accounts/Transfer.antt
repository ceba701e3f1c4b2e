-- ===== src/Accounts/Transfer.antt =====
-- What a crash leaves of the payment alone.
use spack_playground.Prelude.{
  ℕ, ◌+◌, ◌-◌, ◌^◌, ◌≤◌, ◌<◌, ◌≡◌, ◌≢◌, refl, sym, ap, ◌∙◌, subst, ◌⊎◌, inl, inr, List, [], ◌∷◌,
  arith, ==_refl, ne→==,
}
use spack_playground.Medium.{Memory, settled, publish, OneOf, Image, CrashOf, step}
use spack_playground.Medium.Crashes.{Within}
use spack_playground.Accounts.{Account, balance_of, word, pay_ops, transact_ops}

-- For two accounts the transaction and the published actions are the same payment.
pub transact-pay_ops :
    (p : ℕ) (a b : Account) (m : Memory)
    → balance_of a ≢ balance_of b
    → transact_ops p a b m ≡ pay_ops p a b m
transact-pay_ops p a b m other =
    rw
      (
        ==_refl (balance_of a),
        ==_refl (balance_of b),
        ne→== (balance_of a) (balance_of b) other,
        ne→== (balance_of b) (balance_of a) (λ e. other (sym e)),
      )
      refl

word_less : (x p : ℕ) → p ≤ x → x < 2 ^ 64 → word (x + (2 ^ 64 - p)) ≡ x - p
word_less x p le lt = omega arith

word_more : (x p : ℕ) → x + p < 2 ^ 64 → word (x + p) ≡ x + p
word_more x p lt = omega arith

-- A crash of the payment at any moment leaves both balances as they were or both changed.
pub pay-conserves :
    (p x y : ℕ) (a b : Account) (m : Memory) (image : Image)
    → balance_of a ≢ balance_of b
    → p ≤ x
    → x < 2 ^ 64
    → y + p < 2 ^ 64
    → Within (λ w. w ≡ x) (m (balance_of a))
    → Within (λ w. w ≡ y) (m (balance_of b))
    → CrashOf m (pay_ops p a b m) image
    → ((image (balance_of a) ≡ x) × (image (balance_of b) ≡ y))
      ⊎ ((image (balance_of a) ≡ x - p) × (image (balance_of b) ≡ y + p))
pay-conserves p x y a b m image other le small fits has_x has_y (inl survives) = inl (
  has_x.possible (image (balance_of a)) (survives (balance_of a)),
  has_y.possible (image (balance_of b)) (survives (balance_of b)),
)
pay-conserves p x y a b m image other le small fits has_x has_y (inr survives) = inr (
  only (subst (λ c. OneOf (image (balance_of a)) c.possible) of_a (survives (balance_of a)))
      ∙ ap (λ n. word (n + (2 ^ 64 - p))) has_x.now
      ∙ word_less x p le small,
  only (subst (λ c. OneOf (image (balance_of b)) c.possible) of_b (survives (balance_of b)))
      ∙ ap (λ n. word (n + p)) has_y.now
      ∙ word_more y p fits,
)
  where
    only : {v w : ℕ} → OneOf w (v ∷ []) → w ≡ v
    only (inl e) = e
    only (inr f) = elim f [ ]

    left : ℕ
    left = word ((m (balance_of a)).now + (2 ^ 64 - p))

    more : ℕ
    more = word ((m (balance_of b)).now + p)

    acts : List (ℕ × ℕ)
    acts = (balance_of a, left) ∷ (balance_of b, more) ∷ []

    of_a : step (publish acts) (balance_of a) (m (balance_of a)) ≡ settled left
    of_a =
        rw (==_refl (balance_of a), ne→== (balance_of b) (balance_of a) (λ e. other (sym e))) refl

    of_b : step (publish acts) (balance_of b) (m (balance_of b)) ≡ settled more
    of_b = rw (==_refl (balance_of b)) refl
