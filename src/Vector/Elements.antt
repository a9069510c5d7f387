-- ===== src/Vector/Elements.antt =====
-- kern/common.c: the elements of a vector, as a list.
use pebpeb_os.Base.{ℕ, ◌+◌, ◌≤◌, ◌<◌, ◌≡◌, ◌∙◌, List, [], ◌∷◌, ◌++◌, length, arith}
use mathlib.Core.Path.{subst}
use pebpeb_os.Vector.{Vector}

module _ {ℓ} {A : Type ℓ} where
  -- The cells from `i` on hold the elements of the list.
  abbrev pub Holds : (array : ℕ → A) (i : ℕ) → List A → Type ℓ
  Holds array i [] = Unit
  Holds array i (x ∷ xs) = (array i ≡ x) × Holds array (i + 1) xs

  -- The vector has the elements of the list, and room for them.
  abbrev pub IsVector : Vector A → List A → Type ℓ
  IsVector v xs = (v.current ≡ length xs) × (v.current ≤ v.size) × (0 < v.size) × Holds v.array 0 xs

  pub Holds-frame :
      (f g : ℕ → A) (i : ℕ) (xs : List A)
      → ((j : ℕ) → i ≤ j → j < i + length xs → g j ≡ f j)
      → Holds f i xs
      → Holds g i xs
  Holds-frame f g i [] same h = tt
  Holds-frame f g i (x ∷ xs) same h = (
    same i (omega arith) (omega arith) ∙ h.0,
    Holds-frame f g (i + 1) xs (λ j l u. same j (omega arith) (omega arith)) h.1,
  )

  pub Holds-append :
      (f : ℕ → A) (i : ℕ) (xs ys : List A)
      → Holds f i xs
      → Holds f (i + length xs) ys
      → Holds f i (xs ++ ys)
  Holds-append f i [] ys h k = subst (λ j. Holds f j ys) (omega arith) k
  Holds-append f i (x ∷ xs) ys h k =
      (h.0, Holds-append f (i + 1) xs ys h.1 (subst (λ j. Holds f j ys) (omega arith) k))

  pub Holds-split :
      (f : ℕ → A) (i : ℕ) (xs ys : List A)
      → Holds f i (xs ++ ys)
      → Holds f i xs × Holds f (i + length xs) ys
  Holds-split f i [] ys h = (tt, subst (λ j. Holds f j ys) (omega arith) h)
  Holds-split f i (x ∷ xs) ys h =
      let (front, back) = Holds-split f (i + 1) xs ys h.1 in
      ((h.0, front), subst (λ j. Holds f j ys) (omega arith) back)

  -- The elements from a cell on, after all were moved by one.
  pub Holds-shift :
      (f g : ℕ → A) (i : ℕ) (xs : List A)
      → ((j : ℕ) → i ≤ j → j < i + length xs → g j ≡ f (j + 1))
      → Holds f (i + 1) xs
      → Holds g i xs
  Holds-shift f g i [] same h = tt
  Holds-shift f g i (x ∷ xs) same h = (
    same i (omega arith) (omega arith) ∙ h.0,
    Holds-shift f g (i + 1) xs (λ j l u. same j (omega arith) (omega arith)) h.1,
  )
