-- ===== src/Base/Members.antt =====
-- Membership in a list of numbers as a sum, lists without repetition, and the removal of one element.
use Prim.Native.Nat.{ℕ}
use mathlib.Core.Path.{◌≡◌, refl, sym, ap}
use mathlib.Core.Logic.{◌≢◌, ◌⊎◌, inl, inr}
use mathlib.Core.List.{List, [], ◌∷◌, ◌++◌}
use native.Mathlib.Omega.{arith}
use pebpeb_os.Base.Tests.{◌==◌, if◌then◌else◌, Bool-cases}

-- `queue_detach`, on the list of a queue
abbrev pub remove : ℕ → List ℕ → List ℕ
remove a [] = []
remove a (b ∷ l) = if b == a then l else b ∷ remove a l

abbrev pub In : ℕ → List ℕ → Type 0
In a [] = ⊥
In a (b ∷ l) = (a ≡ b) ⊎ In a l

abbrev pub Distinct : List ℕ → Type 0
Distinct [] = Unit
Distinct (a ∷ l) = ¬ In a l × Distinct l

pub In-remove : (a b : ℕ) (l : List ℕ) → In b (remove a l) → In b l
In-remove a b [] h = elim h [ ]
In-remove a b (c ∷ l) h = elim (Bool-cases (c == a)) [
  | inl e ↦ inr (rw e at h)
  | inr e ↦ elim (rw e at h) [ inl q ↦ inl q | inr k ↦ inr (In-remove a b l k) ]
]

pub In-remove_ne : (a b : ℕ) (l : List ℕ) → b ≢ a → In b l → In b (remove a l)
In-remove_ne a b [] ne h = elim h [ ]
In-remove_ne a b (c ∷ l) ne h = elim (Bool-cases (c == a)) [
  | inl e ↦ rw e (elim h [ inl q ↦ absurd (ne (ground arith)) | inr k ↦ k ])
  | inr e ↦ rw e (elim h [ inl q ↦ inl q | inr k ↦ inr (In-remove_ne a b l ne k) ])
]

pub not-In-remove : (a : ℕ) (l : List ℕ) → Distinct l → ¬ In a (remove a l)
not-In-remove a [] d h = h
not-In-remove a (c ∷ l) (fresh, d) h = elim (Bool-cases (c == a)) [
  | inl e ↦ let same : c ≡ a = ground arith in fresh (rw same (rw e at h))
  | inr e ↦ elim (rw e at h) [ inl q ↦ absurd (ground arith) | inr k ↦ not-In-remove a l d k ]
]

pub Distinct-remove : (a : ℕ) (l : List ℕ) → Distinct l → Distinct (remove a l)
Distinct-remove a [] d = tt
Distinct-remove a (c ∷ l) (fresh, d) = elim (Bool-cases (c == a)) [
  | inl e ↦ rw e d
  | inr e ↦ rw e (λ k. fresh (In-remove a c l k), Distinct-remove a l d)
]

pub In-append : (a : ℕ) (xs ys : List ℕ) → In a xs → In a (xs ++ ys)
In-append a [] ys h = elim h [ ]
In-append a (x ∷ xs) ys (inl e) = inl e
In-append a (x ∷ xs) ys (inr h) = inr (In-append a xs ys h)

pub In-snoc : (a b : ℕ) (xs : List ℕ) → In a (xs ++ b ∷ []) → In a xs ⊎ (a ≡ b)
In-snoc a b [] (inl e) = inr e
In-snoc a b [] (inr h) = elim h [ ]
In-snoc a b (x ∷ xs) (inl e) = inl (inl e)
In-snoc a b (x ∷ xs) (inr h) = elim (In-snoc a b xs h) [ inl k ↦ inl (inr k) | inr e ↦ inr e ]

pub In-last : (a : ℕ) (xs : List ℕ) → In a (xs ++ a ∷ [])
In-last a [] = inl refl
In-last a (x ∷ xs) = inr (In-last a xs)

pub Distinct-snoc : (a : ℕ) (xs : List ℕ) → Distinct xs → ¬ In a xs → Distinct (xs ++ a ∷ [])
Distinct-snoc a [] d n = (λ h. h, tt)
Distinct-snoc a (x ∷ xs) d n = (
  λ h. elim (In-snoc x a xs h) [ inl k ↦ d.0 k | inr e ↦ n (inl (sym e)) ],
  Distinct-snoc a xs d.1 (λ h. n (inr h)),
)

pub remove-head : (a : ℕ) (l : List ℕ) → remove a (a ∷ l) ≡ l
remove-head a l = elim (Bool-cases (a == a)) [ inl e ↦ rw e refl | inr e ↦ absurd (ground arith) ]

pub remove-snoc : (a b : ℕ) (l : List ℕ) → a ≢ b → remove a (l ++ b ∷ []) ≡ remove a l ++ b ∷ []
remove-snoc a b [] ne = ground arith
remove-snoc a b (c ∷ l) ne = elim (Bool-cases (c == a)) [
  | inl e ↦ rw e refl
  | inr e ↦ rw e (ap (λ r. c ∷ r) (remove-snoc a b l ne))
]
