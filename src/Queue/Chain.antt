-- ===== src/Queue/Chain.antt =====
-- What a queue stands for: the list of its nodes from the head on.
use pebpeb_os.Base.{ℕ, ◌≡◌, ◌≢◌, Bool, true, false, ◌||◌, List, [], ◌∷◌, ◌++◌, refl, arith, ◌==◌}
use pebpeb_os.Queue.{Links}

abbrev pub among : ℕ → List ℕ → Bool
among p [] = false
among p (x ∷ xs) = (p == x) || among p xs

abbrev pub Distinct : List ℕ → Type 0
Distinct [] = Unit
Distinct (x ∷ xs) = (among x xs ≡ false) × Distinct xs

-- From `a` the links lead forth through `xs` to `b`, and back again.
abbrev pub Chain : Links → (a : ℕ) (xs : List ℕ) (b : ℕ) → Type 0
Chain s a [] b = (s.next a ≡ b) × (s.prev b ≡ a)
Chain s a (x ∷ xs) b = ((s.next a ≡ x) × (s.prev x ≡ a)) × Chain s x xs b

abbrev pub IsQueue : Links → (queue : ℕ) → List ℕ → Type 0
IsQueue s queue [] = queue ≡ 0
IsQueue s queue (x ∷ xs) =
    (queue ≡ x) × Chain s x xs x × (among 0 (x ∷ xs) ≡ false) × Distinct (x ∷ xs)

-- Memory is as before outside of `xs`.
abbrev pub SameOutside : List ℕ → Links → Links → Type 0
SameOutside xs s s' = (p : ℕ) → among p xs ≡ false → (s'.next p ≡ s.next p) × (s'.prev p ≡ s.prev p)

abbrev pub last : ℕ → List ℕ → ℕ
last a [] = a
last a (x ∷ xs) = last x xs

pub among-append : (p : ℕ) (xs ys : List ℕ) → among p (xs ++ ys) ≡ (among p xs || among p ys)
among-append p [] ys = refl
among-append p (x ∷ xs) ys = ground (arith, among-append p xs ys)

-- The last node is one of the nodes.
pub ne-last : (t a : ℕ) (xs : List ℕ) → among t (a ∷ xs) ≡ false → t ≢ last a xs
ne-last t a [] h = ground arith
ne-last t a (x ∷ xs) h = ne-last t x xs (ground arith)

pub prev-last : (s : Links) (a : ℕ) (xs : List ℕ) (b : ℕ) → Chain s a xs b → s.prev b ≡ last a xs
prev-last s a [] b h = h.1
prev-last s a (x ∷ xs) b h = prev-last s x xs b h.1

-- A chain depends on the links of its nodes only.
pub frame :
    (s s' : Links) (a : ℕ) (xs : List ℕ) (b : ℕ)
    → ((p : ℕ) → among p (a ∷ xs) ≡ true → s'.next p ≡ s.next p)
    → ((p : ℕ) → among p (b ∷ xs) ≡ true → s'.prev p ≡ s.prev p)
    → Chain s a xs b
    → Chain s' a xs b
frame s s' a [] b n p h = ground (arith, n a, p b)
frame s s' a (x ∷ xs) b n p h = (
  ground (arith, n a, p x),
  frame s s' x xs b (λ q i. n q (ground arith)) (λ q i. p q (ground arith)) h.1,
)

pub Chain-append :
    (s : Links) (a : ℕ) (xs : List ℕ) (y : ℕ) (ys : List ℕ) (b : ℕ)
    → Chain s a xs y
    → Chain s y ys b
    → Chain s a (xs ++ y ∷ ys) b
Chain-append s a [] y ys b h k = (h, k)
Chain-append s a (x ∷ xs) y ys b h k = (h.0, Chain-append s x xs y ys b h.1 k)

pub Chain-split :
    (s : Links) (a : ℕ) (xs : List ℕ) (y : ℕ) (ys : List ℕ) (b : ℕ)
    → Chain s a (xs ++ y ∷ ys) b
    → Chain s a xs y × Chain s y ys b
Chain-split s a [] y ys b h = h
Chain-split s a (x ∷ xs) y ys b h =
    let (front, back) = Chain-split s x xs y ys b h.1 in ((h.0, front), back)

-- Nodes of a list without repetitions, in two parts.
pub Distinct-split :
    (xs ys : List ℕ)
    → Distinct (xs ++ ys)
    → Distinct xs × Distinct ys × ((p : ℕ) → among p xs ≡ true → among p ys ≡ false)
Distinct-split [] ys d = (tt, d, λ p i. cc)
Distinct-split (x ∷ xs) ys d =
    let (dx, dy, apart) = Distinct-split xs ys d.1 in
    (
      (ground (arith, among-append x xs ys), dx),
      dy,
      λ p i. ground (arith, among-append x xs ys, apart p),
    )

pub Distinct-snoc :
    (xs : List ℕ) (t : ℕ) → Distinct xs → among t xs ≡ false → Distinct (xs ++ t ∷ [])
Distinct-snoc [] t d h = (refl, tt)
Distinct-snoc (x ∷ xs) t d h =
    (ground (arith, among-append x xs (t ∷ [])), Distinct-snoc xs t d.1 (ground arith))
