-- ===== src/Timer/Amount.antt =====
-- kern/common.c: the nodes of a heap, counted by any test.
use pebpeb_os.Base.{
  ℕ, zero, suc, ◌+◌, ◌-◌, ◌/◌, ◌<◌, ◌≡◌, refl, ap, ◌∙◌, Bool, Bool-cases, inl, inr, true, false,
  leb, ◌==◌, if◌then◌else◌, arith,
}
use pebpeb_os.Timer.{HeapNode, rank, exchange, sift_up, smallest, sift_down}
use pebpeb_os.Timer.Sink.{smallest-cases}

abbrev pub bit : Bool → ℕ
bit true = 1
bit false = 0

-- How many of the first `n` nodes pass a test.
abbrev pub amount : (p : HeapNode → Bool) (n : ℕ) (array : ℕ → HeapNode) → ℕ
amount p zero array = 0
amount p (suc n) array = amount p n array + bit (p (array n))

pub amount-frame :
    (p : HeapNode → Bool) (n : ℕ) (f g : ℕ → HeapNode)
    → ((i : ℕ) → i < n → g i ≡ f i)
    → amount p n g ≡ amount p n f
amount-frame p zero f g same = refl
amount-frame p (suc n) f g same = omega (
  arith,
  amount-frame p n f g (λ i l. same i (omega arith)),
  ap (λ x. bit (p x)) (same n (omega arith)),
)

abbrev pub write : (i : ℕ) (x : HeapNode) (f : ℕ → HeapNode) → ℕ → HeapNode
write i x f k = if k == i then x else f k

pub amount-write :
    (p : HeapNode → Bool) (n i : ℕ) (x : HeapNode) (f : ℕ → HeapNode)
    → i < n
    → amount p n (write i x f) + bit (p (f i)) ≡ amount p n f + bit (p x)
amount-write p zero i x f l = absurd (omega arith)
amount-write p (suc n) i x f l = elim (Bool-cases (n == i)) [
  | inl e ↦
      let here : n ≡ i = ground arith in
      let same = amount-frame p n f (write i x f) (λ k u. ground arith) in
      let last : write i x f n ≡ x = ground arith in
      omega (arith, same, ap (λ y. bit (p y)) last, ap (λ k. bit (p (f k))) here)
  | inr e ↦
      let last : write i x f n ≡ f n = ground arith in
      omega (arith, amount-write p n i x f (ground arith), ap (λ y. bit (p y)) last)
]

amount-exchange :
    (p : HeapNode → Bool) (n i j : ℕ) (f : ℕ → HeapNode)
    → i < n
    → j < n
    → amount p n (exchange i j f) ≡ amount p n f
amount-exchange p n i j f a b =
    let kept : write j (f i) f i ≡ f i = ground arith in
    omega (
      arith,
      amount-write p n i (f j) (write j (f i) f) a,
      amount-write p n j (f i) f b,
      ap (λ y. bit (p y)) kept,
    )

pub sift_up-amount :
    (p : HeapNode → Bool) (fuel cur n : ℕ) (f : ℕ → HeapNode)
    → cur < n
    → amount p n (sift_up fuel cur f) ≡ amount p n f
unfolding sift_up
sift_up-amount p zero cur n f l = refl
sift_up-amount p (suc k) cur n f l =
    let parent = (cur - 1) / 2 in
    let ih =
      sift_up-amount p k parent n (exchange cur parent f) (omega arith)
      ∙ amount-exchange p n cur parent f l (omega arith) in
    elim (Bool-cases (cur == 0)) [
      | inl e ↦ rw (sift_up, e) refl
      | inr e ↦ elim (Bool-cases (leb (rank (f parent)) (rank (f cur)))) [
        | inl e' ↦ rw (sift_up, e, e') refl
        | inr e' ↦ rw (sift_up, e, e') ih
      ]
    ]

pub sift_down-amount :
    (p : HeapNode → Bool) (fuel cur n : ℕ) (f : ℕ → HeapNode)
    → amount p n (sift_down fuel cur n f) ≡ amount p n f
unfolding sift_down
sift_down-amount p zero cur n f = refl
sift_down-amount p (suc k) cur n f =
    let small = smallest cur n f in
    elim ((smallest-cases cur n f).3) [
      | inl e ↦ let stop : (small == cur) ≡ true = ground arith in rw (sift_down, stop) refl
      | inr (lt, less, child) ↦
          let more : (small == cur) ≡ false = ground arith in
          rw (sift_down, more)
            (sift_down-amount p k small n (exchange cur small f)
              ∙ amount-exchange p n cur small f (ground arith) lt)
    ]
