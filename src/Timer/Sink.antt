-- ===== src/Timer/Sink.antt =====
-- kern/common.c: the loop of heap_pop restores the order of the heap.
use pebpeb_os.Base.{
  ℕ, zero, suc, ◌+◌, ◌-◌, ◌*◌, ◌/◌, ◌≤◌, ◌<◌, ◌≡◌, ◌≢◌, ◌⊎◌, refl, sym, Bool-cases, inl, inr, true,
  false, ◌&&◌, ltb, ◌==◌, if◌then◌else◌, arith,
}
use mathlib.Core.Path.{subst}
use pebpeb_os.Timer.{HeapNode, rank, exchange, smallest, sift_down}
use pebpeb_os.Timer.Sift.{IsOrdered, Sinking}

is_child :
    (cur size small i : ℕ) (array : ℕ → HeapNode)
    → 0 < i
    → i < size
    → (i - 1) / 2 ≡ cur
    → (cur * 2 + 1 < size → rank (array small) ≤ rank (array (cur * 2 + 1)))
    → (cur * 2 + 2 < size → rank (array small) ≤ rank (array (cur * 2 + 2)))
    → rank (array small) ≤ rank (array i)
is_child cur size small i array pos less e left right = elim (Bool-cases (i == cur * 2 + 1)) [
  | inl e' ↦
      let same : cur * 2 + 1 ≡ i = ground arith in
      subst (λ j. rank (array small) ≤ rank (array j)) same (left (omega arith))
  | inr e' ↦
      let same : cur * 2 + 2 ≡ i = ground arith in
      subst (λ j. rank (array small) ≤ rank (array j)) same (right (omega arith))
]

bottom :
    (cur size i : ℕ) (array : ℕ → HeapNode)
    → 0 < i
    → i < size
    → ((i - 1) / 2 ≢ cur → rank (array ((i - 1) / 2)) ≤ rank (array i))
      × ((i - 1) / 2 ≡ cur → 0 < cur → rank (array ((cur - 1) / 2)) ≤ rank (array i))
    → (cur * 2 + 1 < size → rank (array cur) ≤ rank (array (cur * 2 + 1)))
    → (cur * 2 + 2 < size → rank (array cur) ≤ rank (array (cur * 2 + 2)))
    → rank (array ((i - 1) / 2)) ≤ rank (array i)
bottom cur size i array pos less h left right = elim (Bool-cases ((i - 1) / 2 == cur)) [
  | inl e ↦
      let same : cur ≡ (i - 1) / 2 = ground arith in
      subst (λ j. rank (array j) ≤ rank (array i)) same
        (is_child cur size cur i array pos less (sym same) left right)
  | inr e ↦ h.0 (ground arith)
]

-- The second comparison, after the first one chose `best`.
with_best :
    (best cur size : ℕ) (array : ℕ → HeapNode)
    → rank (array best) ≤ rank (array cur)
    → (cur * 2 + 1 < size → rank (array best) ≤ rank (array (cur * 2 + 1)))
    → (best ≡ cur) ⊎ ((best < size) × (rank (array best) < rank (array cur)) × (best ≡ cur * 2 + 1))
    → let rc = cur * 2 + 1 + 1 in
      let small = if ltb rc size && ltb (rank (array rc)) (rank (array best)) then rc else best in
      (rank (array small) ≤ rank (array cur))
      × (cur * 2 + 1 < size → rank (array small) ≤ rank (array (cur * 2 + 1)))
      × (cur * 2 + 2 < size → rank (array small) ≤ rank (array (cur * 2 + 2)))
      × ((small ≡ cur)
          ⊎ ((small < size)
              × (rank (array small) < rank (array cur))
              × ((small ≡ cur * 2 + 1) ⊎ (small ≡ cur * 2 + 2))))
with_best best cur size array le left cases =
    let two : cur * 2 + 2 ≡ cur * 2 + 1 + 1 = omega arith in
    elim (Bool-cases
      (ltb (cur * 2 + 1 + 1) size && ltb (rank (array (cur * 2 + 1 + 1))) (rank (array best)))) [
        | inl e ↦ rw e (
          ground arith,
          λ l. ground (arith, left l),
          λ l. rw two (omega arith),
          inr (ground arith, ground arith, inr (omega arith)),
        )
        | inr e ↦ rw e (le, left, λ l. rw two (ground arith), ground arith)
      ]

-- The node that sinks goes to its smaller child.
pub smallest-cases :
    (cur size : ℕ) (array : ℕ → HeapNode)
    → let small = smallest cur size array in
      (rank (array small) ≤ rank (array cur))
      × (cur * 2 + 1 < size → rank (array small) ≤ rank (array (cur * 2 + 1)))
      × (cur * 2 + 2 < size → rank (array small) ≤ rank (array (cur * 2 + 2)))
      × ((small ≡ cur)
          ⊎ ((small < size)
              × (rank (array small) < rank (array cur))
              × ((small ≡ cur * 2 + 1) ⊎ (small ≡ cur * 2 + 2))))
unfolding smallest
smallest-cases cur size array =
    elim (Bool-cases
      (ltb (cur * 2 + 1) size && ltb (rank (array (cur * 2 + 1))) (rank (array cur)))) [
        | inl e ↦ rw e (
            with_best (cur * 2 + 1) cur size array (ground arith) (λ l. omega arith)
              (inr (ground arith, ground arith, refl)))
        | inr e ↦ rw e (with_best cur cur size array (omega arith) (λ l. ground arith) (inl refl))
      ]

-- The children of the smaller child hang under the node that sinks there.
sunk :
    (cur size small : ℕ) (array : ℕ → HeapNode)
    → small < size
    → rank (array small) < rank (array cur)
    → (small ≡ cur * 2 + 1) ⊎ (small ≡ cur * 2 + 2)
    → (cur * 2 + 1 < size → rank (array small) ≤ rank (array (cur * 2 + 1)))
    → (cur * 2 + 2 < size → rank (array small) ≤ rank (array (cur * 2 + 2)))
    → Sinking cur size array
    → Sinking small size (exchange cur small array)
sunk cur size small array lt less child left right h i ipos iless =
    let here = h i ipos iless in
    let below = (h small (ground arith) lt).1 (ground arith) in
    let sibling : ((i - 1) / 2 ≡ cur) → rank (array small) ≤ rank (array i) =
      λ e. is_child cur size small i array ipos iless e left right in
    (λ ne. ground (arith, here, below, sibling), λ e q. ground (arith, here, below))

pub sift_down-IsOrdered :
    (fuel cur size : ℕ) (array : ℕ → HeapNode)
    → size ≤ fuel + cur
    → Sinking cur size array
    → IsOrdered size (sift_down fuel cur size array)
unfolding sift_down
sift_down-IsOrdered zero cur size array le h = λ i pos less. (h i pos less).0 (omega arith)
sift_down-IsOrdered (suc k) cur size array le h =
    let small = smallest cur size array in
    let (least, left, right, cases) = smallest-cases cur size array in
    elim cases [
      | inl e ↦
          let stop : (small == cur) ≡ true = ground arith in
          let done : sift_down (suc k) cur size array ≡ array = rw (sift_down, stop) refl in
          subst (IsOrdered size) (sym done) (λ i pos less.
            bottom cur size i array pos less (h i pos less) (λ l. rw e at (left l))
              (λ l. rw e at (right l)))
      | inr (lt, less, child) ↦
          let more : (small == cur) ≡ false = ground arith in
          let on : sift_down (suc k) cur size array
              ≡ sift_down k small size (exchange cur small array) =
            rw (sift_down, more) refl in
          subst (IsOrdered size) (sym on) (
            sift_down-IsOrdered k small size (exchange cur small array) (ground arith)
              (sunk cur size small array lt less child left right h))
    ]
