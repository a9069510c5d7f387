-- ===== src/Timer/Sift.antt =====
-- kern/common.c: the loop of heap_insert restores the order of the heap.
use pebpeb_os.Base.{
  ℕ, zero, suc, ◌-◌, ◌/◌, ◌≤◌, ◌<◌, ◌≡◌, ◌≢◌, refl, sym, Bool-cases, inl, inr, leb, ◌==◌, arith,
}
use mathlib.Core.Path.{subst}
use pebpeb_os.Timer.{HeapNode, rank, exchange, sift_up}

-- No node comes before its parent.
abbrev pub IsOrdered : (size : ℕ) (array : ℕ → HeapNode) → Type 0
IsOrdered size array = (i : ℕ) → 0 < i → i < size → rank (array ((i - 1) / 2)) ≤ rank (array i)

-- The same but for `cur`, which may come before its parent.
abbrev pub Rising : (cur size : ℕ) (array : ℕ → HeapNode) → Type 0
Rising cur size array =
    (i : ℕ)
    → 0 < i
    → i < size
    → (i ≢ cur → rank (array ((i - 1) / 2)) ≤ rank (array i))
      × ((i - 1) / 2 ≡ cur → 0 < cur → rank (array ((cur - 1) / 2)) ≤ rank (array i))

-- The same but for the children of `cur`, which may come before it.
abbrev pub Sinking : (cur size : ℕ) (array : ℕ → HeapNode) → Type 0
Sinking cur size array =
    (i : ℕ)
    → 0 < i
    → i < size
    → ((i - 1) / 2 ≢ cur → rank (array ((i - 1) / 2)) ≤ rank (array i))
      × ((i - 1) / 2 ≡ cur → 0 < cur → rank (array ((cur - 1) / 2)) ≤ rank (array i))

settled :
    (cur : ℕ) (array : ℕ → HeapNode) (i : ℕ)
    → (i ≢ cur → rank (array ((i - 1) / 2)) ≤ rank (array i))
      × ((i - 1) / 2 ≡ cur → 0 < cur → rank (array ((cur - 1) / 2)) ≤ rank (array i))
    → rank (array ((cur - 1) / 2)) ≤ rank (array cur)
    → rank (array ((i - 1) / 2)) ≤ rank (array i)
settled cur array i h le = elim (Bool-cases (i == cur)) [
  | inl e ↦
      let same : cur ≡ i = ground arith in
      subst (λ j. rank (array ((j - 1) / 2)) ≤ rank (array j)) same le
  | inr e ↦ h.0 (ground arith)
]

-- A round carries the node that is out of order to its parent.
raised :
    (cur size : ℕ) (array : ℕ → HeapNode)
    → 0 < cur
    → cur < size
    → rank (array cur) < rank (array ((cur - 1) / 2))
    → Rising cur size array
    → Rising ((cur - 1) / 2) size (exchange cur ((cur - 1) / 2) array)
raised cur size array pos lt less h i ipos iless =
    let parent = (cur - 1) / 2 in
    let here = h i ipos iless in
    let up = λ (q : 0 < parent). (h parent q (omega arith)).0 (omega arith) in
    (λ ne. ground (arith, here), λ e q. ground (arith, here, up q))

pub sift_up-IsOrdered :
    (fuel cur size : ℕ) (array : ℕ → HeapNode)
    → cur ≤ fuel
    → cur < size
    → Rising cur size array
    → IsOrdered size (sift_up fuel cur array)
unfolding sift_up
sift_up-IsOrdered zero cur size array le lt h = λ i pos less. (h i pos less).0 (omega arith)
sift_up-IsOrdered (suc k) cur size array le lt h =
    let parent = (cur - 1) / 2 in
    elim (Bool-cases (cur == 0)) [
      | inl e ↦
          let done : sift_up (suc k) cur array ≡ array = rw (sift_up, e) refl in
          subst (IsOrdered size) (sym done) (λ i pos less. (h i pos less).0 (ground arith))
      | inr e ↦ elim (Bool-cases (leb (rank (array parent)) (rank (array cur)))) [
        | inl e' ↦
            let done : sift_up (suc k) cur array ≡ array = rw (sift_up, e, e') refl in
            subst (IsOrdered size) (sym done)
              (λ i pos less. settled cur array i (h i pos less) (ground arith))
        | inr e' ↦
            let on : sift_up (suc k) cur array ≡ sift_up k parent (exchange cur parent array) =
              rw (sift_up, e, e') refl in
            subst (IsOrdered size) (sym on) (
              sift_up-IsOrdered k parent size (exchange cur parent array) (ground arith)
                (ground arith) (raised cur size array (ground arith) lt (ground arith) h))
      ]
    ]
