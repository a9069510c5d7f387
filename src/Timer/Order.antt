-- ===== src/Timer/Order.antt =====
-- kern/common.c: the heap as a priority queue.
use mathlib.Core.Path.{subst}
use pebpeb_os.Base.{
  ℕ, zero, suc, ◌+◌, ◌-◌, ◌*◌, ◌/◌, ◌≤◌, ◌<◌, ◌≡◌, ◌⊎◌, refl, sym, ap, ◌∙◌, Bool, Bool-cases, inl,
  inr, true, false, ◌==◌, some, arith,
}
use pebpeb_os.Vector.{Smalloc, vector_pop}
use pebpeb_os.Vector.Contents.{vector_push-cells, vector_pop-cells}
use pebpeb_os.Timer.{HeapNode, Heap, rank, sift_up, sift_down, heap_peek, heap_insert, heap_pop}
use pebpeb_os.Timer.Sift.{IsOrdered, Rising, Sinking, sift_up-IsOrdered}
use pebpeb_os.Timer.Sink.{sift_down-IsOrdered}
use pebpeb_os.Timer.Amount.{
  bit, amount, amount-frame, amount-write, write, sift_up-amount, sift_down-amount,
}

-- The root of an ordered heap comes before every other node.
root-least :
    (fuel n i : ℕ) (f : ℕ → HeapNode) → i ≤ fuel → i < n → IsOrdered n f → rank (f 0) ≤ rank (f i)
root-least zero n i f le l h =
    let first : 0 ≡ i = omega arith in subst (λ k. rank (f 0) ≤ rank (f k)) first (omega arith)
root-least (suc k) n i f le l h = elim (Bool-cases (i == 0)) [
  | inl e ↦
      let first : 0 ≡ i = ground arith in subst (λ k. rank (f 0) ≤ rank (f k)) first (omega arith)
  | inr e ↦
      omega
        (arith, root-least k n ((i - 1) / 2) f (ground arith) (omega arith) h, h i (ground arith) l)
]

-- The node at the top of an ordered heap comes before all others.
pub heap_peek-least :
    (heap : Heap)
    → IsOrdered heap.current heap.array
    → 0 < heap.current
    → (heap_peek heap ≡ some (heap.array 0))
      × ((i : ℕ) → i < heap.current → rank (heap.array 0) ≤ rank (heap.array i))
unfolding heap_peek
heap_peek-least heap h pos =
    let some_left : (heap.current == 0) ≡ false = ground arith in
    (
      rw (heap_peek, some_left) refl,
      λ i l. root-least i heap.current i heap.array (omega arith) l h,
    )

-- The last node in place of the root.
kept :
    (heap : Heap) (i : ℕ)
    → 0 < i
    → write 0 (heap.array (heap.current - 1)) heap.array i ≡ heap.array i
kept heap i pos = ground arith

root_replaced :
    (p : HeapNode → Bool) (f : ℕ → HeapNode) (n : ℕ)
    → 0 < n
    → amount p (n - 1) (write 0 (f (n - 1)) f) + bit (p (f 0)) ≡ amount p n f
root_replaced p f zero pos = absurd (omega arith)
root_replaced p f (suc zero) pos = refl
root_replaced p f (suc (suc n)) pos =
    let back : suc (suc n) - 1 ≡ suc n = omega arith in
    omega (
      arith,
      ap (λ k. amount p k (write 0 (f k) f)) back,
      amount-write p (suc n) 0 (f (suc n)) f (omega arith),
    )

module _ (mem : Smalloc HeapNode) where
  -- An insertion into an ordered heap keeps it ordered and adds the node to those that were there.
  -- Only if the heap is full and the memory for twice its size is refused does it fail instead, and
  -- then it changes nothing.
  pub heap_insert-IsOrdered :
      (node : HeapNode) (heap : Heap)
      → IsOrdered heap.current heap.array
      → ((heap_insert mem node heap ≡ (false, heap))
          × (heap.current ≡ heap.size)
          × (mem.succeeds (heap.size * heap.elem_size * 2) ≡ false))
        ⊎ ((heap' : Heap) × (heap_insert mem node heap ≡ (true, heap'))
            × (heap'.current ≡ heap.current + 1)
            × IsOrdered heap'.current heap'.array
            × ((p : HeapNode → Bool)
                → amount p heap'.current heap'.array
                  ≡ amount p heap.current heap.array + bit (p node)))
  unfolding heap_insert
  heap_insert-IsOrdered node heap h = elim (vector_push-cells mem node heap) [
    | inl (failed, full, refused) ↦ inl (rw failed refl, full, refused)
    | inr (v, pushed, cur, cells, last) ↦
        let rising : Rising (v.current - 1) v.current v.array = λ i pos l. (
          λ ne. omega (
            arith,
            cur,
            ap rank (cells i (omega (arith, cur))),
            ap rank (cells ((i - 1) / 2) (omega (arith, cur))),
            h i pos (omega (arith, cur)),
          ),
          λ e q. absurd (omega (arith, cur)),
        ) in
        let more : v.current ≡ suc heap.current = omega (arith, cur) in
        inr (
          record v { array = sift_up v.current (v.current - 1) v.array },
          rw pushed refl,
          cur,
          sift_up-IsOrdered v.current (v.current - 1) v.current v.array (omega arith)
              (omega (arith, cur)) rising,
          λ p.
              sift_up-amount p v.current (v.current - 1) v.current v.array (omega (arith, cur))
              ∙ ap (λ k. amount p k v.array) more
              ∙ (omega (
                arith,
                amount-frame p heap.current heap.array v.array cells,
                ap (λ x. bit (p x)) last,
              )),
        )
  ]

  -- A pop from an ordered heap that is not empty takes the top node away, keeps the heap ordered, and
  -- keeps every other node.
  pub heap_pop-IsOrdered :
      (heap : Heap)
      → IsOrdered heap.current heap.array
      → 0 < heap.current
      → ((heap_pop mem heap).current ≡ heap.current - 1)
        × IsOrdered (heap_pop mem heap).current (heap_pop mem heap).array
        × ((p : HeapNode → Bool)
            → amount p (heap_pop mem heap).current (heap_pop mem heap).array
                + bit (p (heap.array 0))
              ≡ amount p heap.current heap.array)
  unfolding heap_pop
  heap_pop-IsOrdered heap h pos =
      let n = heap.current in
      let some_left : (n == 0) ≡ false = ground arith in
      let array0 = write 0 (heap.array (n - 1)) heap.array in
      let v = vector_pop mem (record heap { array = array0 }) in
      let (cur, cells) = vector_pop-cells mem (record heap { array = array0 }) in
      let popped : heap_pop mem heap ≡ record v { array = sift_down n 0 (n - 1) v.array } =
        rw (heap_pop, some_left) refl in
      let sinking : Sinking 0 (n - 1) v.array = λ i ipos l. (
        λ ne. omega (
          arith,
          ap rank (cells i l),
          ap rank (cells ((i - 1) / 2) (omega arith)),
          ap rank (kept heap i ipos),
          ap rank (kept heap ((i - 1) / 2) (omega arith)),
          h i ipos (omega arith),
        ),
        λ e q. absurd (omega arith),
      ) in
      subst
        (λ w.
          (w.current ≡ n - 1)
          × IsOrdered w.current w.array
          × ((p : HeapNode → Bool)
              → amount p w.current w.array + bit (p (heap.array 0)) ≡ amount p n heap.array))
        (sym popped)
        (
          cur,
          subst (λ k. IsOrdered k (sift_down n 0 (n - 1) v.array)) (sym cur)
              (sift_down-IsOrdered n 0 (n - 1) v.array (omega arith) sinking),
          λ p. omega (
            arith,
            ap (λ k. amount p k (sift_down n 0 (n - 1) v.array)) cur,
            sift_down-amount p n 0 (n - 1) v.array,
            amount-frame p (n - 1) array0 v.array cells,
            root_replaced p heap.array n pos,
          ),
        )
