-- ===== src/Timer/Wake.antt =====
-- kern/timer.c: which threads a tick wakes up.
use mathlib.Core.Path.{subst}
use pebpeb_os.Base.{
  ℕ, zero, suc, ◌+◌, ◌^◌, ◌≤◌, ◌<◌, ◌≡◌, refl, sym, ap, ◌∙◌, Bool, Bool-cases, inl, inr, true,
  false, List, [], ◌∷◌, leb, ltb, ◌==◌, arith,
}
use pebpeb_os.Vector.{Smalloc}
use pebpeb_os.Timer.{HeapNode, Heap, rank, heap_peek, heap_pop, check_timers}
use pebpeb_os.Timer.Sift.{IsOrdered}
use pebpeb_os.Timer.Amount.{bit, amount}
use pebpeb_os.Timer.Order.{heap_peek-least, heap_pop-IsOrdered}

-- How many nodes of a list pass a test.
abbrev pub among : (p : HeapNode → Bool) → List HeapNode → ℕ
among p [] = 0
among p (x ∷ xs) = bit (p x) + among p xs

abbrev pub late : HeapNode → Bool
late x = leb (2 ^ 31) x.key

abbrev pub due : (ticks : ℕ) → HeapNode → Bool
due ticks x = leb x.key ticks

none_passes :
    (p : HeapNode → Bool) (n i : ℕ) (f : ℕ → HeapNode) → amount p n f ≡ 0 → i < n → p (f i) ≡ false
none_passes p zero i f h l = absurd (omega arith)
none_passes p (suc n) i f h l = elim (Bool-cases (i == n)) [
  | inl e ↦ ap (λ k. p (f k)) (ground arith) ∙ no_bit (p (f n)) (omega arith)
  | inr e ↦ none_passes p n i f (omega arith) (ground arith)
]
  where
    no_bit : (b : Bool) → bit b ≡ 0 → b ≡ false
    no_bit true e = ground arith
    no_bit false e = refl

all_fail :
    (p : HeapNode → Bool) (n : ℕ) (f : ℕ → HeapNode)
    → ((i : ℕ) → i < n → p (f i) ≡ false)
    → amount p n f ≡ 0
all_fail p zero f h = refl
all_fail p (suc n) f h =
    omega (arith, all_fail p n f (λ i l. h i (omega arith)), ap bit (h n (omega arith)))

not_due :
    (ticks : ℕ) (x y : HeapNode)
    → late x ≡ false
    → late y ≡ false
    → rank x ≤ rank y
    → ticks < x.key
    → due ticks y ≡ false
not_due ticks x y a b le l = ground arith

abbrev pub AllDue : (ticks : ℕ) → List HeapNode → Type 0
AllDue ticks [] = Unit
AllDue ticks (x ∷ xs) = (due ticks x ≡ true) × AllDue ticks xs

-- What a tick does to a heap: the threads it wakes up were due, those that stay are not, and no
-- thread is lost or doubled.
abbrev pub Woken : (ticks : ℕ) → Heap → List HeapNode × Heap → Type 0
Woken ticks heap r =
    AllDue ticks r.0
    × (among (due ticks) r.0 ≡ amount (due ticks) heap.current heap.array)
    × (amount (due ticks) r.1.current r.1.array ≡ 0)
    × IsOrdered r.1.current r.1.array
    × ((p : HeapNode → Bool)
        → among p r.0 + amount p r.1.current r.1.array ≡ amount p heap.current heap.array)

-- While ticks and keys are below 2 ^ 31, a tick on an ordered heap wakes up exactly the threads whose
-- time has come: each one that it wakes up is due, none that is due stays in the heap, and none is
-- lost or doubled. The heap stays ordered; as many rounds as there are nodes are enough.
pub check_timers-Woken :
    (mem : Smalloc HeapNode) (fuel ticks : ℕ) (heap : Heap)
    → ticks < 2 ^ 31
    → amount late heap.current heap.array ≡ 0
    → IsOrdered heap.current heap.array
    → heap.current ≤ fuel
    → Woken ticks heap (check_timers mem fuel ticks heap)
unfolding check_timers heap_peek
check_timers-Woken mem zero ticks heap t early h le =
    let empty : heap.current ≡ 0 = omega arith in
    let nothing : amount (due ticks) heap.current heap.array ≡ 0 =
      ap (λ n. amount (due ticks) n heap.array) empty in
    (tt, sym nothing, nothing, h, λ p. omega arith)
check_timers-Woken mem (suc k) ticks heap t early h le = elim (Bool-cases (heap.current == 0)) [
  | inl e ↦
      let empty : heap.current ≡ 0 = ground arith in
      let nothing : amount (due ticks) heap.current heap.array ≡ 0 =
        ap (λ n. amount (due ticks) n heap.array) empty in
      let done : check_timers mem (suc k) ticks heap ≡ ([], heap) =
        rw (check_timers, heap_peek, e) refl in
      subst (Woken ticks heap) (sym done) (tt, sym nothing, nothing, h, λ p. omega arith)
  | inr e ↦
      let pos : 0 < heap.current = ground arith in
      let (peeked, least) = heap_peek-least heap h pos in
      elim (Bool-cases (ltb ticks (heap.array 0).key)) [
        | inl e' ↦
            let done : check_timers mem (suc k) ticks heap ≡ ([], heap) =
              rw (check_timers, peeked, e') refl in
            let nothing = all_fail (due ticks) heap.current heap.array (λ i l.
              not_due ticks (heap.array 0) (heap.array i)
                (none_passes late heap.current 0 heap.array early pos)
                (none_passes late heap.current i heap.array early l) (least i l) (ground arith)) in
            subst (Woken ticks heap) (sym done) (tt, sym nothing, nothing, h, λ p. omega arith)
        | inr e' ↦
            let rest = check_timers mem k ticks (heap_pop mem heap) in
            let on : check_timers mem (suc k) ticks heap ≡ (heap.array 0 ∷ rest.0, rest.1) =
              rw (check_timers, peeked, e') refl in
            let (fewer, order, kept) = heap_pop-IsOrdered mem heap h pos in
            let (dues, woken, left, order', all) =
              check_timers-Woken mem k ticks (heap_pop mem heap) t (omega (arith, kept late)) order
                (omega (arith, fewer)) in
            subst (Woken ticks heap) (sym on) (
              (ground arith, dues),
              omega (arith, woken, kept (due ticks)),
              left,
              order',
              λ p. omega (arith, all p, kept p),
            )
      ]
]
