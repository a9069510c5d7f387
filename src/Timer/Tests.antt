-- ===== src/Timer/Tests.antt =====
-- kern/common.c, kern/timer.c: the theorems on heaps of two sleeping threads.
use pebpeb_os.Base.{
  ℕ, ◌+◌, ◌-◌, ◌^◌, ◌≡◌, ◌⊎◌, refl, Bool, true, false, [], arith, if◌then◌else◌, ◌==◌,
}
use pebpeb_os.Vector.{Smalloc}
use pebpeb_os.Timer.{HeapNode, Heap, heap_peek, heap_insert, heap_pop, check_timers}
use pebpeb_os.Timer.Sift.{IsOrdered}
use pebpeb_os.Timer.Amount.{bit, amount}
use pebpeb_os.Timer.Order.{heap_insert-IsOrdered, heap_pop-IsOrdered}
use pebpeb_os.Timer.Wake.{Woken, check_timers-Woken}

abbrev sleeper : (key value : ℕ) → HeapNode
sleeper key value = record { key = key; value = value }

abbrev memory : Smalloc HeapNode
memory = record { succeeds = (λ n. true); fresh = (λ i. sleeper 0 0) }

abbrev two_threads : (first second : HeapNode) → Heap
two_threads first second = record {
  current = 2;
  size = 8;
  elem_size = 8;
  array = (λ i. if i == 0 then first else second);
}

abbrev sleepers : Heap
sleepers = two_threads (sleeper 10 1) (sleeper 20 2)

sleepers-IsOrdered : IsOrdered 2 sleepers.array
sleepers-IsOrdered i pos l = ground arith

heap_insert-IsOrdered_example :
    ((heap_insert memory (sleeper 5 3) sleepers ≡ (false, sleepers))
      × (◌≡◌ {A = ℕ} 2 8)
      × (true ≡ false))
    ⊎ ((heap' : Heap) × (heap_insert memory (sleeper 5 3) sleepers ≡ (true, heap'))
        × (heap'.current ≡ 2 + 1)
        × IsOrdered heap'.current heap'.array
        × ((p : HeapNode → Bool)
            → amount p heap'.current heap'.array
              ≡ amount p 2 sleepers.array + bit (p (sleeper 5 3))))
heap_insert-IsOrdered_example =
    heap_insert-IsOrdered memory (sleeper 5 3) sleepers sleepers-IsOrdered

heap_pop-IsOrdered_example :
    ((heap_pop memory sleepers).current ≡ 2 - 1)
    × IsOrdered (heap_pop memory sleepers).current (heap_pop memory sleepers).array
    × ((p : HeapNode → Bool)
        → amount p (heap_pop memory sleepers).current (heap_pop memory sleepers).array
            + bit (p (sleeper 10 1))
          ≡ amount p 2 sleepers.array)
heap_pop-IsOrdered_example = heap_pop-IsOrdered memory sleepers sleepers-IsOrdered (omega arith)

check_timers-Woken_example : Woken 15 sleepers (check_timers memory 2 15 sleepers)
check_timers-Woken_example =
    check_timers-Woken memory 2 15 sleepers (omega arith) refl sleepers-IsOrdered (omega arith)

-- A deadline from 2 ^ 31 on stands in front of the others, and is not due before them: at tick 100
-- nobody wakes up, though the second thread's time has come.
late_sleeper : (check_timers memory 2 100 (two_threads (sleeper (2 ^ 31) 1) (sleeper 50 2))).0 ≡ []
unfolding check_timers heap_peek
late_sleeper = refl

late_sleeper-IsOrdered : IsOrdered 2 (two_threads (sleeper (2 ^ 31) 1) (sleeper 50 2)).array
late_sleeper-IsOrdered i pos l = ground arith
