-- ===== src/Timer.antt =====
-- kern/common.c's minimum heap, and what kern/timer.c and the sleep of kern/syscall_process.c do with
-- it: the heap of sleeping threads by the tick at which they wake up. Locks are left out; the threads
-- that become ready are returned in order.
pub mod Sift
pub mod Sink
pub mod Amount
pub mod Order
pub mod Wake
mod Tests
use pebpeb_os.Base.{
  Bool, true, false, Option, none, some, List, [], ◌∷◌, ◌&&◌, leb, ℕ, zero, suc, ◌+◌, ◌-◌, ◌*◌, ◌/◌,
  ◌%◌, ◌^◌, ◌==◌, ltb, if◌then◌else◌,
}
use pebpeb_os.Vector.{Vector, Smalloc, vector_init, vector_push, vector_pop}

pub record HeapNode : Type 0 where
  pub key : ℕ
  pub value : ℕ

-- Keys are of the type `int`, kept as 32-bit words: this is the order of signed numbers.
abbrev pub signed : ℕ → ℕ
signed k = (k + 2 ^ 31) % 2 ^ 32

abbrev pub rank : HeapNode → ℕ
rank n = signed n.key

abbrev pub Heap : Type 0
Heap = Vector HeapNode

abbrev pub initial_heap_size : ℕ
initial_heap_size = 8

-- sizeof(heap_node_t)
abbrev pub heap_node_size : ℕ
heap_node_size = 8

abbrev pub exchange : (i j : ℕ) (array : ℕ → HeapNode) → ℕ → HeapNode
exchange i j array k = if k == i then array j else if k == j then array i else array k

-- The loop of heap_insert; a round goes to a smaller index, so `cur` rounds are enough.
unfoldable pub sift_up : (fuel cur : ℕ) (array : ℕ → HeapNode) → ℕ → HeapNode
sift_up zero cur array = array
sift_up (suc k) cur array =
    let parent = (cur - 1) / 2 in
    let rest = sift_up k parent (exchange cur parent array) in
    if cur == 0 then array else if leb (rank (array parent)) (rank (array cur)) then array else rest

-- The index of the smallest of a node and its children.
unfoldable pub smallest : (cur size : ℕ) (array : ℕ → HeapNode) → ℕ
smallest cur size array =
    let lc = cur * 2 + 1 in
    let rc = lc + 1 in
    let small = if ltb lc size && ltb (rank (array lc)) (rank (array cur)) then lc else cur in
    if ltb rc size && ltb (rank (array rc)) (rank (array small)) then rc else small

-- The loop of heap_pop; a round goes to a larger index below `size`.
unfoldable pub sift_down : (fuel cur size : ℕ) (array : ℕ → HeapNode) → ℕ → HeapNode
sift_down zero cur size array = array
sift_down (suc k) cur size array =
    let small = smallest cur size array in
    let rest = sift_down k small size (exchange cur small array) in
    if small == cur then array else rest

unfoldable pub heap_peek : Heap → Option HeapNode
heap_peek heap = if heap.current == 0 then none else some (heap.array 0)

module _ (mem : Smalloc HeapNode) where
  unfoldable pub heap_init : Bool × Heap
  heap_init = vector_init mem heap_node_size initial_heap_size

  unfoldable pub heap_insert : (node : HeapNode) → Heap → Bool × Heap
  heap_insert node heap =
      let (ok, v) = vector_push mem node heap in
      if ok
      then (true, record v { array = sift_up v.current (v.current - 1) v.array })
      else (false, v)

  unfoldable pub heap_pop : Heap → Heap
  heap_pop heap =
      let size = heap.current in
      let array0 = λ (i : ℕ). if i == 0 then heap.array (size - 1) else heap.array i in
      let v = vector_pop mem (record heap { array = array0 }) in
      if size == 0 then heap else record v { array = sift_down size 0 (size - 1) v.array }

  -- The loop of check_timers, at most once for each node; `key > ticks` is a comparison of unsigned
  -- numbers. The result is the threads that become ready, in order, and the heap.
  unfoldable pub check_timers : (fuel ticks : ℕ) → Heap → List HeapNode × Heap
  check_timers zero ticks heap = ([], heap)
  check_timers (suc k) ticks heap =
      let (woken, rest) = check_timers k ticks (heap_pop heap) in
      elim (heap_peek heap) [
        | none ↦ ([], heap)
        | some node ↦ if ltb ticks node.key then ([], heap) else (node ∷ woken, rest)
      ]

  -- sys_sleep: the key of a thread that sleeps for `dt` ticks, dt > 0, from `ticks` on.
  unfoldable pub sleep_until : (ticks dt thread : ℕ) → Heap → Bool × Heap
  sleep_until ticks dt thread = heap_insert (record { key = (ticks + dt) % 2 ^ 32; value = thread })
