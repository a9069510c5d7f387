-- ===== src/Queue.antt =====
-- kern/common.c: the circular doubly linked queues (`queue_t`) on which threads, processes,
-- consoles and shadow page tables wait. Nodes are addresses, NULL is 0, and memory holds the two
-- links of every node. A function that updates `*queue` returns the new value.
pub mod Chain
pub mod Insert
pub mod Remove
mod Tests
use pebpeb_os.Base.{ℕ, Option, none, some, ◌==◌, if◌then◌else◌}

pub record Links : Type 0 where
  pub next : ℕ → ℕ
  pub prev : ℕ → ℕ

-- p->next = v and p->prev = v
abbrev pub set_next : ℕ → ℕ → Links → Links
set_next p v s = record s { next = λ a. if a == p then v else s.next a }

abbrev pub set_prev : ℕ → ℕ → Links → Links
set_prev p v s = record s { prev = λ a. if a == p then v else s.prev a }

-- The four writes of both insertions into a queue that is not empty.
unfoldable pub link_before : (head t : ℕ) → Links → Links
link_before head t s =
    let s1 = set_next t head s in
    let s2 = set_prev t (s1.prev head) s1 in
    let s3 = set_next (s2.prev head) t s2 in set_prev head t s3

unfoldable pub queue_insert_head : (queue t : ℕ) → Links → ℕ × Links
queue_insert_head queue t s =
    if queue == 0 then (t, set_next t t (set_prev t t s)) else (t, link_before queue t s)

pub queue_insert_tail : (queue t : ℕ) → Links → ℕ × Links
queue_insert_tail queue t s =
    if queue == 0 then (t, set_next t t (set_prev t t s)) else (queue, link_before queue t s)

-- t->next->prev = t->prev; t->prev->next = t->next
unfoldable pub unlink : ℕ → Links → Links
unlink t s = let s1 = set_prev (s.next t) (s.prev t) s in set_next (s1.prev t) (s1.next t) s1

-- `none` is the read through NULL that a removal from an empty queue makes; otherwise the removed
-- node, the new head and the memory.
pub queue_remove_head : (queue : ℕ) → Links → Option (ℕ × ℕ × Links)
queue_remove_head queue s =
    let t = queue in
    if t == 0
    then none
    else if s.next t == t
    then some (t, 0, s)
    else let s' = unlink t s in some (t, s'.next t, s')

pub queue_remove_tail : (queue : ℕ) → Links → Option (ℕ × ℕ × Links)
queue_remove_tail queue s =
    let t = s.prev queue in
    if queue == 0
    then none
    else if s.next t == t
    then some (t, 0, s)
    else some (t, queue, unlink t s)

unfoldable pub queue_detach : (queue t : ℕ) → Links → ℕ × Links
queue_detach queue t s =
    let queue' = if queue == t then (if s.next t == t then 0 else s.next t) else queue in
    (queue', unlink t s)
