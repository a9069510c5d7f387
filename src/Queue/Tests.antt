-- ===== src/Queue/Tests.antt =====
-- A queue of three nodes, built by the functions, and the theorems at it.
use pebpeb_os.Base.{ℕ, ◌≡◌, [], ◌∷◌, refl, none, ◌==◌, if◌then◌else◌}
use pebpeb_os.Queue.{
  Links, link_before, queue_insert_head, queue_insert_tail, queue_remove_head, queue_detach,
}
use pebpeb_os.Queue.Chain.{IsQueue, SameOutside}
use pebpeb_os.Queue.Remove.{queue_detach-append}

abbrev blank : Links
blank = record { next = λ p. 0; prev = λ p. 0 }

-- The queue of 10, 20 and 30, in that order.
abbrev three : Links
three = record {
  next = λ p. if p == 10 then 20 else if p == 20 then 30 else 10;
  prev = λ p. if p == 10 then 30 else if p == 20 then 10 else 20;
}

three-IsQueue : IsQueue three 10 (10 ∷ 20 ∷ 30 ∷ [])
three-IsQueue =
    (refl, ((refl, refl), ((refl, refl), (refl, refl))), refl, (refl, (refl, (refl, tt))))

-- 20 and 30 at the tail of an empty queue and 10 at its head.
built : ℕ × Links
unfolding queue_insert_head queue_insert_tail link_before
built =
    let (q, s) = queue_insert_tail 0 20 blank in
    let (r, s') = queue_insert_tail q 30 s in queue_insert_head r 10 s'

built-IsQueue : IsQueue built.1 built.0 (10 ∷ 20 ∷ 30 ∷ [])
unfolding built
built-IsQueue =
    (refl, ((refl, refl), ((refl, refl), (refl, refl))), refl, (refl, (refl, (refl, tt))))

remove_head_null : queue_remove_head 0 three ≡ none
unfolding queue_remove_head
remove_head_null = refl

queue_detach-append_example :
    let (queue', s') = queue_detach 10 20 three in
    IsQueue s' queue' (10 ∷ 30 ∷ []) × SameOutside (10 ∷ 20 ∷ 30 ∷ []) three s'
queue_detach-append_example = queue_detach-append three 10 (10 ∷ []) 20 (30 ∷ []) three-IsQueue
