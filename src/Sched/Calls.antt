-- ===== src/Sched/Calls.antt =====
-- kern/syscall_thread.c: deschedule with make_runnable, and yield of a thread to itself.
use pebpeb_os.Base.{
  ℕ, ◌≡◌, ◌≢◌, inl, inr, refl, sym, ◌∙◌, ap, true, Bool-cases, ◌==◌, List, [], ◌∷◌, ◌++◌, some,
  arith,
}
use pebpeb_os.Base.Int.{pos, negsuc}
use pebpeb_os.Sched.{
  running, ready, descheduled, Kernel, write, set_status, insert_ready_tail, switch_to, run_next,
  sys_yield_real, yield_found, sys_deschedule_real, sys_make_runnable_real, make_runnable_found,
}
use pebpeb_os.Sched.Moves.{
  Sound, Parked, write-at, write-off, run_next-nil, run_next-cons, first-ready,
}
use pebpeb_os.Sched.Park.{leave-Parked}

switch_to-status : (t : ℕ) (k : Kernel) (u : ℕ) → u ≢ t → (switch_to t k).status u ≡ k.status u
unfolding switch_to
switch_to-status t k u ne = elim (Bool-cases (t == k.current)) [
  | inl e ↦ rw e refl
  | inr e ↦ rw e (write-off k.status t running u ne)
]

switch_to-in_tree : (t : ℕ) (k : Kernel) → (switch_to t k).in_tree ≡ k.in_tree
unfolding switch_to
switch_to-in_tree t k = elim (Bool-cases (t == k.current)) [ inl e ↦ rw e refl | inr e ↦ rw e refl ]

switch_to-current : (t : ℕ) (k : Kernel) → (switch_to t k).current ≡ t
unfolding switch_to
switch_to-current t k = elim (Bool-cases (t == k.current)) [
  | inl e ↦ rw e (ground arith)
  | inr e ↦ rw e refl
]

-- The thread that the scheduler runs next.
abbrev pub next_of : Kernel → ℕ
next_of k = elim k.ready_queue [ [] ↦ k.idle | t ∷ q ↦ t ]

run_next-current : (k : Kernel) → (run_next k).current ≡ next_of k
run_next-current k = go k.ready_queue refl
  where
    go : (q : List ℕ) → k.ready_queue ≡ q → (run_next k).current ≡ next_of k
    go [] e = ap (λ r. r.current) (run_next-nil k e) ∙ switch_to-current k.idle k ∙ rw e refl
    go (t ∷ q) e =
        ap (λ r. r.current) (run_next-cons k t q e)
        ∙ switch_to-current t (record k { ready_queue = q })
        ∙ rw e refl

-- What a switch does to a thread that is neither ready nor the idle one: another one runs, its status
-- stays, and so does which threads exist.
run_next-keeps :
    (k : Kernel) (u : ℕ)
    → Parked k
    → u ≢ k.idle
    → k.status u ≢ ready
    → ((run_next k).current ≢ u)
      × ((run_next k).status u ≡ k.status u)
      × ((run_next k).in_tree ≡ k.in_tree)
run_next-keeps k u h off ne = go k.ready_queue refl
  where
    go :
        (q : List ℕ)
        → k.ready_queue ≡ q
        → ((run_next k).current ≢ u)
          × ((run_next k).status u ≡ k.status u)
          × ((run_next k).in_tree ≡ k.in_tree)
    go [] e = (
      λ z. off (sym z ∙ run_next-current k ∙ rw e refl),
      ap (λ r. r.status u) (run_next-nil k e) ∙ switch_to-status k.idle k u off,
      ap (λ r. r.in_tree) (run_next-nil k e) ∙ switch_to-in_tree k.idle k,
    )
    go (t ∷ q) e = (
      λ z.
          let first : u ≡ t = sym z ∙ run_next-current k ∙ rw e refl in
          ne (rw first (first-ready k t q e h.placed)),
      ap (λ r. r.status u) (run_next-cons k t q e)
          ∙ switch_to-status t (record k { ready_queue = q }) u
              (λ z. ne (rw z (first-ready k t q e h.placed))),
      ap (λ r. r.in_tree) (run_next-cons k t q e)
          ∙ switch_to-in_tree t (record k { ready_queue = q }),
    )

-- make_runnable of a thread that exists and is descheduled.
make_runnable-descheduled :
    (tid : ℕ) (k : Kernel)
    → k.in_tree tid ≡ true
    → k.status tid ≡ descheduled
    → sys_make_runnable_real (pos tid) k ≡ (pos 0, insert_ready_tail tid k)
unfolding sys_make_runnable_real make_runnable_found
make_runnable-descheduled tid k there e = rw (there, e) refl

make_runnable-ready :
    (tid : ℕ) (k : Kernel)
    → k.in_tree tid ≡ true
    → k.status tid ≡ ready
    → sys_make_runnable_real (pos tid) k ≡ (negsuc 2, k)
unfolding sys_make_runnable_real make_runnable_found
make_runnable-ready tid k there e = rw (there, e) refl

inserted : (c : ℕ) (k : Kernel) → (insert_ready_tail c k).ready_queue ≡ k.ready_queue ++ c ∷ []
unfolding insert_ready_tail
inserted c k = refl

in_tree-kept : (c : ℕ) (k : Kernel) → (insert_ready_tail c k).in_tree c ≡ k.in_tree c
unfolding insert_ready_tail
in_tree-kept c k = refl

ready-now : (c : ℕ) (k : Kernel) → (insert_ready_tail c k).status c ≡ ready
unfolding insert_ready_tail
ready-now c k = write-at k.status c ready

deschedule-switches :
    (k : Kernel)
    → k.pending_exit k.current ≡ 0
    → sys_deschedule_real (some 0) k ≡ (pos 0, run_next (set_status k.current descheduled k))
unfolding sys_deschedule_real
deschedule-switches k alive = rw alive refl

-- A thread that exists, is not idle, has no exit pending and calls deschedule with 0 in memory gives
-- up the processor: the first ready thread runs, or the idle one if none is ready, which is another
-- thread in both cases, and the caller is descheduled. make_runnable wakes it: that call returns 0
-- and puts it at the end of the ready queue, and a second one returns -3 and changes nothing.
pub deschedule-make_runnable :
    (k : Kernel)
    → Sound k
    → k.current ≢ k.idle
    → k.pending_exit k.current ≡ 0
    → k.in_tree k.current ≡ true
    → (let k1 = (sys_deschedule_real (some 0) k).1 in
        let k2 = (sys_make_runnable_real (pos k.current) k1).1 in
        ((sys_deschedule_real (some 0) k).0 ≡ pos 0)
        × (k1.current ≡ next_of k)
        × (k1.current ≢ k.current)
        × (k1.status k.current ≡ descheduled)
        × ((sys_make_runnable_real (pos k.current) k1).0 ≡ pos 0)
        × (k2.ready_queue ≡ k1.ready_queue ++ k.current ∷ [])
        × (sys_make_runnable_real (pos k.current) k2 ≡ (negsuc 2, k2)))
deschedule-make_runnable k h ne alive there =
    let left : Kernel = set_status k.current descheduled k in
    let k1 : Kernel = run_next left in
    let is : left.status k.current ≡ descheduled = write-at k.status k.current descheduled in
    let (other, status_eq, tree_eq) =
      run_next-keeps left k.current (leave-Parked k h descheduled ne refl) ne
        (λ z. descheduled_ne (sym is ∙ z)) in
    let found : k1.in_tree k.current ≡ true = ap (λ f. f k.current) tree_eq ∙ there in
    let (queued, again) = woken k.current k1 found in
    rw (deschedule-switches k alive, make_runnable-descheduled k.current k1 found (status_eq ∙ is))
      (refl, run_next-current left, other, status_eq ∙ is, refl, queued, again)
  where
    descheduled_ne : descheduled ≢ ready
    descheduled_ne e = cc

    woken :
        (c : ℕ) (k1 : Kernel)
        → k1.in_tree c ≡ true
        → ((insert_ready_tail c k1).ready_queue ≡ k1.ready_queue ++ c ∷ [])
          × (sys_make_runnable_real (pos c) (insert_ready_tail c k1)
              ≡ (negsuc 2, insert_ready_tail c k1))
    woken c k1 found = (
      inserted c k1,
      make_runnable-ready c (insert_ready_tail c k1) (in_tree-kept c k1 ∙ found) (ready-now c k1),
    )

switch_to_self : (k : Kernel) → switch_to k.current k ≡ k
unfolding switch_to
switch_to_self k = elim (Bool-cases (k.current == k.current)) [
  | inl z ↦ rw z refl
  | inr z ↦ absurd (ground arith)
]

-- A thread that is alone and yields goes on running, with the status of a ready thread.
yield-alone :
    (k : Kernel)
    → k.ready_queue ≡ []
    → run_next (insert_ready_tail k.current k)
      ≡ record k { status = write k.status k.current ready; ready_queue = [] }
unfolding insert_ready_tail
yield-alone k e =
    run_next-cons (insert_ready_tail k.current k) k.current [] (ap (λ l. l ++ k.current ∷ []) e)
    ∙ switch_to_self (record k { status = write k.status k.current ready; ready_queue = [] })

-- yield of the running thread to itself with no other ready thread: after yield -1, by which it goes
-- on running, yield with its own tid leaves it in the ready queue while it runs.
pub sys_yield_real_self :
    (k : Kernel)
    → k.ready_queue ≡ []
    → k.in_tree k.current ≡ true
    → (let k1 = (sys_yield_real (negsuc 0) k).1 in
        let k2 = (sys_yield_real (pos k.current) k1).1 in
        (k2.current ≡ k.current) × (k2.ready_queue ≡ k.current ∷ []))
unfolding sys_yield_real yield_found insert_ready_tail
sys_yield_real_self k e there =
    let k1 : Kernel =
      insert_ready_tail k.current
        (record k { status = write k.status k.current ready; ready_queue = [] }) in
    let same = switch_to_self k1 in
    rw (yield-alone k e, there, write-at k.status k.current ready)
      (ap (λ r. r.current) same, ap (λ r. r.ready_queue) same)
