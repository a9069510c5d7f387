-- ===== src/Sched/Mutexes.antt =====
-- kern/sched.c, kern/syscall_thread.c and kern/timer.c: the operations that leave the mutexes as they are.
use pebpeb_os.Base.{
  ℕ, zero, suc, ◌≡◌, inl, inr, refl, ◌∙◌, ap, not, ◌||◌, Bool-cases, ◌==◌, List, [], ◌∷◌, Option,
  none, some,
}
use pebpeb_os.Base.Int.{ℤ, pos, negsuc}
use pebpeb_os.Sched.{
  Status, running, ready, blocked, sleeping, descheduled, dead, Kernel, set_status, select_next,
  insert_ready_tail, insert_ready_head, switch_to, run_next, cv_signal, timer_switch,
  sys_yield_real, sys_deschedule_real, sys_make_runnable_real, make_runnable_found, yield_found,
}
use pebpeb_os.Sched.Moves.{run_next-nil, run_next-cons}
use pebpeb_os.Sched.Unlock.{cv_signal-nil, cv_signal-cons}

-- A switch changes no mutex.
switch_to-mutexes : (t : ℕ) (k : Kernel) → (switch_to t k).mutexes ≡ k.mutexes
unfolding switch_to
switch_to-mutexes t k = elim (Bool-cases (t == k.current)) [ inl e ↦ rw e refl | inr e ↦ rw e refl ]

pub run_next-mutexes : (k : Kernel) → (run_next k).mutexes ≡ k.mutexes
run_next-mutexes k = go k.ready_queue refl
  where
    go : (q : List ℕ) → k.ready_queue ≡ q → (run_next k).mutexes ≡ k.mutexes
    go [] e = ap (λ r. r.mutexes) (run_next-nil k e) ∙ switch_to-mutexes k.idle k
    go (t ∷ q) e =
        ap (λ r. r.mutexes) (run_next-cons k t q e)
        ∙ switch_to-mutexes t (record k { ready_queue = q })

pub cv_signal-mutexes : (c : ℕ) (k : Kernel) → (cv_signal c k).mutexes ≡ k.mutexes
unfolding insert_ready_head
cv_signal-mutexes c k = go (k.cvs c) refl
  where
    go : (q : List ℕ) → k.cvs c ≡ q → (cv_signal c k).mutexes ≡ k.mutexes
    go [] e = ap (λ r. r.mutexes) (cv_signal-nil c k e)
    go (t ∷ q) e = ap (λ r. r.mutexes) (cv_signal-cons c k t q e)

pub timer_switch-mutexes : (k : Kernel) → (timer_switch k).mutexes ≡ k.mutexes
unfolding timer_switch insert_ready_tail
timer_switch-mutexes k = elim (Bool-cases (k.current == k.idle)) [
  | inl e ↦ rw e (run_next-mutexes k)
  | inr e ↦ rw e (run_next-mutexes (insert_ready_tail k.current k))
]

yield_found-mutexes :
    (s : Status) (tid : ℕ) (k : Kernel) → (yield_found s tid k).1.mutexes ≡ k.mutexes
unfolding yield_found insert_ready_tail select_next
yield_found-mutexes running tid k = go k.ready_queue
  where
    go :
        (l : List ℕ)
        → (let (t, k') = elim l as (λ l. ℕ × Kernel) [
          | [] ↦ (k.idle, k)
          | t ∷ q ↦ (t, record k { ready_queue = q })
        ] in
            switch_to t (insert_ready_tail k.current k')).mutexes
          ≡ k.mutexes
    go [] = switch_to-mutexes k.idle (insert_ready_tail k.current k)
    go (t ∷ q) = switch_to-mutexes t (insert_ready_tail k.current (record k { ready_queue = q }))
yield_found-mutexes ready tid k = switch_to-mutexes tid _
yield_found-mutexes blocked tid k = refl
yield_found-mutexes sleeping tid k = refl
yield_found-mutexes descheduled tid k = refl
yield_found-mutexes dead tid k = refl

pub sys_yield_real-mutexes : (tid : ℤ) (k : Kernel) → (sys_yield_real tid k).1.mutexes ≡ k.mutexes
unfolding sys_yield_real insert_ready_tail
sys_yield_real-mutexes (negsuc zero) k = run_next-mutexes (insert_ready_tail k.current k)
sys_yield_real-mutexes (negsuc (suc n)) k = refl
sys_yield_real-mutexes (pos tid) k = elim (Bool-cases (k.in_tree tid)) [
  | inl e ↦ rw e (yield_found-mutexes (k.status tid) tid k)
  | inr e ↦ rw e refl
]

pub sys_deschedule_real-mutexes :
    (reject : Option ℕ) (k : Kernel) → (sys_deschedule_real reject k).1.mutexes ≡ k.mutexes
unfolding sys_deschedule_real
sys_deschedule_real-mutexes none k = refl
sys_deschedule_real-mutexes (some reject) k =
    elim (Bool-cases (not (reject == 0) || not (k.pending_exit k.current == 0))) [
      | inl e ↦ rw e refl
      | inr e ↦ rw e (run_next-mutexes (set_status k.current descheduled k))
    ]

make_runnable_found-mutexes :
    (s : Status) (tid : ℕ) (k : Kernel) → (make_runnable_found s tid k).1.mutexes ≡ k.mutexes
unfolding make_runnable_found insert_ready_tail
make_runnable_found-mutexes running tid k = refl
make_runnable_found-mutexes ready tid k = refl
make_runnable_found-mutexes blocked tid k = refl
make_runnable_found-mutexes sleeping tid k = refl
make_runnable_found-mutexes descheduled tid k = refl
make_runnable_found-mutexes dead tid k = refl

pub sys_make_runnable_real-mutexes :
    (tid : ℤ) (k : Kernel) → (sys_make_runnable_real tid k).1.mutexes ≡ k.mutexes
unfolding sys_make_runnable_real
sys_make_runnable_real-mutexes (negsuc n) k = refl
sys_make_runnable_real-mutexes (pos tid) k = elim (Bool-cases (k.in_tree tid)) [
  | inl e ↦ rw e (make_runnable_found-mutexes (k.status tid) tid k)
  | inr e ↦ rw e refl
]
