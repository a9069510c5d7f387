-- ===== src/Sched/Steps.antt =====
-- kern/sync.c, kern/timer.c and kern/syscall_thread.c: the places of the threads when the current one
-- gives up the processor or another one becomes ready.
use pebpeb_os.Base.{
  ℕ, ◌≡◌, ◌≢◌, ◌⊎◌, inl, inr, refl, sym, ◌∙◌, ap, not, ◌||◌, Bool-cases, ◌==◌, [], ◌∷◌, ◌++◌,
  Option, none, some, arith,
}
use pebpeb_os.Sched.{
  running, ready, sleeping, descheduled, Place, at_mutex, at_cv, Kernel, Mutex, write, set_status,
  insert_ready_tail, set_mutex, block, mutex_lock, cv_wait, timer_switch, sys_deschedule_real,
  sleep_switch,
}
use pebpeb_os.Sched.Seats.{
  Line, ready_line, waiting, line, line-same, seat, Change, kept, joined, Placed-move, seat-none,
}
use pebpeb_os.Sched.Moves.{
  Sound, write-at, write-off, lines-differ, seat-at, seat-off, run_next-Sound,
}
use pebpeb_os.Sched.Park.{leave-Parked, idle-Parked, insert_ready_tail-Parked, block-Parked}
use pebpeb_os.Sched.Handover.{waiting-injective}
use pebpeb_os.Sched.Still.{Still-Sound, Wakes-Parked}
use pebpeb_os.Sched.Unlock.{waiters-at, waiters-same, mutex_lines, cv_lines, mutex_unlock-Wakes}

-- The lines beside the one that the current thread joins.
block-lines : (p v : Place) (k : Kernel) → line (block v k) (waiting p) ≡ line k (waiting p)
block-lines (at_mutex m) v k = refl
block-lines (at_cv c) v k = refl

other_lines :
    (p : Place) (k k' : Kernel)
    → k'.ready_queue ≡ k.ready_queue
    → ((w : Place) → (w ≡ p) ⊎ ((w ≢ p) × (line k' (waiting w) ≡ line k (waiting w))))
    → (q : Line) → (q ≡ waiting p) ⊎ ((q ≢ waiting p) × (line (block p k') q ≡ line k q))
other_lines p k k' r places ready_line = inr (λ e. cc, r)
other_lines p k k' r places (waiting w) = elim (places w) [
  | inl e ↦ inl (ap waiting e)
  | inr (ne, same) ↦ inr (λ e. ne (waiting-injective w p e), block-lines w p k' ∙ same)
]

pub timer_switch-Sound : (k : Kernel) → Sound k → Sound (timer_switch k)
unfolding timer_switch
timer_switch-Sound k h = elim (Bool-cases (k.current == k.idle)) [
  | inl e ↦ rw e (run_next-Sound k (idle-Parked k h (ground arith)))
  | inr e ↦ rw e (run_next-Sound _ (insert_ready_tail-Parked k h (ground arith)))
]

-- A thread that sleeps or is descheduled is put into the ready queue.
pub insert_ready_tail-Sound :
    (t : ℕ) (k : Kernel)
    → (k.status t ≡ sleeping) ⊎ (k.status t ≡ descheduled)
    → Sound k
    → Sound (insert_ready_tail t k)
unfolding insert_ready_tail
insert_ready_tail-Sound t k s h = record {
  placed = Placed-move now next t others change h.placed;
  idle_out = rw (write-off k.status t ready k.idle off_idle) h.idle_out;
  awake = rw (write-off k.status t ready k.current off_current) h.awake;
}
  where
    now : Kernel
    now = set_status k.current running k

    next : Kernel
    next = set_status k.current running (insert_ready_tail t k)

    off_current : k.current ≢ t
    off_current e = elim s [ inl z ↦ h.awake.1 (rw e z) | inr z ↦ h.awake.2 (rw e z) ]

    off_idle : k.idle ≢ t
    off_idle e = elim h.idle_out [
      | inl r ↦ elim s [ inl z ↦ cc | inr z ↦ cc ]
      | inr d ↦ elim s [ inl z ↦ cc | inr z ↦ cc ]
    ]

    others : (u : ℕ) → u ≢ t → seat next u ≡ seat now u
    others u ne = elim (Bool-cases (u == k.current)) [
      | inl e ↦ rw e refl
      | inr e ↦ rw (e, write-off k.status t ready u ne) refl
    ]

    before : seat now t ≡ none
    before =
        seat-off k k.current running t (λ e. off_current (sym e))
        ∙ elim s [ inl z ↦ rw z refl | inr z ↦ rw z refl ]

    after : seat next t ≡ some ready_line
    after =
        seat-off (insert_ready_tail t k) k.current running t (λ e. off_current (sym e))
        ∙ seat-at k t ready

    change : (p : Line) → Change now next t p
    change ready_line = joined refl (seat-none _ _ before) after
    change (waiting (at_mutex m)) = kept refl (seat-none _ _ before) (lines-differ _ _ after)
    change (waiting (at_cv c)) = kept refl (seat-none _ _ before) (lines-differ _ _ after)

pub mutex_lock-Sound : (m : ℕ) (k : Kernel) → k.current ≢ k.idle → Sound k → Sound (mutex_lock m k)
unfolding mutex_lock
mutex_lock-Sound m k ne h = elim (Bool-cases ((k.mutexes m).locked == 0)) [
  | inl e ↦
      let x : Mutex = record (k.mutexes m) { locked = 1; held = k.current ∷ (k.mutexes m).held } in
      rw e (
        Still-Sound k (set_mutex m x k)
          record {
            status_eq = refl;
            waits_eq = refl;
            current_eq = refl;
            idle_eq = refl;
            lines = line-same k (set_mutex m x k) refl (waiters-same k m x refl) (λ c. refl);
          }
          h)
  | inr e ↦
      let x : Mutex = record (k.mutexes m) { waiters = (k.mutexes m).waiters ++ k.current ∷ [] } in
      rw e (
        run_next-Sound _ (
          block-Parked k h (at_mutex m) (block (at_mutex m) (set_mutex m x k)) ne refl refl refl
            (waiters-at k m x)
            (other_lines (at_mutex m) k (set_mutex m x k) refl (mutex_lines k m x))))
]

pub cv_wait-Sound : (c m : ℕ) (k : Kernel) → k.current ≢ k.idle → Sound k → Sound (cv_wait c m k)
unfolding cv_wait
cv_wait-Sound c m k ne h =
    let queued : Kernel = record k { cvs = write k.cvs c (k.cvs c ++ k.current ∷ []) } in
    run_next-Sound _ (
      Wakes-Parked (at_mutex m) _ _ (mutex_unlock-Wakes m (block (at_cv c) queued)) (
        block-Parked k h (at_cv c) (block (at_cv c) queued) ne refl refl refl
          (write-at k.cvs c (k.cvs c ++ k.current ∷ []))
          (other_lines (at_cv c) k queued refl (cv_lines k c (k.cvs c ++ k.current ∷ [])))))

pub sys_deschedule_real-Sound :
    (reject : Option ℕ) (k : Kernel)
    → k.current ≢ k.idle
    → Sound k
    → Sound (sys_deschedule_real reject k).1
unfolding sys_deschedule_real
sys_deschedule_real-Sound none k ne h = h
sys_deschedule_real-Sound (some reject) k ne h =
    elim (Bool-cases (not (reject == 0) || not (k.pending_exit k.current == 0))) [
      | inl e ↦ rw e h
      | inr e ↦ rw e (run_next-Sound _ (leave-Parked k h descheduled ne refl))
    ]

pub sleep_switch-Sound : (k : Kernel) → k.current ≢ k.idle → Sound k → Sound (sleep_switch k)
unfolding sleep_switch
sleep_switch-Sound k ne h = run_next-Sound _ (leave-Parked k h sleeping ne refl)
