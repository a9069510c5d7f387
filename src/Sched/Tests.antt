-- ===== src/Sched/Tests.antt =====
-- Runs of the scheduler and the mutexes.
use pebpeb_os.Base.{
  ℕ, ◌≡◌, ◌≢◌, inl, inr, refl, true, none, List, [], ◌∷◌, ◌++◌, some, arith, Bool-cases, ◌==◌,
  if◌then◌else◌,
}
use pebpeb_os.Base.Int.{pos, negsuc}
use pebpeb_os.Base.Members.{In}
use pebpeb_os.Sched.{
  set_status, running, descheduled, at_mutex, at_cv, Kernel, mutex_unlock, sys_yield_real,
  sys_deschedule_real, sys_make_runnable_real, select_next, insert_ready_tail, insert_ready_head,
  switch_to, run_next, mutex_lock, cv_wait, cv_signal, timer_switch, make_runnable_found,
}
use pebpeb_os.Sched.Seats.{ready_line, waiting, seat, seat-none, Placed}
use pebpeb_os.Sched.Moves.{Sound}
use pebpeb_os.Sched.Run.{
  Action, tick, lock, unlock, wait, signal, deschedule, make_runnable, run, AllAllowed,
}
use pebpeb_os.Sched.Order.{run-Sound}
use pebpeb_os.Sched.Exclusion.{IsLock, AllLocks, run-AllLocks}
use pebpeb_os.Sched.Turns.{run-hand_over}
use pebpeb_os.Sched.Calls.{deschedule-make_runnable, sys_yield_real_self}

-- Thread 1 runs, thread 9 is the idle one, and all others are descheduled; no mutex is locked.
abbrev start : Kernel
start = record {
  status = λ t. if t == 1 then running else if t == 9 then running else descheduled;
  ready_queue = [];
  current = 1;
  idle = 9;
  mutexes = λ m. record { locked = 0; waiters = []; held = [] };
  cvs = λ c. [];
  waits_at = λ t. at_mutex 0;
  in_tree = λ t. true;
  pending_exit = λ t. 0;
}

start-seats : (t : ℕ) → seat (set_status 1 running start) t ≡ none
start-seats t = elim (Bool-cases (t == 1)) [
  | inl e ↦ rw e refl
  | inr e ↦ rw e (elim (Bool-cases (t == 9)) [ inl z ↦ rw z refl | inr z ↦ rw z refl ])
]

start-Placed : Placed (set_status 1 running start)
start-Placed ready_line =
    (tt, λ t. (λ i. elim i [ ], λ s. absurd (seat-none _ ready_line (start-seats t) s)))
start-Placed (waiting (at_mutex m)) =
    (tt, λ t. (λ i. elim i [ ], λ s. absurd (seat-none _ _ (start-seats t) s)))
start-Placed (waiting (at_cv c)) =
    (tt, λ t. (λ i. elim i [ ], λ s. absurd (seat-none _ _ (start-seats t) s)))

start-Sound : Sound start
start-Sound = record {
  placed = start-Placed;
  idle_out = inl refl;
  awake = (λ e. cc, λ e. cc, λ e. cc);
}

start-AllLocks : AllLocks start
start-AllLocks m = inl (refl, refl, refl)

-- Threads 2 and 3 are made ready; 1 takes mutex 0, and the timer lets 2 and 3 ask for it.
abbrev asked : List Action
asked = make_runnable (pos 2) ∷ make_runnable (pos 3) ∷ lock 0 ∷ tick ∷ lock 0 ∷ lock 0 ∷ []

asked-AllAllowed : AllAllowed asked start
unfolding mutex_lock sys_make_runnable_real make_runnable_found select_next insert_ready_tail
    insert_ready_head switch_to run_next mutex_unlock cv_wait cv_signal timer_switch
    sys_deschedule_real
asked-AllAllowed = (tt, (tt, (omega arith, (tt, (omega arith, (omega arith, tt))))))

-- After that 1 waits on condition variable 4, by which 2 gets the mutex, and 2 is descheduled.
abbrev acts : List Action
acts = asked ++ signal 4 ∷ wait 4 0 ∷ deschedule (some 0) ∷ []

acts-AllAllowed : AllAllowed acts start
unfolding mutex_lock sys_make_runnable_real make_runnable_found select_next insert_ready_tail
    insert_ready_head switch_to run_next mutex_unlock cv_wait cv_signal timer_switch
    sys_deschedule_real
acts-AllAllowed = (
  tt,
  (
    tt,
    (
      omega arith,
      (tt, (omega arith, (omega arith, (tt, ((omega arith, inl refl), (omega arith, tt)))))),
    ),
  ),
)

-- 1 stands in the line of the condition variable, 3 in that of the mutex, which 2 holds.
run-acts :
    ((run acts start).current ≡ 9)
    × ((run acts start).cvs 4 ≡ 1 ∷ [])
    × (((run acts start).mutexes 0).waiters ≡ 3 ∷ [])
    × (((run acts start).mutexes 0).held ≡ 2 ∷ [])
unfolding mutex_lock sys_make_runnable_real make_runnable_found select_next insert_ready_tail
    insert_ready_head switch_to run_next mutex_unlock cv_wait cv_signal timer_switch
    sys_deschedule_real
run-acts = (refl, refl, refl, refl)

run-Sound_example : Sound (run acts start)
run-Sound_example = run-Sound acts start acts-AllAllowed start-Sound

run-AllLocks_example : IsLock ((run acts start).mutexes 0)
run-AllLocks_example = run-AllLocks acts start acts-AllAllowed start-AllLocks 0

-- 3 waits behind 2; 1 unlocks, and 2 runs.
abbrev busy : Kernel
busy = run asked start

abbrev turn : List Action
turn = unlock 0 ∷ tick ∷ []

turn-AllAllowed : AllAllowed turn busy
unfolding mutex_lock sys_make_runnable_real make_runnable_found select_next insert_ready_tail
    insert_ready_head switch_to run_next mutex_unlock cv_wait cv_signal timer_switch
    sys_deschedule_real
turn-AllAllowed = (inl refl, (tt, tt))

busy-waiters : (busy.mutexes 0).waiters ≡ 2 ∷ 3 ∷ []
unfolding mutex_lock sys_make_runnable_real make_runnable_found select_next insert_ready_tail
    insert_ready_head switch_to run_next mutex_unlock cv_wait cv_signal timer_switch
    sys_deschedule_real
busy-waiters = refl

turn-holder : In (run turn busy).current ((run turn busy).mutexes 0).held
unfolding mutex_lock sys_make_runnable_real make_runnable_found select_next insert_ready_tail
    insert_ready_head switch_to run_next mutex_unlock cv_wait cv_signal timer_switch
    sys_deschedule_real
turn-holder = inl refl

busy-AllLocks : AllLocks busy
busy-AllLocks = run-AllLocks asked start asked-AllAllowed start-AllLocks

run-hand_over_example :
    (((mutex_unlock 0 (run turn busy)).mutexes 0).held ≡ 3 ∷ [])
    × ((mutex_unlock 0 (run turn busy)).ready_queue ≡ 3 ∷ (run turn busy).ready_queue)
run-hand_over_example =
    run-hand_over 0 3 turn busy (2 ∷ []) [] busy-AllLocks turn-AllAllowed busy-waiters refl
      turn-holder

deschedule-make_runnable_example :
    let k1 = (sys_deschedule_real (some 0) start).1 in
    let k2 = (sys_make_runnable_real (pos 1) k1).1 in
    ((sys_deschedule_real (some 0) start).0 ≡ pos 0)
    × (k1.current ≡ 9)
    × (k1.current ≢ 1)
    × (k1.status 1 ≡ descheduled)
    × ((sys_make_runnable_real (pos 1) k1).0 ≡ pos 0)
    × (k2.ready_queue ≡ k1.ready_queue ++ 1 ∷ [])
    × (sys_make_runnable_real (pos 1) k2 ≡ (negsuc 2, k2))
deschedule-make_runnable_example =
    deschedule-make_runnable start start-Sound (omega arith) refl refl

sys_yield_real_self_example :
    let k1 = (sys_yield_real (negsuc 0) start).1 in
    let k2 = (sys_yield_real (pos 1) k1).1 in (k2.current ≡ 1) × (k2.ready_queue ≡ 1 ∷ [])
sys_yield_real_self_example = sys_yield_real_self start refl refl
