-- ===== src/Sched.antt =====
-- kern/sched.c, kern/sync.c, kern/syscall_thread.c, kern/syscall_process.c and kern/timer.c: which thread runs, which are
-- ready, and which wait. A thread is its tid, and a queue of threads is their list, as the theorems
-- on Queue relate the two. The mutex `threads_lock` that sys_yield_real and sys_make_runnable_real
-- hold around their lookup of a thread is left out, so the lookup is part of the step. The spinlocks that each operation holds make it one step; a call that
-- switches to another thread ends there, and what it does after its thread runs again is a step of
-- its own (`cv_wait` then calls `mutex_lock`).
pub mod Seats
pub mod Moves
pub mod Park
pub mod Handover
pub mod Still
pub mod Unlock
pub mod Run
pub mod Steps
pub mod Yield
pub mod Order
pub mod Mutexes
pub mod Exclusion
pub mod Turns
pub mod Calls
mod Tests
use pebpeb_os.Base.{
  ℕ, zero, suc, Bool, true, false, not, ◌||◌, List, [], ◌∷◌, ◌++◌, Option, none, some, ◌==◌,
  if◌then◌else◌,
}
use pebpeb_os.Base.Members.{remove}
use pebpeb_os.Base.Int.{ℤ, pos, negsuc}

-- `thr_stat_t`
pub data Status : Type 0 where
  running : Status
  ready : Status
  blocked : Status
  sleeping : Status
  descheduled : Status
  dead : Status

-- The queue in which a blocked thread stands: of a mutex or of a condition variable.
pub data Place : Type 0 where
  at_mutex : ℕ → Place
  at_cv : ℕ → Place

-- `mutex_t`. `held` is no field of it: the threads whose mutex_lock has succeeded and that have not
-- unlocked since.
pub record Mutex : Type 0 where
  pub locked : ℕ
  pub waiters : List ℕ
  pub held : List ℕ

-- The scheduler's variables and the fields of the threads that it uses, with mutexes and condition
-- variables by number. `waits_at` is where a blocked thread stands, and `in_tree` is whether
-- find_thread finds a thread.
pub record Kernel : Type 0 where
  pub status : ℕ → Status
  pub ready_queue : List ℕ
  pub current : ℕ
  pub idle : ℕ
  pub mutexes : ℕ → Mutex
  pub cvs : ℕ → List ℕ
  pub waits_at : ℕ → Place
  pub in_tree : ℕ → Bool
  pub pending_exit : ℕ → ℕ

abbrev pub write {ℓ} : {A : Type ℓ} → (ℕ → A) → ℕ → A → ℕ → A
write f i a j = if j == i then a else f j

abbrev pub set_status : (t : ℕ) → Status → Kernel → Kernel
set_status t st k = record k { status = write k.status t st }

unfoldable pub select_next : Kernel → ℕ × Kernel
select_next k = elim k.ready_queue [ [] ↦ (k.idle, k) | t ∷ q ↦ (t, record k { ready_queue = q }) ]

unfoldable pub insert_ready_tail : (t : ℕ) → Kernel → Kernel
insert_ready_tail t k = record k {
  status = write k.status t ready;
  ready_queue = k.ready_queue ++ t ∷ [];
}

unfoldable pub insert_ready_head : (t : ℕ) → Kernel → Kernel
insert_ready_head t k = record k {
  status = write k.status t ready;
  ready_queue = t ∷ k.ready_queue;
}

-- yield_to_spl_unlock of kern/sync_asm.S with save_and_setup_env: for the thread that runs already
-- nothing is done, and its status stays what it is.
unfoldable pub switch_to : (t : ℕ) → Kernel → Kernel
switch_to t k =
    if t == k.current then k else record k { current = t; status = write k.status t running }

-- The end of most operations: the next ready thread runs.
unfoldable pub run_next : Kernel → Kernel
run_next k = let (t, k') = select_next k in switch_to t k'

abbrev pub set_mutex : (m : ℕ) → Mutex → Kernel → Kernel
set_mutex m x k = record k { mutexes = write k.mutexes m x }

abbrev pub block : Place → Kernel → Kernel
block p k = record k {
  status = write k.status k.current blocked;
  waits_at = write k.waits_at k.current p;
}

unfoldable pub mutex_lock : (m : ℕ) → Kernel → Kernel
mutex_lock m k =
    let x = k.mutexes m in
    if x.locked == 0
    then set_mutex m (record x { locked = 1; held = k.current ∷ x.held }) k
    else run_next
        (block (at_mutex m) (set_mutex m (record x { waiters = x.waiters ++ k.current ∷ [] }) k))

-- The lock is handed to the thread that has waited longest.
unfoldable pub mutex_unlock : (m : ℕ) → Kernel → Kernel
mutex_unlock m k =
    let x = k.mutexes m in
    let held = remove k.current x.held in
    elim x.waiters [
      | [] ↦ set_mutex m (record x { locked = 0; held = held }) k
      | t ∷ q ↦ insert_ready_head t (set_mutex m (record x { waiters = q; held = t ∷ held }) k)
    ]

-- cv_wait up to its switch.
unfoldable pub cv_wait : (c m : ℕ) → Kernel → Kernel
cv_wait c m k =
    let queued = record k { cvs = write k.cvs c (k.cvs c ++ k.current ∷ []) } in
    run_next (mutex_unlock m (block (at_cv c) queued))

unfoldable pub cv_signal : (c : ℕ) → Kernel → Kernel
cv_signal c k = elim (k.cvs c) [
  | [] ↦ k
  | t ∷ q ↦ insert_ready_head t (record k { cvs = write k.cvs c q })
]

-- The switch of timer_handler_real.
unfoldable pub timer_switch : Kernel → Kernel
timer_switch k = run_next (if k.current == k.idle then k else insert_ready_tail k.current k)

-- sys_yield_real from where it has found thread `tid`, by the status of that thread.
unfoldable pub yield_found : Status → (tid : ℕ) → Kernel → ℤ × Kernel
yield_found running tid k =
    let (t, k') = select_next k in (pos 0, switch_to t (insert_ready_tail k.current k'))
yield_found ready tid k = (
  pos 0,
  switch_to tid (insert_ready_tail k.current (record k { ready_queue = remove tid k.ready_queue })),
)
yield_found blocked tid k = (negsuc 0, k)
yield_found sleeping tid k = (negsuc 0, k)
yield_found descheduled tid k = (negsuc 0, k)
yield_found dead tid k = (negsuc 0, k)

-- sys_yield_real: the result, and the state. -1 is `negsuc 0`.
unfoldable pub sys_yield_real : (tid : ℤ) → Kernel → ℤ × Kernel
sys_yield_real (negsuc zero) k = (pos 0, run_next (insert_ready_tail k.current k))
sys_yield_real (negsuc (suc n)) k = (negsuc 1, k)
sys_yield_real (pos tid) k =
    if k.in_tree tid then yield_found (k.status tid) tid k else (negsuc 1, k)

-- sys_deschedule_real: `reject` is what copy_from_user reads, `none` if it fails.
unfoldable pub sys_deschedule_real : (reject : Option ℕ) → Kernel → ℤ × Kernel
sys_deschedule_real none k = (negsuc 0, k)
sys_deschedule_real (some reject) k =
    if not (reject == 0) || not (k.pending_exit k.current == 0)
    then (pos 0, k)
    else (pos 0, run_next (set_status k.current descheduled k))

-- sys_make_runnable_real from where it has found thread `tid`.
unfoldable pub make_runnable_found : Status → (tid : ℕ) → Kernel → ℤ × Kernel
make_runnable_found descheduled tid k = (pos 0, insert_ready_tail tid k)
make_runnable_found running tid k = (negsuc 2, k)
make_runnable_found ready tid k = (negsuc 2, k)
make_runnable_found blocked tid k = (negsuc 2, k)
make_runnable_found sleeping tid k = (negsuc 2, k)
make_runnable_found dead tid k = (negsuc 2, k)

unfoldable pub sys_make_runnable_real : (tid : ℤ) → Kernel → ℤ × Kernel
sys_make_runnable_real (negsuc n) k = (negsuc 1, k)
sys_make_runnable_real (pos tid) k =
    if k.in_tree tid then make_runnable_found (k.status tid) tid k else (negsuc 1, k)

-- The end of sys_sleep_real, and what check_timers does with a thread that is due.
unfoldable pub sleep_switch : Kernel → Kernel
sleep_switch k = run_next (set_status k.current sleeping k)
