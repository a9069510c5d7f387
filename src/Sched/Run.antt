-- ===== src/Sched/Run.antt =====
-- kern/sched.c, kern/sync.c, kern/syscall_thread.c, kern/syscall_process.c and kern/timer.c: the order
-- in which the operations happen, as a list of steps, with what each one needs.
use pebpeb_os.Base.{ℕ, ◌≡◌, ◌≢◌, List, [], ◌∷◌, Option}
use pebpeb_os.Base.Int.{ℤ, pos}
use pebpeb_os.Base.Members.{In}
use pebpeb_os.Sched.{
  sleeping, Kernel, insert_ready_tail, mutex_lock, mutex_unlock, cv_wait, cv_signal, timer_switch,
  sys_yield_real, sys_deschedule_real, sys_make_runnable_real, sleep_switch,
}

pub data Action : Type 0 where
  tick : Action
  yield : (tid : ℤ) → Action
  lock : (m : ℕ) → Action
  unlock : (m : ℕ) → Action
  wait : (c m : ℕ) → Action
  signal : (c : ℕ) → Action
  deschedule : (reject : Option ℕ) → Action
  make_runnable : (tid : ℤ) → Action
  sleep : Action
  wake : (t : ℕ) → Action

abbrev pub step : Action → Kernel → Kernel
step tick k = timer_switch k
step (yield tid) k = (sys_yield_real tid k).1
step (lock m) k = mutex_lock m k
step (unlock m) k = mutex_unlock m k
step (wait c m) k = cv_wait c m k
step (signal c) k = cv_signal c k
step (deschedule reject) k = (sys_deschedule_real reject k).1
step (make_runnable tid) k = (sys_make_runnable_real tid k).1
step sleep k = sleep_switch k
step (wake t) k = insert_ready_tail t k

-- The idle thread makes no call, only a holder unlocks, a thread yields to another one, and the
-- timer wakes a thread that sleeps.
abbrev pub Allowed : Action → Kernel → Type 0
Allowed tick k = Unit
Allowed (yield tid) k = (k.current ≢ k.idle) × (tid ≢ pos k.current)
Allowed (lock m) k = k.current ≢ k.idle
Allowed (unlock m) k = In k.current (k.mutexes m).held
Allowed (wait c m) k = (k.current ≢ k.idle) × In k.current (k.mutexes m).held
Allowed (signal c) k = Unit
Allowed (deschedule reject) k = k.current ≢ k.idle
Allowed (make_runnable tid) k = Unit
Allowed sleep k = k.current ≢ k.idle
Allowed (wake t) k = k.status t ≡ sleeping

abbrev pub run : List Action → Kernel → Kernel
run [] k = k
run (a ∷ acts) k = run acts (step a k)

abbrev pub AllAllowed : List Action → Kernel → Type 0
AllAllowed [] k = Unit
AllAllowed (a ∷ acts) k = Allowed a k × AllAllowed acts (step a k)

-- The induction on a run.
pub run-ind :
    (P : Kernel → Type 0)
    → ((a : Action) (k : Kernel) → Allowed a k → P k → P (step a k))
    → (acts : List Action) (k : Kernel) → AllAllowed acts k
    → P k
    → P (run acts k)
run-ind P keep [] k ok h = h
run-ind P keep (a ∷ acts) k (ok, oks) h = run-ind P keep acts (step a k) oks (keep a k ok h)
