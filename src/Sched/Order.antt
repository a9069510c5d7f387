-- ===== src/Sched/Order.antt =====
-- kern/sched.c, kern/sync.c, kern/syscall_thread.c, kern/syscall_process.c and kern/timer.c: the lines
-- of waiting threads in every order of the operations.
use pebpeb_os.Base.{inl, List}
use pebpeb_os.Sched.{at_mutex, at_cv, Kernel, mutex_unlock, cv_signal}
use pebpeb_os.Sched.Moves.{Sound}
use pebpeb_os.Sched.Still.{Wakes-Sound}
use pebpeb_os.Sched.Unlock.{mutex_unlock-Wakes, cv_signal-Wakes}
use pebpeb_os.Sched.Run.{
  Action, tick, yield, lock, unlock, wait, signal, deschedule, make_runnable, sleep, wake, step,
  Allowed, run, AllAllowed, run-ind,
}
use pebpeb_os.Sched.Steps.{
  timer_switch-Sound, insert_ready_tail-Sound, mutex_lock-Sound, cv_wait-Sound,
  sys_deschedule_real-Sound, sleep_switch-Sound,
}
use pebpeb_os.Sched.Yield.{sys_make_runnable_real-Sound, sys_yield_real-Sound}

-- Every thread keeps its place in every step.
pub step-Sound : (a : Action) (k : Kernel) → Allowed a k → Sound k → Sound (step a k)
step-Sound tick k ok h = timer_switch-Sound k h
step-Sound (yield tid) k (ne, off) h = sys_yield_real-Sound tid k ne off h
step-Sound (lock m) k ne h = mutex_lock-Sound m k ne h
step-Sound (unlock m) k ok h =
    Wakes-Sound (at_mutex m) k (mutex_unlock m k) (mutex_unlock-Wakes m k) h
step-Sound (wait c m) k (ne, held) h = cv_wait-Sound c m k ne h
step-Sound (signal c) k ok h = Wakes-Sound (at_cv c) k (cv_signal c k) (cv_signal-Wakes c k) h
step-Sound (deschedule reject) k ne h = sys_deschedule_real-Sound reject k ne h
step-Sound (make_runnable tid) k ok h = sys_make_runnable_real-Sound tid k h
step-Sound sleep k ne h = sleep_switch-Sound k ne h
step-Sound (wake t) k s h = insert_ready_tail-Sound t k (inl s) h

-- In every order of steps each thread stays where its status says: a ready thread that does not run
-- stands in the ready queue, a blocked one in the queue of the mutex or condition variable that it
-- waits for, any other one in no queue; each stands there once, and nothing else stands there. The
-- current thread stands in no queue. The steps are those of `Allowed`, where no thread yields to
-- itself.
pub run-Sound : (acts : List Action) (k : Kernel) → AllAllowed acts k → Sound k → Sound (run acts k)
run-Sound acts k ok h = run-ind Sound step-Sound acts k ok h
