-- ===== src/Sched/Exclusion.antt =====
-- kern/sync.c: what a mutex gives to the threads that use it.
use mathlib.Core.Path.{subst}
use pebpeb_os.Base.{
  ℕ, ◌≡◌, ◌⊎◌, inl, inr, refl, sym, ap, Bool-cases, ◌==◌, List, [], ◌∷◌, ◌++◌, arith,
}
use pebpeb_os.Base.Members.{In, remove}
use pebpeb_os.Sched.{
  at_mutex, at_cv, Kernel, Mutex, write, insert_ready_tail, insert_ready_head, set_mutex, block,
  set_status, sleeping, mutex_lock, mutex_unlock, cv_wait, sleep_switch,
}
use pebpeb_os.Sched.Unlock.{mutex_unlock-nil, mutex_unlock-cons}
use pebpeb_os.Sched.Mutexes.{
  run_next-mutexes, cv_signal-mutexes, timer_switch-mutexes, sys_yield_real-mutexes,
  sys_deschedule_real-mutexes, sys_make_runnable_real-mutexes,
}
use pebpeb_os.Sched.Run.{
  Action, tick, yield, lock, unlock, wait, signal, deschedule, make_runnable, sleep, wake, step,
  Allowed, run, AllAllowed, run-ind,
}

-- A mutex is free, and nobody holds it or waits; or it is locked, and one thread holds it.
abbrev pub IsLock : Mutex → Type 0
IsLock x =
    ((x.locked ≡ 0) × (x.held ≡ []) × (x.waiters ≡ []))
    ⊎ ((x.locked ≡ 1) × (h : ℕ) × (x.held ≡ h ∷ []))

abbrev pub AllLocks : Kernel → Type 0
AllLocks k = (m : ℕ) → IsLock (k.mutexes m)

-- One mutex is written.
write-AllLocks :
    (k : Kernel) (m : ℕ) (x : Mutex)
    → IsLock x
    → AllLocks k
    → (i : ℕ) → IsLock (write k.mutexes m x i)
write-AllLocks k m x good h i = elim (Bool-cases (i == m)) [
  | inl e ↦ rw e good
  | inr e ↦ rw e (h i)
]

mutex_lock-AllLocks : (m : ℕ) (k : Kernel) → AllLocks k → AllLocks (mutex_lock m k)
unfolding mutex_lock
mutex_lock-AllLocks m k h = elim (Bool-cases ((k.mutexes m).locked == 0)) [
  | inl e ↦
      let free : (k.mutexes m).held ≡ [] = elim (h m) [
        | inl z ↦ z.1
        | inr z ↦ absurd (ground arith)
      ] in
      rw e (write-AllLocks k m _ (inr (refl, k.current, ap (λ l. k.current ∷ l) free)) h)
  | inr e ↦
      let x : Mutex = record (k.mutexes m) { waiters = (k.mutexes m).waiters ++ k.current ∷ [] } in
      let taken : IsLock x = elim (h m) [ inl z ↦ absurd (ground arith) | inr z ↦ inr z ] in
      rw e (
        subst (λ f. (i : ℕ) → IsLock (f i))
          (sym (run_next-mutexes (block (at_mutex m) (set_mutex m x k))))
          (write-AllLocks k m x taken h))
]

-- Who holds a mutex is the only holder.
pub remove-held :
    (c : ℕ) (x : Mutex)
    → In c x.held
    → IsLock x
    → (x.locked ≡ 1) × (x.held ≡ c ∷ []) × (remove c x.held ≡ [])
remove-held c x i (inl (free, none_holds, z)) = elim (rw none_holds at i) [ ]
remove-held c x i (inr (one, h, e)) = elim (rw e at i) [
  | inl same ↦ (one, rw (e, same) refl, rw (e, same) (ground arith))
  | inr z ↦ elim z [ ]
]

pub mutex_unlock-AllLocks :
    (m : ℕ) (k : Kernel)
    → In k.current (k.mutexes m).held
    → AllLocks k
    → AllLocks (mutex_unlock m k)
unfolding insert_ready_head
mutex_unlock-AllLocks m k own h = go (k.mutexes m).waiters refl
  where
    none_left : remove k.current (k.mutexes m).held ≡ []
    none_left = (remove-held k.current (k.mutexes m) own (h m)).2

    go : (l : List ℕ) → (k.mutexes m).waiters ≡ l → AllLocks (mutex_unlock m k)
    go [] e =
        subst AllLocks (sym (mutex_unlock-nil m k e))
          (write-AllLocks k m _ (inl (refl, none_left, e)) h)
    go (t ∷ q) e = subst AllLocks (sym (mutex_unlock-cons m k t q e)) (
        write-AllLocks k m _
          (inr ((remove-held k.current (k.mutexes m) own (h m)).0, t, ap (λ l. t ∷ l) none_left)) h)

cv_wait-AllLocks :
    (c m : ℕ) (k : Kernel) → In k.current (k.mutexes m).held → AllLocks k → AllLocks (cv_wait c m k)
unfolding cv_wait
cv_wait-AllLocks c m k own h =
    let queued : Kernel = record k { cvs = write k.cvs c (k.cvs c ++ k.current ∷ []) } in
    subst (λ f. (i : ℕ) → IsLock (f i))
      (sym (run_next-mutexes (mutex_unlock m (block (at_cv c) queued))))
      (mutex_unlock-AllLocks m (block (at_cv c) queued) own h)

same_locks : {f g : ℕ → Mutex} → f ≡ g → ((m : ℕ) → IsLock (g m)) → (m : ℕ) → IsLock (f m)
same_locks e h = rw e h

pub step-AllLocks : (a : Action) (k : Kernel) → Allowed a k → AllLocks k → AllLocks (step a k)
unfolding insert_ready_tail sleep_switch
step-AllLocks tick k ok h = same_locks (timer_switch-mutexes k) h
step-AllLocks (yield tid) k ok h = same_locks (sys_yield_real-mutexes tid k) h
step-AllLocks (lock m) k ok h = mutex_lock-AllLocks m k h
step-AllLocks (unlock m) k own h = mutex_unlock-AllLocks m k own h
step-AllLocks (wait c m) k (ne, own) h = cv_wait-AllLocks c m k own h
step-AllLocks (signal c) k ok h = same_locks (cv_signal-mutexes c k) h
step-AllLocks (deschedule reject) k ok h = same_locks (sys_deschedule_real-mutexes reject k) h
step-AllLocks (make_runnable tid) k ok h = same_locks (sys_make_runnable_real-mutexes tid k) h
step-AllLocks sleep k ok h = same_locks (run_next-mutexes (set_status k.current sleeping k)) h
step-AllLocks (wake t) k ok h = h

-- Mutual exclusion: after any order of allowed steps, in which only a holder unlocks, a mutex that is
-- not locked has no holder and no waiter, and a locked one has exactly one holder.
pub run-AllLocks :
    (acts : List Action) (k : Kernel)
    → AllAllowed acts k
    → AllLocks k
    → (m : ℕ) → IsLock ((run acts k).mutexes m)
run-AllLocks acts k ok h = run-ind AllLocks step-AllLocks acts k ok h
