-- ===== src/Sched/Turns.antt =====
-- kern/sync.c: the threads that wait for a mutex get it in the order of their calls.
use mathlib.Core.List.{append-nil, append_assoc}
use pebpeb_os.Base.{
  ℕ, suc, ◌≡◌, ◌≢◌, inl, inr, refl, sym, ◌∙◌, ap, Bool, false, Bool-cases, ◌==◌, List, [], ◌∷◌,
  ◌++◌, length, arith, if◌then◌else◌,
}
use pebpeb_os.Sched.{
  at_mutex, at_cv, Kernel, Mutex, write, insert_ready_tail, insert_ready_head, set_mutex, block,
  set_status, sleeping, mutex_lock, mutex_unlock, cv_wait, sleep_switch,
}
use pebpeb_os.Sched.Moves.{write-at, write-off}
use pebpeb_os.Sched.Unlock.{mutex_unlock-nil, mutex_unlock-cons, waiters-at, waiters-same}
use pebpeb_os.Sched.Mutexes.{
  run_next-mutexes, cv_signal-mutexes, timer_switch-mutexes, sys_yield_real-mutexes,
  sys_deschedule_real-mutexes, sys_make_runnable_real-mutexes,
}
use pebpeb_os.Sched.Run.{
  Action, tick, yield, lock, unlock, wait, signal, deschedule, make_runnable, sleep, wake, step,
  Allowed, run, AllAllowed,
}
use pebpeb_os.Sched.Exclusion.{AllLocks, remove-held, run-AllLocks}

-- Whether a step releases the mutex, and how often a run does.
abbrev pub releases : (m : ℕ) → Action → Bool
releases m tick = false
releases m (yield tid) = false
releases m (lock i) = false
releases m (unlock i) = m == i
releases m (wait c i) = m == i
releases m (signal c) = false
releases m (deschedule reject) = false
releases m (make_runnable tid) = false
releases m sleep = false
releases m (wake t) = false

abbrev pub releases_in : (m : ℕ) → List Action → ℕ
releases_in m [] = 0
releases_in m (a ∷ acts) = if releases m a then suc (releases_in m acts) else releases_in m acts

abbrev tail : List ℕ → List ℕ
tail [] = []
tail (x ∷ l) = l

abbrev waiters_of : Kernel → ℕ → List ℕ
waiters_of k m = (k.mutexes m).waiters

-- A list with threads added at its end.
abbrev Longer : List ℕ → List ℕ → Type 0
Longer l l' = (more : List ℕ) × (l' ≡ l ++ more)

Longer-same : {l l' : List ℕ} → l' ≡ l → Longer l l'
Longer-same {l} e = ([], e ∙ sym (append-nil l))

waiters-mutexes : (m : ℕ) {f g : ℕ → Mutex} → f ≡ g → Longer (g m).waiters (f m).waiters
waiters-mutexes m e = Longer-same (ap (λ h. (h m).waiters) e)

-- An unlock takes the first waiter out of its mutex.
unlock-waiters : (i : ℕ) (k : Kernel) → waiters_of (mutex_unlock i k) i ≡ tail (waiters_of k i)
unfolding insert_ready_head
unlock-waiters i k = go (waiters_of k i) refl
  where
    go : (l : List ℕ) → waiters_of k i ≡ l → waiters_of (mutex_unlock i k) i ≡ tail (waiters_of k i)
    go [] e =
        ap (λ r. waiters_of r i) (mutex_unlock-nil i k e) ∙ waiters-at k i _ ∙ e ∙ sym (ap tail e)
    go (t ∷ q) e =
        ap (λ r. waiters_of r i) (mutex_unlock-cons i k t q e) ∙ waiters-at k i _ ∙ sym (ap tail e)

unlock-waiters_ne :
    (m i : ℕ) (k : Kernel) → m ≢ i → waiters_of (mutex_unlock i k) m ≡ waiters_of k m
unfolding insert_ready_head
unlock-waiters_ne m i k ne = go (waiters_of k i) refl
  where
    go : (l : List ℕ) → waiters_of k i ≡ l → waiters_of (mutex_unlock i k) m ≡ waiters_of k m
    go [] e =
        ap (λ r. waiters_of r m) (mutex_unlock-nil i k e)
        ∙ ap (λ x. x.waiters) (write-off k.mutexes i _ m ne)
    go (t ∷ q) e =
        ap (λ r. waiters_of r m) (mutex_unlock-cons i k t q e)
        ∙ ap (λ x. x.waiters) (write-off k.mutexes i _ m ne)

-- The waiters that a step leaves, before it adds any.
abbrev after : (m i : ℕ) → Kernel → List ℕ
after m i k = if m == i then tail (waiters_of k m) else waiters_of k m

unlock-after : (m i : ℕ) (k : Kernel) → waiters_of (mutex_unlock i k) m ≡ after m i k
unlock-after m i k = elim (Bool-cases (m == i)) [
  | inl z ↦ let same : m ≡ i = ground arith in rw (z, same) (unlock-waiters i k)
  | inr z ↦ rw z (unlock-waiters_ne m i k (ground arith))
]

mutex_lock-waiters :
    (m i : ℕ) (k : Kernel) → Longer (waiters_of k m) (waiters_of (mutex_lock i k) m)
unfolding mutex_lock
mutex_lock-waiters m i k = elim (Bool-cases ((k.mutexes i).locked == 0)) [
  | inl e ↦ rw e (
      Longer-same (
        waiters-same k i
          (record (k.mutexes i) { locked = 1; held = k.current ∷ (k.mutexes i).held }) refl m))
  | inr e ↦
      let x : Mutex = record (k.mutexes i) { waiters = waiters_of k i ++ k.current ∷ [] } in
      let switched =
        ap (λ f. (f m).waiters) (run_next-mutexes (block (at_mutex i) (set_mutex i x k))) in
      rw e (elim (Bool-cases (m == i)) [
        | inl z ↦
            let same : m ≡ i = ground arith in
            (k.current ∷ [], switched ∙ rw same (waiters-at k i x))
        | inr z ↦
            Longer-same (switched ∙ ap (λ r. r.waiters) (write-off k.mutexes i x m (ground arith)))
      ])
]

step-waiters :
    (m : ℕ) (a : Action) (k : Kernel)
    → Longer
        (if releases m a then tail (waiters_of k m) else waiters_of k m)
        (waiters_of (step a k) m)
unfolding insert_ready_tail sleep_switch cv_wait
step-waiters m tick k = waiters-mutexes m (timer_switch-mutexes k)
step-waiters m (yield tid) k = waiters-mutexes m (sys_yield_real-mutexes tid k)
step-waiters m (lock i) k = mutex_lock-waiters m i k
step-waiters m (unlock i) k = Longer-same (unlock-after m i k)
step-waiters m (wait c i) k =
    let queued : Kernel = record k { cvs = write k.cvs c (k.cvs c ++ k.current ∷ []) } in
    Longer-same (
      ap (λ f. (f m).waiters) (run_next-mutexes (mutex_unlock i (block (at_cv c) queued)))
      ∙ unlock-after m i (block (at_cv c) queued))
step-waiters m (signal c) k = waiters-mutexes m (cv_signal-mutexes c k)
step-waiters m (deschedule reject) k = waiters-mutexes m (sys_deschedule_real-mutexes reject k)
step-waiters m (make_runnable tid) k = waiters-mutexes m (sys_make_runnable_real-mutexes tid k)
step-waiters m sleep k = waiters-mutexes m (run_next-mutexes (set_status k.current sleeping k))
step-waiters m (wake t) k = Longer-same refl

-- A waiter with `xs` before it is the first one after as many releases.
run-first :
    (m t : ℕ) (acts : List Action) (k : Kernel) (xs ys : List ℕ)
    → waiters_of k m ≡ xs ++ t ∷ ys
    → releases_in m acts ≡ length xs
    → (zs : List ℕ) × (waiters_of (run acts k) m ≡ t ∷ zs)
run-first m t [] k [] ys e n = (ys, e)
run-first m t [] k (x ∷ xs) ys e n = absurd (omega arith)
run-first m t (a ∷ acts) k xs ys e n = elim (Bool-cases (releases m a)) [
  | inl r ↦ go xs e (rw r at n) (rw r at (step-waiters m a k)) (run-first m t acts (step a k))
  | inr r ↦
      let (more, w) = rw r at (step-waiters m a k) in
      run-first m t acts (step a k) xs (ys ++ more)
        (w ∙ ap (λ l. l ++ more) e ∙ append_assoc xs (t ∷ ys) more) (rw r at n)
]
  where
    go :
        (xs : List ℕ)
        → waiters_of k m ≡ xs ++ t ∷ ys
        → suc (releases_in m acts) ≡ length xs
        → Longer (tail (waiters_of k m)) (waiters_of (step a k) m)
        → ((xs ys : List ℕ)
            → waiters_of (step a k) m ≡ xs ++ t ∷ ys
            → releases_in m acts ≡ length xs
            → (zs : List ℕ) × (waiters_of (run acts (step a k)) m ≡ t ∷ zs))
        → (zs : List ℕ) × (waiters_of (run (a ∷ acts) k) m ≡ t ∷ zs)
    go [] e n w rest = absurd (omega arith)
    go (x ∷ xs) e n (more, w) rest =
        rest xs (ys ++ more) (w ∙ ap (λ l. tail l ++ more) e ∙ append_assoc xs (t ∷ ys) more)
          (omega arith)

-- The lock is handed over in the order of the calls: a thread `t` that waits for the mutex with the
-- threads `xs` before it has it, as the only holder, and stands first in the ready queue after as
-- many releases and one more mutex_unlock by the holder, whatever else happens between them.
pub run-hand_over :
    (m t : ℕ) (acts : List Action) (k : Kernel) (xs ys : List ℕ)
    → AllLocks k
    → AllAllowed acts k
    → (k.mutexes m).waiters ≡ xs ++ t ∷ ys
    → releases_in m acts ≡ length xs
    → Allowed (unlock m) (run acts k)
    → (((mutex_unlock m (run acts k)).mutexes m).held ≡ t ∷ [])
      × ((mutex_unlock m (run acts k)).ready_queue ≡ t ∷ (run acts k).ready_queue)
unfolding insert_ready_head
run-hand_over m t acts k xs ys locks ok e n own =
    let k' : Kernel = run acts k in
    let (zs, first) = run-first m t acts k xs ys e n in
    let alone = (remove-held k'.current (k'.mutexes m) own (run-AllLocks acts k ok locks m)).2 in
    let handed = mutex_unlock-cons m k' t zs first in
    (
      ap (λ r. (r.mutexes m).held) handed
          ∙ (ap (λ x. x.held) (write-at k'.mutexes m _) ∙ ap (λ l. t ∷ l) alone),
      ap (λ r. r.ready_queue) handed,
    )
