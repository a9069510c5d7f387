-- ===== src/Sched/Unlock.antt =====
-- kern/sync.c: mutex_unlock and cv_signal wake the first waiter, or nobody.
use mathlib.Core.Path.{subst}
use pebpeb_os.Base.{
  ℕ, ◌≡◌, ◌≢◌, ◌⊎◌, inl, inr, refl, ◌∙◌, sym, ap, Bool-cases, ◌==◌, List, [], ◌∷◌, arith,
}
use pebpeb_os.Base.Members.{remove}
use pebpeb_os.Sched.{
  Place, at_mutex, at_cv, Kernel, Mutex, write, insert_ready_head, set_mutex, mutex_unlock,
  cv_signal,
}
use pebpeb_os.Sched.Seats.{waiting, line, line-same}
use pebpeb_os.Sched.Moves.{write-at, write-off}
use pebpeb_os.Sched.Handover.{Woken}
use pebpeb_os.Sched.Still.{Still, Wakes}

-- A mutex is written with another list of waiters, or with the same.
pub waiters-at : (k : Kernel) (m : ℕ) (x : Mutex) → (write k.mutexes m x m).waiters ≡ x.waiters
waiters-at k m x = ground arith

pub waiters-same :
    (k : Kernel) (m : ℕ) (x : Mutex)
    → x.waiters ≡ (k.mutexes m).waiters
    → (i : ℕ) → (write k.mutexes m x i).waiters ≡ (k.mutexes i).waiters
waiters-same k m x e i = elim (Bool-cases (i == m)) [
  | inl z ↦ let same : i ≡ m = ground arith in rw (z, same) e
  | inr z ↦ rw z refl
]

abbrev number : Place → ℕ
number (at_mutex i) = i
number (at_cv i) = i

-- The lines at the other places.
pub mutex_lines :
    (k : Kernel) (m : ℕ) (x : Mutex) (w : Place)
    → (w ≡ at_mutex m)
      ⊎ ((w ≢ at_mutex m) × (line (set_mutex m x k) (waiting w) ≡ line k (waiting w)))
mutex_lines k m x (at_mutex i) = elim (Bool-cases (i == m)) [
  | inl z ↦ inl (ap at_mutex (ground arith))
  | inr z ↦
      let ne : i ≢ m = ground arith in
      inr (λ e. ne (ap number e), ap (λ r. r.waiters) (write-off k.mutexes m x i ne))
]
mutex_lines k m x (at_cv i) = inr (λ e. cc, refl)

pub cv_lines :
    (k : Kernel) (c : ℕ) (q : List ℕ) (w : Place)
    → (w ≡ at_cv c)
      ⊎ ((w ≢ at_cv c)
          × (line (record k { cvs = write k.cvs c q }) (waiting w) ≡ line k (waiting w)))
cv_lines k c q (at_cv i) = elim (Bool-cases (i == c)) [
  | inl z ↦ inl (ap at_cv (ground arith))
  | inr z ↦ let ne : i ≢ c = ground arith in inr (λ e. ne (ap number e), write-off k.cvs c q i ne)
]
cv_lines k c q (at_mutex i) = inr (λ e. cc, refl)

-- Only the ready queue is read in `insert_ready_head` beside them.
head_lines :
    (k : Kernel) (t : ℕ) (w : Place) → line (insert_ready_head t k) (waiting w) ≡ line k (waiting w)
unfolding insert_ready_head
head_lines k t (at_mutex i) = refl
head_lines k t (at_cv i) = refl

-- The two cases of mutex_unlock.
pub mutex_unlock-nil :
    (m : ℕ) (k : Kernel)
    → (k.mutexes m).waiters ≡ []
    → mutex_unlock m k
      ≡ set_mutex m
          (record (k.mutexes m) { locked = 0; held = remove k.current (k.mutexes m).held })
          k
unfolding mutex_unlock
mutex_unlock-nil m k e =
    let x = k.mutexes m in
    let held = remove k.current x.held in
    ap
      (λ l. elim l as (λ l. Kernel) [
        | [] ↦ set_mutex m (record x { locked = 0; held = held }) k
        | t ∷ q ↦ insert_ready_head t (set_mutex m (record x { waiters = q; held = t ∷ held }) k)
      ])
      e

pub mutex_unlock-cons :
    (m : ℕ) (k : Kernel) (t : ℕ) (q : List ℕ)
    → (k.mutexes m).waiters ≡ t ∷ q
    → mutex_unlock m k
      ≡ insert_ready_head t (
          set_mutex m
            (record (k.mutexes m) { waiters = q; held = t ∷ remove k.current (k.mutexes m).held })
            k)
unfolding mutex_unlock
mutex_unlock-cons m k t q e =
    let x = k.mutexes m in
    let held = remove k.current x.held in
    ap
      (λ l. elim l as (λ l. Kernel) [
        | [] ↦ set_mutex m (record x { locked = 0; held = held }) k
        | t ∷ q ↦ insert_ready_head t (set_mutex m (record x { waiters = q; held = t ∷ held }) k)
      ])
      e

pub mutex_unlock-Wakes : (m : ℕ) (k : Kernel) → Wakes (at_mutex m) k (mutex_unlock m k)
unfolding insert_ready_head
mutex_unlock-Wakes m k = go (k.mutexes m).waiters refl
  where
    go : (l : List ℕ) → (k.mutexes m).waiters ≡ l → Wakes (at_mutex m) k (mutex_unlock m k)
    go [] e =
        let x : Mutex = record (k.mutexes m) {
          locked = 0;
          held = remove k.current (k.mutexes m).held;
        } in
        inl (
          subst (Still k) (sym (mutex_unlock-nil m k e)) record {
            status_eq = refl;
            waits_eq = refl;
            current_eq = refl;
            idle_eq = refl;
            lines = line-same k (set_mutex m x k) refl (waiters-same k m x refl) (λ c. refl);
          })
    go (t ∷ q) e =
        let x : Mutex = record (k.mutexes m) {
          waiters = q;
          held = t ∷ remove k.current (k.mutexes m).held;
        } in
        inr (
          t,
          subst (Woken (at_mutex m) t k) (sym (mutex_unlock-cons m k t q e)) record {
            status_eq = λ u. refl;
            waits_eq = refl;
            current_eq = refl;
            idle_eq = refl;
            ready_eq = refl;
            first = e ∙ ap (λ l. t ∷ l) (sym (waiters-at k m x));
            others = λ w. elim (mutex_lines k m x w) [
              | inl z ↦ inl z
              | inr (ne, z) ↦ inr (ne, head_lines (set_mutex m x k) t w ∙ z)
            ];
          },
        )

-- The two cases of cv_signal.
pub cv_signal-nil : (c : ℕ) (k : Kernel) → k.cvs c ≡ [] → cv_signal c k ≡ k
unfolding cv_signal
cv_signal-nil c k e =
    ap
      (λ l. elim l as (λ l. Kernel) [
        | [] ↦ k
        | t ∷ q ↦ insert_ready_head t (record k { cvs = write k.cvs c q })
      ])
      e

pub cv_signal-cons :
    (c : ℕ) (k : Kernel) (t : ℕ) (q : List ℕ)
    → k.cvs c ≡ t ∷ q
    → cv_signal c k ≡ insert_ready_head t (record k { cvs = write k.cvs c q })
unfolding cv_signal
cv_signal-cons c k t q e =
    ap
      (λ l. elim l as (λ l. Kernel) [
        | [] ↦ k
        | t ∷ q ↦ insert_ready_head t (record k { cvs = write k.cvs c q })
      ])
      e

pub cv_signal-Wakes : (c : ℕ) (k : Kernel) → Wakes (at_cv c) k (cv_signal c k)
unfolding insert_ready_head
cv_signal-Wakes c k = go (k.cvs c) refl
  where
    go : (l : List ℕ) → k.cvs c ≡ l → Wakes (at_cv c) k (cv_signal c k)
    go [] e = inl (
        subst (Still k) (sym (cv_signal-nil c k e)) record {
          status_eq = refl;
          waits_eq = refl;
          current_eq = refl;
          idle_eq = refl;
          lines = λ p. refl;
        })
    go (t ∷ q) e =
        let k' : Kernel = record k { cvs = write k.cvs c q } in
        inr (
          t,
          subst (Woken (at_cv c) t k) (sym (cv_signal-cons c k t q e)) record {
            status_eq = λ u. refl;
            waits_eq = refl;
            current_eq = refl;
            idle_eq = refl;
            ready_eq = refl;
            first = e ∙ ap (λ l. t ∷ l) (sym (write-at k.cvs c q));
            others = λ w. elim (cv_lines k c q w) [
              | inl z ↦ inl z
              | inr (ne, z) ↦ inr (ne, head_lines k' t w ∙ z)
            ];
          },
        )
