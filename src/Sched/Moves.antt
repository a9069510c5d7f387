-- ===== src/Sched/Moves.antt =====
-- kern/sched.c and kern/sync.c: how the operations move threads between the lines.
use mathlib.Core.Path.{subst}
use pebpeb_os.Base.{
  ℕ, ◌≡◌, ◌≢◌, ◌⊎◌, inl, inr, refl, sym, ap, Bool-cases, ◌==◌, List, [], ◌∷◌, Option, none, some,
  arith,
}
use pebpeb_os.Base.Members.{remove-head, remove}
use pebpeb_os.Sched.{
  Status, running, ready, blocked, sleeping, descheduled, dead, Place, Kernel, write, set_status,
  select_next, switch_to, run_next,
}
use pebpeb_os.Sched.Seats.{
  Line, ready_line, waiting, line, line-same, seat_of, seat, Placed, Change, kept, left,
  Placed-move, Placed-still, seat-none, aside,
}

-- The idle thread runs or has never run: it stands in no line.
abbrev pub IdleOut : Kernel → Type 0
IdleOut k = (k.status k.idle ≡ running) ⊎ (k.status k.idle ≡ dead)

-- A thread that nothing wakes.
abbrev pub Awake : Status → Type 0
Awake s = (s ≢ blocked) × (s ≢ sleeping) × (s ≢ descheduled)

-- Every thread has its place; the current one, whatever its status, stands in no line.
pub record Sound (k : Kernel) : Type 0 where
  pub placed : Placed (set_status k.current running k)
  pub idle_out : IdleOut k
  pub awake : Awake (k.status k.current)

-- The same in the middle of a switch: the current thread has its place as well.
pub record Parked (k : Kernel) : Type 0 where
  pub placed : Placed k
  pub idle_out : IdleOut k

-- A read after a write.
pub write-at : {A : Type 0} (f : ℕ → A) (i : ℕ) (a : A) → write f i a i ≡ a
write-at f i a = ground arith

pub write-off : {A : Type 0} (f : ℕ → A) (i : ℕ) (a : A) (j : ℕ) → j ≢ i → write f i a j ≡ f j
write-off f i a j ne = ground arith

write-twice :
    {A : Type 0} (f : ℕ → A) (i : ℕ) (a b : A) (j : ℕ) → write (write f i a) i b j ≡ write f i b j
write-twice f i a b j = ground arith

running-Awake : Awake running
running-Awake = (λ e. cc, λ e. cc, λ e. cc)

pub switch_to-Sound :
    (t : ℕ) (k : Kernel)
    → Placed (set_status t running k)
    → IdleOut k
    → Awake (k.status t)
    → Sound (switch_to t k)
unfolding switch_to
switch_to-Sound t k h i a = elim (Bool-cases (t == k.current)) [
  | inl e ↦
      let same : t ≡ k.current = ground arith in
      rw e record { placed = rw same at h; idle_out = i; awake = rw same at a }
  | inr e ↦
      let k' : Kernel = record k { current = t; status = write k.status t running } in
      rw e record {
        placed =
            Placed-still (set_status t running k) (set_status t running k')
              (λ u. ap (λ s. seat_of s (k.waits_at u)) (write-twice k.status t running running u))
              (line-same (set_status t running k) (set_status t running k') refl (λ m. refl)
                (λ c. refl))
              h;
        idle_out = elim (Bool-cases (k.idle == t)) [
          | inl q ↦ inl (rw q refl)
          | inr q ↦ elim i [ inl r ↦ inl (rw q r) | inr d ↦ inr (rw q d) ]
        ];
        awake = subst Awake (sym (write-at k.status t running)) running-Awake;
      }
]

pub run_next-nil : (k : Kernel) → k.ready_queue ≡ [] → run_next k ≡ switch_to k.idle k
unfolding run_next select_next
run_next-nil k e =
    ap
      (λ q.
        let (t, k') = elim q as (λ q. ℕ × Kernel) [
          | [] ↦ (k.idle, k)
          | t ∷ q ↦ (t, record k { ready_queue = q })
        ] in
        switch_to t k')
      e

pub run_next-cons :
    (k : Kernel) (t : ℕ) (q : List ℕ)
    → k.ready_queue ≡ t ∷ q
    → run_next k ≡ switch_to t (record k { ready_queue = q })
unfolding run_next select_next
run_next-cons k t q e =
    ap
      (λ q.
        let (t, k') = elim q as (λ q. ℕ × Kernel) [
          | [] ↦ (k.idle, k)
          | t ∷ q ↦ (t, record k { ready_queue = q })
        ] in
        switch_to t k')
      e

pub seat-IdleOut : (s : Status) (w : Place) → (s ≡ running) ⊎ (s ≡ dead) → seat_of s w ≡ none
seat-IdleOut s w (inl e) = rw e refl
seat-IdleOut s w (inr e) = rw e refl

-- The status that puts a thread in the ready queue.
pub ready_of : (s : Status) (w : Place) → seat_of s w ≡ some ready_line → s ≡ ready
ready_of running w e = cc
ready_of ready w e = refl
ready_of blocked w e = cc
ready_of sleeping w e = cc
ready_of descheduled w e = cc
ready_of dead w e = cc

-- The seat after a write of the status.
pub seat-at :
    (k : Kernel) (t : ℕ) (s : Status) → seat (set_status t s k) t ≡ seat_of s (k.waits_at t)
seat-at k t s = ap (λ x. seat_of x (k.waits_at t)) (write-at k.status t s)

pub seat-off :
    (k : Kernel) (t : ℕ) (s : Status) (u : ℕ) → u ≢ t → seat (set_status t s k) u ≡ seat k u
seat-off k t s u ne = ap (λ x. seat_of x (k.waits_at u)) (write-off k.status t s u ne)

pub set_status-lines :
    (k : Kernel) (t : ℕ) (s : Status) (p : Line) → line (set_status t s k) p ≡ line k p
set_status-lines k t s = line-same k (set_status t s k) refl (λ m. refl) (λ c. refl)

pub lines-differ : (a : Option Line) (w : Place) → a ≡ some ready_line → a ≢ some (waiting w)
lines-differ a w e h = cc

-- A ready thread is taken out of the ready queue to run.
pub take_ready-Placed :
    (k : Kernel) (t : ℕ) (q : List ℕ)
    → k.status t ≡ ready
    → q ≡ remove t k.ready_queue
    → Placed k
    → Placed (set_status t running (record k { ready_queue = q }))
take_ready-Placed k t q e shorter h = Placed-move k k' t (seat-off k t running) change h
  where
    k' : Kernel
    k' = set_status t running (record k { ready_queue = q })

    change : (p : Line) → Change k k' t p
    change ready_line = left shorter (seat-none _ _ (seat-at k t running))
    change (waiting w) =
        kept (set_status-lines (record k { ready_queue = q }) t running (waiting w))
          (lines-differ _ w (ap (λ s. seat_of s (k.waits_at t)) e))
          (seat-none _ _ (seat-at k t running))

pub ready-Awake : (s : Status) → s ≡ ready → Awake s
ready-Awake s e = (λ z. cc, λ z. cc, λ z. cc)

pub Awake-idle : (s : Status) → (s ≡ running) ⊎ (s ≡ dead) → Awake s
Awake-idle s (inl e) = rw e running-Awake
Awake-idle s (inr e) = (λ q. cc, λ q. cc, λ q. cc)

pub to_idle-Sound : (k : Kernel) → Parked k → Sound (switch_to k.idle k)
to_idle-Sound k h =
    let k' : Kernel = set_status k.idle running k in
    switch_to-Sound k.idle k
      (Placed-move k k' k.idle (seat-off k k.idle running)
        (λ p.
          aside k k' k.idle p (set_status-lines k k.idle running p) (seat-IdleOut _ _ h.idle_out)
            (seat-at k k.idle running))
        h.placed)
      h.idle_out (Awake-idle _ h.idle_out)

-- The first thread in the ready queue is ready.
pub first-ready :
    (k : Kernel) (t : ℕ) (q : List ℕ) → k.ready_queue ≡ t ∷ q → Placed k → k.status t ≡ ready
first-ready k t q e h = ready_of _ (k.waits_at t) (((h ready_line).1 t).0 (rw e (inl refl)))

pub run_next-Sound : (k : Kernel) → Parked k → Sound (run_next k)
run_next-Sound k h = go k.ready_queue refl
  where
    go : (q : List ℕ) → k.ready_queue ≡ q → Sound (run_next k)
    go [] e = subst Sound (sym (run_next-nil k e)) (to_idle-Sound k h)
    go (t ∷ q) e =
        let is = first-ready k t q e h.placed in
        subst Sound (sym (run_next-cons k t q e)) (
          switch_to-Sound t (record k { ready_queue = q })
            (take_ready-Placed k t q is (rw e (sym (remove-head t q))) h.placed) h.idle_out
            (ready-Awake _ is))
