-- ===== src/Sched/Handover.antt =====
-- kern/sync.c: the first waiter of a mutex or a condition variable becomes ready.
use mathlib.Core.Path.{subst}
use mathlib.Core.Option.{some-injective}
use pebpeb_os.Base.{
  ℕ, ◌≡◌, ◌≢◌, ◌⊎◌, inl, inr, refl, sym, ◌∙◌, ap, Bool-cases, ◌==◌, ◌∷◌, none, some, arith,
}
use pebpeb_os.Base.Members.{remove, remove-head}
use pebpeb_os.Sched.{running, ready, Place, Kernel, write, set_status}
use pebpeb_os.Sched.Seats.{
  Line, ready_line, waiting, line, seat_of, seat, Placed, Change, kept, headed, left, Placed-move,
  seat-none,
}
use pebpeb_os.Sched.Moves.{
  IdleOut, Sound, Parked, write-at, write-off, seat-IdleOut, lines-differ, seat-at,
  set_status-lines,
}

abbrev place_of : Place → Line → Place
place_of d ready_line = d
place_of d (waiting p) = p

pub waiting-injective : (v p : Place) → waiting v ≡ waiting p → v ≡ p
waiting-injective v p e = ap (place_of v) e

-- What the wake-up of `t`, the first in the line at `p`, does to the state.
pub record Woken (p : Place) (t : ℕ) (k k' : Kernel) : Type 0 where
  pub status_eq : (u : ℕ) → k'.status u ≡ write k.status t ready u
  pub waits_eq : k'.waits_at ≡ k.waits_at
  pub current_eq : k'.current ≡ k.current
  pub idle_eq : k'.idle ≡ k.idle
  pub ready_eq : k'.ready_queue ≡ t ∷ k.ready_queue
  pub first : line k (waiting p) ≡ t ∷ line k' (waiting p)
  pub others : (w : Place) → (w ≡ p) ⊎ ((w ≢ p) × (line k' (waiting w) ≡ line k (waiting w)))

module _ (p : Place) (t : ℕ) (k k' : Kernel) (w : Woken p t k k') where
  seat-first : Placed k → seat k t ≡ some (waiting p)
  seat-first h = ((h (waiting p)).1 t).0 (rw w.first (inl refl))

  seat-woken : seat k' t ≡ some ready_line
  seat-woken = ap (λ s. seat_of s (k'.waits_at t)) (w.status_eq t ∙ write-at k.status t ready)

  seats-others : (u : ℕ) → u ≢ t → seat k' u ≡ seat k u
  seats-others u ne = rw (w.status_eq u, w.waits_eq, write-off k.status t ready u ne) refl

  Woken-Placed : Placed k → Placed k'
  Woken-Placed h = Placed-move k k' t seats-others change h
    where
      change : (q : Line) → Change k k' t q
      change ready_line = headed w.ready_eq (λ s. lines-differ _ p s (seat-first h)) seat-woken
      change (waiting v) = elim (w.others v) [
        | inl e ↦
            left
              ((subst (λ r. line k' (waiting r) ≡ remove t (line k (waiting r))) (sym e)
                (sym (ap (remove t) w.first ∙ remove-head t (line k' (waiting p))))))
              (lines-differ _ v seat-woken)
        | inr (ne, same) ↦
            kept same (λ s. ne (waiting-injective v p (some-injective _ _ (sym s ∙ seat-first h))))
              (lines-differ _ v seat-woken)
      ]

  Woken-IdleOut : Placed k → IdleOut k → IdleOut k'
  Woken-IdleOut h i =
      let out : seat k k.idle ≡ none = seat-IdleOut (k.status k.idle) (k.waits_at k.idle) i in
      let ne : k.idle ≢ t = λ e. seat-none (seat k t) (waiting p) (rw e at out) (seat-first h) in
      rw (w.idle_eq, w.status_eq k.idle, write-off k.status t ready k.idle ne) i

  pub Woken-Parked : Parked k → Parked k'
  Woken-Parked h = record {
    placed = Woken-Placed h.placed;
    idle_out = Woken-IdleOut h.placed h.idle_out;
  }

-- It leaves the current thread as it is.
module _ (p : Place) (t : ℕ) (k k' : Kernel) (w : Woken p t k k') (h : Sound k) where
  off_current : t ≢ k.current
  off_current e = seat-none _ (waiting p) (seat-at k k.current running) (
      ((h.placed (waiting p)).1 k.current).0
        (rw⁻¹ e (rw (set_status-lines k k.current running (waiting p), w.first) (inl refl))))

  seat-idle : seat (set_status k.current running k) k.idle ≡ none
  seat-idle = elim (Bool-cases (k.idle == k.current)) [
    | inl e ↦ rw e refl
    | inr e ↦ rw e (seat-IdleOut _ _ h.idle_out)
  ]

  off_idle : k.idle ≢ t
  off_idle e = seat-none _ (waiting p) seat-idle (
      ((h.placed (waiting p)).1 k.idle).0
        (rw (e, set_status-lines k k.current running (waiting p), w.first) (inl refl)))

  statuses :
      (u : ℕ)
      → write k'.status k'.current running u ≡ write (write k.status k.current running) t ready u
  statuses u = elim (Bool-cases (u == t)) [
    | inl e ↦
        let ne : u ≢ k.current = λ z. off_current (ground arith) in
        rw (w.current_eq, write-off k'.status k.current running u ne, w.status_eq u, e) refl
    | inr e ↦ elim (Bool-cases (u == k.current)) [
      | inl z ↦ rw (w.current_eq, z, e) refl
      | inr z ↦ rw (w.current_eq, z, e, w.status_eq u, e) refl
    ]
  ]

  Woken-now : Woken p t (set_status k.current running k) (set_status k'.current running k')
  Woken-now = record {
    status_eq = statuses;
    waits_eq = w.waits_eq;
    current_eq = w.current_eq;
    idle_eq = w.idle_eq;
    ready_eq = w.ready_eq;
    first =
        set_status-lines k k.current running (waiting p)
        ∙ w.first
        ∙ ap (λ l. t ∷ l) (sym (set_status-lines k' k'.current running (waiting p)));
    others = λ v. elim (w.others v) [
      | inl e ↦ inl e
      | inr (ne, e) ↦ inr (
        ne,
        set_status-lines k' k'.current running (waiting v)
            ∙ e
            ∙ sym (set_status-lines k k.current running (waiting v)),
      )
    ];
  }

  pub Woken-Sound : Sound k'
  Woken-Sound = record {
    placed = Woken-Placed p t _ _ Woken-now h.placed;
    idle_out =
        rw (w.idle_eq, w.status_eq k.idle, write-off k.status t ready k.idle off_idle) h.idle_out;
    awake =
        rw
          (
            w.current_eq,
            w.status_eq k.current,
            write-off k.status t ready k.current (λ e. off_current (sym e)),
          )
          h.awake;
  }
