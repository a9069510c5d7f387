-- ===== src/Sched/Still.antt =====
-- kern/sync.c: an operation that moves no thread, or only the first in a line.
use pebpeb_os.Base.{ℕ, ◌≡◌, ◌⊎◌, inl, inr, refl, ◌∙◌, sym}
use pebpeb_os.Sched.{running, Place, Kernel, set_status}
use pebpeb_os.Sched.Seats.{Line, line, Placed-still}
use pebpeb_os.Sched.Moves.{Sound, Parked, set_status-lines}
use pebpeb_os.Sched.Handover.{Woken, Woken-Sound, Woken-Parked}

-- No thread moves.
pub record Still (k k' : Kernel) : Type 0 where
  pub status_eq : k'.status ≡ k.status
  pub waits_eq : k'.waits_at ≡ k.waits_at
  pub current_eq : k'.current ≡ k.current
  pub idle_eq : k'.idle ≡ k.idle
  pub lines : (p : Line) → line k' p ≡ line k p

pub Still-Parked : (k k' : Kernel) → Still k k' → Parked k → Parked k'
Still-Parked k k' s h = record {
  placed = Placed-still k k' (λ u. rw (s.status_eq, s.waits_eq) refl) s.lines h.placed;
  idle_out = rw (s.idle_eq, s.status_eq) h.idle_out;
}

pub Still-Sound : (k k' : Kernel) → Still k k' → Sound k → Sound k'
Still-Sound k k' s h = record {
  placed =
      Placed-still (set_status k.current running k) (set_status k'.current running k')
        (λ u. rw (s.status_eq, s.waits_eq, s.current_eq) refl)
        (λ p.
          set_status-lines k' k'.current running p
          ∙ s.lines p
          ∙ sym (set_status-lines k k.current running p))
        h.placed;
  idle_out = rw (s.idle_eq, s.status_eq) h.idle_out;
  awake = rw (s.current_eq, s.status_eq) h.awake;
}

-- The first thread in the line at `p` is woken, or no thread moves.
abbrev pub Wakes : Place → Kernel → Kernel → Type 0
Wakes p k k' = Still k k' ⊎ ((t : ℕ) × Woken p t k k')

pub Wakes-Parked : (p : Place) (k k' : Kernel) → Wakes p k k' → Parked k → Parked k'
Wakes-Parked p k k' (inl s) h = Still-Parked k k' s h
Wakes-Parked p k k' (inr (t, w)) h = Woken-Parked p t k k' w h

pub Wakes-Sound : (p : Place) (k k' : Kernel) → Wakes p k k' → Sound k → Sound k'
Wakes-Sound p k k' (inl s) h = Still-Sound k k' s h
Wakes-Sound p k k' (inr (t, w)) h = Woken-Sound p t k k' w h
