-- ===== src/Sched/Park.antt =====
-- kern/sched.c and kern/sync.c: the current thread gives up the processor.
use mathlib.Core.Path.{subst}
use mathlib.Core.Option.{some-injective}
use pebpeb_os.Base.{
  ℕ, ◌≡◌, ◌≢◌, ◌⊎◌, inl, inr, refl, sym, ◌∙◌, ap, Bool-cases, ◌==◌, [], ◌∷◌, ◌++◌, none, some,
  arith,
}
use pebpeb_os.Sched.{
  Status, running, ready, blocked, Place, Kernel, write, set_status, insert_ready_tail,
}
use pebpeb_os.Sched.Seats.{
  Line, ready_line, waiting, line, seat_of, seat, Change, kept, joined, Placed-move, seat-none,
  aside,
}
use pebpeb_os.Sched.Moves.{
  IdleOut, Sound, Parked, write-at, write-off, seat-IdleOut, lines-differ, seat-at, seat-off,
  set_status-lines,
}

module _ (k : Kernel) (h : Sound k) where
  -- The state as `Sound` describes it, with the current thread running.
  abbrev now : Kernel
  now = set_status k.current running k

  at_now : seat now k.current ≡ none
  at_now = seat-at k k.current running

  IdleOut-off : (s : Status) → k.current ≢ k.idle → IdleOut (set_status k.current s k)
  IdleOut-off s ne = elim h.idle_out [ inl e ↦ inl (ground arith) | inr e ↦ inr (ground arith) ]

  seats-off : (s : Status) (u : ℕ) → u ≢ k.current → seat (set_status k.current s k) u ≡ seat now u
  seats-off s u ne = seat-off k k.current s u ne ∙ sym (seat-off k k.current running u ne)

  -- It sleeps or is descheduled.
  pub leave-Parked :
      (s : Status)
      → k.current ≢ k.idle
      → seat_of s (k.waits_at k.current) ≡ none
      → Parked (set_status k.current s k)
  leave-Parked s ne out = record {
    placed =
        Placed-move now (set_status k.current s k) k.current (seats-off s)
          (λ p.
            aside now _ k.current p
              (set_status-lines k k.current s p ∙ sym (set_status-lines k k.current running p))
              at_now (seat-at k k.current s ∙ out))
          h.placed;
    idle_out = IdleOut-off s ne;
  }

  -- The idle thread is in its place as it is.
  pub idle-Parked : k.current ≡ k.idle → Parked k
  idle-Parked e = record {
    placed =
        Placed-move now k k.current (λ u ne. sym (seat-off k k.current running u ne))
          (λ p.
            aside now k k.current p (sym (set_status-lines k k.current running p)) at_now
              (rw e (seat-IdleOut _ _ h.idle_out)))
          h.placed;
    idle_out = h.idle_out;
  }

  -- It becomes ready.
  pub insert_ready_tail-Parked : k.current ≢ k.idle → Parked (insert_ready_tail k.current k)
  unfolding insert_ready_tail
  insert_ready_tail-Parked ne = record {
    placed = Placed-move now k' k.current (seats-off ready) change h.placed;
    idle_out = IdleOut-off ready ne;
  }
    where
      k' : Kernel
      k' = insert_ready_tail k.current k

      change : (p : Line) → Change now k' k.current p
      change ready_line = joined refl (seat-none _ _ at_now) (seat-at k k.current ready)
      change (waiting w) =
          kept
            (set_status-lines k k.current ready (waiting w)
              ∙ sym (set_status-lines k k.current running (waiting w)))
            (seat-none _ _ at_now) (lines-differ _ w (seat-at k k.current ready))

  -- It waits for a mutex or on a condition variable.
  pub block-Parked :
      (p : Place) (k' : Kernel)
      → k.current ≢ k.idle
      → k'.status ≡ write k.status k.current blocked
      → k'.waits_at ≡ write k.waits_at k.current p
      → k'.idle ≡ k.idle
      → line k' (waiting p) ≡ line k (waiting p) ++ k.current ∷ []
      → ((q : Line) → (q ≡ waiting p) ⊎ ((q ≢ waiting p) × (line k' q ≡ line k q)))
      → Parked k'
  block-Parked p k' ne es ew ei longer others = record {
    placed = Placed-move now k' k.current seats change h.placed;
    idle_out = elim (Bool-cases (k.idle == k.current)) [
      | inl z ↦ absurd (ne (ground arith))
      | inr z ↦ rw (ei, es, z) h.idle_out
    ];
  }
    where
      seats : (u : ℕ) → u ≢ k.current → seat k' u ≡ seat now u
      seats u ne =
          rw
            (
              es,
              ew,
              write-off k.status k.current blocked u ne,
              write-off k.waits_at k.current p u ne,
            )
            (sym (seat-off k k.current running u ne))

      there : seat k' k.current ≡ some (waiting p)
      there = rw (es, ew, write-at k.status k.current blocked, write-at k.waits_at k.current p) refl

      change : (q : Line) → Change now k' k.current q
      change q = elim (others q) [
        | inl e ↦
            joined
              (subst (λ r. line k' r ≡ line now r ++ k.current ∷ []) (sym e)
                (longer
                  ∙ ap (λ l. l ++ k.current ∷ [])
                      (sym (set_status-lines k k.current running (waiting p)))))
              (seat-none _ _ at_now) (there ∙ ap some (sym e))
        | inr (n, same) ↦
            kept (same ∙ sym (set_status-lines k k.current running q)) (seat-none _ _ at_now)
              (λ s. n (some-injective _ _ (sym s ∙ there)))
      ]
