-- ===== src/Sched/Seats.antt =====
-- kern/sched.c and kern/sync.c: the lines of threads that wait to run, and which of them a thread stands in.
use mathlib.Core.Path.{subst}
use pebpeb_os.Base.{
  ℕ, ◌≡◌, ◌≢◌, ◌↔◌, inl, inr, refl, sym, ◌∙◌, Bool-cases, ◌==◌, List, [], ◌∷◌, ◌++◌, Option, none,
  some, arith,
}
use pebpeb_os.Base.Members.{
  In, Distinct, remove, In-remove, In-remove_ne, not-In-remove, Distinct-remove, In-append, In-snoc,
  In-last, Distinct-snoc,
}
use pebpeb_os.Sched.{
  Status, running, ready, blocked, sleeping, descheduled, dead, Place, at_mutex, at_cv, Kernel,
}

-- The ready queue, and the queues of the mutexes and condition variables.
pub data Line : Type 0 where
  ready_line : Line
  waiting : Place → Line

abbrev pub line : Kernel → Line → List ℕ
line k ready_line = k.ready_queue
line k (waiting (at_mutex m)) = (k.mutexes m).waiters
line k (waiting (at_cv c)) = k.cvs c

pub line-same :
    (k k' : Kernel)
    → k'.ready_queue ≡ k.ready_queue
    → ((m : ℕ) → (k'.mutexes m).waiters ≡ (k.mutexes m).waiters)
    → ((c : ℕ) → k'.cvs c ≡ k.cvs c)
    → (p : Line) → line k' p ≡ line k p
line-same k k' r m c ready_line = r
line-same k k' r m c (waiting (at_mutex i)) = m i
line-same k k' r m c (waiting (at_cv i)) = c i

-- The line in which a thread belongs by its status.
abbrev pub seat_of : Status → Place → Option Line
seat_of running p = none
seat_of ready p = some ready_line
seat_of blocked p = some (waiting p)
seat_of sleeping p = none
seat_of descheduled p = none
seat_of dead p = none

abbrev pub seat : Kernel → ℕ → Option Line
seat k t = seat_of (k.status t) (k.waits_at t)

-- Each line has exactly the threads that belong there, once.
abbrev pub IsLine : Kernel → Line → Type 0
IsLine k p = Distinct (line k p) × ((t : ℕ) → In t (line k p) ↔ (seat k t ≡ some p))

abbrev pub Placed : Kernel → Type 0
Placed k = (p : Line) → IsLine k p

-- One thread `t` moves: what becomes of a line.
module _ (k k' : Kernel) (t : ℕ) (others : (u : ℕ) → u ≢ t → seat k' u ≡ seat k u) where
  -- The members of a line after the move, if those before it and `t` itself are known.
  move :
      (p : Line)
      → ((u : ℕ) → In u (line k p) ↔ (seat k u ≡ some p))
      → ((u : ℕ) → u ≢ t → In u (line k' p) ↔ In u (line k p))
      → (In t (line k' p) ↔ (seat k' t ≡ some p))
      → (u : ℕ) → In u (line k' p) ↔ (seat k' u ≡ some p)
  move p members same at_t u = elim (Bool-cases (u == t)) [
    | inl e ↦
        let here : t ≡ u = ground arith in
        subst (λ v. In v (line k' p) ↔ (seat k' v ≡ some p)) here at_t
    | inr e ↦
        let ne : u ≢ t = ground arith in
        (
          λ i. others u ne ∙ (members u).0 ((same u ne).0 i),
          λ s. (same u ne).1 ((members u).1 (sym (others u ne) ∙ s)),
        )
  ]

  -- It leaves and enters other lines.
  pub IsLine-other :
      (p : Line)
      → IsLine k p
      → line k' p ≡ line k p
      → seat k t ≢ some p
      → seat k' t ≢ some p
      → IsLine k' p
  IsLine-other p (d, members) same out out' = (
    rw same d,
    move p members (λ u ne. (λ i. rw same at i, λ i. rw same i))
        (λ i. absurd (out ((members t).0 (rw same at i))), λ s. absurd (out' s)),
  )

  -- It joins the line at its end,
  pub IsLine-snoc :
      (p : Line)
      → IsLine k p
      → line k' p ≡ line k p ++ t ∷ []
      → seat k t ≢ some p
      → seat k' t ≡ some p
      → IsLine k' p
  IsLine-snoc p (d, members) longer out there = (
    rw longer (Distinct-snoc t (line k p) d (λ i. out ((members t).0 i))),
    move p members
        (λ u ne. (
          λ i. elim (In-snoc u t (line k p) (rw longer at i)) [ inl j ↦ j | inr e ↦ absurd (ne e) ],
          λ i. rw longer (In-append u (line k p) (t ∷ []) i),
        ))
        (λ i. there, λ s. rw longer (In-last t (line k p))),
  )

  -- or at its head;
  pub IsLine-cons :
      (p : Line)
      → IsLine k p
      → line k' p ≡ t ∷ line k p
      → seat k t ≢ some p
      → seat k' t ≡ some p
      → IsLine k' p
  IsLine-cons p (d, members) longer out there = (
    rw longer (λ i. out ((members t).0 i), d),
    move p members
        (λ u ne. (
          λ i. elim (rw longer at i) [ inl e ↦ absurd (ne e) | inr j ↦ j ],
          λ i. rw longer (inr i),
        ))
        (λ i. there, λ s. rw longer (inl refl)),
  )

  -- or it is taken out of the line.
  pub IsLine-remove :
      (p : Line) → IsLine k p → line k' p ≡ remove t (line k p) → seat k' t ≢ some p → IsLine k' p
  IsLine-remove p (d, members) shorter out' = (
    rw shorter (Distinct-remove t (line k p) d),
    move p members
        (λ u ne. (
          λ i. In-remove t u (line k p) (rw shorter at i),
          λ i. rw shorter (In-remove_ne t u (line k p) ne i),
        ))
        (λ i. absurd (not-In-remove t (line k p) d (rw shorter at i)), λ s. absurd (out' s)),
  )

-- What a move of `t` does to a line.
pub data Change (k k' : Kernel) (t : ℕ) (p : Line) : Type 0 where
  kept : line k' p ≡ line k p → seat k t ≢ some p → seat k' t ≢ some p → Change k k' t p
  joined : line k' p ≡ line k p ++ t ∷ [] → seat k t ≢ some p → seat k' t ≡ some p → Change k k' t p
  headed : line k' p ≡ t ∷ line k p → seat k t ≢ some p → seat k' t ≡ some p → Change k k' t p
  left : line k' p ≡ remove t (line k p) → seat k' t ≢ some p → Change k k' t p

pub Placed-move :
    (k k' : Kernel) (t : ℕ)
    → ((u : ℕ) → u ≢ t → seat k' u ≡ seat k u)
    → ((p : Line) → Change k k' t p)
    → Placed k
    → Placed k'
Placed-move k k' t others change h p = elim (change p) [
  | kept e out out' ↦ IsLine-other k k' t others p (h p) e out out'
  | joined e out there ↦ IsLine-snoc k k' t others p (h p) e out there
  | headed e out there ↦ IsLine-cons k k' t others p (h p) e out there
  | left e out' ↦ IsLine-remove k k' t others p (h p) e out'
]

pub seat-none : (a : Option Line) (p : Line) → a ≡ none → a ≢ some p
seat-none a p e h = cc

-- A thread that stood in no line, and still stands in none.
pub aside :
    (k k' : Kernel) (t : ℕ) (p : Line)
    → line k' p ≡ line k p
    → seat k t ≡ none
    → seat k' t ≡ none
    → Change k k' t p
aside k k' t p e out out' = kept e (seat-none _ p out) (seat-none _ p out')

-- Nothing moves.
pub Placed-still :
    (k k' : Kernel)
    → ((u : ℕ) → seat k' u ≡ seat k u)
    → ((p : Line) → line k' p ≡ line k p)
    → Placed k
    → Placed k'
Placed-still k k' seats lines h p =
    let (d, members) = h p in
    let same = lines p in
    (
      rw same d,
      λ u. (
        λ i. seats u ∙ (members u).0 (rw same at i),
        λ s. rw same ((members u).1 (sym (seats u) ∙ s)),
      ),
    )
