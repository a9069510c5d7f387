-- ===== src/Sched/Yield.antt =====
-- kern/syscall_thread.c: the places of the threads after yield and make_runnable.
use mathlib.Core.Path.{subst}
use pebpeb_os.Base.{
  ℕ, zero, suc, ◌≡◌, ◌≢◌, inl, inr, refl, sym, ◌∙◌, ap, Bool-cases, List, [], ◌∷◌, ◌++◌,
}
use pebpeb_os.Base.Int.{ℤ, pos, negsuc}
use pebpeb_os.Base.Members.{remove, remove-snoc, remove-head}
use pebpeb_os.Sched.{
  Status, running, ready, blocked, sleeping, descheduled, dead, Kernel, select_next,
  insert_ready_tail, switch_to, sys_yield_real, sys_make_runnable_real, make_runnable_found,
  yield_found,
}
use pebpeb_os.Sched.Moves.{
  Sound, Parked, write-off, switch_to-Sound, run_next-Sound, take_ready-Placed, ready-Awake,
  first-ready, to_idle-Sound,
}
use pebpeb_os.Sched.Park.{insert_ready_tail-Parked}
use pebpeb_os.Sched.Steps.{insert_ready_tail-Sound}

make_runnable_found-Sound :
    (s : Status) (tid : ℕ) (k : Kernel)
    → k.status tid ≡ s
    → Sound k
    → Sound (make_runnable_found s tid k).1
unfolding make_runnable_found
make_runnable_found-Sound running tid k e h = h
make_runnable_found-Sound ready tid k e h = h
make_runnable_found-Sound blocked tid k e h = h
make_runnable_found-Sound sleeping tid k e h = h
make_runnable_found-Sound descheduled tid k e h = insert_ready_tail-Sound tid k (inr e) h
make_runnable_found-Sound dead tid k e h = h

pub sys_make_runnable_real-Sound :
    (tid : ℤ) (k : Kernel) → Sound k → Sound (sys_make_runnable_real tid k).1
unfolding sys_make_runnable_real
sys_make_runnable_real-Sound (negsuc n) k h = h
sys_make_runnable_real-Sound (pos tid) k h = elim (Bool-cases (k.in_tree tid)) [
  | inl e ↦ rw e (make_runnable_found-Sound (k.status tid) tid k refl h)
  | inr e ↦ rw e h
]

-- What select_next gives, before the thread that yields is inserted.
abbrev yield_next : Kernel → Kernel
yield_next k = let (t, k') = select_next k in switch_to t (insert_ready_tail k.current k')

yield_next-Sound : (k : Kernel) → k.current ≢ k.idle → Sound k → Sound (yield_next k)
unfolding select_next insert_ready_tail
yield_next-Sound k ne h = go k.ready_queue refl
  where
    parked : Parked (insert_ready_tail k.current k)
    parked = insert_ready_tail-Parked k h ne

    after : List ℕ → Kernel
    after l =
        let (t, k') = elim l as (λ l. ℕ × Kernel) [
          | [] ↦ (k.idle, k)
          | t ∷ q ↦ (t, record k { ready_queue = q })
        ] in
        switch_to t (insert_ready_tail k.current k')

    go : (l : List ℕ) → k.ready_queue ≡ l → Sound (after k.ready_queue)
    go [] e =
        subst (λ l. Sound (after l)) (sym e) (to_idle-Sound (insert_ready_tail k.current k) parked)
    go (t ∷ q) e =
        let k' : Kernel = insert_ready_tail k.current k in
        let longer : k'.ready_queue ≡ t ∷ q ++ k.current ∷ [] = ap (λ l. l ++ k.current ∷ []) e in
        let is = first-ready k' t (q ++ k.current ∷ []) longer parked.placed in
        subst (λ l. Sound (after l)) (sym e)
          (switch_to-Sound t _
            (take_ready-Placed k' t (q ++ k.current ∷ []) is
              (sym (ap (remove t) longer ∙ remove-head t (q ++ k.current ∷ []))) parked.placed)
            parked.idle_out (ready-Awake _ is))

-- The thread that yields stands at the end of the ready queue, and another one is taken out of it.
yield_found-Sound :
    (s : Status) (tid : ℕ) (k : Kernel)
    → k.status tid ≡ s
    → k.current ≢ k.idle
    → tid ≢ k.current
    → Sound k
    → Sound (yield_found s tid k).1
unfolding yield_found insert_ready_tail
yield_found-Sound running tid k e ne off h = yield_next-Sound k ne h
yield_found-Sound ready tid k e ne off h =
    let k' : Kernel = insert_ready_tail k.current k in
    let p = insert_ready_tail-Parked k h ne in
    let is : k'.status tid ≡ ready = write-off k.status k.current ready tid off ∙ e in
    switch_to-Sound tid _
      (take_ready-Placed k' tid (remove tid k.ready_queue ++ k.current ∷ []) is
        (sym (remove-snoc tid k.current k.ready_queue off)) p.placed)
      p.idle_out (ready-Awake _ is)
yield_found-Sound blocked tid k e ne off h = h
yield_found-Sound sleeping tid k e ne off h = h
yield_found-Sound descheduled tid k e ne off h = h
yield_found-Sound dead tid k e ne off h = h

pub sys_yield_real-Sound :
    (tid : ℤ) (k : Kernel)
    → k.current ≢ k.idle
    → tid ≢ pos k.current
    → Sound k
    → Sound (sys_yield_real tid k).1
unfolding sys_yield_real
sys_yield_real-Sound (negsuc zero) k ne off h = run_next-Sound _ (insert_ready_tail-Parked k h ne)
sys_yield_real-Sound (negsuc (suc n)) k ne off h = h
sys_yield_real-Sound (pos tid) k ne off h = elim (Bool-cases (k.in_tree tid)) [
  | inl e ↦ rw e (yield_found-Sound (k.status tid) tid k refl ne (λ z. off (ap pos z)) h)
  | inr e ↦ rw e h
]
