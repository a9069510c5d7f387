-- ===== src/Pv/Steps.antt =====
-- kern/pv.c, kern/hvcall.c, kern/timer.c, kern/pts.c and kern/sched.c: what can happen to a guest, and
-- its pending interrupts meanwhile.
use mathlib.Core.Path.{subst}
use mathlib.Core.Option.{some-injective}
use pebpeb_os.Base.{
  ℕ, ◌+◌, ◌-◌, ◌<◌, ◌≡◌, ◌≢◌, ◌⊎◌, inl, inr, refl, ap, Bool, Bool-cases, some, false, arith, ◌==◌,
  leb, if◌then◌else◌,
}
use pebpeb_os.Base.Int.{ℤ, pos}
use pebpeb_os.Paging.{user_mem_start}
use pebpeb_os.Usermem.{UserMem}
use pebpeb_os.Console.{Display}
use pebpeb_os.Pv.Vidt.{vidt_dpl_3}
use pebpeb_os.Pv.Vm.{Vm, Frame, M, Result, ok, stop, sub32}
use pebpeb_os.Pv.Interrupt.{
  cause_protfault, cause_pagefault, push_frame, handler_of, pv_inject_interrupt, is_blocked,
  pv_handle_fault, pv_pend_irq, pv_inject_irq, pv_check_pending_irq, pv_handle_syscall,
}
use pebpeb_os.Pv.Interrupt.Pending.{
  Keeps, push_frame-Keeps, pv_inject_interrupt-Keeps, InHandler, IsPending, pv_pend_irq-IsPending,
  pv_pend_irq_arrives, pv_inject_irq-IsPending, pv_inject_irq_arrives, check_loop-IsPending,
}
use pebpeb_os.Pv.Hvcall.Dispatch.{setpd_op, adjustpg_op, op_of, sys_hvcall_real}
use pebpeb_os.Pv.Hvcall.Quiet.{Kept, Kept-if, Kept-elim, IsQuiet, IsQuiet->>=}
use pebpeb_os.Pv.Hvcall.Quiet.Calls.{sys_hvcall_real_irq}

-- What can happen to a guest. `run`: it or other programs run, which reaches its registers, its
-- memory and the display. `hypercall`, `syscall` and `fault`: the kernel is entered and returns to
-- it. `pend`: a key is pressed. `irq`: an interrupt comes. `look`: the kernel looks for pending
-- interrupts before it returns to the guest. setpd and adjustpg are no steps.
pub data Step (g g' : Vm) : Type 0 where
  run :
      (frame : Frame) (spaces : ℕ → UserMem) (display : Display)
      → g' ≡ record g { frame = frame; spaces = spaces; display = display }
      → Step g g'
  hypercall :
      (setpd adjustpg : M (Unit {0}))
      → op_of g.frame.eax ≢ some setpd_op
      → op_of g.frame.eax ≢ some adjustpg_op
      → sys_hvcall_real setpd adjustpg (some g) ≡ some (ok tt g')
      → Step g g'
  syscall : (index : ℤ) → pv_handle_syscall index (some g) ≡ some (ok tt g') → Step g g'
  fault : (cause cr2 error_code : ℕ) → pv_handle_fault cause cr2 error_code g ≡ ok tt g' → Step g g'
  pend : (index arg : ℕ) → g' ≡ pv_pend_irq index arg g → Step g g'
  irq : (k arg : ℕ) {b : Bool} → pv_inject_irq (32 + k) arg (some g) ≡ some (ok b g') → Step g g'
  look : pv_check_pending_irq (some g) ≡ some (ok tt g') → Step g g'

-- Taken in a step: the guest did not block interrupts, and is in the handler.
abbrev pub Taken : (i : ℕ) → Vm → Vm → Type 0
Taken i g g' = (is_blocked g ≡ false) × InHandler (g.vidt.fault_irq (i + 32)).eip g'

-- Interrupt `i` comes in a step.
abbrev pub Arrives : (i : ℕ) {g g' : Vm} → Step g g' → Type 0
Arrives i (run f s d e) = ⊥
Arrives i (hypercall setpd adjustpg ne ne' e) = ⊥
Arrives i (syscall index e) = ⊥
Arrives i (fault cause cr2 code e) = ⊥
Arrives i (pend index arg e) = index - 32 ≡ i
Arrives i (irq k arg e) = k ≡ i
Arrives i (look e) = ⊥

Kept-Keeps : {A : Type 0} (g : Vm) (r : Result A) → Keeps g r → Kept g r
Kept-Keeps g (ok a g') e = ap (λ v. v.pending_irq) e
Kept-Keeps g (stop s g') e = tt

push_frame-IsQuiet : (cr2 error_code : ℕ) → IsQuiet (push_frame cr2 error_code)
push_frame-IsQuiet cr2 error_code g = Kept-Keeps g _ (push_frame-Keeps cr2 error_code g)

inject-IsQuiet : (arg eip : ℕ) → IsQuiet (pv_inject_interrupt arg eip)
inject-IsQuiet arg eip g = Kept-Keeps g _ (pv_inject_interrupt-Keeps arg eip g)

fault-IsQuiet : (cause cr2 error_code : ℕ) → IsQuiet (pv_handle_fault cause cr2 error_code)
unfolding pv_handle_fault
fault-IsQuiet cause cr2 error_code g = Kept-elim (handler_of g.vidt (pos cause)) _ _ g tt (λ idt.
    Kept-if (idt.eip == 0) g _ _ tt (
      IsQuiet->>=
        (push_frame (if cause == cause_pagefault then sub32 cr2 user_mem_start else 0) error_code) _
        (push_frame-IsQuiet _ error_code) (λ esp h. refl) g))

syscall_irq :
    (index : ℤ) (g g' : Vm)
    → pv_handle_syscall index (some g) ≡ some (ok tt g')
    → g'.vidt.pending_irq ≡ g.vidt.pending_irq
unfolding pv_handle_syscall
syscall_irq index g g' e =
    let prot = (g.vidt.fault_irq cause_protfault).eip in
    subst (Kept g) (some-injective _ _ e) (
      Kept-if (leb user_mem_start g.frame.eip) g _ _
        (Kept-elim (handler_of g.vidt index) _ _ g tt (λ idt. Kept-if (idt.eip == 0) g _ _ tt (
          Kept-if (idt.desc == vidt_dpl_3) g _ _ (inject-IsQuiet 0 idt.eip g)
            (Kept-if (prot == 0) g _ _ tt (inject-IsQuiet 0 prot g)))))
        tt)

same_marks :
    (i : ℕ) (g g' : Vm) → g'.vidt.pending_irq ≡ g.vidt.pending_irq → IsPending i g → IsPending i g'
same_marks i g g' e p = rw e p

-- The mark of a pending interrupt is not lost: in every step of `Step`, interrupt 0 or 1 is pending
-- after the step or is taken in it, if it was pending before or comes in it, and it is taken only
-- if the guest does not block interrupts. The steps are the guest's own instructions, the
-- hypercalls but for setpd and adjustpg, system calls, faults, keys, interrupts and the look for
-- pending interrupts, as far as they return to the guest.
pub Step-IsPending :
    (i : ℕ) (g g' : Vm)
    → i < 2
    → (s : Step g g') → IsPending i g ⊎ Arrives i s
    → IsPending i g' ⊎ Taken i g g'
unfolding pv_check_pending_irq
Step-IsPending i g g' lt (run f s d e) (inl p) =
    inl (same_marks i g g' (ap (λ h. h.vidt.pending_irq) e) p)
Step-IsPending i g g' lt (hypercall setpd adjustpg ne ne' e) (inl p) =
    inl (same_marks i g g' (sys_hvcall_real_irq setpd adjustpg g g' ne ne' e) p)
Step-IsPending i g g' lt (syscall index e) (inl p) =
    inl (same_marks i g g' (syscall_irq index g g' e) p)
Step-IsPending i g g' lt (fault cause cr2 code e) (inl p) =
    inl (same_marks i g g' (subst (Kept g) e (fault-IsQuiet cause cr2 code g)) p)
Step-IsPending i g g' lt (pend index arg e) (inl p) =
    inl (rw e (pv_pend_irq-IsPending index arg i g p))
Step-IsPending i g g' lt (pend index arg e) (inr here) =
    inl (rw e (pv_pend_irq_arrives index arg i g here))
Step-IsPending i g g' lt (irq k arg {b} e) (inl p) =
    inl (pv_inject_irq-IsPending k arg b i g g' e p)
Step-IsPending i g g' lt (irq k arg {b} e) (inr here) =
    subst (λ j. IsPending j g' ⊎ Taken j g g') here (pv_inject_irq_arrives k arg b g g' e)
Step-IsPending i g g' lt (look e) (inl p) = elim (Bool-cases (is_blocked g)) [
  | inl blk ↦ inl (ground (arith, rw blk at e))
  | inr free ↦
      elim (check_loop-IsPending 2 0 i g g' (some-injective _ _ (rw free at e)) (omega arith) lt
        p) [ inl q ↦ inl q | inr there ↦ inr (free, there) ]
]
Step-IsPending i g g' lt (run f s d e) (inr never) = absurd never
Step-IsPending i g g' lt (hypercall setpd adjustpg ne ne' e) (inr never) = absurd never
Step-IsPending i g g' lt (syscall index e) (inr never) = absurd never
Step-IsPending i g g' lt (fault cause cr2 code e) (inr never) = absurd never
Step-IsPending i g g' lt (look e) (inr never) = absurd never
