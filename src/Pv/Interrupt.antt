-- ===== src/Pv/Interrupt.antt =====
-- kern/pv.c and kern/hvcall.c: faults, interrupts and system calls that reach a guest. The interrupt
-- flag that pv_check_pending_irq saves and restores is left out; so is the text that pv_die prints.
pub mod Deliver
pub mod Enter
pub mod Pending
use pebpeb_os.Base.{
  ℕ, zero, suc, ◌+◌, ◌-◌, ◌^◌, Bool, true, false, ◌||◌, Option, none, some, List, [], ◌∷◌, ◌++◌,
  ltb, leb, ◌==◌, if◌then◌else◌,
}
use pebpeb_os.Base.Bits.{◌|||◌, ◌&&&◌}
use pebpeb_os.Base.Int.{ℤ, pos}
use pebpeb_os.Paging.{user_mem_start}
use pebpeb_os.Pv.Vidt.{
  IdtEntry, Irq, Vidt, fault_slot, pv_irq_start, vidt_dpl_3, pv_classify_interrupt, entry_at, write,
}
use pebpeb_os.Pv.Vm.{
  Vm, M, Result, ok, stop, wild, pv_die, check, modify, gets, write_bytes, bytes_of, sub32,
  push_failed, no_idt_handler, syscall_in_kernel, ◌>>=◌, ◌>>◌,
}

abbrev pub efl_if : ℕ
efl_if = 0x200

-- ~EFL_IF in 32 bits, and ~(sizeof(va_t) - 1)
abbrev pub not_efl_if : ℕ
not_efl_if = 0xfffffdff

abbrev pub align_mask : ℕ
align_mask = 0xfffffffc

abbrev pub guest_interrupt_umode : ℕ
guest_interrupt_umode = 0x13370000

abbrev pub guest_interrupt_kmode : ℕ
guest_interrupt_kmode = 0x00001337

-- SEGSEL_SPARE0 | SEGSEL_RPL3
abbrev pub segsel_pv_cs : ℕ
segsel_pv_cs = 0x33

abbrev pub cause_protfault : ℕ
cause_protfault = 0x0d

abbrev pub cause_pagefault : ℕ
cause_pagefault = 0x0e

unfoldable pub pv_mask_interrupt : Vm → Vm
pv_mask_interrupt g = record g { vif = 0 }

unfoldable pub pv_unmask_interrupt : Vm → Vm
pv_unmask_interrupt g = record g { vif = efl_if }

unfoldable pub pv_switch_mode : (kernelmode : Bool) → Vm → Vm
pv_switch_mode kernelmode g =
    let pv_pd = g.pds g.active_shadow_pd in
    record g { cr3 = if kernelmode then pv_pd.cr3 else pv_pd.user_cr3 }

-- The flags that the guest is shown: the interrupt flag is the virtual one.
unfoldable pub shown_eflags : Vm → ℕ
shown_eflags g = if g.vif == 0 then g.frame.eflags &&& not_efl_if else (g.frame.eflags ||| efl_if)

-- `pv_frame_t`
abbrev pub frame_bytes : (cr2 error_code eip vcs eflags : ℕ) → List ℕ
frame_bytes cr2 error_code eip vcs eflags =
    bytes_of 4 cr2
    ++ (bytes_of 4 error_code ++ (bytes_of 4 eip ++ (bytes_of 4 vcs ++ bytes_of 4 eflags)))

unfoldable pub push_bytes : (addr : ℕ) → List ℕ → M (Unit {0})
push_bytes addr buf = do done ← write_bytes addr buf; check done push_failed

-- What pv_handle_fault and pv_inject_interrupt both do: push the stack pointer, if the guest's user
-- was interrupted, and the frame; the result is `new_esp`.
unfoldable pub push_frame : (cr2 error_code : ℕ) → M ℕ
push_frame cr2 error_code g =
    let eflags = shown_eflags g in
    let f = g.frame in
    let esp0 = sub32 (g.vesp0 &&& align_mask) 4 in
    let from_user = frame_bytes cr2 error_code f.eip guest_interrupt_umode eflags in
    let from_kernel = frame_bytes cr2 error_code f.eip guest_interrupt_kmode eflags in
    let umode : M ℕ = (do
      modify (pv_switch_mode true)
      push_bytes esp0 (bytes_of 4 f.esp)
      push_bytes (sub32 esp0 20) from_user
      gets (λ _. sub32 esp0 20)) in
    let kmode : M ℕ = (do push_bytes (sub32 f.esp 20) from_kernel; gets (λ _. sub32 f.esp 20)) in
    if leb user_mem_start f.eip then umode g else kmode g

abbrev pub enter : (eip esp : ℕ) → Vm → Vm
enter eip esp g = record g { frame = record (g.frame) { eip = eip; esp = esp } }

unfoldable pub pv_inject_interrupt : (arg eip : ℕ) → M (Unit {0})
pv_inject_interrupt arg eip = do
  new_esp ← push_frame 0 arg
  modify pv_mask_interrupt
  modify (enter eip new_esp)

-- The entry for an index; `none` is NULL.
unfoldable pub handler_of : Vidt → ℤ → Option IdtEntry
handler_of v index = elim (pv_classify_interrupt index) [
  | none ↦ none
  | some s ↦ some (entry_at s v)
]

-- `cause`, `cr2` and `error_code` of the saved registers are arguments.
unfoldable pub pv_handle_fault : (cause cr2 error_code : ℕ) → M (Unit {0})
pv_handle_fault cause cr2 error_code g = elim (handler_of g.vidt (pos cause)) [
  | none ↦ stop wild g
  | some idt ↦
      let shown_cr2 = if cause == cause_pagefault then sub32 cr2 user_mem_start else 0 in
      let push : M (Unit {0}) = (do
        new_esp ← push_frame shown_cr2 error_code
        modify (enter idt.eip new_esp)) in
      if idt.eip == 0 then pv_die no_idt_handler g else push g
]

unfoldable pub pv_pend_irq : (index arg : ℕ) → Vm → Vm
pv_pend_irq index arg g = record g {
  vidt = record (g.vidt) {
    pending_irq =
        write g.vidt.pending_irq (index - pv_irq_start) (record { pending = 1; arg = arg });
  };
}

unfoldable pub is_blocked : Vm → Bool
is_blocked g = if g.frame.cs == segsel_pv_cs then (g.vif &&& efl_if) == 0 else true

-- `none` is a process that is no guest; the result -1 is `false`.
unfoldable pub pv_inject_irq : (index arg : ℕ) → Option Vm → Option (Result Bool)
pv_inject_irq index arg none = none
pv_inject_irq index arg (some g) =
    let eip = (g.vidt.fault_irq index).eip in
    let inject : M Bool = (do pv_inject_interrupt arg eip; gets (λ _. true)) in
    some (
      if is_blocked g
      then ok true (pv_pend_irq index arg g)
      else if eip == 0
      then pv_die no_idt_handler g
      else inject g)

abbrev pub clear_pending : (i : ℕ) → Vm → Vm
clear_pending i g = record g {
  vidt = record (g.vidt) {
    pending_irq = write g.vidt.pending_irq i (record (g.vidt.pending_irq i) { pending = 0 });
  };
}

-- The loop of pv_check_pending_irq, with `rounds` interrupts left from `i` on.
unfoldable pub check_loop : (rounds i : ℕ) → M (Unit {0})
check_loop zero i g = ok tt g
check_loop (suc k) i g =
    let rest = check_loop k (i + 1) g in
    let irq = g.vidt.pending_irq i in
    let eip = (g.vidt.fault_irq (i + pv_irq_start)).eip in
    let inject : M (Unit {0}) = (do pv_inject_interrupt irq.arg eip; modify (clear_pending i)) in
    if irq.pending == 0 then rest else if eip == 0 then pv_die no_idt_handler g else inject g

unfoldable pub pv_check_pending_irq : Option Vm → Option (Result (Unit {0}))
pv_check_pending_irq none = none
pv_check_pending_irq (some g) = some (if is_blocked g then ok tt g else check_loop 2 0 g)

-- A system call of a guest: `none` is -1, a process that is no guest.
unfoldable pub pv_handle_syscall : (index : ℤ) → Option Vm → Option (Result (Unit {0}))
pv_handle_syscall index none = none
pv_handle_syscall index (some g) =
    let prot = (g.vidt.fault_irq cause_protfault).eip in
    let from_user : Result (Unit {0}) = elim (handler_of g.vidt index) [
      | none ↦ stop wild g
      | some idt ↦
          if idt.eip == 0
          then pv_die no_idt_handler g
          else if idt.desc == vidt_dpl_3
          then pv_inject_interrupt 0 idt.eip g
          else if prot == 0
          then pv_die no_idt_handler g
          else pv_inject_interrupt 0 prot g
    ] in
    some (if leb user_mem_start g.frame.eip then from_user else pv_die syscall_in_kernel g)
