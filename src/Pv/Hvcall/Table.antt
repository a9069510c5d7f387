-- ===== src/Pv/Hvcall/Table.antt =====
-- kern/hvcall.c: hvcall_setidt against the faults and system calls that use the table.
use mathlib.Core.Path.{subst}
use mathlib.Core.Option.{some-injective}
use pebpeb_os.Base.{
  ℕ, ◌+◌, ◌*◌, ◌^◌, ◌≤◌, ◌<◌, ◌≡◌, ◌≢◌, refl, sym, ap, ◌∙◌, true, false, Bool, Bool-cases, inl, inr,
  some, arith, ltb, leb, ◌-◌, ◌==◌, if◌then◌else◌,
}
use pebpeb_os.Base.Bits.{◌&&&◌, ◌|||◌, zero-bit_or}
use pebpeb_os.Base.Int.{pos, negsuc}
use pebpeb_os.Usermem.Copy.{Holds}
use pebpeb_os.Paging.{user_mem_start}
use pebpeb_os.Pv.Vidt.{
  Vidt, Slot, fault_slot, syscall_slot_1, IdtEntry, pv_classify_interrupt, entry_at, set_entry,
  entry_at-set_entry_self,
}
use pebpeb_os.Pv.Vm.{
  Vm, M, modify, sub32, Result, ok, stop, wild, memory, bytes_of, Reason, syscall_in_kernel, pv_die,
  no_idt_handler, ◌>>=◌,
}
use pebpeb_os.Pv.Access.{argument-Holds}
use pebpeb_os.Pv.Interrupt.{
  cause_protfault, cause_pagefault, enter, handler_of, pv_inject_interrupt, pv_handle_fault,
  pv_handle_syscall, push_frame,
}
use pebpeb_os.Pv.Interrupt.Pending.{Keeps, Keeps->>=, push_frame-Keeps, pv_inject_interrupt-Keeps}
use pebpeb_os.Pv.Hvcall.{not_dpl_mask, install, hvcall_setidt}

-- The arguments of hvcall_setidt on the guest's stack.
abbrev pub SetidtArguments : (index eip0 is_dpl0 : ℕ) → Vm → Type 0
SetidtArguments index eip0 is_dpl0 g =
    Holds (memory g) (g.frame.esp + 4 * 0) (bytes_of 4 index)
    × Holds (memory g) (g.frame.esp + 4 * 1) (bytes_of 4 eip0)
    × Holds (memory g) (g.frame.esp + 4 * 2) (bytes_of 4 is_dpl0)

-- The entry that hvcall_setidt writes.
abbrev installed : Slot → (eip0 is_dpl0 : ℕ) → Vm → IdtEntry
installed s eip0 is_dpl0 g = record {
  eip = eip0;
  desc = ((entry_at s g.vidt).desc &&& not_dpl_mask) ||| (if is_dpl0 == 0 then 3 else 0);
}

setidt_run :
    (index eip0 is_dpl0 : ℕ) (s : Slot) (g : Vm)
    → pv_classify_interrupt (pos index) ≡ some s
    → index < 2 ^ 31
    → eip0 < 2 ^ 32
    → is_dpl0 < 2 ^ 32
    → SetidtArguments index eip0 is_dpl0 g
    → hvcall_setidt g ≡ ok tt (record g { vidt = set_entry s (installed s eip0 is_dpl0 g) g.vidt })
unfolding hvcall_setidt install
setidt_run index eip0 is_dpl0 s g found small eip dpl (h0, h1, h2) =
    let a0 = argument-Holds 0 index g (omega arith) h0 in
    let a1 = argument-Holds 1 eip0 g eip h1 in
    let a2 = argument-Holds 2 is_dpl0 g dpl h2 in
    let int : (if ltb index (2 ^ 31) then pos index else negsuc (2 ^ 32 - 1 - index)) ≡ pos index =
      ground arith in
    rw (◌>>=◌, a0, a1, a2, int, found, install) refl

-- The system call of a guest's user whose entry has been found.
syscall_found :
    (index : ℕ) (s : Slot) (e : IdtEntry) (h : Vm)
    → user_mem_start ≤ h.frame.eip
    → pv_classify_interrupt (pos index) ≡ some s
    → entry_at s h.vidt ≡ e
    → pv_handle_syscall (pos index) (some h)
      ≡ some (
          if e.eip == 0
          then pv_die no_idt_handler h
          else if e.desc == 3
          then pv_inject_interrupt 0 e.eip h
          else if (h.vidt.fault_irq cause_protfault).eip == 0
          then pv_die no_idt_handler h
          else pv_inject_interrupt 0 (h.vidt.fault_irq cause_protfault).eip h)
unfolding pv_handle_syscall handler_of
syscall_found index s e h high found same =
    let in_user : leb user_mem_start h.frame.eip ≡ true = ground arith in
    rw (in_user, found, handler_of, same) refl

-- Once hvcall_setidt has returned, and while the table stays as it left it, a system call of the
-- guest's user with that index enters the handler that was installed, if it was installed for the
-- user, and else the handler of the protection fault, if there is one. The entry had no bits but
-- those of the privilege level.
pub hvcall_setidt-pv_handle_syscall :
    (index eip0 is_dpl0 : ℕ) (s : Slot) (g h : Vm)
    → pv_classify_interrupt (pos index) ≡ some s
    → index < 2 ^ 31
    → eip0 < 2 ^ 32
    → is_dpl0 < 2 ^ 32
    → eip0 ≢ 0
    → ((entry_at s g.vidt).desc &&& not_dpl_mask) ≡ 0
    → SetidtArguments index eip0 is_dpl0 g
    → user_mem_start ≤ h.frame.eip
    → (g' : Vm) × (hvcall_setidt g ≡ ok tt g')
      × ((h.vidt ≡ g'.vidt)
          → pv_handle_syscall (pos index) (some h)
            ≡ some (
                if is_dpl0 == 0
                then pv_inject_interrupt 0 eip0 h
                else if (h.vidt.fault_irq cause_protfault).eip == 0
                then pv_die no_idt_handler h
                else pv_inject_interrupt 0 (h.vidt.fault_irq cause_protfault).eip h))
hvcall_setidt-pv_handle_syscall index eip0 is_dpl0 s g h found small eip dpl nonzero clean args
      high =
    (
      _,
      setidt_run index eip0 is_dpl0 s g found small eip dpl args,
      λ same.
          let there : entry_at s h.vidt ≡ installed s eip0 is_dpl0 g =
            ap (entry_at s) same ∙ entry_at-set_entry_self s (installed s eip0 is_dpl0 g) g.vidt in
          let level = zero-bit_or (if is_dpl0 == 0 then 3 else 0) in
          let some_eip : (eip0 == 0) ≡ false = ground arith in
          syscall_found index s (installed s eip0 is_dpl0 g) h high found there
          ∙ (elim (Bool-cases (is_dpl0 == 0)) [
            | inl user ↦ rw (clean, level, some_eip, user) refl
            | inr kernel ↦ rw (clean, level, some_eip, kernel) refl
          ]),
    )

Keeps-if :
    (b : Bool) (g : Vm) (r r' : Result (Unit {0}))
    → Keeps g r
    → Keeps g r'
    → Keeps g (if b then r else r')
Keeps-if true g r r' k k' = k
Keeps-if false g r r' k k' = k'

die-Keeps : (reason : Reason) (g : Vm) → Keeps {A = Unit {0}} g (pv_die reason g)
die-Keeps reason g = λ p. cc

syscall-Keeps :
    (index : ℕ) (g : Vm)
    → 65 ≤ index
    → index < 117
    → (r : Result (Unit {0})) × (pv_handle_syscall (pos index) (some g) ≡ some r) × Keeps g r
unfolding pv_handle_syscall pv_classify_interrupt
syscall-Keeps index g lo hi = elim (Bool-cases (leb user_mem_start g.frame.eip)) [
  | inl user ↦
      let s = syscall_slot_1 (index - 65) in
      let found : pv_classify_interrupt (pos index) ≡ some s = ground arith in
      (
        _,
        syscall_found index s (entry_at s g.vidt) g (ground arith) found refl,
        search (Keeps-if, die-Keeps, pv_inject_interrupt-Keeps),
      )
  | inr kernel ↦ (pv_die syscall_in_kernel g, rw kernel refl, die-Keeps syscall_in_kernel g)
]

fault_slot_of :
    (cause : ℕ) → cause < 34 → pv_classify_interrupt (pos cause) ≡ some (fault_slot cause)
unfolding pv_classify_interrupt
fault_slot_of cause lt = ground arith

fault_entry :
    (cause : ℕ) (v : Vidt) → cause < 34 → handler_of v (pos cause) ≡ some (v.fault_irq cause)
unfolding handler_of entry_at
fault_entry cause v lt = rw (fault_slot_of cause lt, handler_of) refl

fault-Keeps :
    (cause cr2 error_code : ℕ) (g : Vm)
    → cause < 34
    → Keeps g (pv_handle_fault cause cr2 error_code g)
unfolding pv_handle_fault
fault-Keeps cause cr2 error_code g lt =
    let eip = (g.vidt.fault_irq cause).eip in
    let shown_cr2 = if cause == cause_pagefault then sub32 cr2 user_mem_start else 0 in
    let push : M (Unit {0}) = (do
      new_esp ← push_frame shown_cr2 error_code
      modify (enter eip new_esp)) in
    let run : pv_handle_fault cause cr2 error_code g
        ≡ (if eip == 0 then pv_die no_idt_handler g else push g) =
      rw (fault_entry cause g.vidt lt, pv_handle_fault) refl in
    subst (Keeps g) (sym run) (
      Keeps-if (eip == 0) g (pv_die no_idt_handler g) (push g) (die-Keeps no_idt_handler g) (
        Keeps->>= (push_frame shown_cr2 error_code) _ g g (push_frame-Keeps shown_cr2 error_code g)
          (λ a h k. k)))

-- The gates of the system calls, 65 to 116, and the faults and interrupts below 34 never make the
-- kernel read through the NULL that pv_classify_interrupt returns for other indices, whatever the
-- guest has done to its table.
pv_handle_syscall-ne-wild :
    (index cause cr2 error_code : ℕ) (g h : Vm)
    → 65 ≤ index
    → index < 117
    → cause < 34
    → (pv_handle_syscall (pos index) (some g) ≢ some (stop wild h))
      × (pv_handle_fault cause cr2 error_code g ≢ stop wild h)
pv_handle_syscall-ne-wild index cause cr2 error_code g h lo hi lt =
    let (r, e, k) = syscall-Keeps index g lo hi in
    (
      λ p. subst (Keeps g) (some-injective r (stop wild h) (sym e ∙ p)) k refl,
      λ p. subst (Keeps g) p (fault-Keeps cause cr2 error_code g lt) refl,
    )
