-- ===== src/Pv/Interrupt/Deliver.antt =====
-- kern/pv.c: the interrupt that pv_check_pending_irq gives to the guest.
use pebpeb_os.Base.{
  ℕ, zero, suc, ◌+◌, ◌≤◌, ◌<◌, ◌≡◌, ◌≢◌, ◌⊎◌, inl, inr, refl, ap, true, false, Bool-cases, some,
  List, ◌++◌, arith, ◌==◌, leb, if◌then◌else◌,
}
use pebpeb_os.Base.Bits.{◌&&&◌}
use pebpeb_os.Paging.{user_mem_start}
use pebpeb_os.Usermem.Copy.{Holds, Writable}
use pebpeb_os.Pv.Vm.{Vm, ok, memory, bytes_of, sub32, ◌>>=◌}
use pebpeb_os.Pv.Interrupt.{
  align_mask, guest_interrupt_umode, guest_interrupt_kmode, shown_eflags, frame_bytes,
  pv_inject_interrupt, is_blocked, check_loop, clear_pending, pv_check_pending_irq,
}
use pebpeb_os.Pv.Interrupt.Enter.{
  Entered, user_esp, kernel_space, pv_inject_interrupt-kernel, pv_inject_interrupt-user,
}
use pebpeb_os.Pv.Interrupt.Pending.{IsPending}

-- The stack of the handler can be written: the one in use if the guest kernel is interrupted, and
-- else the one of vesp0.
abbrev pub HasStack : Vm → Type 0
HasStack g =
    ((g.frame.eip < user_mem_start) × Writable (memory g) (sub32 g.frame.esp 20) 20)
    ⊎ ((user_mem_start ≤ g.frame.eip)
        × Writable (g.spaces (kernel_space g)) (sub32 (g.vesp0 &&& align_mask) 4) 4
        × Writable (g.spaces (kernel_space g)) (user_esp g) 20)

-- The stack pointer of the handler, the space that it runs in, and what it finds on its stack.
abbrev pub new_esp : Vm → ℕ
new_esp g = if leb user_mem_start g.frame.eip then user_esp g else sub32 g.frame.esp 20

abbrev pub new_cr3 : Vm → ℕ
new_cr3 g = if leb user_mem_start g.frame.eip then kernel_space g else g.cr3

abbrev pub saved : (arg : ℕ) → Vm → List ℕ
saved arg g =
    if leb user_mem_start g.frame.eip
    then frame_bytes 0 arg g.frame.eip guest_interrupt_umode (shown_eflags g)
      ++ bytes_of 4 g.frame.esp
    else frame_bytes 0 arg g.frame.eip guest_interrupt_kmode (shown_eflags g)

inject_returns :
    (arg eip : ℕ) (g : Vm)
    → HasStack g
    → (h : Vm) × (pv_inject_interrupt arg eip g ≡ ok tt h)
      × Entered eip (new_esp g) g h
      × (h.cr3 ≡ new_cr3 g)
      × Holds (memory h) (new_esp g) (saved arg g)
inject_returns arg eip g (inl (low, w)) =
    let in_kernel : leb user_mem_start g.frame.eip ≡ false = ground arith in
    rw in_kernel (pv_inject_interrupt-kernel arg eip g low w)
inject_returns arg eip g (inr (high, wa, wb)) =
    let in_user : leb user_mem_start g.frame.eip ≡ true = ground arith in
    rw in_user (pv_inject_interrupt-user arg eip g high wa wb)

-- `g'` is `g` in the handler of interrupt `i`, which waits no more, while the other one waits on.
pub record Delivered (i : ℕ) (g g' : Vm) : Type 0 where
  pub masked : g'.vif ≡ 0
  pub at_handler :
      g'.frame ≡ record (g.frame) { eip = (g.vidt.fault_irq (i + 32)).eip; esp = new_esp g }
  pub space : g'.cr3 ≡ new_cr3 g
  pub stack : Holds (memory g') (new_esp g) (saved (g.vidt.pending_irq i).arg g)
  pub cleared : ¬ IsPending i g'
  pub others : (j : ℕ) → j ≢ i → g'.vidt.pending_irq j ≡ g.vidt.pending_irq j
  pub handlers : g'.vidt.fault_irq ≡ g.vidt.fault_irq

clear-Delivered :
    (i : ℕ) (g h : Vm)
    → Entered (g.vidt.fault_irq (i + 32)).eip (new_esp g) g h
    → (h.cr3 ≡ new_cr3 g)
    → Holds (memory h) (new_esp g) (saved (g.vidt.pending_irq i).arg g)
    → Delivered i g (clear_pending i h)
clear-Delivered i g h entered cr3 stack = record {
  masked = entered.masked;
  at_handler = entered.at_handler;
  space = cr3;
  stack = stack;
  cleared = λ p. p (ground arith);
  others = λ j ne. ground (arith, entered.same_table);
  handlers = ap (λ v. v.fault_irq) entered.same_table;
}

-- The loop from `j` on, with nothing pending before `i`.
check_loop_first :
    (rounds j i : ℕ) (g h : Vm)
    → j ≤ i
    → i < j + rounds
    → IsPending i g
    → ((k : ℕ) → k < i → ¬ IsPending k g)
    → (g.vidt.fault_irq (i + 32)).eip ≢ 0
    → pv_inject_interrupt (g.vidt.pending_irq i).arg (g.vidt.fault_irq (i + 32)).eip g ≡ ok tt h
    → check_loop rounds j g ≡ ok tt (clear_pending i h)
unfolding check_loop
check_loop_first zero j i g h lo hi p idle installed e = absurd (omega arith)
check_loop_first (suc rounds) j i g h lo hi p idle installed e = elim (Bool-cases (j == i)) [
  | inl here ↦
      let same : j ≡ i = ground arith in
      let waits : ((g.vidt.pending_irq i).pending == 0) ≡ false = ground arith in
      let there : ((g.vidt.fault_irq (i + 32)).eip == 0) ≡ false = ground arith in
      rw (same, waits, there, ◌>>=◌, e) (ap (λ k. ok tt (clear_pending k h)) same)
  | inr later ↦
      let before : j < i = ground arith in
      let none_here : ((g.vidt.pending_irq j).pending == 0) ≡ true =
        elim (Bool-cases ((g.vidt.pending_irq j).pending == 0)) [
          | inl z ↦ z
          | inr z ↦ absurd (idle j before (λ q. ground arith))
        ] in
      rw none_here
        (check_loop_first rounds (j + 1) i g h (omega arith) (omega arith) p idle installed e)
]

-- A guest that does not block interrupts, with a handler for the first one that is pending and a
-- stack that can be written: before the kernel returns to it, it is put into that handler, on its
-- kernel stack if its user was interrupted, with the argument of the interrupt and the interrupted
-- context on the stack and virtual interrupts masked. That interrupt waits no more, and the other
-- one waits on.
pub pv_check_pending_irq-Delivered :
    (i : ℕ) (g : Vm)
    → i < 2
    → is_blocked g ≡ false
    → IsPending i g
    → ((k : ℕ) → k < i → ¬ IsPending k g)
    → (g.vidt.fault_irq (i + 32)).eip ≢ 0
    → HasStack g
    → (g' : Vm) × (pv_check_pending_irq (some g) ≡ some (ok tt g')) × Delivered i g g'
unfolding pv_check_pending_irq
pv_check_pending_irq-Delivered i g lt free p idle installed stack =
    let eip = (g.vidt.fault_irq (i + 32)).eip in
    let (h, injected, entered, cr3, saves) =
      inject_returns (g.vidt.pending_irq i).arg eip g stack in
    (
      clear_pending i h,
      rw (free, check_loop_first 2 0 i g h (omega arith) lt p idle installed injected) refl,
      clear-Delivered i g h entered cr3 saves,
    )
