-- ===== src/Pv/Tests.antt =====
-- kern/pv.c and kern/hvcall.c: runs of a guest's interrupts and hypercalls, and the theorems at them.
use pebpeb_os.Base.{
  ℕ, zero, suc, ◌+◌, ◌*◌, ◌-◌, ◌^◌, ◌≡◌, ◌≢◌, ◌⊎◌, inl, inr, refl, true, false, some, none, List,
  [], ◌∷◌, ◌++◌, get_elem?, arith, ltb, ◌==◌, if◌then◌else◌,
}
use pebpeb_os.Base.Int.{pos}
use pebpeb_os.Usermem.{UserMem, copy_from_user, try_read}
use pebpeb_os.Usermem.Copy.{Holds, Writable, copy_from_user_iff}
use pebpeb_os.Console.{Display}
use pebpeb_os.Pv.Vidt.{Vidt, syscall_slot_1, pv_classify_interrupt, entry_at}
use pebpeb_os.Pv.Vm.{Vm, PvPd, ok, pv_die, bad_eflags, memory, bytes_of}
use pebpeb_os.Pv.Interrupt.{
  guest_interrupt_umode, guest_interrupt_kmode, shown_eflags, frame_bytes, pv_inject_interrupt,
  pv_pend_irq, pv_inject_irq, pv_check_pending_irq, pv_handle_syscall, is_blocked,
}
use pebpeb_os.Pv.Interrupt.Enter.{
  Entered, user_esp, kernel_space, pv_inject_interrupt-kernel, pv_inject_interrupt-user,
}
use pebpeb_os.Pv.Interrupt.Pending.{IsPending}
use pebpeb_os.Pv.Interrupt.Deliver.{Delivered, pv_check_pending_irq-Delivered}
use pebpeb_os.Pv.Steps.{irq, Taken, Step-IsPending}
use pebpeb_os.Pv.Hvcall.{hvcall_iret, hvcall_setidt, hvcall_loadpd, pv_select_pd}
use pebpeb_os.Pv.Hvcall.Resume.{iret_frame, IsAllowed, Resumed, hvcall_iret-shown_eflags}
use pebpeb_os.Pv.Hvcall.Table.{SetidtArguments, hvcall_setidt-pv_handle_syscall}
use pebpeb_os.Base.Members.{In}
use pebpeb_os.Pv.Hvcall.Counts.{Selectable, Selected, pv_select_pd-Selected}
use pebpeb_os.Pv.Hvcall.Load.{hvcall_loadpd-frees}

abbrev screen : Display
screen = record {
  pts = record {
    mem = λ y x. record { ch = 32; color = 7 };
    cur_x = 0;
    cur_y = 0;
    cur_color = pos 7;
  };
  active = false;
  console_mem = λ y x. record { ch = 32; color = 7 };
  crtc_lsb = 0;
  crtc_msb = 0;
}

-- Memory that can be written everywhere, holds `buf` from `base` on, and 0 elsewhere.
abbrev ram : (base : ℕ) → List ℕ → UserMem
ram base buf = record {
  read = λ a.
      if ltb a base
      then some 0
      else elim (get_elem? buf (a - base)) [ none ↦ some 0 | some c ↦ some c ];
  writable = λ a. true;
}

abbrev vidt : Vidt
vidt = record {
  fault_irq = λ i. record { eip = 0x100 * (i + 1); desc = 0 };
  pending_irq = λ i. record { pending = if i == 1 then 1 else 0; arg = 0x1e };
  syscall_1 = λ i. record { eip = 0; desc = 0 };
  syscall_2 = λ i. record { eip = 0; desc = 0 };
}

abbrev pd_of : ℕ → PvPd
pd_of a = record {
  refcount = pos 1;
  guest_pd = a * 2 ^ 12;
  wp = 1;
  cr3 = a * 2 ^ 20;
  user_cr3 = a * 2 ^ 20 + 4096;
}

-- A guest at `eip`, with its stack at 0x8000, which holds `buf`, and three shadow page tables.
abbrev guest_at : (eip : ℕ) → List ℕ → Vm
guest_at eip buf = record {
  vif = 0x200;
  vidt = vidt;
  vesp0 = 0x9002;
  pds = pd_of;
  shadow_pds = 5 ∷ 6 ∷ 4103 ∷ [];
  active_shadow_pd = 6;
  freed = [];
  destroyed = [];
  frame = record { eip = eip; cs = 0x33; eflags = 0x246; esp = 0x8000; eax = 3 };
  cr3 = 6 * 2 ^ 20;
  exit_value = pos 0;
  spaces = λ c. ram 0x8000 buf;
  shown = λ s c m d. s d;
  display = screen;
}

ram-Writable : (a n base : ℕ) (buf : List ℕ) → Writable (ram base buf) a n
ram-Writable a zero base buf = tt
ram-Writable a (suc n) base buf = (refl, ram-Writable (a + 1) n base buf)

-- The kernel of the guest is interrupted at 0x4000.
pv_inject_interrupt-kernel_example :
    (g' : Vm) × (pv_inject_interrupt 7 0x2100 (guest_at 0x4000 []) ≡ ok tt g')
    × Entered 0x2100 0x7fec (guest_at 0x4000 []) g'
    × (g'.cr3 ≡ 6 * 2 ^ 20)
    × Holds
        (memory g')
        0x7fec
        (frame_bytes 0 7 0x4000 guest_interrupt_kmode (shown_eflags (guest_at 0x4000 [])))
pv_inject_interrupt-kernel_example =
    pv_inject_interrupt-kernel 7 0x2100 (guest_at 0x4000 []) (omega arith)
      (ram-Writable 0x7fec 20 0x8000 [])

-- Its user is interrupted at 0x0100_4000.
pv_inject_interrupt-user_example :
    (g' : Vm) × (pv_inject_interrupt 7 0x2100 (guest_at 0x0100_4000 []) ≡ ok tt g')
    × Entered 0x2100 (user_esp (guest_at 0x0100_4000 [])) (guest_at 0x0100_4000 []) g'
    × (g'.cr3 ≡ kernel_space (guest_at 0x0100_4000 []))
    × Holds (memory g') (user_esp (guest_at 0x0100_4000 [])) (
        frame_bytes 0 7 0x0100_4000 guest_interrupt_umode (shown_eflags (guest_at 0x0100_4000 []))
        ++ bytes_of 4 0x8000)
pv_inject_interrupt-user_example =
    pv_inject_interrupt-user 7 0x2100 (guest_at 0x0100_4000 []) (omega arith)
      (ram-Writable 0x8ffc 4 0x8000 []) (ram-Writable 0x8fe8 20 0x8000 [])

-- What a stack is seen to hold when it is read.
held :
    (m : UserMem) (addr size : ℕ) (buf : List ℕ)
    → copy_from_user m addr size ≡ (true, buf)
    → Holds m addr buf
held m addr size buf e = ((copy_from_user_iff m addr size buf).0 e).1

abbrev returning : List ℕ
returning = iret_frame 0x4000 0x246 0x8000 0x9002 3

returning_held : Holds (memory (guest_at 0x2100 returning)) 0x8000 returning
unfolding copy_from_user try_read
returning_held = held (ram 0x8000 returning) 0x8000 20 returning refl

-- The handler returns to the user.
hvcall_iret-shown_eflags_example :
    (IsAllowed 0x246
      × ((h' : Vm) × (hvcall_iret (guest_at 0x2100 returning) ≡ ok tt h')
          × Resumed (guest_at 0x4000 []) (guest_at 0x2100 returning) h' 0x9002))
    ⊎ ((¬ IsAllowed 0x246)
        × (hvcall_iret (guest_at 0x2100 returning) ≡ pv_die bad_eflags (guest_at 0x4000 returning)))
unfolding shown_eflags
hvcall_iret-shown_eflags_example =
    hvcall_iret-shown_eflags (guest_at 0x4000 []) (guest_at 0x2100 returning) 0x9002 (omega arith)
      (omega arith) (omega arith) (omega arith) (omega arith) returning_held

-- The keyboard interrupt, which is pending, is delivered to the kernel of the guest.
pv_check_pending_irq-Delivered_example :
    (g' : Vm) × (pv_check_pending_irq (some (guest_at 0x4000 [])) ≡ some (ok tt g'))
    × Delivered 1 (guest_at 0x4000 []) g'
unfolding is_blocked
pv_check_pending_irq-Delivered_example =
    pv_check_pending_irq-Delivered 1 (guest_at 0x4000 []) (omega arith) refl (λ e. ground arith)
      (λ k l p. p (ground arith)) (λ e. ground arith)
      (inl (omega arith, ram-Writable 0x7fec 20 0x8000 []))

-- The keyboard interrupt waits while the timer's is injected.
Step-IsPending_example :
    IsPending 1 (pv_pend_irq 32 0 (record (guest_at 0x4000 []) { vif = 0 }))
    ⊎ Taken 1
        (record (guest_at 0x4000 []) { vif = 0 })
        (pv_pend_irq 32 0 (record (guest_at 0x4000 []) { vif = 0 }))
unfolding pv_inject_irq is_blocked
Step-IsPending_example =
    Step-IsPending 1 (record (guest_at 0x4000 []) { vif = 0 })
      (pv_pend_irq 32 0 (record (guest_at 0x4000 []) { vif = 0 })) (omega arith)
      (irq 0 0 {b = true} refl) (inl (λ e. ground arith))

abbrev setidt_arguments : List ℕ
setidt_arguments = bytes_of 4 65 ++ (bytes_of 4 0x2400 ++ bytes_of 4 0)

setidt_held : SetidtArguments 65 0x2400 0 (guest_at 0x2100 setidt_arguments)
unfolding copy_from_user try_read
setidt_held =
    let m = ram 0x8000 setidt_arguments in
    (
      held m 0x8000 4 (bytes_of 4 65) refl,
      held m 0x8004 4 (bytes_of 4 0x2400) refl,
      held m 0x8008 4 (bytes_of 4 0) refl,
    )

-- The gate of fork is given to the guest's user.
hvcall_setidt-pv_handle_syscall_example :
    (g' : Vm) × (hvcall_setidt (guest_at 0x2100 setidt_arguments) ≡ ok tt g')
    × (((guest_at 0x0100_4000 []).vidt ≡ g'.vidt)
        → pv_handle_syscall (pos 65) (some (guest_at 0x0100_4000 []))
          ≡ some (pv_inject_interrupt 0 0x2400 (guest_at 0x0100_4000 [])))
unfolding pv_classify_interrupt entry_at
hvcall_setidt-pv_handle_syscall_example =
    hvcall_setidt-pv_handle_syscall 65 0x2400 0 (syscall_slot_1 0)
      (guest_at 0x2100 setidt_arguments) (guest_at 0x0100_4000 []) refl (omega arith) (omega arith)
      (omega arith) (λ e. ground arith) refl setidt_held (omega arith)

second : Selectable 5 (guest_at 0x2100 [])
second = record {
  listed = inl refl;
  active_listed = inr (inl refl);
  distinct = (
    λ h. elim h [ inl e ↦ ground arith | inr k ↦ elim k [ inl e ↦ ground arith | inr n ↦ n ] ],
    (λ h. elim h [ inl e ↦ ground arith | inr n ↦ n ], (λ n. n, tt)),
  );
  others = λ b h ne. refl;
  count = 1;
  target = refl;
  not_new = λ e. omega arith;
}

pv_select_pd-Selected_example :
    Selected 5 (guest_at 0x2100 []) second (pv_select_pd 5 (guest_at 0x2100 []))
pv_select_pd-Selected_example = pv_select_pd-Selected 5 (guest_at 0x2100 []) second

-- The guest asks for the page table at 0x7000, which stands last; the blocks before it are freed.
hvcall_loadpd-frees_example :
    (g' : Vm) × (hvcall_loadpd (guest_at 0x2100 (bytes_of 4 0x7000)) ≡ ok tt g')
    × In 5 g'.freed
    × ((◌≢◌ {A = ℕ} 5 6) → In 5 g'.shadow_pds)
unfolding copy_from_user try_read
hvcall_loadpd-frees_example =
    hvcall_loadpd-frees 0x7000 5 4103 (5 ∷ 6 ∷ []) [] (guest_at 0x2100 (bytes_of 4 0x7000))
      (omega arith) (held (ram 0x8000 (bytes_of 4 0x7000)) 0x8000 4 (bytes_of 4 0x7000) refl) refl
      (λ e. ground arith, (λ e. ground arith, tt)) refl (inl refl)
