-- ===== src/Pv/Interrupt/Enter.antt =====
-- kern/pv.c: what the guest kernel finds when an interrupt is injected.
use mathlib.Core.Path.{subst}
use pebpeb_os.Base.{
  ℕ, ◌+◌, ◌^◌, ◌≤◌, ◌<◌, ◌≡◌, refl, sym, true, false, List, ◌++◌, length, arith, leb,
}
use pebpeb_os.Base.Bits.{◌&&&◌}
use pebpeb_os.Usermem.Copy.{Holds, Writable}
use pebpeb_os.Paging.{user_mem_start}
use pebpeb_os.Pv.Vm.{Vm, ok, memory, bytes_of, sub32, ◌>>=◌}
use pebpeb_os.Pv.Access.{
  wrote, memory-wrote, write_bytes-wrote, Holds-append, Holds-wrap, Holds-copy_to_user,
  Writable-copy_to_user,
}
use pebpeb_os.Pv.Interrupt.{
  align_mask, guest_interrupt_umode, guest_interrupt_kmode, pv_mask_interrupt, pv_switch_mode,
  shown_eflags, frame_bytes, push_bytes, push_frame, enter, pv_inject_interrupt,
}

-- `g'` is `g` in the handler at `eip`, with virtual interrupts masked and `esp` as stack pointer.
pub record Entered (eip esp : ℕ) (g g' : Vm) : Type 0 where
  pub masked : g'.vif ≡ 0
  pub at_handler : g'.frame ≡ record (g.frame) { eip = eip; esp = esp }
  pub same_table : g'.vidt ≡ g.vidt
  pub same_pds : g'.pds ≡ g.pds

push_bytes-wrote :
    (addr : ℕ) (buf : List ℕ) (g : Vm)
    → length buf ≤ 2 ^ 32
    → Writable (memory g) addr (length buf)
    → push_bytes addr buf g ≡ ok tt (wrote addr buf g)
unfolding push_bytes
push_bytes-wrote addr buf g small w = rw ((write_bytes-wrote addr buf g small w).0, ◌>>=◌) refl

push_frame-kernel :
    (cr2 error_code : ℕ) (g : Vm)
    → g.frame.eip < user_mem_start
    → Writable (memory g) (sub32 g.frame.esp 20) 20
    → let buf = frame_bytes cr2 error_code g.frame.eip guest_interrupt_kmode (shown_eflags g) in
      push_frame cr2 error_code g ≡ ok (sub32 g.frame.esp 20) (wrote (sub32 g.frame.esp 20) buf g)
unfolding push_frame
push_frame-kernel cr2 error_code g low w =
    let buf = frame_bytes cr2 error_code g.frame.eip guest_interrupt_kmode (shown_eflags g) in
    let in_kernel : leb user_mem_start g.frame.eip ≡ false = ground arith in
    rw (in_kernel, push_bytes-wrote (sub32 g.frame.esp 20) buf g (omega arith) w, ◌>>=◌) refl

-- An interrupt of the guest kernel pushes the frame on the stack that is in use, if that can be
-- written: cr2 0, the argument, the old eip, the mark of kernel mode and the flags.
pub pv_inject_interrupt-kernel :
    (arg eip : ℕ) (g : Vm)
    → g.frame.eip < user_mem_start
    → Writable (memory g) (sub32 g.frame.esp 20) 20
    → (g' : Vm) × (pv_inject_interrupt arg eip g ≡ ok tt g')
      × Entered eip (sub32 g.frame.esp 20) g g'
      × (g'.cr3 ≡ g.cr3)
      × Holds
          (memory g')
          (sub32 g.frame.esp 20)
          (frame_bytes 0 arg g.frame.eip guest_interrupt_kmode (shown_eflags g))
unfolding pv_inject_interrupt pv_mask_interrupt wrote
pv_inject_interrupt-kernel arg eip g low w =
    let buf = frame_bytes 0 arg g.frame.eip guest_interrupt_kmode (shown_eflags g) in
    let new = sub32 g.frame.esp 20 in
    (
      enter eip new (pv_mask_interrupt (wrote new buf g)),
      rw (push_frame-kernel 0 arg g low w, ◌>>=◌) refl,
      record { masked = refl; at_handler = refl; same_table = refl; same_pds = refl },
      refl,
      (write_bytes-wrote new buf g (omega arith) w).1,
    )

-- Two writes, the second directly below the first.
module _ (a : ℕ) (xs ys : List ℕ) (g : Vm) (small : length xs + length ys ≤ 2 ^ 32) where
  abbrev wrote_two : Vm
  wrote_two = wrote (sub32 a (length ys)) ys (wrote a xs g)

  wrote_two-Writable :
      Writable (memory g) (sub32 a (length ys)) (length ys)
      → Writable (memory (wrote a xs g)) (sub32 a (length ys)) (length ys)
  wrote_two-Writable w =
      subst (λ m. Writable m (sub32 a (length ys)) (length ys)) (sym (memory-wrote a xs g))
        (Writable-copy_to_user (memory g) (sub32 a (length ys)) a (length ys) xs w)

  wrote_two-Holds :
      Writable (memory g) a (length xs)
      → Writable (memory g) (sub32 a (length ys)) (length ys)
      → Holds (memory wrote_two) (sub32 a (length ys)) (ys ++ xs)
  wrote_two-Holds wa wb =
      let b = sub32 a (length ys) in
      let g1 = wrote a xs g in
      let first : Holds (memory g1) a xs = (write_bytes-wrote a xs g (omega arith) wa).1 in
      let second : Holds (memory wrote_two) b ys =
        (write_bytes-wrote b ys g1 (omega arith) (wrote_two-Writable wb)).1 in
      let kept : Holds (memory wrote_two) a xs =
        subst (λ m. Holds m a xs) (sym (memory-wrote b ys g1))
          (Holds-copy_to_user (memory g1) a b xs ys (λ i j lt lt' e. omega arith) first) in
      Holds-append (memory wrote_two) b ys xs second
        (Holds-wrap (memory wrote_two) a (b + length ys) xs (omega arith) kept)

-- The new stack pointer of an interrupt in user mode, and the space that the handler runs in.
abbrev pub user_esp : Vm → ℕ
user_esp g = sub32 (sub32 (g.vesp0 &&& align_mask) 4) 20

abbrev pub kernel_space : Vm → ℕ
kernel_space g = (g.pds g.active_shadow_pd).cr3

push_frame-user :
    (cr2 error_code : ℕ) (g : Vm)
    → user_mem_start ≤ g.frame.eip
    → Writable (g.spaces (kernel_space g)) (sub32 (g.vesp0 &&& align_mask) 4) 4
    → Writable (g.spaces (kernel_space g)) (user_esp g) 20
    → let buf = frame_bytes cr2 error_code g.frame.eip guest_interrupt_umode (shown_eflags g) in
      push_frame cr2 error_code g
      ≡ ok (user_esp g) (
          wrote_two
            (sub32 (g.vesp0 &&& align_mask) 4)
            (bytes_of 4 g.frame.esp)
            buf
            (pv_switch_mode true g)
            (omega arith))
unfolding push_frame pv_switch_mode
push_frame-user cr2 error_code g high wa wb =
    let buf = frame_bytes cr2 error_code g.frame.eip guest_interrupt_umode (shown_eflags g) in
    let xs = bytes_of 4 g.frame.esp in
    let a = sub32 (g.vesp0 &&& align_mask) 4 in
    let g1 = pv_switch_mode true g in
    let in_user : leb user_mem_start g.frame.eip ≡ true = ground arith in
    let first = push_bytes-wrote a xs g1 (omega arith) wa in
    let second =
      push_bytes-wrote (user_esp g) buf (wrote a xs g1) (omega arith)
        (wrote_two-Writable a xs buf g1 (omega arith) wb) in
    rw (in_user, ◌>>=◌, first, second) refl

-- An interrupt of the guest's user switches to the guest kernel's page directory and pushes, on the
-- stack of vesp0 rounded down to a word, the old stack pointer and below it the frame: cr2 0, the
-- argument, the old eip, the mark of user mode and the flags. The stack must be writable there.
pub pv_inject_interrupt-user :
    (arg eip : ℕ) (g : Vm)
    → user_mem_start ≤ g.frame.eip
    → Writable (g.spaces (kernel_space g)) (sub32 (g.vesp0 &&& align_mask) 4) 4
    → Writable (g.spaces (kernel_space g)) (user_esp g) 20
    → (g' : Vm) × (pv_inject_interrupt arg eip g ≡ ok tt g')
      × Entered eip (user_esp g) g g'
      × (g'.cr3 ≡ kernel_space g)
      × Holds (memory g') (user_esp g) (
          frame_bytes 0 arg g.frame.eip guest_interrupt_umode (shown_eflags g)
          ++ bytes_of 4 g.frame.esp)
unfolding pv_inject_interrupt pv_mask_interrupt wrote pv_switch_mode
pv_inject_interrupt-user arg eip g high wa wb =
    let buf = frame_bytes 0 arg g.frame.eip guest_interrupt_umode (shown_eflags g) in
    let xs = bytes_of 4 g.frame.esp in
    let a = sub32 (g.vesp0 &&& align_mask) 4 in
    let g1 = pv_switch_mode true g in
    (
      enter eip (user_esp g) (pv_mask_interrupt (wrote_two a xs buf g1 (omega arith))),
      rw (push_frame-user 0 arg g high wa wb, ◌>>=◌) refl,
      record { masked = refl; at_handler = refl; same_table = refl; same_pds = refl },
      refl,
      wrote_two-Holds a xs buf g1 (omega arith) wa wb,
    )
