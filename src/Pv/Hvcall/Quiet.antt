-- ===== src/Pv/Hvcall/Quiet.antt =====
-- kern/hvcall.c: programs on a guest that leave the marks of pending interrupts as they are.
pub mod Calls
use mathlib.Core.Path.{subst}
use pebpeb_os.Base.{
  ℕ, ap, ◌≢◌, ◌≡◌, ◌∙◌, ◌*◌, refl, inl, inr, true, false, Bool, Bool-cases, List, [], ◌∷◌, ◌==◌,
  ◌%◌, ◌+◌, ◌^◌, if◌then◌else◌, some, none, Option, leb,
}
use pebpeb_os.Base.Int.{ℤ, negsuc}
use pebpeb_os.Paging.{user_mem_start}
use pebpeb_os.Usermem.{copy_from_user}
use pebpeb_os.Pv.Vidt.{
  Slot, fault_slot, syscall_slot_1, syscall_slot_2, set_entry, IdtEntry, Vidt,
  pv_classify_interrupt,
}
use pebpeb_os.Pv.Vm.{
  Vm, M, Reason, Result, ok, stop, check, read_bytes, read_word, argument, write_bytes, memory,
  pv_die, bad_hvcall, bad_length, bad_argument, to_int, ◌>>=◌, ◌>>◌,
}
use pebpeb_os.Pv.Interrupt.{pv_mask_interrupt, pv_unmask_interrupt, pv_switch_mode, efl_if}
use pebpeb_os.Pv.Hvcall.{
  resume, hvcall_exit, hvcall_iret, install, hvcall_setidt, hvcall_print, hvcall_set_color,
  hvcall_set_cursor, hvcall_get_cursor, hvcall_print_at, hvcall_refpd, find_pd, search_pd,
  hvcall_loadpd, pv_select_pd, release_pd, is_positive, not_eflags_pv_mask, add_ref, length_ok,
  not_if_resv1,
}
use pebpeb_os.Pv.Hvcall.Dispatch.{
  Op, magic_op, exit_op, iret_op, setidt_op, disable_op, enable_op, setpd_op, adjustpg_op, print_op,
  set_color_op, set_cursor_op, get_cursor_op, print_at_op, refpd_op, unrefpd_op, loadpd_op, op_of,
  run_op, sys_hvcall_real,
}
use pebpeb_os.Base.Bits.{◌&&&◌}
use mathlib.Core.Option.{some-injective}

-- A result with the marks as in `g`, if it returns to the guest.
abbrev pub Kept {ℓ} : {A : Type ℓ} → Vm → Result A → Type 0
Kept g (ok a g') = g'.vidt.pending_irq ≡ g.vidt.pending_irq
Kept g (stop e g') = Unit

abbrev pub IsQuiet : {A : Type 0} → M A → Type 0
IsQuiet m = (g : Vm) → Kept g (m g)

pub IsQuiet->>= :
    {A B : Type 0} (m : M A) (f : A → M B)
    → IsQuiet m
    → ((a : A) → IsQuiet (f a))
    → IsQuiet (m >>= f)
IsQuiet->>= {A} {B} m f h k g = go (m g) (h g)
  where
    next :
        (r : Result B) (g1 : Vm) → Kept g1 r → g1.vidt.pending_irq ≡ g.vidt.pending_irq → Kept g r
    next (ok b g2) g1 q e = q ∙ e
    next (stop s g2) g1 q e = tt

    go :
        (r : Result A)
        → Kept g r
        → Kept g (elim r as (λ k. Result B) [ ok a g1 ↦ f a g1 | stop s g1 ↦ stop s g1 ])
    go (ok a g1) e = next (f a g1) g1 (k a g1) e
    go (stop s g1) e = tt

pub check-IsQuiet : (b : Bool) (r : Reason) → IsQuiet (check b r)
check-IsQuiet true r g = refl
check-IsQuiet false r g = tt

pub Kept-if :
    {A : Type 0} (b : Bool) (g : Vm) (r r' : Result A)
    → Kept g r
    → Kept g r'
    → Kept g (if b then r else r')
Kept-if true g r r' k k' = k
Kept-if false g r r' k k' = k'

pub read_bytes-IsQuiet : (addr size : ℕ) → IsQuiet (read_bytes addr size)
unfolding read_bytes
read_bytes-IsQuiet addr size g = Kept-if (copy_from_user (memory g) addr size).0 g _ _ refl tt

pub argument-IsQuiet : (k : ℕ) → IsQuiet (argument k)
unfolding argument read_word
argument-IsQuiet k g =
    IsQuiet->>= (read_bytes (g.frame.esp + 4 * k) 4) _ (read_bytes-IsQuiet _ 4) (λ buf h. refl) g

pub write_bytes-IsQuiet : (addr : ℕ) (buf : List ℕ) → IsQuiet (write_bytes addr buf)
unfolding write_bytes
write_bytes-IsQuiet addr buf g = refl

pub Kept-elim :
    {A B : Type 0} (o : Option B) (x : Result A) (f : B → Result A) (g : Vm)
    → Kept g x
    → ((b : B) → Kept g (f b))
    → Kept g (elim o [ none ↦ x | some b ↦ f b ])
Kept-elim none x f g h k = h
Kept-elim (some b) x f g h k = k b
