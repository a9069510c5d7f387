-- ===== src/Pv/Hvcall/Quiet/Calls.antt =====
-- kern/hvcall.c: the hypercalls leave the marks of pending interrupts as they are.
use mathlib.Core.Path.{subst}
use pebpeb_os.Base.{
  ℕ, ap, ◌≢◌, ◌≡◌, refl, inl, inr, true, false, Bool, Bool-cases, List, [], ◌∷◌, ◌==◌, ◌%◌, ◌+◌,
  ◌^◌, if◌then◌else◌, some, none, Option, leb,
}
use pebpeb_os.Base.Int.{ℤ, negsuc}
use pebpeb_os.Paging.{user_mem_start}
use pebpeb_os.Pv.Vidt.{
  Slot, fault_slot, syscall_slot_1, syscall_slot_2, set_entry, IdtEntry, Vidt,
  pv_classify_interrupt,
}
use pebpeb_os.Pv.Vm.{
  Vm, M, Result, ok, check, read_bytes, argument, write_bytes, pv_die, bad_hvcall, bad_length,
  bad_argument, to_int, ◌>>=◌, ◌>>◌,
}
use pebpeb_os.Pv.Interrupt.{pv_mask_interrupt, pv_unmask_interrupt, pv_switch_mode, efl_if}
use pebpeb_os.Pv.Hvcall.{
  resume, hvcall_exit, hvcall_iret, install, hvcall_setidt, hvcall_print, hvcall_set_color,
  hvcall_set_cursor, hvcall_get_cursor, hvcall_print_at, hvcall_refpd, find_pd, search_pd,
  hvcall_loadpd, pv_select_pd, release_pd, is_positive, not_eflags_pv_mask, add_ref, length_ok,
  not_if_resv1,
}
use pebpeb_os.Pv.Hvcall.Dispatch.{
  Op, magic_op, exit_op, iret_op, setidt_op, disable_op, enable_op, setpd_op, adjustpg_op, print_op,
  set_color_op, set_cursor_op, get_cursor_op, print_at_op, refpd_op, unrefpd_op, loadpd_op, op_of,
  run_op, sys_hvcall_real,
}
use pebpeb_os.Base.Bits.{◌&&&◌}
use mathlib.Core.Option.{some-injective}
use pebpeb_os.Pv.Hvcall.Quiet.{
  Kept, IsQuiet, IsQuiet->>=, check-IsQuiet, Kept-if, Kept-elim, read_bytes-IsQuiet,
  argument-IsQuiet, write_bytes-IsQuiet,
}

set_entry_irq : (s : Slot) (e : IdtEntry) (v : Vidt) → (set_entry s e v).pending_irq ≡ v.pending_irq
unfolding set_entry
set_entry_irq (fault_slot i) e v = refl
set_entry_irq (syscall_slot_1 i) e v = refl
set_entry_irq (syscall_slot_2 i) e v = refl

install-IsQuiet : (index : ℤ) (eip0 is_dpl0 : ℕ) → IsQuiet (install index eip0 is_dpl0)
unfolding install
install-IsQuiet index eip0 is_dpl0 g =
    Kept-elim (pv_classify_interrupt index) _ _ g tt (λ s. set_entry_irq s _ g.vidt)

setidt-IsQuiet : IsQuiet hvcall_setidt
unfolding hvcall_setidt
setidt-IsQuiet = IsQuiet->>= (argument 0) _ (argument-IsQuiet 0) (λ index.
    IsQuiet->>= (argument 1) _ (argument-IsQuiet 1) (λ eip0.
      IsQuiet->>= (argument 2) _ (argument-IsQuiet 2) (λ is_dpl0. install-IsQuiet _ eip0 is_dpl0)))

exit-IsQuiet : IsQuiet hvcall_exit
unfolding hvcall_exit
exit-IsQuiet = IsQuiet->>= (argument 0) _ (argument-IsQuiet 0) (λ status g. tt)

-- A change that keeps the marks.
abbrev Quiet : (Vm → Vm) → Type 0
Quiet f = (g : Vm) → (f g).vidt.pending_irq ≡ g.vidt.pending_irq

Quiet-if : (b : Bool) (f f' : Vm → Vm) → Quiet f → Quiet f' → Quiet (if b then f else f')
Quiet-if true f f' k k' = k
Quiet-if false f f' k k' = k'

either_irq :
    (b : Bool) (g h k : Vm)
    → h.vidt.pending_irq ≡ g.vidt.pending_irq
    → k.vidt.pending_irq ≡ g.vidt.pending_irq
    → (if b then h else k).vidt.pending_irq ≡ g.vidt.pending_irq
either_irq true g h k e e' = e
either_irq false g h k e e' = e'

resume-IsQuiet : (eip eflags esp esp0 eax : ℕ) → IsQuiet (resume eip eflags esp esp0 eax)
unfolding resume pv_switch_mode pv_mask_interrupt pv_unmask_interrupt
resume-IsQuiet eip eflags esp esp0 eax g =
    let kernel = eflags &&& not_eflags_pv_mask in
    let masked =
      Quiet-if ((kernel &&& efl_if) == 0) pv_mask_interrupt pv_unmask_interrupt (λ g. refl)
        (λ g. refl) (record g { frame = record (g.frame) { eip = eip } }) in
    elim (Bool-cases ((kernel &&& not_if_resv1) == 0)) [
      | inl fine ↦ rw (fine, ◌>>=◌, ◌>>◌) (either_irq (esp0 == 0) g _ _ masked masked)
      | inr bad ↦ rw (bad, ◌>>=◌, ◌>>◌) tt
    ]

iret-IsQuiet : IsQuiet hvcall_iret
unfolding hvcall_iret
iret-IsQuiet g =
    IsQuiet->>= (read_bytes g.frame.esp 20) _ (read_bytes-IsQuiet g.frame.esp 20)
      (λ regs. resume-IsQuiet _ _ _ _ _) g

print-IsQuiet : IsQuiet hvcall_print
unfolding hvcall_print
print-IsQuiet = IsQuiet->>= (argument 0) _ (argument-IsQuiet 0) (λ len.
    IsQuiet->>= (check _ _) _ (check-IsQuiet _ _)
      (λ a. IsQuiet->>= (argument 1) _ (argument-IsQuiet 1) (λ base g. check-IsQuiet _ _ _)))

set_color-IsQuiet : IsQuiet hvcall_set_color
unfolding hvcall_set_color
set_color-IsQuiet = IsQuiet->>= (argument 0) _ (argument-IsQuiet 0) (λ color g. check-IsQuiet _ _ _)

set_cursor-IsQuiet : IsQuiet hvcall_set_cursor
unfolding hvcall_set_cursor
set_cursor-IsQuiet =
    IsQuiet->>= (argument 0) _ (argument-IsQuiet 0)
      (λ row. IsQuiet->>= (argument 1) _ (argument-IsQuiet 1) (λ col g. check-IsQuiet _ _ _))

get_cursor-IsQuiet : IsQuiet hvcall_get_cursor
unfolding hvcall_get_cursor
get_cursor-IsQuiet = IsQuiet->>= (argument 0) _ (argument-IsQuiet 0) (λ prow.
    IsQuiet->>= (argument 1) _ (argument-IsQuiet 1) (λ pcol g.
      IsQuiet->>= (write_bytes prow _) _ (write_bytes-IsQuiet prow _)
        (λ row_done. IsQuiet->>= (check _ _) _ (check-IsQuiet row_done _) (λ a.
          IsQuiet->>= (write_bytes pcol _) _ (write_bytes-IsQuiet pcol _)
            (λ col_done. check-IsQuiet col_done _)))
        g))

print_at-IsQuiet : IsQuiet hvcall_print_at
unfolding hvcall_print_at
print_at-IsQuiet = IsQuiet->>= (argument 0) _ (argument-IsQuiet 0) (λ len.
    IsQuiet->>= (argument 1) _ (argument-IsQuiet 1) (λ base.
      IsQuiet->>= (argument 2) _ (argument-IsQuiet 2) (λ row.
        IsQuiet->>= (argument 3) _ (argument-IsQuiet 3) (λ col.
          IsQuiet->>= (argument 4) _ (argument-IsQuiet 4) (λ color.
            IsQuiet->>= (check (length_ok (to_int len)) bad_length) _ (check-IsQuiet _ _)
              (λ a g. check-IsQuiet _ bad_argument _))))))

refpd-IsQuiet : (ref : Bool) → IsQuiet (hvcall_refpd ref)
unfolding hvcall_refpd
refpd-IsQuiet true g = refl
refpd-IsQuiet false g =
    Kept-if
      (is_positive ((add_ref (negsuc 0) g.active_shadow_pd g).pds g.active_shadow_pd).refcount) g _
      _ refl tt

select_pd-Quiet : (a : ℕ) → Quiet (pv_select_pd a)
unfolding pv_select_pd release_pd
select_pd-Quiet a g = either_irq _ g _ _ refl refl

find_pd-IsQuiet : (pd : ℕ) (nodes : List ℕ) → IsQuiet (find_pd pd nodes)
unfolding find_pd
find_pd-IsQuiet pd [] g = tt
find_pd-IsQuiet pd (a ∷ nodes) g =
    Kept-if ((g.pds a).guest_pd == (pd + user_mem_start) % 2 ^ 32) g _ _ (select_pd-Quiet a g)
      (find_pd-IsQuiet pd nodes (record g { freed = a ∷ g.freed }))

search_pd-IsQuiet : (pd : ℕ) (nodes : List ℕ) → IsQuiet (search_pd pd nodes)
unfolding search_pd
search_pd-IsQuiet pd [] g = tt
search_pd-IsQuiet pd (a ∷ nodes) g = find_pd-IsQuiet pd (a ∷ nodes) g

loadpd-IsQuiet : IsQuiet hvcall_loadpd
unfolding hvcall_loadpd
loadpd-IsQuiet =
    IsQuiet->>= (argument 0) _ (argument-IsQuiet 0) (λ pd g. search_pd-IsQuiet pd g.shadow_pds g)

module _ (setpd adjustpg : M (Unit {0})) where
  run_op-IsQuiet : (op : Op) → op ≢ setpd_op → op ≢ adjustpg_op → IsQuiet (run_op setpd adjustpg op)
  unfolding run_op pv_mask_interrupt pv_unmask_interrupt
  run_op-IsQuiet magic_op ne ne' = λ g. refl
  run_op-IsQuiet exit_op ne ne' = exit-IsQuiet
  run_op-IsQuiet iret_op ne ne' = iret-IsQuiet
  run_op-IsQuiet setidt_op ne ne' = setidt-IsQuiet
  run_op-IsQuiet disable_op ne ne' = λ g. refl
  run_op-IsQuiet enable_op ne ne' = λ g. refl
  run_op-IsQuiet setpd_op ne ne' = absurd (ne refl)
  run_op-IsQuiet adjustpg_op ne ne' = absurd (ne' refl)
  run_op-IsQuiet print_op ne ne' = print-IsQuiet
  run_op-IsQuiet set_color_op ne ne' = set_color-IsQuiet
  run_op-IsQuiet set_cursor_op ne ne' = set_cursor-IsQuiet
  run_op-IsQuiet get_cursor_op ne ne' = get_cursor-IsQuiet
  run_op-IsQuiet print_at_op ne ne' = print_at-IsQuiet
  run_op-IsQuiet refpd_op ne ne' = refpd-IsQuiet true
  run_op-IsQuiet unrefpd_op ne ne' = refpd-IsQuiet false
  run_op-IsQuiet loadpd_op ne ne' = loadpd-IsQuiet

  -- A hypercall that returns, but for setpd and adjustpg, keeps the marks.
  pub sys_hvcall_real_irq :
      (g g' : Vm)
      → op_of g.frame.eax ≢ some setpd_op
      → op_of g.frame.eax ≢ some adjustpg_op
      → sys_hvcall_real setpd adjustpg (some g) ≡ some (ok tt g')
      → g'.vidt.pending_irq ≡ g.vidt.pending_irq
  unfolding sys_hvcall_real
  sys_hvcall_real_irq g g' ne ne' e =
      subst (Kept g) (some-injective _ _ e)
        (Kept-if (leb user_mem_start g.frame.eip) g _ _ refl (go (op_of g.frame.eax) ne ne'))
    where
      go :
          (o : Option Op)
          → o ≢ some setpd_op
          → o ≢ some adjustpg_op
          → Kept g (elim o as (λ k. Result (Unit {0})) [
            | none ↦ pv_die bad_hvcall g
            | some op ↦ run_op setpd adjustpg op g
          ])
      go none ne ne' = tt
      go (some op) ne ne' = run_op-IsQuiet op (λ z. ne (ap some z)) (λ z. ne' (ap some z)) g
