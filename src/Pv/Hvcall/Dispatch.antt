-- ===== src/Pv/Hvcall/Dispatch.antt =====
-- kern/hvcall.c, spec/hvcall.h and spec/hvcall_int.h: which hypercall a guest asks for.
use pebpeb_os.Base.{ℕ, true, false, Option, none, some, ◌==◌, leb, if◌then◌else◌}
use pebpeb_os.Paging.{user_mem_start}
use pebpeb_os.Pv.Vm.{Vm, M, Result, ok, modify, pv_die, bad_hvcall}
use pebpeb_os.Pv.Interrupt.{pv_mask_interrupt, pv_unmask_interrupt}
use pebpeb_os.Pv.Hvcall.{
  hvcall_exit, hvcall_iret, hvcall_setidt, hvcall_print, hvcall_set_color, hvcall_set_cursor,
  hvcall_get_cursor, hvcall_print_at, hvcall_refpd, hvcall_loadpd,
}

-- The hypercalls: `magic_op` is HV_MAGIC_OP, and so on.
pub data Op : Type 0 where
  magic_op : Op
  exit_op : Op
  iret_op : Op
  setidt_op : Op
  disable_op : Op
  enable_op : Op
  setpd_op : Op
  adjustpg_op : Op
  print_op : Op
  set_color_op : Op
  set_cursor_op : Op
  get_cursor_op : Op
  print_at_op : Op
  refpd_op : Op
  unrefpd_op : Op
  loadpd_op : Op

-- The cases of the switch on `eax`; `none` is the default.
unfoldable pub op_of : (eax : ℕ) → Option Op
op_of eax =
    if eax == 0x00
    then some magic_op
    else if eax == 0x01
    then some exit_op
    else if eax == 0x02
    then some iret_op
    else if eax == 0x03
    then some setidt_op
    else if eax == 0x04
    then some disable_op
    else if eax == 0x05
    then some enable_op
    else if eax == 0x06
    then some setpd_op
    else if eax == 0x07
    then some adjustpg_op
    else if eax == 0x08
    then some print_op
    else if eax == 0x09
    then some set_color_op
    else if eax == 0x0a
    then some set_cursor_op
    else if eax == 0x0b
    then some get_cursor_op
    else if eax == 0x0c
    then some print_at_op
    else if eax == 0x20
    then some refpd_op
    else if eax == 0x21
    then some unrefpd_op
    else if eax == 0x22
    then some loadpd_op
    else none

abbrev pub hv_magic : ℕ
hv_magic = 0xc001c0de

-- hvcall_setpd and hvcall_adjustpg are not modelled as a whole and are arguments.
module _ (setpd adjustpg : M (Unit {0})) where
  unfoldable pub run_op : Op → M (Unit {0})
  run_op magic_op = modify (λ g. record g { frame = record (g.frame) { eax = hv_magic } })
  run_op exit_op = hvcall_exit
  run_op iret_op = hvcall_iret
  run_op setidt_op = hvcall_setidt
  run_op disable_op = modify pv_mask_interrupt
  run_op enable_op = modify pv_unmask_interrupt
  run_op setpd_op = setpd
  run_op adjustpg_op = adjustpg
  run_op print_op = hvcall_print
  run_op set_color_op = hvcall_set_color
  run_op set_cursor_op = hvcall_set_cursor
  run_op get_cursor_op = hvcall_get_cursor
  run_op print_at_op = hvcall_print_at
  run_op refpd_op = hvcall_refpd true
  run_op unrefpd_op = hvcall_refpd false
  run_op loadpd_op = hvcall_loadpd

  -- `none` is a process that is no guest: nothing is done, as for a guest's user.
  unfoldable pub sys_hvcall_real : Option Vm → Option (Result (Unit {0}))
  sys_hvcall_real none = none
  sys_hvcall_real (some g) =
      let called : Result (Unit {0}) = elim (op_of g.frame.eax) [
        | none ↦ pv_die bad_hvcall g
        | some op ↦ run_op op g
      ] in
      some (if leb user_mem_start g.frame.eip then ok tt g else called)
