-- ===== src/Pv/Hvcall.antt =====
-- kern/hvcall.c and kern/pv.c: the hypercalls that work on the guest's state and console, and the
-- choice of the shadow page tables. A lock on the console is left out.
pub mod Resume
pub mod Table
pub mod Load
pub mod Counts
pub mod Dispatch
pub mod Quiet
use pebpeb_os.Base.{
  ℕ, ◌+◌, ◌*◌, ◌%◌, ◌^◌, ◌-◌, Bool, true, false, not, List, [], ◌∷◌, get_or, ◌++◌, leb, ltb, ◌==◌,
  if◌then◌else◌, some, none,
}
use pebpeb_os.Base.Bits.{◌|||◌, ◌&&&◌}
use pebpeb_os.Base.Int.{ℤ, pos, negsuc, ◌+ℤ◌, ◌-ℤ◌}
use pebpeb_os.Base.Members.{remove}
use pebpeb_os.Paging.{user_mem_start}
use pebpeb_os.Console.{
  Display, print_buf_from_user, pts_set_term_color, pts_set_cursor, pts_get_cursor, pts_print_at,
}
use pebpeb_os.Pv.Vidt.{vidt_dpl_0, vidt_dpl_3, pv_classify_interrupt, entry_at, set_entry, write}
use pebpeb_os.Pv.Vm.{
  PvPd, Vm, M, Result, ok, stop, exited, wild, pv_die, check, modify, gets, memory, to_int, word_of,
  bytes_of, read_bytes, read_word, argument, write_bytes, bad_address, bad_eflags, bad_idt_index,
  bad_length, print_failed, bad_argument, color_failed, cursor_failed, pd_destroyed, no_such_pd,
  ◌>>=◌, ◌>>◌,
}
use pebpeb_os.Pv.Interrupt.{efl_if, pv_mask_interrupt, pv_unmask_interrupt, pv_switch_mode}

unfoldable pub hvcall_exit : M (Unit {0})
hvcall_exit = do
  status ← argument 0
  modify (λ g. record g { exit_value = to_int status })
  stop exited

-- EFL_CF | EFL_PF | EFL_AF | EFL_ZF | EFL_SF | EFL_TF | EFL_DF | EFL_OF | EFL_RF, its complement,
-- EFL_IF | EFL_IOPL_RING0 | EFL_RESV1, and the complement of EFL_IF | EFL_RESV1
abbrev pub eflags_pv_mask : ℕ
eflags_pv_mask = 0x10dd5

abbrev pub not_eflags_pv_mask : ℕ
not_eflags_pv_mask = 0xfffef22a

abbrev pub default_eflags : ℕ
default_eflags = 0x202

abbrev pub not_if_resv1 : ℕ
not_if_resv1 = 0xfffffdfd

-- The k-th word of a buffer.
abbrev pub word_at : (k : ℕ) → List ℕ → ℕ
word_at k buf = word_of (
    get_or buf (4 * k) 0
    ∷ get_or buf (4 * k + 1) 0
    ∷ get_or buf (4 * k + 2) 0
    ∷ get_or buf (4 * k + 3) 0
    ∷ [])

-- hvcall_iret after its argument has been read.
unfoldable pub resume : (eip eflags esp esp0 eax : ℕ) → M (Unit {0})
resume eip eflags esp esp0 eax =
    let eflags_user = eflags &&& eflags_pv_mask in
    let eflags_kernel = eflags &&& not_eflags_pv_mask in
    let to_user =
      λ (g : Vm). if esp0 == 0 then g else pv_switch_mode false (record g { vesp0 = esp0 }) in
    do
      modify (λ g. record g { frame = record (g.frame) { eip = eip } })
      check ((eflags_kernel &&& not_if_resv1) == 0) bad_eflags
      modify (if (eflags_kernel &&& efl_if) == 0 then pv_mask_interrupt else pv_unmask_interrupt)
      modify (λ g. record g {
        frame = record (g.frame) { eflags = eflags_user ||| default_eflags; esp = esp };
      })
      modify to_user
      modify (λ g. record g { frame = record (g.frame) { eax = eax } })

unfoldable pub hvcall_iret : M (Unit {0})
hvcall_iret g =
    let run : M (Unit {0}) = (do
      regs ← read_bytes g.frame.esp 20
      resume (word_at 0 regs) (word_at 1 regs) (word_at 2 regs) (word_at 3 regs)
          (word_at 4 regs)) in
    run g

-- ~VIDT_DPL_MASK
abbrev pub not_dpl_mask : ℕ
not_dpl_mask = 0xfffffffc

-- `none` is NULL.
unfoldable pub install : (index : ℤ) → (eip0 is_dpl0 : ℕ) → M (Unit {0})
install index eip0 is_dpl0 g = elim (pv_classify_interrupt index) [
  | none ↦ pv_die bad_idt_index g
  | some s ↦
      let dpl = if is_dpl0 == 0 then vidt_dpl_3 else vidt_dpl_0 in
      let desc = ((entry_at s g.vidt).desc &&& not_dpl_mask) ||| dpl in
      ok tt (record g { vidt = set_entry s (record { eip = eip0; desc = desc }) g.vidt })
]

unfoldable pub hvcall_setidt : M (Unit {0})
hvcall_setidt = do
  index ← argument 0
  eip0 ← argument 1
  is_dpl0 ← argument 2
  install (to_int index) eip0 is_dpl0

abbrev pub on_display : (Display → Bool × Display) → M Bool
on_display f g = let (done, d) = f g.display in ok done (record g { display = d })

abbrev pub hv_print_max : ℕ
hv_print_max = 410

abbrev pub length_ok : ℤ → Bool
length_ok (pos len) = leb len hv_print_max
length_ok (negsuc n) = false

abbrev pub to_len : ℤ → ℕ
to_len (pos len) = len
to_len (negsuc n) = 0

unfoldable pub hvcall_print : M (Unit {0})
hvcall_print = do
  len ← argument 0
  check (length_ok (to_int len)) bad_length
  base ← argument 1
  m ← gets memory
  done ← on_display (print_buf_from_user m base (to_len (to_int len)))
  check done print_failed

unfoldable pub hvcall_set_color : M (Unit {0})
hvcall_set_color = do
  color ← argument 0
  done ← on_display (pts_set_term_color (to_int color))
  check done color_failed

unfoldable pub hvcall_set_cursor : M (Unit {0})
hvcall_set_cursor = do
  row ← argument 0
  col ← argument 1
  done ← on_display (pts_set_cursor (to_int row) (to_int col))
  check done cursor_failed

-- The word of an `int`.
abbrev pub of_int : ℤ → ℕ
of_int (pos n) = n % 2 ^ 32
of_int (negsuc n) = 2 ^ 32 - 1 - n

unfoldable pub hvcall_get_cursor : M (Unit {0})
hvcall_get_cursor = do
  prow ← argument 0
  pcol ← argument 1
  (row, col) ← gets (λ g. pts_get_cursor g.display)
  row_done ← write_bytes prow (bytes_of 4 (of_int row))
  check row_done bad_address
  col_done ← write_bytes pcol (bytes_of 4 (of_int col))
  check col_done bad_address

unfoldable pub hvcall_print_at : M (Unit {0})
hvcall_print_at = do
  len ← argument 0
  base ← argument 1
  row ← argument 2
  col ← argument 3
  color ← argument 4
  check (length_ok (to_int len)) bad_length
  m ← gets memory
  done ←
      on_display
        (pts_print_at m (to_len (to_int len)) base (to_int row) (to_int col) (to_int color))
  check done bad_argument

abbrev pub add_ref : ℤ → (a : ℕ) → Vm → Vm
add_ref n a g = record g {
  pds = write g.pds a (record (g.pds a) { refcount = (g.pds a).refcount +ℤ n });
}

abbrev pub is_zero : ℤ → Bool
is_zero (pos n) = n == 0
is_zero (negsuc n) = false

-- `destroy_pd` of both page directories and `sfree` of the `pv_pd_t`.
unfoldable pub release_pd : (a : ℕ) → Vm → Vm
release_pd a g =
    let pd = g.pds a in
    let dead = if pd.user_cr3 == pd.cr3 then pd.cr3 ∷ [] else pd.user_cr3 ∷ pd.cr3 ∷ [] in
    record g {
      shadow_pds = remove a g.shadow_pds;
      destroyed = dead ++ g.destroyed;
      freed = a ∷ g.freed;
    }

unfoldable pub pv_select_pd : (a : ℕ) → Vm → Vm
pv_select_pd a g =
    let old = g.active_shadow_pd in
    let g1 = add_ref (pos 1) a (record g { active_shadow_pd = a }) in
    let g2 = record g1 { cr3 = (g1.pds a).cr3 } in
    let g3 = add_ref (negsuc 0) old g2 in
    if is_zero (g3.pds old).refcount then release_pd old g3 else g3

abbrev pub is_positive : ℤ → Bool
is_positive (pos n) = ltb 0 n
is_positive (negsuc n) = false

unfoldable pub hvcall_refpd : (ref : Bool) → M (Unit {0})
hvcall_refpd true g = ok tt (add_ref (pos 1) g.active_shadow_pd g)
hvcall_refpd false g =
    let a = g.active_shadow_pd in
    let g' = add_ref (negsuc 0) a g in
    if is_positive (g'.pds a).refcount then ok tt g' else pv_die pd_destroyed g'

-- The loop over the queue: a `pv_pd_t` that is passed over is given to `sfree`.
unfoldable pub find_pd : (pd : ℕ) → (nodes : List ℕ) → M (Unit {0})
find_pd pd [] g = pv_die no_such_pd g
find_pd pd (a ∷ nodes) g =
    let rest = find_pd pd nodes (record g { freed = a ∷ g.freed }) in
    if (g.pds a).guest_pd == (pd + user_mem_start) % 2 ^ 32 then ok tt (pv_select_pd a g) else rest

-- The loop reads the first node before it tests for the end: an empty queue is NULL.
unfoldable pub search_pd : (pd : ℕ) → (nodes : List ℕ) → M (Unit {0})
search_pd pd [] g = stop wild g
search_pd pd (a ∷ nodes) g = find_pd pd (a ∷ nodes) g

unfoldable pub hvcall_loadpd : M (Unit {0})
hvcall_loadpd = do pd ← argument 0; nodes ← gets (λ g. g.shadow_pds); search_pd pd nodes
