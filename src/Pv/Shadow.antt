-- ===== src/Pv/Shadow.antt =====
-- kern/hvcall.c: the shadow page tables of a guest, entry by entry and table by table, as
-- `translate_pv_pd` builds them and as `hvcall_adjustpg` mends one entry.
pub mod Word
pub mod Confine
pub mod Hide
mod Tests
use pebpeb_os.Base.{ℕ, ◌+◌, ◌*◌, ◌%◌, ◌^◌, List, map, ltb, ◌==◌, if◌then◌else◌, not, ◌||◌}
use pebpeb_os.Base.Bits.{◌|||◌, ◌&&&◌, ◌<<◌}
use pebpeb_os.Paging.{
  page_size, page_base_mask, pte_p_shift, pte_rw_shift, pte_us_shift, bad_pte, get_page_base,
}

-- What the translation reads of `pv_t`, of the machine, and the guest's CR0_WP.
pub record Guest : Type 0 where
  pub n_pages : ℕ
  pub mem_base : ℕ
  pub phys_frames : ℕ
  pub wp : ℕ

abbrev pub mem_limit : Guest → ℕ
mem_limit g = g.n_pages * page_size % 2 ^ 32

abbrev pub overflow_pa : Guest → ℕ
overflow_pa g = g.phys_frames * page_size % 2 ^ 32

-- PDE_RESV_MASK and PTE_RESV_MASK
abbrev pub pde_resv_mask : ℕ
pde_resv_mask = 0xf00

abbrev pub pte_resv_mask : ℕ
pte_resv_mask = 0xe00

-- The host page for a guest page.
unfoldable pub host_page : Guest → ℕ → ℕ
host_page g pa = if ltb (mem_limit g) pa then overflow_pa g else (g.mem_base + pa) % 2 ^ 32

-- `new_mask` and the non-zero `new_user_mask`
unfoldable pub kernel_mask : Guest → ℕ → ℕ
kernel_mask g old_rw =
    if g.wp == 0
    then (1 << pte_p_shift) ||| (1 << pte_rw_shift) ||| (1 << pte_us_shift)
    else (1 << pte_p_shift) ||| old_rw ||| (1 << pte_us_shift)

unfoldable pub user_mask : ℕ → ℕ
user_mask old_rw = (1 << pte_p_shift) ||| old_rw ||| (1 << pte_us_shift)

unfoldable pub shadow_word : (pa old_pte mask : ℕ) → ℕ
shadow_word pa old_pte mask = (pa &&& page_base_mask) ||| (old_pte &&& pte_resv_mask) ||| mask

-- The entries of the kernel's and of the user's shadow table.
pub record Entries : Type 0 where
  pub kernel : ℕ
  pub user : ℕ

-- The body that both loops share: `shown` is the test for `new_user_mask`.
shadow_entry : Guest → (shown : ℕ) → ℕ → Entries
shadow_entry g shown old_pte =
    let pa = host_page g (get_page_base old_pte) in
    let old_rw = old_pte &&& (1 << pte_rw_shift) in
    let new_user_mask = if shown == 0 then 0 else user_mask old_rw in
    if (old_pte &&& (1 << pte_p_shift)) == 0
    then record { kernel = bad_pte; user = bad_pte }
    else record {
      kernel = shadow_word pa old_pte (kernel_mask g old_rw);
      user = if new_user_mask == 0 then bad_pte else shadow_word pa old_pte new_user_mask;
    }

-- One round of the inner loop of `translate_pv_pd`: a page of a page table that the guest maps
-- for its user only counts if the guest's page directory entry says so too.
unfoldable pub translate_pte : Guest → (old_pde old_pte : ℕ) → Entries
unfolding shadow_entry
translate_pte g old_pde old_pte =
    shadow_entry g ((old_pte &&& (1 << pte_us_shift)) &&& (old_pde &&& (1 << pte_us_shift))) old_pte

-- The inner loop, over the guest's page table.
pub translate_pt : Guest → (old_pde : ℕ) → List ℕ → List Entries
translate_pt g old_pde pt = map (translate_pte g old_pde) pt

-- The entry that `hvcall_adjustpg` writes again.
unfoldable pub adjust_pte : Guest → ℕ → Entries
unfolding shadow_entry
adjust_pte g old_pte = shadow_entry g (old_pte &&& (1 << pte_us_shift)) old_pte

-- `new_pde`, of both.
unfoldable pub translate_pde : Guest → ℕ → ℕ
translate_pde g old_pde =
    let new_pde = (old_pde &&& pde_resv_mask) ||| (1 << pte_us_shift) ||| (1 << pte_p_shift) in
    if g.wp == 0
    then new_pde ||| (1 << pte_rw_shift)
    else new_pde ||| (old_pde &&& (1 << pte_rw_shift))
