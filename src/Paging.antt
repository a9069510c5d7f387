-- ===== src/Paging.antt =====
-- kern/inc/paging.h: page table entries and the split of a virtual address. `pa_t`, `va_t`, `pte_t`
-- and `pde_t` are 32-bit words, kept as numbers; a field is masked and shifted as in the source.
pub mod Entry
use pebpeb_os.Base.{ℕ, ◌/◌, ◌%◌}
use pebpeb_os.Base.Bits.{◌|||◌, ◌&&&◌, ◌<<◌}

abbrev pub page_size : ℕ
page_size = 4096

-- PAGE_SIZE - 1, and its complement in 32 bits
abbrev pub page_offset_mask : ℕ
page_offset_mask = 0xfff

abbrev pub page_base_mask : ℕ
page_base_mask = 0xfffff000

abbrev pub num_page_entry : ℕ
num_page_entry = 1024

-- USER_MEM_START of spec/common_kern.h
abbrev pub user_mem_start : ℕ
user_mem_start = 0x01000000

abbrev pub pte_p_shift : ℕ
pte_p_shift = 0

abbrev pub pte_rw_shift : ℕ
pte_rw_shift = 1

abbrev pub pte_us_shift : ℕ
pte_us_shift = 2

abbrev pub pte_g_shift : ℕ
pte_g_shift = 8

-- BAD_PTE and BAD_PDE
abbrev pub bad_pte : ℕ
bad_pte = 0

unfoldable pub make_pte : (base g us rw p : ℕ) → ℕ
make_pte base g us rw p =
    (base &&& page_base_mask)
    ||| (g << pte_g_shift)
    ||| (us << pte_us_shift)
    ||| (rw << pte_rw_shift)
    ||| (p << pte_p_shift)

unfoldable pub make_pde : (base us rw p : ℕ) → ℕ
make_pde base us rw p =
    (base &&& page_base_mask)
    ||| (us << pte_us_shift)
    ||| (rw << pte_rw_shift)
    ||| (p << pte_p_shift)

unfoldable pub get_page_table : ℕ → ℕ
get_page_table pde = pde &&& page_base_mask

unfoldable pub get_page_base : ℕ → ℕ
get_page_base pte = pte &&& page_base_mask

unfoldable pub get_pd_index : ℕ → ℕ
get_pd_index va = va / page_size / num_page_entry

unfoldable pub get_pt_index : ℕ → ℕ
get_pt_index va = (va / page_size) % num_page_entry
