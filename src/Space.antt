-- ===== src/Space.antt =====
-- kern/sched.c (find_or_create_pt, add_region), kern/syscall_memory.c (new_pages, remove_pages) and
-- kern/interrupt.c (handle_zfod): the regions of a
-- process and its page tables. The allocator of pages is a parameter with its state: `alloc` of a
-- number of pages, `none` when there are not so many in a row, and `free`. Whether the vector of
-- regions can grow at a number of regions is `grows`.
pub mod Overlap
pub mod Regions
pub mod NewPages
pub mod Stale
pub mod Remove
pub mod Fault
mod Tests
use pebpeb_os.Base.{
  ℕ, zero, suc, ◌+◌, ◌-◌, ◌*◌, ◌/◌, ◌%◌, ◌^◌, Bool, true, false, not, ◌||◌, ◌&&◌, List, [], ◌∷◌,
  ◌++◌, length, Option, none, some, ◌==◌, ltb, leb, if◌then◌else◌,
}
use pebpeb_os.Base.Bits.{◌&&&◌, ◌|||◌, ◌<<◌}
use pebpeb_os.Paging.{
  page_size, page_offset_mask, user_mem_start, bad_pte, pte_p_shift, make_pte, make_pde,
  get_page_table, get_pd_index, get_pt_index,
}

-- `region_t`, with the size in bytes
pub record Region : Type 0 where
  pub addr : ℕ
  pub size : ℕ
  pub paddr : ℕ
  pub is_rw : ℕ

abbrev pub default_stack_end : ℕ
default_stack_end = 0xffffe000

-- The process, with the pages that the kernel has left: `pd` is its page directory, `pt` the entries
-- of the page table at a physical address.
pub record Space (A : Type 0) : Type 0 where
  pub regions : List Region
  pub pd : ℕ → ℕ
  pub pt : ℕ → ℕ → ℕ
  pub pages : A

-- The four tests of add_region.
abbrev pub overlaps : (start stop : ℕ) → Region → Bool
overlaps start stop r =
    let this_end = (r.addr + r.size) % 2 ^ 32 in
    (leb r.addr start && ltb start this_end)
    || (ltb r.addr stop && leb stop this_end)
    || (leb start r.addr && ltb r.addr stop)
    || (ltb start this_end && leb this_end stop)

abbrev pub any_overlaps : (start stop : ℕ) → List Region → Bool
any_overlaps start stop [] = false
any_overlaps start stop (r ∷ rs) = overlaps start stop r || any_overlaps start stop rs

-- The result is 0 or -1, here true or false.
unfoldable pub add_region :
    (grows : ℕ → Bool) (start n_pages pa is_rw : ℕ) → List Region → Bool × List Region
add_region grows start n_pages pa is_rw rs =
    let stop = (start + n_pages * page_size) % 2 ^ 32 in
    let newr : Region = record {
      addr = start;
      size = n_pages * page_size;
      paddr = pa;
      is_rw = is_rw;
    } in
    if ltb default_stack_end start || ltb start user_mem_start
    then (false, rs)
    else if ltb stop start
    then (false, rs)
    else if any_overlaps start stop rs
    then (false, rs)
    else if grows (length rs)
    then (true, rs ++ newr ∷ [])
    else (false, rs)

-- `vector_pop`
abbrev pub drop_last : List Region → List Region
drop_last [] = []
drop_last (r ∷ rs) = elim rs [ [] ↦ [] | _ ∷ _ ↦ r ∷ drop_last rs ]

-- The first region that starts at `base`, between those before and behind it.
abbrev pub find_region : (base : ℕ) → List Region → Option (List Region × Region × List Region)
find_region base [] = none
find_region base (r ∷ rs) =
    let rest = find_region base rs in
    if base == r.addr
    then some ([], r, rs)
    else elim rest [ none ↦ none | some f ↦ some (r ∷ f.0, f.1, f.2) ]

-- `vector_remove` of the element between the two parts
abbrev pub take_out : (before behind : List Region) → List Region
take_out before behind = before ++ behind

abbrev pub write_entry : {A : Type 0} (pt_pa i pte : ℕ) → Space A → Space A
write_entry pt_pa i pte s = record s {
  pt = (λ t. if t == pt_pa then (λ j. if j == i then pte else s.pt t j) else s.pt t);
}

-- handle_zfod: whether the fault at `cr2` is the first use of a page, which is then mapped. It also
-- fills the page with zeros.
unfoldable pub handle_zfod : {A : Type 0} (cr2 : ℕ) → Space A → Bool × Space A
handle_zfod cr2 s =
    let pde = s.pd (get_pd_index cr2) in
    let pt_pa = get_page_table pde in
    let pte = s.pt pt_pa (get_pt_index cr2) in
    if pde == bad_pte
    then (false, s)
    else if not (pte == bad_pte) && ((pte &&& (1 << pte_p_shift)) == 0)
    then (true, write_entry pt_pa (get_pt_index cr2) (pte ||| (1 << pte_p_shift)) s)
    else (false, s)

module _ {A : Type 0} (alloc : ℕ → A → Option (ℕ × A)) where
  -- The physical address of the table, `none` for BAD_PA.
  unfoldable pub find_or_create_pt : (vaddr : ℕ) → Space A → Option (ℕ × Space A)
  find_or_create_pt vaddr s =
      let i = get_pd_index vaddr in
      if s.pd i == bad_pte
      then elim (alloc 1 s.pages) [
        | none ↦ none
        | some a ↦ some (
          a.0,
          record s {
            pd = (λ j. if j == i then make_pde a.0 1 1 1 else s.pd j);
            pt = (λ t. if t == a.0 then (λ j. 0) else s.pt t);
            pages = a.1;
          },
        )
      ]
      else some (get_page_table (s.pd i), s)

  -- The page table for the page at `vaddr`: a new one where a page table begins.
  unfoldable pub next_table : (vaddr pt_pa : ℕ) → Space A → Option (ℕ × Space A)
  next_table vaddr pt_pa s =
      if get_pt_index vaddr == 0 then find_or_create_pt vaddr s else some (pt_pa, s)

  -- The loop over the pages, from page `i` on: whether it ends, and the state.
  unfoldable pub fill : (rounds base paddr i pt_pa : ℕ) → Space A → Bool × Space A
  fill zero base paddr i pt_pa s = (true, s)
  fill (suc rounds) base paddr i pt_pa s =
      let offset = i * page_size in
      let vaddr = (base + offset) % 2 ^ 32 in
      elim (next_table vaddr pt_pa s) [
        | none ↦ (false, s)
        | some t ↦
            fill rounds base paddr (i + 1) t.0
              (write_entry t.0 (get_pt_index vaddr) (make_pte (paddr + offset) 0 1 1 0) t.1)
      ]

  -- From the first page table on; the body of the loop runs at least once.
  unfoldable pub fill_pages : (base n_pages paddr : ℕ) → Space A → Bool × Space A
  fill_pages base n_pages paddr s = elim (find_or_create_pt base s) [
    | none ↦ (false, s)
    | some t ↦ fill (suc (n_pages - 1)) base paddr 0 t.0 t.1
  ]

module _ {A : Type 0} (alloc : ℕ → A → Option (ℕ × A)) (free : (pa n_pages : ℕ) → A → A) where
  -- sys_new_pages_real: `base` and `len` are what copy_from_user reads, `none` if it fails. A `len` is
  -- an int that is not negative.
  unfoldable pub sys_new_pages_real :
      (grows : ℕ → Bool) (base len : Option ℕ) → Space A → Bool × Space A
  sys_new_pages_real grows none len s = (false, s)
  sys_new_pages_real grows (some base) none s = (false, s)
  sys_new_pages_real grows (some base) (some len) s =
      if not ((base &&& page_offset_mask) == 0) || not ((len &&& page_offset_mask) == 0)
      then (false, s)
      else let n_pages = len / page_size in
        elim (alloc n_pages s.pages) [
          | none ↦ (false, s)
          | some a ↦
              let (added, rs) = add_region grows base n_pages a.0 1 s.regions in
              let (filled, s') =
                fill_pages alloc base n_pages a.0 (record s { regions = rs; pages = a.1 }) in
              if added
              then if filled then (true, s') else (
                false,
                record s' { regions = drop_last s'.regions; pages = free a.0 n_pages s'.pages },
              )
              else (false, record s { pages = free a.0 n_pages a.1 })
        ]

  -- The loop of remove_pages from page `j` on. It does not look whether a page table was found, so
  -- that it goes on with the address 0.
  unfoldable pub clear : (rounds base j pt_pa : ℕ) → Space A → Space A
  clear zero base j pt_pa s = s
  clear (suc rounds) base j pt_pa s =
      let vaddr = (base + j * page_size) % 2 ^ 32 in
      elim (next_table alloc vaddr pt_pa s) [
        | none ↦ clear rounds base (j + 1) 0 (write_entry 0 (get_pt_index vaddr) bad_pte s)
        | some t ↦ clear rounds base (j + 1) t.0 (write_entry t.0 (get_pt_index vaddr) bad_pte t.1)
      ]

  unfoldable pub clear_pages : (base n_pages : ℕ) → Space A → Space A
  clear_pages base n_pages s = elim (find_or_create_pt alloc base s) [
    | none ↦ clear (suc (n_pages - 1)) base 0 0 s
    | some t ↦ clear (suc (n_pages - 1)) base 0 t.0 t.1
  ]

  unfoldable pub sys_remove_pages_real : (base : ℕ) → Space A → Bool × Space A
  sys_remove_pages_real base s = elim (find_region base s.regions) [
    | none ↦ (false, s)
    | some f ↦
        (let n_pages = f.1.size / page_size in
          let s' = clear_pages base n_pages s in
          (true, record s' { regions = take_out f.0 f.2; pages = free f.1.paddr n_pages s'.pages }))
  ]
