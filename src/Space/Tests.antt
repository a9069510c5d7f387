-- ===== src/Space/Tests.antt =====
-- A process with one region, and its new_pages.
use pebpeb_os.Base.{
  ℕ, ◌+◌, ◌-◌, ◌*◌, ◌≡◌, ◌⊎◌, inl, refl, true, false, Bool, [], ◌∷◌, ◌++◌, Option, none, some, leb,
  ◌==◌, if◌then◌else◌, arith,
}
use pebpeb_os.Paging.{
  page_size, make_pde, get_page_base, get_page_table, get_pd_index, get_pt_index,
}
use pebpeb_os.Space.{
  Region, Space, add_region, find_or_create_pt, next_table, fill, fill_pages, sys_new_pages_real,
  sys_remove_pages_real, handle_zfod,
}
use pebpeb_os.Space.Overlap.{IsSpace, region_of}
use pebpeb_os.Space.Regions.{Fits, add_region_iff}
use pebpeb_os.Space.NewPages.{Outcome, sys_new_pages_real-Outcome}
use pebpeb_os.Space.Remove.{sys_new_pages_real-sys_remove_pages_real}
use pebpeb_os.Space.Stale.{sys_new_pages_real-stale}

-- An allocator that knows how many pages are left, and gives them from the last one on.
abbrev alloc : ℕ → ℕ → Option (ℕ × ℕ)
alloc n left = if leb n left then some (0x2000000 + (left - n) * page_size, left - n) else none

abbrev free : (pa n_pages : ℕ) → ℕ → ℕ
free pa n_pages left = left + n_pages

abbrev grows : ℕ → Bool
grows n = true

abbrev code : Region
code = record { addr = 0x1000000; size = 0x3000; paddr = 0x2800000; is_rw = 0 }

-- The last page before the page table for 0x2000000 is free, and that table does not exist.
abbrev process : Space ℕ
process = record {
  regions = code ∷ [];
  pd = λ i. if i == 7 then 0x2900007 else 0;
  pt = λ t i. 0;
  pages = 2;
}

process-IsSpace : IsSpace process.regions
process-IsSpace = ((omega arith, omega arith, omega arith, omega arith), tt, tt)

process-Fits : Fits grows 0x1fff000 2 0x2000000 1 process.regions
process-Fits = (omega arith, omega arith, omega arith, (inl (omega arith), tt), refl)

add_region_iff_example :
    ((add_region grows 0x1fff000 2 0x2000000 1 process.regions
        ≡ (true, process.regions ++ region_of 0x1fff000 2 0x2000000 1 ∷ []))
      × Fits grows 0x1fff000 2 0x2000000 1 process.regions)
    ⊎ ((add_region grows 0x1fff000 2 0x2000000 1 process.regions ≡ (false, process.regions))
        × ¬ Fits grows 0x1fff000 2 0x2000000 1 process.regions)
add_region_iff_example =
    add_region_iff grows 0x1fff000 2 0x2000000 1 process.regions process-IsSpace (omega arith)
      (omega arith)

-- A region that begins in the middle of another one is refused, the one behind it is not.
two_regions :
    ((add_region grows 0x1002000 1 0x2000000 1 process.regions).0 ≡ false)
    × ((add_region grows 0x1003000 1 0x2000000 1 process.regions).0 ≡ true)
unfolding add_region
two_regions = (refl, refl)

sys_new_pages_real-Outcome_example :
    Outcome alloc free grows 0x3000000 1 process
      (sys_new_pages_real alloc free grows (some 0x3000000) (some 0x1000) process)
sys_new_pages_real-Outcome_example =
    sys_new_pages_real-Outcome alloc free grows 0x3000000 0x1000 process process-IsSpace
      (omega arith) (omega arith)

sys_new_pages_real-stale_example :
    let (ok, s') = sys_new_pages_real alloc free grows (some 0x1fff000) (some 0x2000) process in
    (ok ≡ false)
    × (s'.regions ≡ code ∷ [])
    × (s'.pages ≡ 2)
    × ((handle_zfod 0x1fff000 s').0 ≡ true)
    × (get_page_base (
          (handle_zfod 0x1fff000 s').1.pt
            (get_page_table (process.pd (get_pd_index 0x1fff000)))
            (get_pt_index 0x1fff000))
        ≡ 0x2000000)
unfolding get_pd_index get_pt_index
sys_new_pages_real-stale_example =
    sys_new_pages_real-stale alloc free grows 0x1fff000 (0x2000000, 0) process process-IsSpace refl
      refl process-Fits (λ e. absurd (omega arith)) refl refl refl (omega arith)

taken : (sys_new_pages_real alloc free grows (some 0x3000000) (some 0x1000) process).0 ≡ true
unfolding sys_new_pages_real add_region fill_pages fill next_table find_or_create_pt make_pde
    get_pd_index get_pt_index
taken = refl

sys_new_pages_real-sys_remove_pages_real_example :
    let s1 = (sys_new_pages_real alloc free grows (some 0x3000000) (some 0x1000) process).1 in
    let (ok, s2) = sys_remove_pages_real alloc free 0x3000000 s1 in
    (ok ≡ true)
    × (s2.regions ≡ code ∷ [])
    × (a : ℕ × ℕ) × (alloc 1 2 ≡ some a)
    × (left : ℕ) × (s2.pages ≡ free a.0 1 left)
sys_new_pages_real-sys_remove_pages_real_example =
    sys_new_pages_real-sys_remove_pages_real alloc free grows 0x3000000 0x1000 process
      process-IsSpace (omega arith) (omega arith) taken
