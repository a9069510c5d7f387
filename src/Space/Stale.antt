-- ===== src/Space/Stale.antt =====
-- kern/syscall_memory.c: the page table entries after a new_pages that fails for a page table.
use pebpeb_os.Base.{
  ℕ, suc, ◌+◌, ◌-◌, ◌*◌, ◌/◌, ◌%◌, ◌^◌, ◌<◌, ◌≡◌, ◌≢◌, inl, inr, refl, ◌∙◌, ap, Bool, true, false,
  Bool-cases, [], ◌∷◌, ◌++◌, Option, none, some, ◌==◌, arith,
}
use pebpeb_os.Base.Bits.{◌&&&◌}
use pebpeb_os.Paging.{
  page_size, page_offset_mask, bad_pte, make_pte, get_page_base, get_page_table, get_pd_index,
  get_pt_index,
}
use pebpeb_os.Space.{
  Region, Space, add_region, find_or_create_pt, next_table, write_entry, fill, fill_pages,
  sys_new_pages_real, handle_zfod,
}
use pebpeb_os.Space.Fault.{write_entry-at, handle_zfod-page}
use pebpeb_os.Space.NewPages.{drop_last-snoc}
use pebpeb_os.Space.Overlap.{IsSpace, region_of}
use pebpeb_os.Space.Regions.{Fits, add_region_iff}

-- Before a page table begins, its predecessor ends.
inside : (base : ℕ) → get_pt_index (base + page_size) ≡ 0 → get_pt_index base ≢ 0
unfolding get_pt_index
inside base h e = omega arith

module _ {A : Type 0} (alloc : ℕ → A → Option (ℕ × A)) where
  -- A page table that exists is found, and one that does not needs a page.
  find_or_create_pt_found :
      (vaddr : ℕ) (s : Space A)
      → s.pd (get_pd_index vaddr) ≢ bad_pte
      → find_or_create_pt alloc vaddr s ≡ some (get_page_table (s.pd (get_pd_index vaddr)), s)
  unfolding find_or_create_pt
  find_or_create_pt_found vaddr s ne = elim (Bool-cases (s.pd (get_pd_index vaddr) == bad_pte)) [
    | inl e ↦ absurd (ne (ground arith))
    | inr e ↦ rw e refl
  ]

  next_table_found :
      (vaddr pt_pa : ℕ) (s : Space A)
      → get_pt_index vaddr ≢ 0
      → next_table alloc vaddr pt_pa s ≡ some (pt_pa, s)
  unfolding next_table
  next_table_found vaddr pt_pa s ne = elim (Bool-cases (get_pt_index vaddr == 0)) [
    | inl e ↦ absurd (ne (ground arith))
    | inr e ↦ rw e refl
  ]

  next_table_missing :
      (vaddr pt_pa : ℕ) (s : Space A)
      → get_pt_index vaddr ≡ 0
      → s.pd (get_pd_index vaddr) ≡ bad_pte
      → alloc 1 s.pages ≡ none
      → next_table alloc vaddr pt_pa s ≡ none
  unfolding next_table find_or_create_pt
  next_table_missing vaddr pt_pa s at_start bad full = rw (at_start, bad, full) refl

  -- One round of the loop.
  fill-some :
      (rounds base paddr i pt_pa vaddr : ℕ) (t : ℕ × Space A) (s : Space A)
      → (base + i * page_size) % 2 ^ 32 ≡ vaddr
      → next_table alloc vaddr pt_pa s ≡ some t
      → fill alloc (suc rounds) base paddr i pt_pa s
        ≡ fill alloc rounds base paddr
            (i + 1)
            t.0
            (write_entry t.0 (get_pt_index vaddr) (make_pte (paddr + i * page_size) 0 1 1 0) t.1)
  unfolding fill
  fill-some rounds base paddr i pt_pa vaddr t s e found =
      let found' : next_table alloc ((base + i * page_size) % 2 ^ 32) pt_pa s ≡ some t =
        rw e found in
      rw⁻¹ e (rw (fill, found') refl)

  fill-none :
      (rounds base paddr i pt_pa vaddr : ℕ) (s : Space A)
      → (base + i * page_size) % 2 ^ 32 ≡ vaddr
      → next_table alloc vaddr pt_pa s ≡ none
      → fill alloc (suc rounds) base paddr i pt_pa s ≡ (false, s)
  unfolding fill
  fill-none rounds base paddr i pt_pa vaddr s e missing = rw (fill, e, missing) refl

  fill_pages-some :
      (base n paddr : ℕ) (t : ℕ × Space A) (s : Space A)
      → find_or_create_pt alloc base s ≡ some t
      → fill_pages alloc base n paddr s ≡ fill alloc (suc (n - 1)) base paddr 0 t.0 t.1
  unfolding fill_pages
  fill_pages-some base n paddr t s found = rw (fill_pages, found) refl

  -- The loop over two pages, the second in another page table, that ends for want of a page.
  fill_pages-stale :
      (base paddr : ℕ) (s : Space A)
      → base + page_size < 2 ^ 32
      → s.pd (get_pd_index base) ≢ bad_pte
      → get_pt_index (base + page_size) ≡ 0
      → s.pd (get_pd_index (base + page_size)) ≡ bad_pte
      → alloc 1 s.pages ≡ none
      → fill_pages alloc base 2 paddr s ≡ (
        false,
        write_entry
            (get_page_table (s.pd (get_pd_index base)))
            (get_pt_index base)
            (make_pte paddr 0 1 1 0)
            s,
      )
  fill_pages-stale base paddr s small there boundary bad full =
      let t = get_page_table (s.pd (get_pd_index base)) in
      let s1 : Space A =
        write_entry t (get_pt_index base) (make_pte (paddr + 0 * page_size) 0 1 1 0) s in
      fill_pages-some base 2 paddr (t, s) s (find_or_create_pt_found base s there)
      ∙ fill-some 1 base paddr 0 t base (t, s) s (omega arith)
          (next_table_found base t s (inside base boundary))
      ∙ fill-none 0 base paddr 1 t (base + page_size) s1 (omega arith)
          (next_table_missing (base + page_size) t s1 boundary bad full)
      ∙ ap (λ (p : ℕ). (false, write_entry t (get_pt_index base) (make_pte p 0 1 1 0) s))
          (omega arith)

-- What the new_pages below leaves.
abbrev left_behind :
    {A : Type 0} (free : (pa n_pages : ℕ) → A → A) (base : ℕ) (a : ℕ × A) → Space A → Space A
left_behind free base a s =
    let t = get_page_table (s.pd (get_pd_index base)) in
    record (write_entry t (get_pt_index base) (make_pte a.0 0 1 1 0) s) { pages = free a.0 2 a.1 }

new_pages-fails :
    {A : Type 0} (alloc : ℕ → A → Option (ℕ × A)) (free : (pa n_pages : ℕ) → A → A)
    (grows : ℕ → Bool) (base : ℕ) (a : ℕ × A) (s : Space A)
    → IsSpace s.regions
    → (base &&& page_offset_mask) ≡ 0
    → alloc 2 s.pages ≡ some a
    → Fits grows base 2 a.0 1 s.regions
    → s.pd (get_pd_index base) ≢ bad_pte
    → get_pt_index (base + page_size) ≡ 0
    → s.pd (get_pd_index (base + page_size)) ≡ bad_pte
    → alloc 1 a.1 ≡ none
    → sys_new_pages_real alloc free grows (some base) (some (2 * page_size)) s
      ≡ (false, left_behind free base a s)
unfolding sys_new_pages_real
new_pages-fails {A} alloc free grows base a s h aligned got fits there boundary bad full =
    rw (sys_new_pages_real, aligned, got, added, filled)
      (ap (λ l. (false, record (left_behind free base a s) { regions = l }))
        (drop_last-snoc s.regions r))
  where
    one_page : base + page_size < 2 ^ 32
    one_page = let two : base + 2 * page_size < 2 ^ 32 = fits.2 in omega arith

    r : Region
    r = region_of base 2 a.0 1

    start : Space A
    start = record s { regions = s.regions ++ r ∷ []; pages = a.1 }

    added : add_region grows base 2 a.0 1 s.regions ≡ (true, s.regions ++ r ∷ [])
    added = elim (add_region_iff grows base 2 a.0 1 s.regions h (omega arith) (omega arith)) [
      | inl x ↦ x.0
      | inr x ↦ absurd (x.1 fits)
    ]

    filled : fill_pages alloc base 2 a.0 start ≡ (
      false,
      write_entry
          (get_page_table (s.pd (get_pd_index base)))
          (get_pt_index base)
          (make_pte a.0 0 1 1 0)
          start,
    )
    filled = fill_pages-stale alloc base a.0 start one_page there boundary bad full

-- For a process whose regions are apart: a new_pages of two pages that fit, the second of which is
-- in a page table that does not exist and for which no page is left, fails and gives back the two
-- pages; but the next fault at the first page succeeds and maps the page that was given back.
pub sys_new_pages_real-stale :
    {A : Type 0} (alloc : ℕ → A → Option (ℕ × A)) (free : (pa n_pages : ℕ) → A → A)
    (grows : ℕ → Bool) (base : ℕ) (a : ℕ × A) (s : Space A)
    → IsSpace s.regions
    → (base &&& page_offset_mask) ≡ 0
    → alloc 2 s.pages ≡ some a
    → Fits grows base 2 a.0 1 s.regions
    → s.pd (get_pd_index base) ≢ bad_pte
    → get_pt_index (base + page_size) ≡ 0
    → s.pd (get_pd_index (base + page_size)) ≡ bad_pte
    → alloc 1 a.1 ≡ none
    → a.0 < 2 ^ 32
    → (let (ok, s') = sys_new_pages_real alloc free grows (some base) (some (2 * page_size)) s in
        (ok ≡ false)
        × (s'.regions ≡ s.regions)
        × (s'.pages ≡ free a.0 2 a.1)
        × ((handle_zfod base s').0 ≡ true)
        × (get_page_base (
              (handle_zfod base s').1.pt
                (get_page_table (s.pd (get_pd_index base)))
                (get_pt_index base))
            ≡ a.0 / 4096 * 4096))
sys_new_pages_real-stale {A} alloc free grows base a s h aligned got fits there boundary bad full
      small =
    let t = get_page_table (s.pd (get_pd_index base)) in
    let fails =
      new_pages-fails alloc free grows base a s h aligned got fits there boundary bad full in
    let (mapped, page) =
      handle_zfod-page base a.0 (left_behind free base a s) there
        (write_entry-at t (get_pt_index base) (make_pte a.0 0 1 1 0) s) small in
    rw fails (refl, refl, refl, mapped, page)
