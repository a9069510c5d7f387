-- ===== src/Space/NewPages.antt =====
-- kern/syscall_memory.c: what new_pages does to the regions, the page tables and the free pages.
use pebpeb_os.Base.{
  ℕ, zero, suc, ◌+◌, ◌-◌, ◌*◌, ◌/◌, ◌%◌, ◌^◌, ◌≤◌, ◌<◌, ◌≡◌, ◌⊎◌, inl, inr, refl, ◌∙◌, ap, Bool,
  true, false, not, ◌||◌, Bool-cases, Option-cases, List, [], ◌∷◌, ◌++◌, Option, none, some, ◌==◌,
  arith,
}
use pebpeb_os.Base.Bits.{◌&&&◌}
use pebpeb_os.Paging.{page_size, page_offset_mask, bad_pte, get_pd_index, get_pt_index}
use pebpeb_os.Space.{
  Region, Space, drop_last, find_or_create_pt, next_table, fill, fill_pages, sys_new_pages_real,
}
use pebpeb_os.Space.Overlap.{IsSpace, region_of}
use pebpeb_os.Space.Regions.{Fits, add_region_iff}

pub drop_last-snoc : (rs : List Region) (r : Region) → drop_last (rs ++ r ∷ []) ≡ rs
drop_last-snoc [] r = refl
drop_last-snoc (x ∷ []) r = refl
drop_last-snoc (x ∷ y ∷ rs) r = ap (λ l. x ∷ l) (drop_last-snoc (y ∷ rs) r)

-- Page tables do not touch the regions.
abbrev RegionsKept : {A : Type 0} → Space A → Option (ℕ × Space A) → Type 0
RegionsKept s none = Unit
RegionsKept s (some t) = t.1.regions ≡ s.regions

module _ {A : Type 0} (alloc : ℕ → A → Option (ℕ × A)) where
  find_or_create_pt-RegionsKept :
      (vaddr : ℕ) (s : Space A) → RegionsKept s (find_or_create_pt alloc vaddr s)
  unfolding find_or_create_pt
  find_or_create_pt-RegionsKept vaddr s = elim (Bool-cases (s.pd (get_pd_index vaddr) == bad_pte)) [
    | inl e ↦
        rw e (elim (Option-cases (alloc 1 s.pages)) [ inl z ↦ rw z tt | inr (a, z) ↦ rw z refl ])
    | inr e ↦ rw e refl
  ]

  next_table-RegionsKept :
      (vaddr pt_pa : ℕ) (s : Space A) → RegionsKept s (next_table alloc vaddr pt_pa s)
  unfolding next_table
  next_table-RegionsKept vaddr pt_pa s = elim (Bool-cases (get_pt_index vaddr == 0)) [
    | inl e ↦ rw e (find_or_create_pt-RegionsKept vaddr s)
    | inr e ↦ rw e refl
  ]

  -- What comes after a page table was found keeps the regions if it keeps them.
  after-regions :
      (s : Space A) (o : Option (ℕ × Space A)) (rest : ℕ × Space A → Bool × Space A)
      → RegionsKept s o
      → ((t : ℕ × Space A) → (rest t).1.regions ≡ t.1.regions)
      → (elim o as (λ o. Bool × Space A) [ none ↦ (false, s) | some t ↦ rest t ]).1.regions
        ≡ s.regions
  after-regions s none rest k f = refl
  after-regions s (some t) rest k f = f t ∙ k

  fill-regions :
      (rounds base paddr i pt_pa : ℕ) (s : Space A)
      → (fill alloc rounds base paddr i pt_pa s).1.regions ≡ s.regions
  unfolding fill
  fill-regions zero base paddr i pt_pa s = refl
  fill-regions (suc rounds) base paddr i pt_pa s =
      after-regions s (next_table alloc ((base + i * page_size) % 2 ^ 32) pt_pa s) _
        (next_table-RegionsKept _ pt_pa s) (λ t. fill-regions rounds base paddr (i + 1) t.0 _)

  fill_pages-regions :
      (base n_pages paddr : ℕ) (s : Space A)
      → (fill_pages alloc base n_pages paddr s).1.regions ≡ s.regions
  unfolding fill_pages
  fill_pages-regions base n_pages paddr s =
      after-regions s (find_or_create_pt alloc base s) _ (find_or_create_pt-RegionsKept base s)
        (λ t. fill-regions (suc (n_pages - 1)) base paddr 0 t.0 t.1)

module _ {A : Type 0} (alloc : ℕ → A → Option (ℕ × A)) (free : (pa n_pages : ℕ) → A → A) where
  -- How new_pages can end: with a new region, without any change, or with the pages that it took for
  -- the region given back.
  abbrev pub Outcome : (grows : ℕ → Bool) (base n : ℕ) → Space A → Bool × Space A → Type 0
  Outcome grows base n s (ok, s') =
      ((ok ≡ true)
        × (a : ℕ × A) × (alloc n s.pages ≡ some a)
        × (s'.regions ≡ s.regions ++ region_of base n a.0 1 ∷ [])
        × Fits grows base n a.0 1 s.regions)
      ⊎ ((ok ≡ false) × (s' ≡ s))
      ⊎ ((ok ≡ false)
          × (a : ℕ × A) × (alloc n s.pages ≡ some a)
          × (s'.regions ≡ s.regions)
          × (left : A) × (s'.pages ≡ free a.0 n left))

  -- For a process whose regions are apart and a length that is at least a page and below 2 GB,
  -- new_pages ends in one of three ways: it succeeds with a region that fits at the end of the others;
  -- it fails and changes nothing; or it fails with the regions as they were and gives back the pages
  -- that it took for the region.
  pub sys_new_pages_real-Outcome :
      (grows : ℕ → Bool) (base len : ℕ) (s : Space A)
      → IsSpace s.regions
      → page_size ≤ len
      → len < 2 ^ 31
      → Outcome grows base
          (len / page_size)
          s
          (sys_new_pages_real alloc free grows (some base) (some len) s)
  unfolding sys_new_pages_real
  sys_new_pages_real-Outcome grows base len s h some_page small =
      elim (Bool-cases
        (not ((base &&& page_offset_mask) == 0) || not ((len &&& page_offset_mask) == 0))) [
          | inl e ↦ rw e (inr (inl (refl, refl)))
          | inr e ↦ rw e (elim (Option-cases (alloc (len / page_size) s.pages)) [
            | inl z ↦ rw z (inr (inl (refl, refl)))
            | inr (a, z) ↦
                rw z
                  (elim (add_region_iff grows base (len / page_size) a.0 1 s.regions h (omega arith)
                    (omega arith)) [
                      | inl (added, fits) ↦
                          let new = s.regions ++ region_of base (len / page_size) a.0 1 ∷ [] in
                          let start : Space A = record s { regions = new; pages = a.1 } in
                          let kept = fill_pages-regions alloc base (len / page_size) a.0 start in
                          rw added
                            (elim (Bool-cases
                              (fill_pages alloc base (len / page_size) a.0 start).0) [
                                | inl y ↦ rw y (inl (refl, a, refl, kept, fits))
                                | inr y ↦ rw y (
                                    inr (
                                      inr (
                                        refl,
                                        a,
                                        refl,
                                        ap drop_last kept ∙ drop_last-snoc s.regions _,
                                        (fill_pages alloc base (len / page_size) a.0 start).1.pages,
                                        refl,
                                      )))
                              ])
                      | inr (failed, x) ↦ rw failed (inr (inr (refl, a, refl, refl, a.1, refl)))
                    ])
          ])
        ]
