-- ===== src/Mm/Tests.antt =====
-- kern/mm.c: the theorems on a machine with 100 user pages.
use pebpeb_os.Base.{ℕ, false, none, ◌≡◌, ◌⊎◌, refl, true, List, [], ◌∷◌, Option, some, arith}
use pebpeb_os.Queue.{Links}
use pebpeb_os.Mm.{
  Mm, mm_init, bin_delete, add_to_bins, mark_used, find_bin, pn_to_pa, alloc_user_pages,
  free_user_pages, is_page_inuse, set_page_inuse, set_page_free,
}
use pebpeb_os.Mm.Blocks.{Block, free_block, used_block}
use pebpeb_os.Mm.Tiles.{IsHeap}
use pebpeb_os.Mm.Take.{take_part}
use pebpeb_os.Mm.Alloc.{Allocated, room, alloc_user_pages-IsHeap}
use pebpeb_os.Mm.Free.{free_user_pages-IsHeap}
use pebpeb_os.Mm.Coalesced.{
  coalesced, mm_init-IsHeap, free_user_pages-alloc_user_pages, free_user_pages-coalesced,
}

abbrev no_links : Links
no_links = record { next = (λ a. 0); prev = (λ a. 0) }

abbrev booted : Mm
booted = mm_init 4196 no_links (λ a. 0) (λ a. 0)

mm_init-IsHeap_example : IsHeap booted (free_block 100 ∷ [])
mm_init-IsHeap_example = mm_init-IsHeap 4196 no_links (λ a. 0) (λ a. 0) (omega arith) (omega arith)

booted-IsHeap : IsHeap booted (free_block 100 ∷ [])
booted-IsHeap = mm_init-IsHeap 4196 no_links (λ a. 0) (λ a. 0) (omega arith) (omega arith)

alloc_user_pages-IsHeap_example :
    ((alloc_user_pages 3 booted ≡ some (0, booted)) × (room 3 (free_block 100 ∷ []) ≡ false))
    ⊎ Allocated 3 (free_block 100 ∷ []) (alloc_user_pages 3 booted)
alloc_user_pages-IsHeap_example =
    alloc_user_pages-IsHeap 3 booted (free_block 100 ∷ []) booted-IsHeap (omega arith)

-- The first three pages are in use.
abbrev three_taken : Mm
three_taken = mark_used 1 3 (add_to_bins 4 97 (bin_delete (find_bin 100) (pn_to_pa 1) booted))

three_taken-IsHeap : IsHeap three_taken (used_block 3 ∷ free_block 97 ∷ [])
three_taken-IsHeap = take_part booted [] 100 [] booted-IsHeap 3 (omega arith) (omega arith)

free_user_pages-IsHeap_example :
    IsHeap (free_user_pages (pn_to_pa 1) 3 three_taken) (free_block 100 ∷ [])
free_user_pages-IsHeap_example =
    free_user_pages-IsHeap [] 3 (free_block 97 ∷ []) three_taken three_taken-IsHeap

free_user_pages-coalesced_example :
    (bs : List Block) × IsHeap (free_user_pages (pn_to_pa 1) 3 three_taken) bs
    × (coalesced bs ≡ true)
free_user_pages-coalesced_example =
    free_user_pages-coalesced [] 3 (free_block 97 ∷ []) three_taken three_taken-IsHeap refl

free_user_pages-alloc_user_pages_example :
    (pa : ℕ) × (m' : Mm) × (bs' : List Block) × (alloc_user_pages 3 booted ≡ some (pa, m'))
    × IsHeap m' bs'
    × (coalesced bs' ≡ true)
    × IsHeap (free_user_pages pa 3 m') (free_block 100 ∷ [])
free_user_pages-alloc_user_pages_example =
    free_user_pages-alloc_user_pages 3 booted (free_block 100 ∷ []) booted-IsHeap refl (omega arith)
      refl

-- The allocator runs: the first allocation is at USER_MEM_START.
abbrev address : Option (ℕ × Mm) → ℕ
address none = 0
address (some (pa, m)) = pa

first_allocation : address (alloc_user_pages 3 booted) ≡ 0x01000000
unfolding alloc_user_pages mm_init pebpeb_os.Mm.alloc_bins find_bin pebpeb_os.Mm.top_bit
    pebpeb_os.Mm.alloc_from_bin add_to_bins pebpeb_os.Mm.bin_insert set_page_free set_page_inuse
    pn_to_pa pebpeb_os.Mm.pa_to_pn pebpeb_os.Mm.search_bin pebpeb_os.Mm.claim_chunk
first_allocation = refl
